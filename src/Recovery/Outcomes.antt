-- ===== src/Recovery/Outcomes.antt =====
-- What recovery (wacp-recovery/src/lib.rs) returns: for a trail in memory, and with a snapshot.
use wacp_platform.Prelude.{
  ℕ, zero, suc, ◌+◌, ◌-◌, Bool, true, false, not, ◌&&◌, ◌||◌, String, Option, none, some, HashSet,
  contains, string_eq, nat_eq, List, [], ◌∷◌, ◌++◌, ◌==◌, if◌then◌else◌, take, length,
  length-append, append_assoc, get_elem?, Result, ok, err, is_ok, ◌≡◌, ◌≢◌, refl, arith,
  contains-add, contains-retain, Option-cases, is_some, Result-cases, Bool-cases, inl, inr, ap, ◌∙◌,
  sym, subst,
}
use wacp_platform.Types.Records.{Bytes}
use wacp_platform.Trail.Chain.{ChainHash, verify_from, verify_chain}
use wacp_platform.Trail.Memory.{
  Segment, InMemoryTrailStorage, new, last_segment, number_from, scan, metadata,
}
use wacp_platform.Trail.Memory.Receipts.{Call, run}
use wacp_platform.Trail.Memory.Contents.{entries, appended, IsCounted, new-IsCounted, run-from}
use wacp_platform.Recovery.{
  Event, SystemSnapshot, RecoveredState, RecoveryError, TrailStorage, in_memory, strip,
  collect_from, collect_entries, extract_snapshot_state, States, replay, reconstruct_state,
  note_envelope, envelopes, detect_in_flight, verify_integrity, describe, recover_empty,
  state_after, rebuild, recover_internal, recover,
}
use wacp_platform.Recovery.Replay.{AreAlike, replay-resumes}

strip-number_from : (i : ℕ) (segment : Segment) → strip (number_from i segment) ≡ segment
strip-number_from i [] = refl
strip-number_from i ((entry, hash) ∷ rest) = ap (◌∷◌ (entry, hash)) (strip-number_from (i + 1) rest)

get_elem-middle {ℓ} :
    {A : Type ℓ} (front : List A) (x : A) (rest : List A)
    → get_elem? (front ++ x ∷ rest) (length front) ≡ some x
get_elem-middle [] x rest = refl
get_elem-middle (y ∷ front) x rest = get_elem-middle front x rest

collect_from-entries :
    (front rest : List Segment) (s : InMemoryTrailStorage)
    → s.segments ≡ front ++ rest
    → collect_from (length rest) (length front) (in_memory s) ≡ ok (entries rest)
unfolding collect_from scan
collect_from-entries front [] s h = refl
collect_from-entries front (x ∷ rest) s h =
    let found : get_elem? s.segments (length front) ≡ some x =
      ap (λ z. get_elem? z (length front)) h ∙ get_elem-middle front x rest in
    let front' = front ++ x ∷ [] in
    let longer : length front' ≡ length front + 1 = length-append front (x ∷ []) in
    let shifted : s.segments ≡ front' ++ rest = h ∙ sym (append_assoc front (x ∷ []) rest) in
    let ih : collect_from (length rest) (length front + 1) (in_memory s) ≡ ok (entries rest) =
      subst (λ n. collect_from (length rest) n (in_memory s) ≡ ok (entries rest)) longer
        (collect_from-entries front' rest s shifted) in
    ground (arith, found, ih, strip-number_from 0 x)

usable-length :
    (segments : List Segment)
    → is_some (last_segment segments) ≡ true
    → suc (length segments - 1) ≡ length segments
unfolding last_segment
usable-length [] h = ground arith
usable-length (s ∷ segments) h = omega arith

collect_entries-in_memory :
    (s : InMemoryTrailStorage)
    → IsCounted s
    → collect_entries (in_memory s) ≡ ok (entries s.segments)
unfolding collect_entries metadata
collect_entries-in_memory s inv =
    let all : suc (length s.segments - 1) ≡ length s.segments =
      usable-length s.segments inv.usable in
    subst (λ n. collect_from n 0 (in_memory s) ≡ ok (entries s.segments)) (sym all)
      (collect_from-entries [] s.segments s refl)

-- Whether an event of a kind names an envelope.
abbrev pub names : String → String → Option Event → Bool
names kind id none = false
names kind id (some event) = elim event.event_type [
  | none ↦ false
  | some event_kind ↦ elim event.envelope_id [
    | none ↦ false
    | some other ↦ event_kind == kind && other == id
  ]
]

contains-note_envelope :
    (kind id : String) (event : Option Event) (seen : HashSet String)
    → contains (note_envelope kind event seen) id ≡ (names kind id event || contains seen id)
unfolding note_envelope
contains-note_envelope kind id none seen = refl
contains-note_envelope kind id (some event) seen = elim (Option-cases event.event_type) [
  | inl untyped ↦ ground (arith, untyped)
  | inr (event_kind, typed) ↦ elim (Option-cases event.envelope_id) [
    | inl unnamed ↦ ground (arith, typed, unnamed)
    | inr (other, named) ↦ ground (arith, typed, named, contains-add other id seen)
  ]
]

module _ (parse : Bytes → Option Event) where
  abbrev pub is_mentioned : String → String → Segment → Bool
  is_mentioned kind id [] = false
  is_mentioned kind id ((entry, _) ∷ rest) =
      names kind id (parse entry) || is_mentioned kind id rest

  contains-envelopes :
      (kind id : String) (trail : Segment) (seen : HashSet String)
      → contains (envelopes parse kind trail seen) id
        ≡ (is_mentioned kind id trail || contains seen id)
  unfolding envelopes
  contains-envelopes kind id [] seen = refl
  contains-envelopes kind id ((entry, hash) ∷ rest) seen = ground (
    arith,
    contains-envelopes kind id rest (note_envelope kind (parse entry) seen),
    contains-note_envelope kind id (parse entry) seen,
  )

  -- An envelope is reported as in flight if and only if some event of the trail creates it and none
  -- delivers it.
  pub in_flight_iff :
      (trail : Segment) (id : String)
      → contains (detect_in_flight parse trail) id ≡ (
          is_mentioned "envelope_created" id trail
          && not (is_mentioned "envelope_delivered" id trail))
  unfolding detect_in_flight
  in_flight_iff trail id = ground (
    arith,
    contains-retain (λ x. not (contains (envelopes parse "envelope_delivered" trail []) x))
        (envelopes parse "envelope_created" trail []) id,
    contains-envelopes "envelope_created" id trail [],
    contains-envelopes "envelope_delivered" id trail [],
  )

-- Two recoveries with one view of the states, the envelopes in flight and the clock.
pub record AgreeOn (a b : RecoveredState) : Type 0 where
  pub states : AreAlike (a.workspace_states, a.task_statuses) (b.workspace_states, b.task_statuses)
  pub in_flight : a.in_flight_envelopes ≡ b.in_flight_envelopes
  pub clock : a.clock_initial ≡ b.clock_initial

module _ (parse : Bytes → Option Event) (digest : Bytes → ChainHash)
    (display : ChainHash → String) where
  -- Recovery of a trail whose entries are known.
  outcome : Segment → ℕ → Option (ℕ × SystemSnapshot) → Result RecoveryError (Option RecoveredState)
  outcome trail total snapshot =
      if total == 0 then ok (some (recover_empty snapshot)) else elim (verify_chain digest trail) [
        | ok _ ↦ ok (rebuild parse trail total snapshot)
        | err e ↦ err (describe display e)
      ]

  outcome-of :
      (trail : TrailStorage) (held : Segment) (total : ℕ) (snapshot : Option (ℕ × SystemSnapshot))
      → collect_entries trail ≡ ok held
      → trail.trail_metadata.total_entries ≡ total
      → recover_internal parse digest display trail snapshot ≡ outcome held total snapshot
  unfolding recover_internal verify_integrity outcome
  outcome-of trail held total snapshot collected counted = elim (Bool-cases (total == 0)) [
    | inl empty ↦ ground (arith, counted, empty)
    | inr other ↦ elim (Result-cases (verify_chain digest held)) [
      | inl (u, verified) ↦ ground (arith, counted, other, collected, verified)
      | inr (e, broken) ↦ ground (arith, counted, other, collected, broken)
    ]
  ]

  empty-verifies :
      (trail : Segment) → (length trail == 0) ≡ true → verify_chain digest trail ≡ ok tt
  unfolding verify_chain verify_from
  empty-verifies [] h = refl
  empty-verifies (x ∷ trail) h = absurd (ground arith)

  recover_internal-outcome :
      (cs : List Call) (last : InMemoryTrailStorage) (snapshot : Option (ℕ × SystemSnapshot))
      → run cs new ≡ some last
      → recover_internal parse digest display (in_memory last) snapshot
        ≡ outcome (appended cs) (length (appended cs)) snapshot
  unfolding recover_internal metadata verify_integrity outcome
  recover_internal-outcome cs last snapshot ran =
      let (made, ran', inv, held) = run-from cs new new-IsCounted in
      let same : made ≡ last = ground (arith, ran') in
      let total = length (appended cs) in
      let collected : collect_entries (in_memory made) ≡ ok (appended cs) =
        collect_entries-in_memory made inv ∙ ap ok held in
      let counted : (metadata made).total_entries ≡ total = inv.count ∙ ap length held in
      subst
        (λ s.
          recover_internal parse digest display (in_memory s) snapshot
          ≡ outcome (appended cs) total snapshot)
        same (outcome-of (in_memory made) (appended cs) total snapshot collected counted)

  -- After any history of a trail in memory, recovery succeeds if and only if the hash chain of the
  -- entries verifies, and it does not panic.
  pub recover_iff :
      (cs : List Call) (last : InMemoryTrailStorage)
      → run cs new ≡ some last
      → (is_ok (recover parse digest display (in_memory last))
          ≡ is_ok (verify_chain digest (appended cs)))
        × (recover parse digest display (in_memory last) ≢ ok none)
  unfolding recover outcome rebuild
  recover_iff cs last ran =
      let known = recover_internal-outcome cs last none ran in
      elim (Result-cases (verify_chain digest (appended cs))) [
        | inl (u, verified) ↦ (ground (arith, known, verified), ground (arith, known, verified))
        | inr (e, broken) ↦
            let full : (length (appended cs) == 0) ≡ false =
              ground (arith, broken, empty-verifies (appended cs)) in
            (ground (arith, known, broken, full), ground (arith, known, broken, full))
      ]

  alike_trans : (a b c : States) → AreAlike a c → AreAlike b c → AreAlike a b
  alike_trans a b c h k = record {
    workspaces = λ id. h.workspaces id ∙ sym (k.workspaces id);
    tasks = λ id. h.tasks id ∙ sym (k.tasks id);
  }

  nothing_replayed : AreAlike ([], []) (reconstruct_state parse [])
  unfolding replay
  nothing_replayed = record { workspaces = λ id. refl; tasks = λ id. refl }

  replayed-agree :
      (trail : Segment) (total n : ℕ) (snap : SystemSnapshot)
      → AreAlike (extract_snapshot_state snap) (reconstruct_state parse (take n trail))
      → AgreeOn
          (state_after parse trail total (some (n, snap)))
          (state_after parse trail total none)
  replayed-agree trail total n snap faithful =
      let empty : States = ([], []) in
      record {
        states =
            alike_trans _ _ (reconstruct_state parse trail)
              (replay-resumes parse n trail (extract_snapshot_state snap) faithful)
              (replay-resumes parse 0 trail empty nothing_replayed);
        in_flight = refl;
        clock = refl;
      }

  unreplayed-agree :
      (trail : Segment) (n : ℕ) (snap : SystemSnapshot)
      → (length trail == 0) ≡ true
      → AreAlike (extract_snapshot_state snap) (reconstruct_state parse (take n trail))
      → AgreeOn (recover_empty (some (n, snap))) (recover_empty none)
  unfolding replay
  unreplayed-agree [] zero snap h faithful = record {
    states = faithful;
    in_flight = refl;
    clock = refl;
  }
  unreplayed-agree [] (suc n) snap h faithful = record {
    states = faithful;
    in_flight = refl;
    clock = refl;
  }
  unreplayed-agree (x ∷ trail) n snap h faithful = absurd (ground arith)

  -- Where a snapshot holds what the first `n` entries of the trail say, recovery from it and recovery of
  -- the whole trail, if both succeed, give every workspace the same state and every task the same
  -- status, the same envelopes in flight and the same clock.
  pub recover-AgreeOn :
      (cs : List Call) (last : InMemoryTrailStorage) (n : ℕ) (snap : SystemSnapshot)
      (a b : RecoveredState)
      → run cs new ≡ some last
      → AreAlike (extract_snapshot_state snap) (reconstruct_state parse (take n (appended cs)))
      → recover_internal parse digest display (in_memory last) (some (n, snap)) ≡ ok (some a)
      → recover parse digest display (in_memory last) ≡ ok (some b)
      → AgreeOn a b
  unfolding recover outcome rebuild
  recover-AgreeOn cs last n snap a b ran faithful resumed whole =
      let trail = appended cs in
      let total = length trail in
      let known = recover_internal-outcome cs last (some (n, snap)) ran in
      let known' = recover_internal-outcome cs last none ran in
      elim (Bool-cases (total == 0)) [
        | inl empty ↦
            let first : recover_empty (some (n, snap)) ≡ a =
              ground (arith, known, resumed, empty) in
            let second : recover_empty none ≡ b = ground (arith, known', whole, empty) in
            subst (λ y. AgreeOn a y) second
              (subst (λ x. AgreeOn x (recover_empty none)) first
                (unreplayed-agree trail n snap empty faithful))
        | inr full ↦ elim (Result-cases (verify_chain digest trail)) [
          | inr (e, broken) ↦ absurd (ground (arith, known', whole, full, broken))
          | inl (u, verified) ↦
              let first : state_after parse trail total (some (n, snap)) ≡ a =
                ground (arith, known, resumed, full, verified) in
              let second : state_after parse trail total none ≡ b =
                ground (arith, known', whole, full, verified) in
              subst (λ y. AgreeOn a y) second
                (subst (λ x. AgreeOn x (state_after parse trail total none)) first
                  (replayed-agree trail total n snap faithful))
        ]
      ]

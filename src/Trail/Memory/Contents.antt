-- ===== src/Trail/Memory/Contents.antt =====
-- What the trail in memory (memory.rs) holds after a history of calls, and the chain of its hashes.
use wacp_platform.Prelude.{
  ℕ, ◌+◌, true, some, List, [], ◌∷◌, ◌++◌, length, length-append, append_assoc, ◌≡◌, refl, arith,
  Option-cases, inl, inr, ap, ◌∙◌, sym, is_some,
}
use wacp_platform.Types.Records.{Bytes}
use wacp_platform.Trail.Chain.{ChainHash, bytes_eq, genesis}
use wacp_platform.Trail.Memory.{
  Segment, InMemoryTrailStorage, new, last_segment, push_last, append, rotate, metadata,
}
use wacp_platform.Trail.Memory.Receipts.{Call, appends, rotates, step, run}

-- All entries, in the order of the segments.
abbrev pub entries : List Segment → Segment
entries [] = []
entries (s ∷ segments) = s ++ entries segments

-- The entries that a history appends.
abbrev pub appended : List Call → Segment
appended [] = []
appended (appends entry hash ∷ cs) = (entry, hash) ∷ appended cs
appended (rotates ∷ cs) = appended cs

abbrev pub bytes_of : Segment → ℕ
bytes_of [] = 0
bytes_of ((entry, _) ∷ rest) = length entry + bytes_of rest

abbrev pub head_of : ChainHash → Segment → ChainHash
head_of hash [] = hash
head_of hash ((_, next) ∷ rest) = head_of next rest

append-nil {ℓ} : {A : Type ℓ} (xs : List A) → xs ++ [] ≡ xs
append-nil [] = refl
append-nil (x ∷ xs) = ap (◌∷◌ x) (append-nil xs)

some_last : (s : Segment) (segments : List Segment) → is_some (last_segment (s ∷ segments)) ≡ true
unfolding last_segment
some_last s [] = refl
some_last s (t ∷ segments) = ground (arith, some_last t segments)

entries-push_last :
    (x : Bytes × ChainHash) (segments : List Segment)
    → is_some (last_segment segments) ≡ true
    → entries (push_last x segments) ≡ entries segments ++ x ∷ []
unfolding push_last last_segment
entries-push_last x [] h = ground arith
entries-push_last x (s ∷ []) h =
    append-nil (s ++ x ∷ []) ∙ ap (λ z. z ++ x ∷ []) (sym (append-nil s))
entries-push_last x (s ∷ t ∷ segments) h =
    ap (λ z. s ++ z) (entries-push_last x (t ∷ segments) (some_last t segments))
    ∙ sym (append_assoc s (entries (t ∷ segments)) (x ∷ []))

entries-rotate : (segments : List Segment) → entries (segments ++ [] ∷ []) ≡ entries segments
entries-rotate [] = refl
entries-rotate (s ∷ segments) = ap (λ z. s ++ z) (entries-rotate segments)

-- What the counters and the head say of the entries that the trail holds.
pub record IsCounted (s : InMemoryTrailStorage) : Type 0 where
  pub usable : is_some (last_segment s.segments) ≡ true
  pub count : (metadata s).total_entries ≡ length (entries s.segments)
  pub size : (metadata s).total_bytes ≡ bytes_of (entries s.segments)
  pub head : (metadata s).chain_head ≡ head_of genesis (entries s.segments)

pub new-IsCounted : IsCounted new
unfolding metadata last_segment
new-IsCounted = record { usable = refl; count = refl; size = refl; head = refl }

bytes_of-append : (xs ys : Segment) → bytes_of (xs ++ ys) ≡ bytes_of xs + bytes_of ys
bytes_of-append [] ys = omega arith
bytes_of-append ((x, h) ∷ xs) ys = omega (arith, bytes_of-append xs ys)

head_of-append :
    (previous : ChainHash) (xs : Segment) (entry : Bytes) (hash : ChainHash)
    → head_of previous (xs ++ (entry, hash) ∷ []) ≡ hash
head_of-append previous [] entry hash = refl
head_of-append previous ((x, h) ∷ xs) entry hash = head_of-append h xs entry hash

push_last_usable :
    (x : Bytes × ChainHash) (segments : List Segment)
    → is_some (last_segment segments) ≡ true
    → is_some (last_segment (push_last x segments)) ≡ true
unfolding push_last last_segment
push_last_usable x [] h = h
push_last_usable x (s ∷ []) h = refl
push_last_usable x (s ∷ t ∷ []) h = refl
push_last_usable x (s ∷ t ∷ u ∷ segments) h = some_last s (t ∷ push_last x (u ∷ segments))

rotate-usable : (segments : List Segment) → is_some (last_segment (segments ++ [] ∷ [])) ≡ true
rotate-usable [] = some_last [] []
rotate-usable (s ∷ segments) = some_last s (segments ++ [] ∷ [])

-- Either call on a counted trail succeeds, leaves it counted, and adds what it appends.
pub Follows : Call → InMemoryTrailStorage → Type 0
Follows c s =
    (next : InMemoryTrailStorage) × (step c s ≡ some next)
    × IsCounted next
    × (entries next.segments ≡ entries s.segments ++ appended (c ∷ []))

append-Follows :
    (entry : Bytes) (hash : ChainHash) (s : InMemoryTrailStorage)
    → IsCounted s
    → Follows (appends entry hash) s
unfolding Follows step append metadata
append-Follows entry hash s inv = elim (Option-cases (last_segment s.segments)) [
  | inl out ↦ absurd (ground (arith, out, inv.usable))
  | inr ((i, segment), found) ↦
      let x : Bytes × ChainHash = (entry, hash) in
      let next : InMemoryTrailStorage = record {
        segments = push_last x s.segments;
        sequence_counter = s.sequence_counter + 1;
        chain_head = hash;
        total_bytes = s.total_bytes + length entry;
      } in
      let added = entries-push_last x s.segments inv.usable in
      (
        next,
        ground (arith, found),
        record {
          usable = push_last_usable x s.segments inv.usable;
          count =
              ground
                (arith, inv.count, ap length added, length-append (entries s.segments) (x ∷ []));
          size =
              ground
                (arith, inv.size, ap bytes_of added, bytes_of-append (entries s.segments) (x ∷ []));
          head =
              sym (
                ap (head_of genesis) added
                ∙ head_of-append genesis (entries s.segments) entry hash);
        },
        added,
      )
]

rotate-Follows : (s : InMemoryTrailStorage) → IsCounted s → Follows rotates s
unfolding Follows step rotate metadata
rotate-Follows s inv =
    let same = entries-rotate s.segments in
    (
      record s { segments = s.segments ++ [] ∷ [] },
      refl,
      record {
        usable = rotate-usable s.segments;
        count = inv.count ∙ ap length (sym same);
        size = inv.size ∙ ap bytes_of (sym same);
        head = inv.head ∙ ap (head_of genesis) (sym same);
      },
      same ∙ sym (append-nil (entries s.segments)),
    )

step-Follows : (c : Call) (s : InMemoryTrailStorage) → IsCounted s → Follows c s
step-Follows (appends entry hash) s inv = append-Follows entry hash s inv
step-Follows rotates s inv = rotate-Follows s inv

appended-cons : (c : Call) (cs : List Call) → appended (c ∷ cs) ≡ appended (c ∷ []) ++ appended cs
appended-cons (appends entry hash) cs = refl
appended-cons rotates cs = refl

pub run-from :
    (cs : List Call) (s : InMemoryTrailStorage)
    → IsCounted s
    → (last : InMemoryTrailStorage) × (run cs s ≡ some last)
      × IsCounted last
      × (entries last.segments ≡ entries s.segments ++ appended cs)
unfolding run Follows
run-from [] s inv = (s, refl, inv, sym (append-nil (entries s.segments)))
run-from (c ∷ cs) s inv =
    let (next, stepped, next_inv, added) = step-Follows c s inv in
    let (last, ran, last_inv, rest) = run-from cs next next_inv in
    (
      last,
      ground (arith, stepped, ran),
      last_inv,
      rest
          ∙ (ap (λ z. z ++ appended cs) added
              ∙ (append_assoc (entries s.segments) (appended (c ∷ [])) (appended cs)
                  ∙ ap (λ z. entries s.segments ++ z) (sym (appended-cons c cs)))),
    )

-- Any calls on a new trail succeed. The trail then holds the entries that were appended, in their order
-- and whatever the segments, and the metadata give their number, their bytes and the last hash.
pub run-holds :
    (cs : List Call)
    → (last : InMemoryTrailStorage) × (run cs new ≡ some last)
      × (entries last.segments ≡ appended cs)
      × ((metadata last).total_entries ≡ length (appended cs))
      × ((metadata last).total_bytes ≡ bytes_of (appended cs))
      × ((metadata last).chain_head ≡ head_of genesis (appended cs))
run-holds cs =
    let (last, ran, inv, held) = run-from cs new new-IsCounted in
    (
      last,
      ran,
      held,
      inv.count ∙ ap length held,
      inv.size ∙ ap bytes_of held,
      inv.head ∙ ap (head_of genesis) held,
    )

-- ===== src/Trail/Memory/Receipts.antt =====
-- What the receipts of the trail in memory (memory.rs) are worth, after any later calls.
use wacp_platform.Prelude.{
  ℕ, zero, suc, Option, none, some, List, [], ◌∷◌, ◌++◌, length, get_elem?, ok, ◌≡◌, refl, arith,
  Option-cases, inl, inr, ap, ◌∙◌, subst,
}
use mathlib.Core.Option
use wacp_platform.Types.Records.{Bytes}
use wacp_platform.Trail.Chain.{ChainHash}
use wacp_platform.Trail.Memory.{
  Segment, InMemoryTrailStorage, WriteReceipt, last_segment, push_last, append, read, rotate,
}

pub data Call : Type 0 where
  appends : Bytes → ChainHash → Call
  rotates : Call

unfoldable pub step : Call → InMemoryTrailStorage → Option InMemoryTrailStorage
unfolding append rotate
step (appends entry hash) s = Option.map (λ after. after.0) (append entry hash s)
step rotates s = some (rotate s).0

unfoldable pub run : List Call → InMemoryTrailStorage → Option InMemoryTrailStorage
unfolding step
run [] s = some s
run (c ∷ cs) s = elim (step c s) [ none ↦ none | some next ↦ run cs next ]

-- The entry with its hash at a place.
abbrev pub entry_at : ℕ → ℕ → List Segment → Option (Bytes × ChainHash)
entry_at i j segments = elim (get_elem? segments i) [ none ↦ none | some seg ↦ get_elem? seg j ]

read-entry_at :
    (i j : ℕ) (s : InMemoryTrailStorage) (x : Bytes × ChainHash)
    → entry_at i j s.segments ≡ some x
    → read i j s ≡ ok x.0
unfolding read
read-entry_at i j s x h = ground arith

get_elem-append {ℓ} :
    {A : Type ℓ} (xs ys : List A) (i : ℕ) (x : A)
    → get_elem? xs i ≡ some x
    → get_elem? (xs ++ ys) i ≡ some x
get_elem-append [] ys i x h = ground arith
get_elem-append (y ∷ xs) ys zero x h = h
get_elem-append (y ∷ xs) ys (suc i) x h = get_elem-append xs ys i x h

get_elem-end {ℓ} :
    {A : Type ℓ} (xs : List A) (x : A) → get_elem? (xs ++ x ∷ []) (length xs) ≡ some x
get_elem-end [] x = refl
get_elem-end (y ∷ xs) x = get_elem-end xs x

push_last-keeps :
    (y x : Bytes × ChainHash) (segments : List Segment) (i j : ℕ)
    → entry_at i j segments ≡ some x
    → entry_at i j (push_last y segments) ≡ some x
unfolding push_last
push_last-keeps y x [] i j h = ground arith
push_last-keeps y x (s ∷ []) zero j h = get_elem-append s (y ∷ []) j x h
push_last-keeps y x (s ∷ []) (suc i) j h = ground arith
push_last-keeps y x (s ∷ t ∷ segments) zero j h = h
push_last-keeps y x (s ∷ t ∷ segments) (suc i) j h = push_last-keeps y x (t ∷ segments) i j h

append-segments-keeps :
    (segments more : List Segment) (i j : ℕ) (x : Bytes × ChainHash)
    → entry_at i j segments ≡ some x
    → entry_at i j (segments ++ more) ≡ some x
append-segments-keeps [] more i j x h = ground arith
append-segments-keeps (s ∷ segments) more zero j x h = h
append-segments-keeps (s ∷ segments) more (suc i) j x h =
    append-segments-keeps segments more i j x h

-- The receipt of an entry names its place.
push_last-entry_at :
    (y : Bytes × ChainHash) (segments : List Segment) (i : ℕ) (segment : Segment)
    → last_segment segments ≡ some (i, segment)
    → entry_at i (length segment) (push_last y segments) ≡ some y
unfolding push_last last_segment
push_last-entry_at y [] i segment h = ground arith
push_last-entry_at y (s ∷ []) i segment h =
    let first : 0 ≡ i = ground arith in
    let same : s ≡ segment = ground arith in
    subst (λ k. entry_at k (length segment) ((s ++ y ∷ []) ∷ []) ≡ some y) first
      (subst (λ z. get_elem? (s ++ y ∷ []) (length z) ≡ some y) same (get_elem-end s y))
push_last-entry_at y (s ∷ t ∷ segments) i segment h =
    elim (Option-cases (last_segment (t ∷ segments))) [
      | inl out ↦ absurd (ground (arith, out))
      | inr ((k, last), found) ↦
          let next : suc k ≡ i = ground (arith, found) in
          let same : last ≡ segment = ground (arith, found) in
          subst (λ n. entry_at n (length segment) (s ∷ push_last y (t ∷ segments)) ≡ some y) next
            (subst (λ z. entry_at k (length z) (push_last y (t ∷ segments)) ≡ some y) same
              (push_last-entry_at y (t ∷ segments) k last found))
    ]

append-entry_at :
    (entry : Bytes) (hash : ChainHash) (s next : InMemoryTrailStorage) (receipt : WriteReceipt)
    → append entry hash s ≡ some (next, receipt)
    → entry_at receipt.segment receipt.offset next.segments ≡ some (entry, hash)
unfolding append
append-entry_at entry hash s next receipt h = elim (Option-cases (last_segment s.segments)) [
  | inl out ↦ absurd (ground (arith, out))
  | inr ((i, segment), found) ↦
      let place : receipt.segment ≡ i = ground (arith, found) in
      let offset : receipt.offset ≡ length segment = ground (arith, found) in
      let made : next.segments ≡ push_last (entry, hash) s.segments = ground (arith, found) in
      ap (λ (n : ℕ). entry_at n receipt.offset next.segments) place
      ∙ ap (λ (n : ℕ). entry_at i n next.segments) offset
      ∙ ap (entry_at i (length segment)) made
      ∙ push_last-entry_at (entry, hash) s.segments i segment found
]

step-keeps :
    (c : Call) (s next : InMemoryTrailStorage) (i j : ℕ) (x : Bytes × ChainHash)
    → entry_at i j s.segments ≡ some x
    → step c s ≡ some next
    → entry_at i j next.segments ≡ some x
unfolding step append rotate
step-keeps (appends entry hash) s next i j x h done =
    elim (Option-cases (last_segment s.segments)) [
      | inl out ↦ absurd (ground (arith, out))
      | inr ((k, segment), found) ↦
          let made : push_last (entry, hash) s.segments ≡ next.segments = ground (arith, found) in
          subst (λ z. entry_at i j z ≡ some x) made
            (push_last-keeps (entry, hash) x s.segments i j h)
    ]
step-keeps rotates s next i j x h done =
    let made : s.segments ++ [] ∷ [] ≡ next.segments = ground arith in
    subst (λ z. entry_at i j z ≡ some x) made (append-segments-keeps s.segments ([] ∷ []) i j x h)

run-keeps :
    (cs : List Call) (s last : InMemoryTrailStorage) (i j : ℕ) (x : Bytes × ChainHash)
    → entry_at i j s.segments ≡ some x
    → run cs s ≡ some last
    → entry_at i j last.segments ≡ some x
unfolding run
run-keeps [] s last i j x h done =
    let same : s ≡ last = ground arith in subst (λ z. entry_at i j z.segments ≡ some x) same h
run-keeps (c ∷ cs) s last i j x h done = elim (Option-cases (step c s)) [
  | inl out ↦ absurd (ground (arith, out))
  | inr (next, stepped) ↦
      run-keeps cs next last i j x (step-keeps c s next i j x h stepped) (ground (arith, stepped))
]

-- An entry that was appended is read back at the segment and the offset of its receipt, after any
-- further appends and rotations.
pub read-append :
    (entry : Bytes) (hash : ChainHash) (s next last : InMemoryTrailStorage) (receipt : WriteReceipt)
    (cs : List Call)
    → append entry hash s ≡ some (next, receipt)
    → run cs next ≡ some last
    → read receipt.segment receipt.offset last ≡ ok entry
read-append entry hash s next last receipt cs h done =
    read-entry_at receipt.segment receipt.offset last (entry, hash)
      (run-keeps cs next last receipt.segment receipt.offset (entry, hash)
        (append-entry_at entry hash s next receipt h) done)

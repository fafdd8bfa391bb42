-- ===== src/Prelude/Collections.antt =====
-- `HashMap` and `HashSet` of the Rust standard library as association lists and lists. A lookup sees
-- one binding for a key; the order of iteration, which Rust leaves open, is that of insertion.
use mathlib.Core.Path.{◌≡◌, refl, ap}
use mathlib.Core.Bool.{Bool, true, false, not, ◌&&◌, ◌||◌}
use mathlib.Core.List.{List, [], ◌∷◌, ◌++◌}
use mathlib.Core.Option.{Option, none, some, get_or}
use mathlib.Core.Option
use native.Mathlib.Omega.{arith}
use mathlib.Core.Logic.{inl, inr}
use wacp_platform.Prelude.Tests.{if◌then◌else◌, Eq, ◌==◌, Bool-cases}
use wacp_platform.Prelude.Lists.{
  contains, contains-append, retain, contains-retain, all, all-append, all-contains, any,
}

abbrev pub is_some {ℓ} : {A : Type ℓ} → Option A → Bool
is_some none = false
is_some (some _) = true

abbrev pub HashMap {ℓ κ} : Type ℓ → Type κ → Type (ℓ ⊔ κ)
HashMap K V = List (K × V)

abbrev pub HashSet {ℓ} : Type ℓ → Type ℓ
HashSet K = List K

module _ {ℓ κ} {K : Type ℓ} {V : Type κ} where
  abbrev pub values : HashMap K V → List V
  values [] = []
  values ((k, v) ∷ m) = v ∷ values m

module _ {ℓ κ} {K : Type ℓ} {V : Type κ} ⦃e : Eq K⦄ where
  unfoldable pub get : K → HashMap K V → Option V
  get k [] = none
  get k ((j, v) ∷ m) = if j == k then some v else get k m

  unfoldable pub insert : K → V → HashMap K V → HashMap K V
  insert k v [] = (k, v) ∷ []
  insert k v ((j, w) ∷ m) = if j == k then (j, v) ∷ m else (j, w) ∷ insert k v m

  unfoldable pub remove : K → HashMap K V → HashMap K V
  remove k [] = []
  remove k ((j, w) ∷ m) = if j == k then remove k m else (j, w) ∷ remove k m

  -- A write through `get_mut`: nothing happens where the key is missing.
  unfoldable pub modify : K → (V → V) → HashMap K V → HashMap K V
  modify k f [] = []
  modify k f ((j, w) ∷ m) = if j == k then (j, f w) ∷ m else (j, w) ∷ modify k f m

  abbrev pub contains_key : K → HashMap K V → Bool
  contains_key k m = is_some (get k m)

  pub get-insert :
      (k j : K) (v : V) (m : HashMap K V)
      → get j (insert k v m) ≡ (if k == j then some v else get j m)
  unfolding get insert
  get-insert k j v [] = refl
  get-insert k j v ((i, w) ∷ m) =
      ground (arith, e.beq_iff k j, e.beq_iff i k, e.beq_iff i j, get-insert k j v m)

  pub get-remove :
      (k j : K) (m : HashMap K V) → get j (remove k m) ≡ (if k == j then none else get j m)
  unfolding get remove
  get-remove k j [] = ground arith
  get-remove k j ((i, w) ∷ m) =
      ground (arith, e.beq_iff k j, e.beq_iff i k, e.beq_iff i j, get-remove k j m)

  pub get-modify :
      (k j : K) (f : V → V) (m : HashMap K V)
      → get j (modify k f m) ≡ (if k == j then Option.map f (get j m) else get j m)
  unfolding get modify
  get-modify k j f [] = ground arith
  get-modify k j f ((i, w) ∷ m) =
      ground (arith, e.beq_iff k j, e.beq_iff i k, e.beq_iff i j, get-modify k j f m)

module _ {ℓ κ} {K : Type ℓ} {V : Type κ} ⦃e : Eq K⦄ where
  -- `get(k).cloned().unwrap_or_default()` of a map into vectors.
  abbrev pub get_list : K → HashMap K (List V) → List V
  get_list k m = get_or (get k m) []

  -- `entry(k).or_default().push(v)`.
  unfoldable pub push_entry : K → V → HashMap K (List V) → HashMap K (List V)
  push_entry k v m = insert k (get_list k m ++ v ∷ []) m

  pub get-push_entry :
      (k j : K) (v : V) (m : HashMap K (List V))
      → get j (push_entry k v m) ≡ (if k == j then some (get_list k m ++ v ∷ []) else get j m)
  unfolding push_entry
  get-push_entry k j v m = get-insert k j (get_list k m ++ v ∷ []) m

-- What holds of every entry of a map.
module _ {ℓ κ} {K : Type ℓ} {V : Type κ} ⦃e : Eq K⦄ where
  pub all-insert :
      (p : K × V → Bool) (k : K) (v : V) (m : HashMap K V)
      → p (k, v) ≡ true
      → all p m ≡ true
      → all p (insert k v m) ≡ true
  unfolding insert
  all-insert p k v [] h all_p = ground arith
  all-insert p k v ((j, w) ∷ m) h all_p = elim (Bool-cases (j == k)) [
    | inl same ↦
        let same' : j ≡ k = (e.beq_iff j k).0 same in ground (arith, ap (λ (i : K). p (i, v)) same')
    | inr other ↦ ground (arith, all-insert p k v m)
  ]

  pub all-get :
      (p : K × V → Bool) (k : K) (v : V) (m : HashMap K V)
      → all p m ≡ true
      → get k m ≡ some v
      → p (k, v) ≡ true
  unfolding get
  all-get p k v [] all_p h = ground arith
  all-get p k v ((j, w) ∷ m) all_p h = elim (Bool-cases (j == k)) [
    | inl same ↦
        let same' : j ≡ k = (e.beq_iff j k).0 same in
        let found : some w ≡ some v = ground arith in
        let found' : w ≡ v = ground (arith, found) in
        ground (arith, ap (λ (i : K). p (i, w)) same', ap (λ (u : V). p (k, u)) found')
    | inr other ↦ all-get p k v m (ground arith) (ground arith)
  ]

  pub any-get :
      (p : V → Bool) (k : K) (v : V) (m : HashMap K V)
      → get k m ≡ some v
      → p v ≡ true
      → any p (values m) ≡ true
  unfolding get
  any-get p k v [] h holds = ground arith
  any-get p k v ((j, w) ∷ m) h holds = elim (Bool-cases (j == k)) [
    | inl same ↦
        let found : some w ≡ some v = ground arith in
        let found' : w ≡ v = ground (arith, found) in ground (arith, ap p found')
    | inr other ↦ ground (arith, any-get p k v m)
  ]

module _ {ℓ} {K : Type ℓ} ⦃e : Eq K⦄ where
  unfoldable pub add : K → HashSet K → HashSet K
  add k s = if contains s k then s else s ++ k ∷ []

  pub contains-add : (k j : K) (s : HashSet K) → contains (add k s) j ≡ (k == j || contains s j)
  unfolding add
  contains-add k j s = elim (Bool-cases (k == j)) [
    | inl same ↦ ground (arith, e.beq_iff k j, contains-append s (k ∷ []) j)
    | inr other ↦ ground (arith, contains-append s (k ∷ []) j)
  ]

  pub all-add : (p : K → Bool) (k : K) (s : HashSet K) → all p (add k s) ≡ (p k && all p s)
  unfolding add
  all-add p k s = elim (Bool-cases (contains s k)) [
    | inl old ↦ ground (arith, all-contains p s k)
    | inr new ↦ ground (arith, all-append p s (k ∷ []))
  ]

-- Membership in the vectors of a map.
module _ {ℓ κ} {K : Type ℓ} {V : Type κ} ⦃e : Eq K⦄ ⦃d : Eq V⦄ where
  pub contains-push_entry :
      (k j : K) (v x : V) (m : HashMap K (List V))
      → contains (get_list j (push_entry k v m)) x
        ≡ (contains (get_list j m) x || (k == j && v == x))
  contains-push_entry k j v x m =
      ground
        (arith, get-push_entry k j v m, e.beq_iff k j, contains-append (get_list k m) (v ∷ []) x)

  pub contains-modify-retain :
      (k j : K) (p : V → Bool) (x : V) (m : HashMap K (List V))
      → contains (get_list j (modify k (retain p) m)) x
        ≡ (contains (get_list j m) x && (not (k == j) || p x))
  contains-modify-retain k j p x m =
      ground (arith, get-modify k j (retain p) m, contains-retain p (get_list j m) x)

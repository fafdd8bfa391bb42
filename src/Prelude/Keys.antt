-- ===== src/Prelude/Keys.antt =====
-- Maps that bind no key twice, and what holds of all their entries.
use mathlib.Core.Path.{◌≡◌, refl}
use mathlib.Core.Bool.{Bool, true, false, not, ◌&&◌}
use mathlib.Core.List.{[], ◌∷◌, map}
use mathlib.Core.Option.{none, some}
use native.Mathlib.Omega.{arith}
use wacp_platform.Prelude.Tests.{Eq, ◌==◌}
use wacp_platform.Prelude.Lists.{all, retain, contains}
use wacp_platform.Prelude.Collections.{
  HashMap, get, insert, remove, modify, contains_key, get-insert, get-remove, get-modify, values,
}

module _ {ℓ κ} {K : Type ℓ} {V : Type κ} ⦃e : Eq K⦄ where
  abbrev pub has_distinct_keys : HashMap K V → Bool
  has_distinct_keys [] = true
  has_distinct_keys ((k, _) ∷ m) = not (contains_key k m) && has_distinct_keys m

  pub insert-has_distinct_keys :
      (k : K) (v : V) (m : HashMap K V)
      → has_distinct_keys m ≡ true
      → has_distinct_keys (insert k v m) ≡ true
  unfolding insert get
  insert-has_distinct_keys k v [] h = refl
  insert-has_distinct_keys k v ((j, w) ∷ m) h =
      ground
        (arith, insert-has_distinct_keys k v m, get-insert k j v m, e.beq_iff k j, e.beq_iff j k)

  pub remove-has_distinct_keys :
      (k : K) (m : HashMap K V) → has_distinct_keys m ≡ true → has_distinct_keys (remove k m) ≡ true
  unfolding remove
  remove-has_distinct_keys k [] h = refl
  remove-has_distinct_keys k ((j, w) ∷ m) h =
      ground (arith, remove-has_distinct_keys k m, get-remove k j m)

  pub modify-has_distinct_keys :
      (k : K) (f : V → V) (m : HashMap K V)
      → has_distinct_keys m ≡ true
      → has_distinct_keys (modify k f m) ≡ true
  unfolding modify
  modify-has_distinct_keys k f [] h = refl
  modify-has_distinct_keys k f ((j, w) ∷ m) h =
      ground
        (arith, modify-has_distinct_keys k f m, get-modify k j f m, e.beq_iff k j, e.beq_iff j k)

  pub all-remove :
      (p : K × V → Bool) (k : K) (m : HashMap K V) → all p m ≡ true → all p (remove k m) ≡ true
  unfolding remove
  all-remove p k [] h = refl
  all-remove p k ((j, w) ∷ m) h = ground (arith, all-remove p k m)

  pub all-modify :
      (p : K × V → Bool) (k : K) (f : V → V) (m : HashMap K V)
      → ((j : K) (v : V) → p (j, v) ≡ true → p (j, f v) ≡ true)
      → all p m ≡ true
      → all p (modify k f m) ≡ true
  unfolding modify
  all-modify p k f [] keeps h = refl
  all-modify p k f ((j, w) ∷ m) keeps h = ground (arith, keeps j w, all-modify p k f m keeps)

  -- A list of the keys' names of the values that pass a test, where each value knows its key.
  pub contains-names :
      (name : V → K) (p : V → Bool) (k : K) (m : HashMap K V)
      → has_distinct_keys m ≡ true
      → all (λ entry. name (entry.1) == entry.0) m ≡ true
      → contains (map name (retain p (values m))) k
        ≡ (elim (get k m) [ none ↦ false | some v ↦ p v ])
  unfolding get
  contains-names name p k [] h keyed = refl
  contains-names name p k ((j, w) ∷ m) h keyed =
      ground (
        arith,
        contains-names name p k m,
        e.beq_iff (name w) j,
        e.beq_iff j k,
        e.beq_iff (name w) k,
      )

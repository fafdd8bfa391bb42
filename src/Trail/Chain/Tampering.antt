-- ===== src/Trail/Chain/Tampering.antt =====
-- Verified, broken and sealed hash chains (chain.rs).
use wacp_platform.Prelude.{
  ℕ, suc, ◌+◌, Bool, List, [], ◌∷◌, ◌++◌, ◌==◌, ◌≡◌, ◌≢◌, ◌⊎◌, refl, sym, ap, ◌∙◌, inl, inr, arith,
  length, take, drop, take-append, drop-append, if◌then◌else◌, Result, ok, err, Bool-cases, Option,
  some, none, get_elem?,
}
use wacp_platform.Types.Records.{Bytes}
use wacp_platform.Trail.Chain.{
  ChainHash, ChainVerificationError, bytes_eq, genesis, compute_chain_hash, verify_chain_link,
  verify_from, verify_chain,
}

abbrev pub last_hash : ChainHash → List (Bytes × ChainHash) → ChainHash
last_hash previous [] = previous
last_hash previous ((_, h) ∷ entries) = last_hash h entries

-- What the digest is taken of, for each entry of a chain.
abbrev pub inputs : ChainHash → List (Bytes × ChainHash) → List Bytes
inputs previous [] = []
inputs previous ((x, h) ∷ entries) = (previous ++ x) ∷ inputs h entries

-- At some index the digest is taken of different inputs, and gives one hash.
pub record Clash (digest : Bytes → ChainHash) (xs ys : List Bytes) : Type 0 where
  pub index : ℕ
  pub left_input : Bytes
  pub right_input : Bytes
  pub left_at : get_elem? xs index ≡ some left_input
  pub right_at : get_elem? ys index ≡ some right_input
  pub differ : left_input ≢ right_input
  pub agree : digest left_input ≡ digest right_input

Clash-later :
    (digest : Bytes → ChainHash) (x y : Bytes) (xs ys : List Bytes)
    → Clash digest xs ys
    → Clash digest (x ∷ xs) (y ∷ ys)
Clash-later digest x y xs ys c = record {
  index = suc c.index;
  left_input = c.left_input;
  right_input = c.right_input;
  left_at = c.left_at;
  right_at = c.right_at;
  differ = c.differ;
  agree = c.agree;
}

-- Entries with the hashes that a writer computes for them.
unfoldable pub seal : (Bytes → ChainHash) → ChainHash → List Bytes → List (Bytes × ChainHash)
seal digest previous [] = []
seal digest previous (e ∷ es) =
    let h = compute_chain_hash digest previous e in (e, h) ∷ seal digest h es

module _ (digest : Bytes → ChainHash) (sized : (x : Bytes) → length (digest x) ≡ 32) where
  verify_from-head :
      (i : ℕ) (p : ChainHash) (x : Bytes) (h : ChainHash) (xs : List (Bytes × ChainHash))
      → verify_from digest i p ((x, h) ∷ xs) ≡ ok tt
      → (digest (p ++ x) ≡ h) × (verify_from digest (i + 1) h xs ≡ ok tt)
  unfolding verify_from compute_chain_hash
  verify_from-head i p x h xs v = ground (arith, bytes_eq.beq_iff (digest (p ++ x)) h)

  link_or_Clash :
      (p q : ChainHash) (x y : Bytes) (xs ys : List Bytes)
      → length p ≡ 32
      → length q ≡ 32
      → digest (p ++ x) ≡ digest (q ++ y)
      → ((p ≡ q) × (x ≡ y)) ⊎ Clash digest ((p ++ x) ∷ xs) ((q ++ y) ∷ ys)
  link_or_Clash p q x y xs ys hp hq same = elim (Bool-cases ((p ++ x) == (q ++ y))) [
    | inl e ↦
        let joined : (p ++ x) ≡ (q ++ y) = (bytes_eq.beq_iff (p ++ x) (q ++ y)).0 e in
        inl (
          sym (take-append p x 32 hp) ∙ ap (take 32) joined ∙ take-append q y 32 hq,
          sym (drop-append p x 32 hp) ∙ ap (drop 32) joined ∙ drop-append q y 32 hq,
        )
    | inr e ↦ inr (record {
      index = 0;
      left_input = p ++ x;
      right_input = q ++ y;
      left_at = refl;
      right_at = refl;
      differ = ground (arith, bytes_eq.beq_iff (p ++ x) (q ++ y));
      agree = same;
    })
  ]

  fixed_from :
      (i j : ℕ) (p q : ChainHash) (a b : List (Bytes × ChainHash))
      → length p ≡ 32
      → length q ≡ 32
      → verify_from digest i p a ≡ ok tt
      → verify_from digest j q b ≡ ok tt
      → length a ≡ length b
      → last_hash p a ≡ last_hash q b
      → ((p ≡ q) × (a ≡ b)) ⊎ Clash digest (inputs p a) (inputs q b)
  fixed_from i j p q [] [] hp hq va vb len e = inl (e, refl)
  fixed_from i j p q [] ((y, k) ∷ b) hp hq va vb len e = absurd (omega arith)
  fixed_from i j p q ((x, h) ∷ a) [] hp hq va vb len e = absurd (omega arith)
  fixed_from i j p q ((x, h) ∷ a) ((y, k) ∷ b) hp hq va vb len e =
      let (dx, va') = verify_from-head i p x h a va in
      let (dy, vb') = verify_from-head j q y k b vb in
      let hh : length h ≡ 32 = sym (ap length dx) ∙ sized (p ++ x) in
      let hk : length k ≡ 32 = sym (ap length dy) ∙ sized (q ++ y) in
      elim (fixed_from (i + 1) (j + 1) h k a b hh hk va' vb' (omega arith) e) [
        | inr c ↦ inr (Clash-later digest (p ++ x) (q ++ y) (inputs h a) (inputs k b) c)
        | inl (hs, rest) ↦
            elim (link_or_Clash p q x y (inputs h a) (inputs k b) hp hq (dx ∙ hs ∙ sym dy)) [
              | inr c ↦ inr c
              | inl (ps, xs) ↦ inl (ps, cc (xs, hs, rest))
            ]
      ]

  -- If the digest has 32 bytes, two verified chains of one length that end in the same hash hold the
  -- same entries and hashes, or there is an index at which they give the digest different inputs with
  -- one result: an entry cannot be changed under the last hash without such a collision.
  pub last_hash-fixes :
      (a b : List (Bytes × ChainHash))
      → verify_chain digest a ≡ ok tt
      → verify_chain digest b ≡ ok tt
      → length a ≡ length b
      → last_hash genesis a ≡ last_hash genesis b
      → (a ≡ b) ⊎ Clash digest (inputs genesis a) (inputs genesis b)
  unfolding verify_chain
  last_hash-fixes a b va vb len e =
      elim (fixed_from 0 0 genesis genesis a b refl refl va vb len e) [
        | inl same ↦ inl same.1
        | inr c ↦ inr c
      ]

-- The index that a verification reports, if it fails.
abbrev pub reported : Result ChainVerificationError (Unit {0}) → Option ℕ
reported (ok _) = none
reported (err e) = some e.index

-- The position of the first `false`, counted from `i`.
abbrev pub first_false : ℕ → List Bool → Option ℕ
first_false i [] = none
first_false i (b ∷ bs) = let rest = first_false (i + 1) bs in if b then rest else some i

module _ (digest : Bytes → ChainHash) where
  -- For each entry, whether its hash follows from it and the stored hash in front of it.
  pub links : ChainHash → List (Bytes × ChainHash) → List Bool
  links previous [] = []
  links previous ((x, h) ∷ entries) = verify_chain_link digest previous x h ∷ links h entries

  verify_from-links :
      (i : ℕ) (p : ChainHash) (es : List (Bytes × ChainHash))
      → reported (verify_from digest i p es) ≡ first_false i (links p es)
  unfolding verify_from links verify_chain_link
  verify_from-links i p [] = refl
  verify_from-links i p ((x, h) ∷ es) = ground (arith, verify_from-links (i + 1) h es)

  -- Verification succeeds if every link of the chain holds, and otherwise reports the index of the
  -- first one that does not.
  pub verify_chain-links :
      (es : List (Bytes × ChainHash))
      → reported (verify_chain digest es) ≡ first_false 0 (links genesis es)
  unfolding verify_chain
  verify_chain-links es = verify_from-links 0 genesis es

  verify_from-seal :
      (i : ℕ) (p : ChainHash) (es : List Bytes) → verify_from digest i p (seal digest p es) ≡ ok tt
  unfolding verify_from seal
  verify_from-seal i p [] = refl
  verify_from-seal i p (e ∷ es) =
      let h = compute_chain_hash digest p e in
      ground (arith, bytes_eq.beq_iff h h, verify_from-seal (i + 1) h es)

  -- A chain whose hashes were computed entry by entry from the genesis hash is verified.
  pub verify_chain-seal : (es : List Bytes) → verify_chain digest (seal digest genesis es) ≡ ok tt
  unfolding verify_chain
  verify_chain-seal es = verify_from-seal 0 genesis es

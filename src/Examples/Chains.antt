-- ===== src/Examples/Chains.antt =====
-- The hash chain with a digest that adds the bytes up.
use wacp_platform.Prelude.{ℕ, ◌+◌, List, [], ◌∷◌, ◌≡◌, ◌⊎◌, refl, length, ok, some}
use wacp_platform.Types.Records.{Bytes}
use wacp_platform.Trail.Chain.{ChainHash, zeros, genesis, verify_chain, compute_chain_hash}
use wacp_platform.Trail.Chain.Tampering.{
  seal, last_hash, inputs, Clash, reported, last_hash-fixes, verify_chain-seal,
}

abbrev total : Bytes → ℕ
total [] = 0
total (b ∷ bs) = b + total bs

abbrev digest : Bytes → ChainHash
digest bs = total bs ∷ zeros 31

digest_sized : (bs : Bytes) → length (digest bs) ≡ 32
digest_sized bs = refl

-- The second entry is tampered with, in a way that the digest does not see.
abbrev written : List (Bytes × ChainHash)
written = seal digest genesis ((1 ∷ []) ∷ (2 ∷ 3 ∷ []) ∷ (4 ∷ []) ∷ [])

abbrev tampered : List (Bytes × ChainHash)
tampered = seal digest genesis ((1 ∷ []) ∷ (3 ∷ 2 ∷ []) ∷ (4 ∷ []) ∷ [])

written_verified : verify_chain digest written ≡ ok tt
written_verified = verify_chain-seal digest ((1 ∷ []) ∷ (2 ∷ 3 ∷ []) ∷ (4 ∷ []) ∷ [])

tampered_verified : verify_chain digest tampered ≡ ok tt
tampered_verified = verify_chain-seal digest ((1 ∷ []) ∷ (3 ∷ 2 ∷ []) ∷ (4 ∷ []) ∷ [])

same_end : last_hash genesis written ≡ last_hash genesis tampered
unfolding seal compute_chain_hash
same_end = refl

same_length : length written ≡ length tampered
unfolding seal
same_length = refl

last_hash-fixes_example :
    (written ≡ tampered) ⊎ Clash digest (inputs genesis written) (inputs genesis tampered)
last_hash-fixes_example =
    last_hash-fixes digest digest_sized written tampered written_verified tampered_verified
      same_length same_end

-- A stored hash that does not fit its entry.
abbrev broken : List (Bytes × ChainHash)
broken = (1 ∷ [], digest (1 ∷ [])) ∷ (2 ∷ [], digest (9 ∷ [])) ∷ []

broken_at : reported (verify_chain digest broken) ≡ some 1
unfolding verify_chain
broken_at = refl

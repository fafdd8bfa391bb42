-- ===== src/Trail/Chain.antt =====
-- wacp/crates/wacp-trail/src/chain.rs: the hash chain over the entries of a trail. The SHA-256 of the
-- library is the parameter `digest`; a hash is the list of its 32 bytes.
pub mod Tampering
use wacp_platform.Prelude.{
  ℕ, zero, suc, ◌+◌, Bool, true, false, ◌&&◌, List, [], ◌∷◌, ◌++◌, Eq, ◌==◌, nat_eq, nat_beq_iff,
  ◌≡◌, ◌↔◌, refl, arith, if◌then◌else◌, Result, ok, err,
}
use wacp_platform.Types.Records.{Bytes}

abbrev pub bytes_beq : Bytes → Bytes → Bool
bytes_beq [] [] = true
bytes_beq (b ∷ bs) (c ∷ cs) = b == c && bytes_beq bs cs
bytes_beq _ _ = false

pub bytes_beq_iff : (bs cs : Bytes) → (bytes_beq bs cs ≡ true) ↔ (bs ≡ cs)
bytes_beq_iff [] [] = ground arith
bytes_beq_iff [] (c ∷ cs) = ground arith
bytes_beq_iff (b ∷ bs) [] = ground arith
bytes_beq_iff (b ∷ bs) (c ∷ cs) = ground (arith, bytes_beq_iff bs cs)

-- The equality of byte arrays, and the derived one of `ChainHash`.
instance abbrev pub bytes_eq : Eq Bytes
bytes_eq = record { beq = bytes_beq; beq_iff = bytes_beq_iff }

abbrev pub ChainHash : Type 0
ChainHash = Bytes

abbrev pub zeros : ℕ → Bytes
zeros zero = []
zeros (suc n) = 0 ∷ zeros n

abbrev pub genesis : ChainHash
genesis = zeros 32

pub record ChainVerificationError : Type 0 where
  pub index : ℕ
  pub expected : ChainHash
  pub computed : ChainHash

module _ (digest : Bytes → ChainHash) where
  unfoldable pub compute_chain_hash : ChainHash → Bytes → ChainHash
  compute_chain_hash previous entry_bytes = digest (previous ++ entry_bytes)

  unfoldable pub verify_chain_link : ChainHash → Bytes → ChainHash → Bool
  unfolding compute_chain_hash
  verify_chain_link previous entry_bytes expected =
      compute_chain_hash previous entry_bytes == expected

  -- The loop of `verify_chain`, from an index and the hash in front of it.
  unfoldable pub verify_from :
      ℕ → ChainHash → List (Bytes × ChainHash) → Result ChainVerificationError (Unit {0})
  unfolding compute_chain_hash
  verify_from i previous [] = ok tt
  verify_from i previous ((entry_bytes, expected) ∷ entries) =
      let rest = verify_from (i + 1) expected entries in
      let computed = compute_chain_hash previous entry_bytes in
      if computed == expected
      then rest
      else err (record { index = i; expected = expected; computed = computed })

  unfoldable pub verify_chain : List (Bytes × ChainHash) → Result ChainVerificationError (Unit {0})
  unfolding verify_from
  verify_chain entries = verify_from 0 genesis entries

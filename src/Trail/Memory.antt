-- ===== src/Trail/Memory.antt =====
-- wacp/crates/wacp-trail/src/memory.rs: the trail, checkpoint and snapshot stores in memory, with the data of
-- traits.rs and error.rs. `none` is the panic of `unwrap` on a trail without a segment.
pub mod Receipts
pub mod Contents
use wacp_platform.Prelude.{
  ℕ, zero, suc, ◌+◌, ◌-◌, Bool, true, false, not, String, Option, none, some, HashMap, get, insert,
  remove, contains_key, string_eq, List, [], ◌∷◌, ◌++◌, if◌then◌else◌, length, get_elem?, drop,
  Result, ok, err, is_some,
}
use mathlib.Core.Option
use wacp_platform.Types.Records.{Bytes, WorkspaceId}
use wacp_platform.Trail.Chain.{ChainHash, bytes_eq, genesis}

pub data StorageError : Type 0 where
  io corruption : String → StorageError
  capacity_exceeded not_found : StorageError
  segment_not_found : ℕ → StorageError

pub record WriteReceipt : Type 0 where
  pub segment : ℕ
  pub offset : ℕ
  pub sequence : ℕ

pub record StorageMetadata : Type 0 where
  pub current_segment : ℕ
  pub total_entries : ℕ
  pub chain_head : ChainHash
  pub total_bytes : ℕ

abbrev pub Segment : Type 0
Segment = List (Bytes × ChainHash)

pub record InMemoryTrailStorage : Type 0 where
  pub segments : List Segment
  pub sequence_counter : ℕ
  pub chain_head : ChainHash
  pub total_bytes : ℕ

abbrev pub new : InMemoryTrailStorage
new = record { segments = [] ∷ []; sequence_counter = 0; chain_head = genesis; total_bytes = 0 }

-- The number of the last segment and what it holds.
unfoldable pub last_segment : List Segment → Option (ℕ × Segment)
last_segment [] = none
last_segment (s ∷ []) = some (0, s)
last_segment (s ∷ t ∷ segments) =
    Option.map (λ (i, last). (suc i, last)) (last_segment (t ∷ segments))

-- A push through `last_mut`.
unfoldable pub push_last : Bytes × ChainHash → List Segment → List Segment
push_last x [] = []
push_last x (s ∷ []) = (s ++ x ∷ []) ∷ []
push_last x (s ∷ t ∷ segments) = s ∷ push_last x (t ∷ segments)

unfoldable pub append :
    Bytes → ChainHash → InMemoryTrailStorage → Option (InMemoryTrailStorage × WriteReceipt)
unfolding last_segment push_last
append entry chain_hash s = elim (last_segment s.segments) [
  | none ↦ none
  | some (seg_idx, segment) ↦ some (
    record {
      segments = push_last (entry, chain_hash) s.segments;
      sequence_counter = s.sequence_counter + 1;
      chain_head = chain_hash;
      total_bytes = s.total_bytes + length entry;
    },
    record { segment = seg_idx; offset = length segment; sequence = s.sequence_counter + 1 },
  )
]

unfoldable pub read : ℕ → ℕ → InMemoryTrailStorage → Result StorageError Bytes
read segment offset s = elim (get_elem? s.segments segment) [
  | none ↦ err (segment_not_found segment)
  | some seg ↦ elim (get_elem? seg offset) [ none ↦ err not_found | some (entry, _) ↦ ok entry ]
]

unfoldable pub rotate : InMemoryTrailStorage → InMemoryTrailStorage × ℕ
rotate s =
    let segments = s.segments ++ [] ∷ [] in (record s { segments = segments }, length segments - 1)

abbrev pub number_from : ℕ → Segment → List (ℕ × Bytes × ChainHash)
number_from i [] = []
number_from i ((entry, hash) ∷ rest) = (i, entry, hash) ∷ number_from (i + 1) rest

unfoldable pub scan :
    ℕ → ℕ → InMemoryTrailStorage → Result StorageError (List (ℕ × Bytes × ChainHash))
scan segment from_offset s = elim (get_elem? s.segments segment) [
  | none ↦ err (segment_not_found segment)
  | some seg ↦ ok (drop from_offset (number_from 0 seg))
]

unfoldable pub metadata : InMemoryTrailStorage → StorageMetadata
metadata s = record {
  current_segment = length s.segments - 1;
  total_entries = s.sequence_counter;
  chain_head = s.chain_head;
  total_bytes = s.total_bytes;
}

-- The checkpoint store, by content hash.
pub record InMemoryCheckpointStorage : Type 0 where
  pub store : HashMap Bytes Bytes

unfoldable pub store_checkpoint :
    ChainHash → Bytes → InMemoryCheckpointStorage → InMemoryCheckpointStorage × Bool
store_checkpoint content_hash payload s =
    if contains_key content_hash s.store
    then (s, false)
    else (record { store = insert content_hash payload s.store }, true)

unfoldable pub read_checkpoint : ChainHash → InMemoryCheckpointStorage → Option Bytes
read_checkpoint content_hash s = get content_hash s.store

unfoldable pub checkpoint_exists : ChainHash → InMemoryCheckpointStorage → Bool
checkpoint_exists content_hash s = contains_key content_hash s.store

unfoldable pub delete_checkpoint :
    ChainHash → InMemoryCheckpointStorage → InMemoryCheckpointStorage × Bool
delete_checkpoint content_hash s =
    (record { store = remove content_hash s.store }, contains_key content_hash s.store)

-- The snapshot store.
pub record InMemorySnapshotStorage : Type 0 where
  pub workspaces : HashMap String Bytes
  pub systems : List (ℕ × Bytes)

unfoldable pub write_workspace :
    WorkspaceId → Bytes → InMemorySnapshotStorage → InMemorySnapshotStorage
write_workspace id payload s = record s { workspaces = insert id payload s.workspaces }

unfoldable pub read_workspace : WorkspaceId → InMemorySnapshotStorage → Option Bytes
read_workspace id s = get id s.workspaces

unfoldable pub delete_workspace : WorkspaceId → InMemorySnapshotStorage → InMemorySnapshotStorage
delete_workspace id s = record s { workspaces = remove id s.workspaces }

unfoldable pub write_system : ℕ → Bytes → InMemorySnapshotStorage → InMemorySnapshotStorage
write_system sequence payload s = record s { systems = s.systems ++ (sequence, payload) ∷ [] }

abbrev pub last_of : List (ℕ × Bytes) → Option (ℕ × Bytes)
last_of [] = none
last_of (x ∷ []) = some x
last_of (x ∷ y ∷ xs) = last_of (y ∷ xs)

unfoldable pub read_latest_system : InMemorySnapshotStorage → Option (ℕ × Bytes)
read_latest_system s = last_of s.systems

-- ===== src/Recovery.antt =====
-- wacp/crates/wacp-recovery/src/lib.rs: the state that a trail is replayed to after a crash. The JSON library is
-- a parameter: `parse` gives the members of an event that the source reads as texts and numbers, and
-- `decode` those of a snapshot. The hexadecimal form of a hash is the parameter `display`.
pub mod Replay
pub mod Outcomes
use mathlib.Core.Option
use Prim.Native.String.{◌++◌ as text_append}
use wacp_platform.Prelude.{
  ℕ, zero, suc, ◌+◌, ◌<◌, Bool, true, false, not, ◌||◌, String, Option, none, some, HashMap,
  HashSet, get, insert, add, contains, string_eq, List, [], ◌∷◌, ◌++◌, ◌==◌, if◌then◌else◌, ltb,
  nat_eq, length, drop, retain, Result, ok, err, ◌>>=◌, ◌>>◌,
}
use wacp_platform.Types.Enums.{WorkspaceState, TaskStatus}
use wacp_platform.Types.Records.{Bytes}
use wacp_platform.Clock.Timestamp.{Timestamp, zero_stamp, stamp, succ}
use wacp_platform.Trail.Chain.{ChainHash, ChainVerificationError, verify_chain}
use wacp_platform.Trail.Memory.{
  Segment, StorageError, StorageMetadata, InMemoryTrailStorage, scan, metadata,
}

pub data RecoveryError : Type 0 where
  trail_corruption : ℕ → String → RecoveryError
  storage_error : StorageError → RecoveryError

pub record RecoveredState : Type 0 where
  pub workspace_states : HashMap String WorkspaceState
  pub task_statuses : HashMap String TaskStatus
  pub last_sequence : ℕ
  pub clock_initial : Timestamp
  pub in_flight_envelopes : List String
  pub snapshot_sequence : Option ℕ

-- The members of a parsed event, as texts and numbers.
pub record Event : Type 0 where
  pub event_type : Option String
  pub workspace_id : Option String
  pub new_state : Option String
  pub task_id : Option String
  pub new_status : Option String
  pub envelope_id : Option String
  pub timestamp : Option ℕ

-- The objects `nodes` and `tasks` of a snapshot, by name with the text of the status.
pub record SystemSnapshot : Type 0 where
  pub nodes : Option (List (String × Option String))
  pub tasks : Option (List (String × Option String))

-- What recovery uses of `TrailStorage`.
pub record TrailStorage : Type 0 where
  pub scan_segment : ℕ → Result StorageError (List (ℕ × Bytes × ChainHash))
  pub trail_metadata : StorageMetadata

abbrev pub in_memory : InMemoryTrailStorage → TrailStorage
in_memory s = record { scan_segment = λ segment. scan segment 0 s; trail_metadata = metadata s }

unfoldable pub parse_workspace_state : String → Option WorkspaceState
parse_workspace_state s =
    if s == "Idle"
    then some WorkspaceState.idle
    else if s == "Active"
    then some WorkspaceState.active
    else if s == "Blocked"
    then some WorkspaceState.blocked
    else if s == "Suspended"
    then some WorkspaceState.suspended
    else if s == "Migrating"
    then some WorkspaceState.migrating
    else if s == "Integrating"
    then some WorkspaceState.integrating
    else if s == "Conflicted"
    then some WorkspaceState.conflicted
    else if s == "Closed"
    then some WorkspaceState.closed
    else if s == "Failed"
    then some WorkspaceState.failed
    else none

unfoldable pub parse_task_status : String → Option TaskStatus
parse_task_status s =
    if s == "Draft"
    then some TaskStatus.draft
    else if s == "Pending"
    then some TaskStatus.pending
    else if s == "Assigned"
    then some TaskStatus.assigned
    else if s == "InProgress"
    then some TaskStatus.in_progress
    else if s == "Completed"
    then some TaskStatus.completed
    else if s == "Failed"
    then some TaskStatus.failed
    else if s == "Integrated"
    then some TaskStatus.integrated
    else if s == "Cancelled"
    then some TaskStatus.cancelled
    else none

abbrev pub States : Type 0
States = HashMap String WorkspaceState × HashMap String TaskStatus

-- An insertion of a name with the value that a text stands for, where both are there.
unfoldable pub insert_parsed {ℓ} :
    {V : Type ℓ}
    → (String → Option V)
    → Option String
    → Option String
    → HashMap String V
    → HashMap String V
insert_parsed parse_value (some id) (some text) m = elim (parse_value text) [
  | none ↦ m
  | some value ↦ insert id value m
]
insert_parsed parse_value _ _ m = m

-- `extend`.
unfoldable pub extend {ℓ} : {V : Type ℓ} → HashMap String V → HashMap String V → HashMap String V
extend m [] = m
extend m ((k, v) ∷ rest) = extend (insert k v m) rest

-- A loop over an object of the snapshot.
unfoldable pub extract {ℓ} :
    {V : Type ℓ}
    → (String → Option V)
    → List (String × Option String)
    → HashMap String V
    → HashMap String V
unfolding insert_parsed
extract parse_value [] m = m
extract parse_value ((id, text) ∷ rest) m =
    extract parse_value rest (insert_parsed parse_value (some id) text m)

abbrev pub members : Option (List (String × Option String)) → List (String × Option String)
members none = []
members (some object) = object

unfoldable pub extract_snapshot_state : SystemSnapshot → States
unfolding extract parse_workspace_state parse_task_status
extract_snapshot_state snap = (
  extract parse_workspace_state (members snap.nodes) [],
  extract parse_task_status (members snap.tasks) [],
)

-- The loop of `collect_entries`, on the number of segments that are left.
abbrev pub strip : List (ℕ × Bytes × ChainHash) → Segment
strip [] = []
strip ((_, entry, hash) ∷ rest) = (entry, hash) ∷ strip rest

unfoldable pub collect_from : ℕ → ℕ → TrailStorage → Result RecoveryError Segment
collect_from zero segment trail = ok []
collect_from (suc left) segment trail = elim (trail.scan_segment segment) [
  | err e ↦ err (storage_error e)
  | ok entries ↦ collect_from left (segment + 1) trail >>= λ rest. ok (strip entries ++ rest)
]

unfoldable pub collect_entries : TrailStorage → Result RecoveryError Segment
unfolding collect_from
collect_entries trail = collect_from (suc trail.trail_metadata.current_segment) 0 trail

abbrev pub is_workspace_event : Option String → Bool
is_workspace_event none = false
is_workspace_event (some kind) = kind == "workspace_created" || kind == "workspace_state_changed"

abbrev pub is_task_event : Option String → Bool
is_task_event none = false
is_task_event (some kind) = kind == "task_status_changed"

-- The body of the loop of `reconstruct_state`, on a parsed event.
unfoldable pub replay_event : Event → States → States
unfolding insert_parsed parse_workspace_state parse_task_status
replay_event event (workspaces, tasks) = (
  if is_workspace_event event.event_type
      then insert_parsed parse_workspace_state event.workspace_id event.new_state workspaces
      else workspaces,
  if is_task_event event.event_type
      then insert_parsed parse_task_status event.task_id event.new_status tasks
      else tasks,
)

-- The insertion of an event's envelope, if the event is of a kind.
unfoldable pub note_envelope : String → Option Event → HashSet String → HashSet String
unfolding add
note_envelope kind none seen = seen
note_envelope kind (some event) seen = elim event.event_type [
  | none ↦ seen
  | some event_kind ↦ elim event.envelope_id [
    | none ↦ seen
    | some id ↦ if event_kind == kind then add id seen else seen
  ]
]

module _ (parse : Bytes → Option Event) where
  unfoldable pub replay_entry : Bytes → States → States
  unfolding replay_event
  replay_entry entry states = elim (parse entry) [
    | none ↦ states
    | some event ↦ replay_event event states
  ]

  unfoldable pub replay : Segment → States → States
  unfolding replay_entry
  replay [] states = states
  replay ((entry, _) ∷ rest) states = replay rest (replay_entry entry states)

  abbrev pub reconstruct_state : Segment → States
  reconstruct_state entries = replay entries ([], [])

  -- The envelopes of the events of a kind.
  unfoldable pub envelopes : String → Segment → HashSet String → HashSet String
  unfolding note_envelope
  envelopes kind [] seen = seen
  envelopes kind ((entry, _) ∷ rest) seen =
      envelopes kind rest (note_envelope kind (parse entry) seen)

  unfoldable pub detect_in_flight : Segment → List String
  unfolding envelopes
  detect_in_flight entries =
      let delivered = envelopes "envelope_delivered" entries [] in
      retain (λ id. not (contains delivered id)) (envelopes "envelope_created" entries [])

  abbrev pub time_of : Option Event → Timestamp
  time_of none = zero_stamp
  time_of (some event) = elim event.timestamp [ none ↦ zero_stamp | some ts ↦ stamp ts 0 ]

  unfoldable pub extract_last_timestamp : Segment → Timestamp
  extract_last_timestamp [] = zero_stamp
  extract_last_timestamp ((entry, _) ∷ []) = time_of (parse entry)
  extract_last_timestamp (_ ∷ x ∷ rest) = extract_last_timestamp (x ∷ rest)

-- `format!("expected {}, computed {}", ..)` of a broken chain.
abbrev pub describe : (ChainHash → String) → ChainVerificationError → RecoveryError
describe display e = trail_corruption e.index (
    text_append "expected "
      (text_append (display e.expected) (text_append ", computed " (display e.computed))))

module _ (digest : Bytes → ChainHash) (display : ChainHash → String) where
  unfoldable pub verify_integrity : Segment → Result RecoveryError (Unit {0})
  verify_integrity entries = elim (verify_chain digest entries) [
    | ok _ ↦ ok tt
    | err e ↦ err (describe display e)
  ]

-- The result for an empty trail.
abbrev pub recover_empty : Option (ℕ × SystemSnapshot) → RecoveredState
recover_empty none = record {
  workspace_states = [];
  task_statuses = [];
  last_sequence = 0;
  clock_initial = zero_stamp;
  in_flight_envelopes = [];
  snapshot_sequence = none;
}
recover_empty (some (seq, snap)) = record {
  workspace_states = (extract_snapshot_state snap).0;
  task_statuses = (extract_snapshot_state snap).1;
  last_sequence = seq;
  clock_initial = zero_stamp;
  in_flight_envelopes = [];
  snapshot_sequence = some seq;
}

-- The snapshot's states and the entry from which the trail is replayed.
abbrev pub start_of : Option (ℕ × SystemSnapshot) → States × ℕ
start_of none = (([], []), 0)
start_of (some (seq, snap)) = (extract_snapshot_state snap, seq)

abbrev pub sequence_of : Option (ℕ × SystemSnapshot) → Option ℕ
sequence_of none = none
sequence_of (some (seq, _)) = some seq

module _ (parse : Bytes → Option Event) where
  -- What the replay gives, laid over the snapshot.
  abbrev pub state_after : Segment → ℕ → Option (ℕ × SystemSnapshot) → RecoveredState
  state_after entries total snapshot =
      let (base, from) = start_of snapshot in
      let states = reconstruct_state parse (drop from entries) in
      record {
        workspace_states = extend base.0 states.0;
        task_statuses = extend base.1 states.1;
        last_sequence = total;
        clock_initial = succ (extract_last_timestamp parse entries);
        in_flight_envelopes = detect_in_flight parse entries;
        snapshot_sequence = sequence_of snapshot;
      }

  -- After the chain is verified. `none` is the panic of the slice past the last entry.
  unfoldable pub rebuild : Segment → ℕ → Option (ℕ × SystemSnapshot) → Option RecoveredState
  rebuild entries total snapshot =
      if ltb (length entries) (start_of snapshot).1
      then none
      else some (state_after entries total snapshot)

module _ (parse : Bytes → Option Event) (digest : Bytes → ChainHash)
    (display : ChainHash → String) where
  unfoldable pub recover_internal :
      TrailStorage → Option (ℕ × SystemSnapshot) → Result RecoveryError (Option RecoveredState)
  unfolding collect_entries verify_integrity rebuild
  recover_internal trail snapshot =
      if trail.trail_metadata.total_entries == 0
      then ok (some (recover_empty snapshot))
      else collect_entries trail >>= λ entries.
          verify_integrity digest display entries
          >> ok (rebuild parse entries trail.trail_metadata.total_entries snapshot)

  unfoldable pub recover : TrailStorage → Result RecoveryError (Option RecoveredState)
  unfolding recover_internal
  recover trail = recover_internal trail none

  -- A snapshot that cannot be read or decoded is passed over.
  abbrev pub usable_snapshot :
      (Bytes → Option SystemSnapshot)
      → Result StorageError (Option (ℕ × Bytes))
      → Option (ℕ × SystemSnapshot)
  usable_snapshot decode (ok (some (seq, bytes))) = Option.map (λ snap. (seq, snap)) (decode bytes)
  usable_snapshot decode (ok none) = none
  usable_snapshot decode (err _) = none

  unfoldable pub recover_with_snapshot :
      (Bytes → Option SystemSnapshot)
      → TrailStorage
      → Result StorageError (Option (ℕ × Bytes))
      → Result RecoveryError (Option RecoveredState)
  unfolding recover_internal
  recover_with_snapshot decode trail latest = recover_internal trail (usable_snapshot decode latest)

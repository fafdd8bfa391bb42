-- ===== src/Examples/Recoveries.antt =====
-- A trail in memory, its replay, and the recovery from a snapshot.
use wacp_platform.Prelude.{
  ℕ, not, ◌&&◌, Option, none, some, List, [], ◌∷◌, length, if◌then◌else◌, ◌==◌, contains, string_eq,
  get, insert, ok, is_ok, ◌≡◌, ◌≢◌, refl, take, nat_eq, String,
}
use wacp_platform.Types.Enums.{WorkspaceState}
use wacp_platform.Types.Records.{Bytes}
use wacp_platform.Trail.Chain.{ChainHash, genesis, verify_chain}
use wacp_platform.Trail.Memory.{
  InMemoryTrailStorage, WriteReceipt, append, read, new, metadata, scan,
}
use wacp_platform.Trail.Memory.Receipts.{Call, appends, rotates, run, step, read-append}
use wacp_platform.Trail.Memory.Contents.{entries, appended, bytes_of, head_of, run-holds}
use wacp_platform.Recovery.{
  Event, SystemSnapshot, RecoveredState, extend, in_memory, state_after, extract_snapshot_state,
  replay, reconstruct_state, detect_in_flight, recover_internal, recover,
}
use wacp_platform.Recovery.Replay.{AreAlike}
use wacp_platform.Recovery.Outcomes.{
  is_mentioned, in_flight_iff, recover_iff, AgreeOn, recover-AgreeOn,
}

-- An event of a kind about a workspace and an envelope.
abbrev event : String → String → Event
event kind state = record {
  event_type = some kind;
  workspace_id = some "ws-1";
  new_state = some state;
  task_id = none;
  new_status = none;
  envelope_id = some "env-1";
  timestamp = some 7;
}

-- Three readable entries: the first creates, the second delivers, the third changes the state.
abbrev numbered_event : ℕ → Option Event
numbered_event n =
    if n == 1
    then some (event "workspace_created" "Idle")
    else if n == 2
    then some (event "envelope_created" "")
    else if n == 3
    then some (event "workspace_state_changed" "Active")
    else none

abbrev parse : Bytes → Option Event
parse (n ∷ []) = numbered_event n
parse _ = none

-- A digest that is good enough for an example.
abbrev digest : Bytes → ChainHash
digest bytes = length bytes ∷ []

abbrev display : ChainHash → String
display hash = ""

abbrev calls : List Call
calls =
    appends (1 ∷ []) (33 ∷ [])
    ∷ rotates
    ∷ appends (2 ∷ []) (2 ∷ [])
    ∷ appends (3 ∷ []) (2 ∷ [])
    ∷ []

abbrev trail : InMemoryTrailStorage
trail = record {
  segments = ((1 ∷ [], 33 ∷ []) ∷ []) ∷ ((2 ∷ [], 2 ∷ []) ∷ (3 ∷ [], 2 ∷ []) ∷ []) ∷ [];
  sequence_counter = 3;
  chain_head = 2 ∷ [];
  total_bytes = 3;
}

ran : run calls new ≡ some trail
unfolding run step append
ran = refl

run-holds_example :
    (last : InMemoryTrailStorage) × (run calls new ≡ some last)
    × (entries last.segments ≡ appended calls)
    × ((metadata last).total_entries ≡ length (appended calls))
    × ((metadata last).total_bytes ≡ bytes_of (appended calls))
    × ((metadata last).chain_head ≡ head_of genesis (appended calls))
run-holds_example = run-holds calls

abbrev receipt : WriteReceipt
receipt = record { segment = 0; offset = 0; sequence = 1 }

abbrev first_stored : InMemoryTrailStorage
first_stored = record {
  segments = ((1 ∷ [], 33 ∷ []) ∷ []) ∷ [];
  sequence_counter = 1;
  chain_head = 33 ∷ [];
  total_bytes = 1;
}

stored : append (1 ∷ []) (33 ∷ []) new ≡ some (first_stored, receipt)
unfolding append
stored = refl

abbrev later : List Call
later = rotates ∷ appends (2 ∷ []) (2 ∷ []) ∷ appends (3 ∷ []) (2 ∷ []) ∷ []

ran_later : run later first_stored ≡ some trail
unfolding run step append
ran_later = refl

read-append_example : read 0 0 trail ≡ ok (1 ∷ [])
read-append_example =
    read-append (1 ∷ []) (33 ∷ []) new first_stored trail receipt later stored ran_later

in_flight_iff_example : contains (detect_in_flight parse (appended calls)) "env-1" ≡ (
    is_mentioned parse "envelope_created" "env-1" (appended calls)
    && not (is_mentioned parse "envelope_delivered" "env-1" (appended calls)))
in_flight_iff_example = in_flight_iff parse (appended calls) "env-1"

recover_iff_example :
    (is_ok (recover parse digest display (in_memory trail))
      ≡ is_ok (verify_chain digest (appended calls)))
    × (recover parse digest display (in_memory trail) ≢ ok none)
recover_iff_example = recover_iff parse digest display calls trail ran

-- A snapshot after the first entry.
abbrev snapshot : SystemSnapshot
snapshot = record { nodes = some (("ws-1", some "Idle") ∷ []); tasks = none }

faithful :
    AreAlike (extract_snapshot_state snapshot) (reconstruct_state parse (take 1 (appended calls)))
unfolding extract_snapshot_state replay
faithful = record { workspaces = λ id. refl; tasks = λ id. refl }

abbrev resumed : RecoveredState
resumed = state_after parse (appended calls) 3 (some (1, snapshot))

abbrev replayed : RecoveredState
replayed = state_after parse (appended calls) 3 none

resumes :
    recover_internal parse digest display (in_memory trail) (some (1, snapshot)) ≡ ok (some resumed)
unfolding recover_internal metadata scan verify_chain
resumes = refl

replays : recover parse digest display (in_memory trail) ≡ ok (some replayed)
unfolding recover metadata scan verify_chain
replays = refl

recover-AgreeOn_example : AgreeOn resumed replayed
recover-AgreeOn_example =
    recover-AgreeOn parse digest display calls trail 1 snapshot resumed replayed ran faithful
      resumes replays

active_again : get "ws-1" resumed.workspace_states ≡ some WorkspaceState.active
unfolding get extend replay insert extract_snapshot_state
active_again = refl

-- A snapshot that is ahead of the trail.
ahead : recover_internal parse digest display (in_memory trail) (some (4, snapshot)) ≡ ok none
unfolding recover_internal metadata scan verify_chain
ahead = refl

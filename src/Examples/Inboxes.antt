-- ===== src/Examples/Inboxes.antt =====
-- Workspaces at concrete messages and calls.
use wacp_platform.Prelude.{
  ℕ, String, false, none, some, List, [], ◌∷◌, ◌++◌, ◌≡◌, refl, string_eq, ◌==◌, nat_eq,
  if◌then◌else◌,
}
use wacp_platform.Types.Enums.{
  EnvelopePriority, EnvelopeOrigin, EnvelopeState, BaseRole, WorkspaceState as Status,
}
use wacp_platform.Types.Records.{Envelope, Originator, default_usage}
use wacp_platform.Workspace.State.{
  WorkspaceConfig, WorkspaceState, new, push_inbox, pop_inbox, priority_rank, capture_snapshot,
  restore_from_snapshot,
}
use wacp_platform.Workspace.Inbox.{IsOrdered, rank, queue, Pops, queue-push_inbox, pop_inbox-Pops}
use wacp_platform.Workspace.Snapshot.{
  Op, grants, receives, consumes, moves, writes, meters, numbers, run, restore-capture,
}

abbrev envelope : String → EnvelopePriority → Envelope
envelope id priority = record {
  id = id;
  from_workspace = "ws-root";
  to_workspace = "ws-1";
  envelope_type = "query";
  payload = [];
  in_reply_to = none;
  timestamp = 0;
  priority = priority;
  origin = EnvelopeOrigin.agent;
  state = EnvelopeState.delivered;
}

abbrev config : WorkspaceConfig ℕ
config = record {
  id = "ws-1";
  role = "worker";
  base_role = BaseRole.worker;
  parent = "ws-root";
  owner = "alice";
  originator = Originator.system;
  directive = envelope "env-0" EnvelopePriority.normal;
  context = [];
  visibility = "ws-root" ∷ [];
  authority = [];
  delegate = false;
  budget = none;
}

abbrev first : Envelope
first = envelope "env-1" EnvelopePriority.normal

abbrev alarm : Envelope
alarm = envelope "env-2" EnvelopePriority.urgent

new-IsOrdered : IsOrdered (new config)
unfolding new
new-IsOrdered = tt

abbrev waiting : WorkspaceState ℕ
waiting = push_inbox first (new config)

waiting-IsOrdered : IsOrdered waiting
waiting-IsOrdered = (queue-push_inbox first (new config) 0 new-IsOrdered).0

urgent_first : (pop_inbox (push_inbox alarm waiting)).1 ≡ some alarm
unfolding pop_inbox push_inbox new priority_rank
urgent_first = refl

queue-push_inbox_example :
    IsOrdered (push_inbox alarm waiting)
    × (queue 1 (push_inbox alarm waiting).inbox
        ≡ (if rank alarm == 1 then queue 1 waiting.inbox ++ alarm ∷ [] else queue 1 waiting.inbox))
queue-push_inbox_example = queue-push_inbox alarm waiting 1 waiting-IsOrdered

pop_inbox-Pops_example : Pops 0 waiting (pop_inbox waiting)
pop_inbox-Pops_example = pop_inbox-Pops 0 waiting waiting-IsOrdered

abbrev ops : List (Op ℕ)
ops =
    moves Status.active
    ∷ receives first
    ∷ receives alarm
    ∷ consumes
    ∷ grants ("ws-2" ∷ [])
    ∷ writes (1 ∷ 2 ∷ [])
    ∷ meters (record { usage = record default_usage { tokens = 999 }; budget = none })
    ∷ numbers 42
    ∷ moves Status.migrating
    ∷ []

restore-capture_example :
    restore_from_snapshot config
      (capture_snapshot (run ops (new config)))
      (run ops (new config)).status
    ≡ record (run ops (new config)) { visibility_set = config.visibility }
restore-capture_example = restore-capture config ops

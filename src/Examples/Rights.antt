-- ===== src/Examples/Rights.antt =====
-- Port rights, visibility and permissions at concrete calls.
use wacp_platform.Prelude.{
  ◌⊎◌, ◌-◌, true, some, List, [], ◌∷◌, ◌≡◌, ◌≢◌, refl, contains, get, insert, modify, push_entry,
  is_ok, string_eq, ok, ltb,
}
use wacp_platform.Prelude.Decimal.{numbered}
use wacp_platform.Types.Enums.{PortRightType, EnvelopeOrigin, BaseRole}
use wacp_platform.Types.Records.{PortRight}
use wacp_platform.Coordinator.PortRights.{
  PortRightStatus, PortRightEntry, PortRightsGraph, new, create, transfer, consume, validate_send,
}
use wacp_platform.Coordinator.PortRights.Index.{
  IsIndexed, new-IsIndexed, Call, creates, transfers, step, run, run-IsIndexed,
}
use wacp_platform.Coordinator.PortRights.Delivery.{validate_send_sound}
use wacp_platform.Coordinator.PortRights.Spending.{consume_once}
use wacp_platform.Coordinator.Visibility.{
  VisibilityGraph, can_see, visible_to, who_can_see, grant_checked, grantor_cannot_see,
}
use wacp_platform.Coordinator.Visibility as Visibility
use wacp_platform.Coordinator.Visibility.Mirror.{
  grants, grants_checked, queries_agree, grant_checked-can_see,
}
use wacp_platform.Coordinator.Visibility.Mirror as Mirror
use wacp_platform.Permissions.{
  PermissionEngine, Action, send_envelope, evaluate, consume_send_once, grant_port_right,
}
use wacp_platform.Permissions as Permissions
use wacp_platform.Taxonomy.{ResolvedRole, Taxonomy}
use wacp_platform.Permissions.Roles.{is_allowed, evaluate_iff}
use wacp_platform.Permissions.SendOnce.{tickets, consume_send_once-tickets}

-- A right to send once that is transferred from one workspace to another.
abbrev calls : List Call
calls = creates "ws-1" "ws-3" PortRightType.send_once ∷ transfers "pr-1" "ws-2" ∷ []

abbrev rights : PortRightsGraph
rights = run calls new

run-IsIndexed_example : IsIndexed (run calls new)
run-IsIndexed_example = run-IsIndexed calls new new-IsIndexed

rights-IsIndexed : IsIndexed rights
rights-IsIndexed = run-IsIndexed calls new new-IsIndexed

validated : validate_send "ws-2" "ws-3" rights ≡ ok "pr-1"
unfolding validate_send run step get transfer create insert numbered push_entry modify
validated = refl

validate_send_sound_example :
    (e : PortRightEntry) × (get "pr-1" rights.by_id ≡ some e)
    × (e.holder ≡ "ws-2")
    × (e.target ≡ "ws-3")
    × (e.status ≡ PortRightStatus.active)
    × ((e.kind ≡ PortRightType.send) ⊎ (e.kind ≡ PortRightType.send_once))
validate_send_sound_example =
    validate_send_sound rights rights-IsIndexed "ws-2" "ws-3" "pr-1" validated

consumed_once : (consume "pr-1" rights).1 ≡ ok tt
unfolding consume run step get transfer create insert numbered modify
consumed_once = refl

consume_once_example :
    (validate_send "ws-2" "ws-3" (run calls (consume "pr-1" rights).0) ≢ ok "pr-1")
    × ((consume "pr-1" (run calls (consume "pr-1" rights).0)).1 ≢ ok tt)
consume_once_example = consume_once "pr-1" rights calls "ws-2" "ws-3" rights-IsIndexed consumed_once

-- A grant, and one by a workspace that does not see the target.
abbrev looks : List Mirror.Call
looks =
    grants "ws-1" "ws-2"
    ∷ grants_checked "ws-3" "ws-2" "ws-1"
    ∷ grants_checked "ws-4" "ws-2" "ws-5"
    ∷ []

abbrev sights : VisibilityGraph
sights = Mirror.run looks Visibility.new

queries_agree_example :
    (contains (visible_to "ws-3" sights) "ws-2" ≡ can_see "ws-3" "ws-2" sights)
    × (contains (who_can_see "ws-2" sights) "ws-3" ≡ can_see "ws-3" "ws-2" sights)
queries_agree_example = queries_agree looks "ws-3" "ws-2"

abbrev reviewer : ResolvedRole
reviewer = record {
  name = "reviewer";
  base = BaseRole.worker;
  capabilities = [];
  checkpoint_types = [];
}

abbrev taxonomy : Taxonomy
taxonomy = record {
  id = "reviews";
  version = "1";
  protocol_version = "1.0";
  envelope_types = "query" ∷ [];
  resolved_roles = ("reviewer", reviewer) ∷ [];
  envelope_permissions =
      record { sender_role = "worker"; envelope_type = "query"; receiver_role = "coordinator" }
      ∷ [];
  checkpoint_types = [];
}

abbrev ticket : PortRight
ticket = record { right_type = PortRightType.send_once; holder = "ws-1"; target = "ws-0" }

abbrev engine : PermissionEngine
engine = grant_port_right ticket (Permissions.new taxonomy)

-- A derived role sends by the row of its base role.
abbrev question : Action
question = send_envelope "reviewer" "query" "coordinator" "ws-1" "ws-0" EnvelopeOrigin.agent

question_allowed : is_ok (evaluate question engine) ≡ true
unfolding evaluate grant_port_right Permissions.new Permissions.matrix_allows Permissions.has_row
    get insert Permissions.has_send_right push_entry
question_allowed = refl

evaluate_iff_example : is_ok (evaluate question engine) ≡ is_allowed question engine
evaluate_iff_example = evaluate_iff question engine

consume_send_once-tickets_example :
    ((consume_send_once "ws-1" "ws-0" engine).1 ≡ ltb 0 (tickets "ws-1" "ws-0" engine))
    × (tickets "ws-1" "ws-0" (consume_send_once "ws-1" "ws-0" engine).0
        ≡ tickets "ws-1" "ws-0" engine - 1)
consume_send_once-tickets_example = consume_send_once-tickets "ws-1" "ws-0" "ws-1" "ws-0" engine

-- ===== src/Fsm/Envelope.antt =====
-- wacp/crates/wacp-fsm/src/envelope.rs: the envelope lifecycle, 5 states.
pub mod Progress
use wacp_platform.Prelude.{Bool, true, false, String, Result, ok, err, if◌then◌else◌}
use wacp_platform.Types.Enums.{EnvelopeState}
use wacp_platform.Types.Enums.EnvelopeState.{created, validated, delivered, acknowledged, rejected}
use wacp_platform.Fsm.Machine.{illegal_transition, terminal_state, StateMachine}

pub data EnvelopeTrigger : Type 0 where
  submit validation_passed validation_failed deliver acknowledge : EnvelopeTrigger

pub debug_state : EnvelopeState → String
debug_state created = "Created"
debug_state validated = "Validated"
debug_state delivered = "Delivered"
debug_state acknowledged = "Acknowledged"
debug_state rejected = "Rejected"

pub debug_trigger : EnvelopeTrigger → String
debug_trigger submit = "Submit"
debug_trigger validation_passed = "ValidationPassed"
debug_trigger validation_failed = "ValidationFailed"
debug_trigger deliver = "Deliver"
debug_trigger acknowledge = "Acknowledge"

-- The `matches!` guard of `transition`.
unfoldable pub is_final : EnvelopeState → Bool
is_final acknowledged = true
is_final rejected = true
is_final _ = false

envelope_table : StateMachine EnvelopeState EnvelopeTrigger
envelope_table created validation_passed = ok validated
envelope_table created validation_failed = ok rejected
envelope_table validated deliver = ok delivered
envelope_table delivered acknowledge = ok acknowledged
envelope_table state trigger = err (illegal_transition (debug_state state) (debug_trigger trigger))

unfoldable pub envelope_transition : StateMachine EnvelopeState EnvelopeTrigger
unfolding envelope_table is_final
envelope_transition state trigger =
    if is_final state
    then err (terminal_state (debug_state state))
    else envelope_table state trigger

-- ===== src/Fsm/Envelope/Progress.antt =====
-- Histories of the envelope machine (envelope.rs).
use wacp_platform.Prelude.{List, [], ◌∷◌, ◌++◌, ◌≡◌, arith}
use wacp_platform.Types.Enums.{EnvelopeState}
use wacp_platform.Types.Enums.EnvelopeState.{created, validated, delivered, acknowledged, rejected}
use wacp_platform.Fsm.Machine.{after, keep, run, accepted}
use wacp_platform.Fsm.Envelope.{
  EnvelopeTrigger, validation_passed, validation_failed, deliver, acknowledge, envelope_transition,
}
use mathlib.Core.List.{append-nil}

-- The one way that the protocol gives to each state.
abbrev pub path_to : EnvelopeState → List EnvelopeTrigger
path_to created = []
path_to validated = validation_passed ∷ []
path_to delivered = validation_passed ∷ deliver ∷ []
path_to acknowledged = validation_passed ∷ deliver ∷ acknowledge ∷ []
path_to rejected = validation_failed ∷ []

step-path :
    (s : EnvelopeState) (t : EnvelopeTrigger) (rest : List EnvelopeTrigger)
    → path_to s ++ keep (envelope_transition s t) t rest
      ≡ path_to (after s (envelope_transition s t)) ++ rest
unfolding envelope_transition
step-path s t rest = ground arith

path-from :
    (s : EnvelopeState) (ts : List EnvelopeTrigger)
    → path_to s ++ accepted envelope_transition s ts ≡ path_to (run envelope_transition s ts)
unfolding run accepted
path-from s [] = append-nil (path_to s)
path-from s (t ∷ ts) = cc (
  step-path s t (accepted envelope_transition (after s (envelope_transition s t)) ts),
  path-from (after s (envelope_transition s t)) ts,
)

-- Whatever triggers a new envelope is sent, the ones that it accepts are exactly the protocol's path to
-- the state that it ends in: it is delivered only once validated, acknowledged only once delivered,
-- and each of these happens at most once.
pub accepted-path_to :
    (ts : List EnvelopeTrigger)
    → accepted envelope_transition created ts ≡ path_to (run envelope_transition created ts)
accepted-path_to ts = path-from created ts

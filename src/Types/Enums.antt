-- ===== src/Types/Enums.antt =====
-- wacp/crates/wacp-types/src/enums.rs: the closed sets of the protocol.
use wacp_platform.Prelude.{
  Bool, true, false, ℕ, Option, some, ◌≡◌, refl, sym, ◌∙◌, ap, arith, nat_beq, nat_beq_iff, Eq, ◌↔◌,
  [], ◌∷◌, get_elem?,
}

pub data SignalType : Type 0 where
  ready started blocked checkpoint complete failed integrate acknowledged : SignalType
  escalation suspend migrate : SignalType

pub data WorkspaceState : Type 0 where
  idle active blocked suspended migrating integrating conflicted closed failed : WorkspaceState

unfoldable pub is_terminal : WorkspaceState → Bool
is_terminal WorkspaceState.closed = true
is_terminal WorkspaceState.failed = true
is_terminal _ = false

pub data EnvelopeState : Type 0 where
  created validated delivered acknowledged rejected : EnvelopeState

pub data TaskStatus : Type 0 where
  draft pending assigned in_progress completed failed integrated cancelled : TaskStatus

pub data CheckpointStatus : Type 0 where
  provisional final : CheckpointStatus

pub data Confidence : Type 0 where
  high medium low : Confidence

pub data EnvelopePriority : Type 0 where
  normal urgent blocking : EnvelopePriority

pub data EnvelopeOrigin : Type 0 where
  agent human : EnvelopeOrigin

pub data BaseRole : Type 0 where
  coordinator worker observer : BaseRole

pub data PortRightType : Type 0 where
  send receive send_once : PortRightType

pub data GateType : Type 0 where
  task_approval workspace_create envelope_delivery integration conflict_resolution : GateType
  workspace_abort checkpoint_approval : GateType

pub data GateDecision : Type 0 where
  approve reject modify : GateDecision

-- A number for each signal type, by which the derived equality is decided.
abbrev pub signal_code : SignalType → ℕ
signal_code SignalType.ready = 0
signal_code SignalType.started = 1
signal_code SignalType.blocked = 2
signal_code SignalType.checkpoint = 3
signal_code SignalType.complete = 4
signal_code SignalType.failed = 5
signal_code SignalType.integrate = 6
signal_code SignalType.acknowledged = 7
signal_code SignalType.escalation = 8
signal_code SignalType.suspend = 9
signal_code SignalType.migrate = 10

abbrev signal_of : ℕ → Option SignalType
signal_of n =
    get_elem?
      (SignalType.ready ∷ SignalType.started ∷ SignalType.blocked ∷ SignalType.checkpoint
        ∷ SignalType.complete ∷ SignalType.failed ∷ SignalType.integrate ∷ SignalType.acknowledged
        ∷ SignalType.escalation ∷ SignalType.suspend ∷ SignalType.migrate ∷ [])
      n

signal_of-signal_code : (s : SignalType) → signal_of (signal_code s) ≡ some s
signal_of-signal_code SignalType.ready = refl
signal_of-signal_code SignalType.started = refl
signal_of-signal_code SignalType.blocked = refl
signal_of-signal_code SignalType.checkpoint = refl
signal_of-signal_code SignalType.complete = refl
signal_of-signal_code SignalType.failed = refl
signal_of-signal_code SignalType.integrate = refl
signal_of-signal_code SignalType.acknowledged = refl
signal_of-signal_code SignalType.escalation = refl
signal_of-signal_code SignalType.suspend = refl
signal_of-signal_code SignalType.migrate = refl

signal_code-injective : (a b : SignalType) → signal_code a ≡ signal_code b → a ≡ b
signal_code-injective a b same =
    let decoded : some a ≡ some b =
      sym (signal_of-signal_code a) ∙ ap signal_of same ∙ signal_of-signal_code b in
    ground (arith, decoded)

abbrev pub signal_beq : SignalType → SignalType → Bool
signal_beq a b = nat_beq (signal_code a) (signal_code b)

pub signal_beq_iff : (a b : SignalType) → (signal_beq a b ≡ true) ↔ (a ≡ b)
signal_beq_iff a b = (
  λ h. signal_code-injective a b ((nat_beq_iff (signal_code a) (signal_code b)).0 h),
  λ h. (nat_beq_iff (signal_code a) (signal_code b)).1 (ap signal_code h),
)

-- The derived `Eq` of `SignalType`.
instance abbrev pub signal_eq : Eq SignalType
signal_eq = record { beq = signal_beq; beq_iff = signal_beq_iff }

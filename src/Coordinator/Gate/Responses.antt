-- ===== src/Coordinator/Gate/Responses.antt =====
-- Sequences of calls of the gate controller (gate.rs): the names of gates, and responses to them.
use wacp_platform.Prelude.{
  ℕ, ◌+◌, ◌<◌, false, String, Option, none, some, HashMap, get, insert, string_eq, nat_eq, List, [],
  ◌∷◌, if◌then◌else◌, ◌==◌, ◌≡◌, refl, arith, get-insert, get-remove, beq_refl, ◌||◌,
}
use wacp_platform.Prelude.Decimal.{numbered_eq}
use wacp_platform.Types.Enums.{GateDecision}
use wacp_platform.Types.Records.{GateId, TaskId, WorkspaceId, CheckpointId, GateEvent}
use wacp_platform.Coordinator.Gate.{
  GateController, GateFallback, GateResolution, PendingGate, approved, rejected, auto_approve,
  cancel, decide, fall_back, gate_name, new, open_gate, resolve, timeout, open_checkpoint_gate,
  resolve_checkpoint, is_pending, is_checkpoint_pending,
}

pub data Call : Type 0 where
  opens : TaskId → String → String → Option ℕ → Option GateFallback → Call
  opens_checkpoint : WorkspaceId → CheckpointId → String → Option ℕ → Option GateFallback → Call
  resolves : GateId → GateDecision → Call
  expires : GateId → Call
  resolves_checkpoint : GateId → Call

unfoldable pub step : Call → GateController → GateController
step (opens t n d ms fb) c = (open_gate t n d ms fb c).0
step (opens_checkpoint w p k ms fb) c = (open_checkpoint_gate w p k ms fb c).0
step (resolves id decision) c = (resolve id decision c).0
step (expires id) c = (timeout id c).0
step (resolves_checkpoint id) c = (resolve_checkpoint id c).0

unfoldable pub run : List Call → GateController → GateController
run [] c = c
run (x ∷ xs) c = run xs (step x c)

-- The names from the counter on are unused, by either kind of gate.
abbrev pub IsUnused : GateController → Type 0
IsUnused c =
    (k : ℕ)
    → (get (gate_name (c.next_id + k)) c.pending ≡ none)
      × (get (gate_name (c.next_id + k)) c.pending_checkpoints ≡ none)

new-IsUnused : (ms : ℕ) (fb : GateFallback) → IsUnused (new ms fb)
unfolding new get
new-IsUnused ms fb k = (refl, refl)

module _ {V : Type 0} where
  unused_later :
      (m : HashMap String V) (n k : ℕ)
      → get (gate_name (n + (k + 1))) m ≡ none
      → get (gate_name (n + 1 + k)) m ≡ none
  unused_later m n k h = let e : n + 1 + k ≡ n + (k + 1) = omega arith in rw e h

  -- A later name stays unused when the name `n` is taken.
  unused-insert :
      (m : HashMap String V) (n k : ℕ) (v : V)
      → get (gate_name (n + (k + 1))) m ≡ none
      → get (gate_name (n + 1 + k)) (insert (gate_name n) v m) ≡ none
  unused-insert m n k v h = ground (
    arith,
    get-insert (gate_name n) (gate_name (n + 1 + k)) v m,
    numbered_eq "gate-" n (n + 1 + k),
    unused_later m n k h,
  )

step-IsUnused : (x : Call) (c : GateController) → IsUnused c → IsUnused (step x c)
unfolding step open_gate open_checkpoint_gate resolve timeout resolve_checkpoint
step-IsUnused (opens t n d ms fb) c h k = (
  unused-insert c.pending c.next_id k _ (h (k + 1)).0,
  unused_later c.pending_checkpoints c.next_id k (h (k + 1)).1,
)
step-IsUnused (opens_checkpoint w p j ms fb) c h k = (
  unused_later c.pending c.next_id k (h (k + 1)).0,
  unused-insert c.pending_checkpoints c.next_id k _ (h (k + 1)).1,
)
step-IsUnused (resolves id decision) c h k =
    ground (arith, h k, get-remove id (gate_name (c.next_id + k)) c.pending)
step-IsUnused (expires id) c h k =
    ground (arith, h k, get-remove id (gate_name (c.next_id + k)) c.pending)
step-IsUnused (resolves_checkpoint id) c h k =
    ground (arith, h k, get-remove id (gate_name (c.next_id + k)) c.pending_checkpoints)

run-IsUnused : (xs : List Call) (c : GateController) → IsUnused c → IsUnused (run xs c)
unfolding run
run-IsUnused [] c h = h
run-IsUnused (x ∷ xs) c h = run-IsUnused xs (step x c) (step-IsUnused x c h)

-- What opening a task gate does to the gates that are pending.
abbrev pub OpensFresh : GateId → GateController → GateController × GateEvent → Type 0
OpensFresh id c (c', event) =
    (is_pending event.gate_id c ≡ false)
    × (is_checkpoint_pending event.gate_id c ≡ false)
    × (is_pending id c' ≡ (event.gate_id == id || is_pending id c))
    × (is_checkpoint_pending id c' ≡ is_checkpoint_pending id c)

unused-OpensFresh :
    (c : GateController) (t : TaskId) (n d : String) (o : Option ℕ) (f : Option GateFallback)
    (id : GateId)
    → IsUnused c
    → OpensFresh id c (open_gate t n d o f c)
unfolding open_gate is_pending is_checkpoint_pending
unused-OpensFresh c t n d o f id h =
    let e : c.next_id + 0 ≡ c.next_id = omega arith in
    let u = rw e at (h 0) in (rw u.0, rw u.1, rw get-insert (ground arith), refl)

-- Whatever calls a new controller has served, the gate that it opens next has a name that no pending
-- gate of either kind has; it is pending afterwards, and all other gates are as they were.
pub open_gate-OpensFresh :
    (ms : ℕ) (fb : GateFallback) (xs : List Call) (t : TaskId) (n d : String) (o : Option ℕ)
    (f : Option GateFallback) (id : GateId)
    → OpensFresh id (run xs (new ms fb)) (open_gate t n d o f (run xs (new ms fb)))
open_gate-OpensFresh ms fb xs t n d o f id =
    unused-OpensFresh (run xs (new ms fb)) t n d o f id
      (run-IsUnused xs (new ms fb) (new-IsUnused ms fb))

-- A human response, or the timeout.
abbrev pub respond :
    Option GateDecision → GateId → GateController → GateController × Option GateResolution
respond none id c = timeout id c
respond (some decision) id c = resolve id decision c

respond-pending :
    (r : Option GateDecision) (id j : GateId) (c : GateController)
    → get j (respond r id c).0.pending ≡ (if id == j then none else get j c.pending)
unfolding resolve timeout
respond-pending none id j c = ground (arith, get-remove id j c.pending, string_eq.beq_iff id j)
respond-pending (some d) id j c = ground (arith, get-remove id j c.pending, string_eq.beq_iff id j)

respond-next_id :
    (r : Option GateDecision) (id : GateId) (c : GateController)
    → (respond r id c).0.next_id ≡ c.next_id
unfolding resolve timeout
respond-next_id none id c = ground arith
respond-next_id (some d) id c = ground arith

-- A name below the counter whose gate is gone.
abbrev IsGone : ℕ → GateController → Type 0
IsGone j c = (j < c.next_id) × (get (gate_name j) c.pending ≡ none)

step-IsGone : (j : ℕ) (x : Call) (c : GateController) → IsGone j c → IsGone j (step x c)
unfolding step open_gate open_checkpoint_gate resolve_checkpoint
step-IsGone j (opens t n d ms fb) c h = (
  omega arith,
  rw (get-insert (gate_name c.next_id) (gate_name j), numbered_eq "gate-" c.next_id j)
      (ground arith),
)
step-IsGone j (opens_checkpoint w p k ms fb) c h = (omega arith, h.1)
step-IsGone j (resolves id decision) c h = ground (
  arith,
  respond-next_id (some decision) id c,
  respond-pending (some decision) id (gate_name j) c,
)
step-IsGone j (expires id) c h =
    ground (arith, respond-next_id none id c, respond-pending none id (gate_name j) c)
step-IsGone j (resolves_checkpoint id) c h = h

run-IsGone : (j : ℕ) (xs : List Call) (c : GateController) → IsGone j c → IsGone j (run xs c)
unfolding run
run-IsGone j [] c h = h
run-IsGone j (x ∷ xs) c h = run-IsGone j xs (step x c) (step-IsGone j x c h)

respond_gone :
    (r : Option GateDecision) (id : GateId) (c : GateController)
    → get id c.pending ≡ none
    → (respond r id c).1 ≡ none
unfolding resolve timeout
respond_gone none id c h = ground arith
respond_gone (some d) id c h = ground arith

-- What a response to a gate is answered with: nothing where no such gate is pending.
abbrev pub answer : Option GateDecision → Option PendingGate → Option GateResolution
answer response none = none
answer (some GateDecision.approve) (some _) = some (approved "human")
answer (some GateDecision.modify) (some _) = some (approved "human")
answer (some GateDecision.reject) (some _) = some rejected
answer none (some gate) = elim gate.fallback [
  | auto_approve ↦ some (approved "timeout_auto_approve")
  | cancel ↦ some rejected
]

respond-answer :
    (r : Option GateDecision) (id : GateId) (c : GateController)
    → (respond r id c).1 ≡ answer r (get id c.pending)
unfolding resolve timeout decide fall_back
respond-answer none id c = ground arith
respond-answer (some GateDecision.approve) id c = ground arith
respond-answer (some GateDecision.modify) id c = ground arith
respond-answer (some GateDecision.reject) id c = ground arith

-- The first response to a gate wins: a human's approval or modification of a pending gate approves it, a
-- rejection rejects it, and a timeout falls back as the gate says. After a response to a gate that
-- was once opened, and whatever calls follow, the gate is not pending and every other response gets
-- `None`.
pub answered_once :
    (first second : Option GateDecision) (j : ℕ) (xs : List Call) (c : GateController)
    → j < c.next_id
    → let c' = run xs (respond first (gate_name j) c).0 in
      ((respond first (gate_name j) c).1 ≡ answer first (get (gate_name j) c.pending))
      × (is_pending (gate_name j) c' ≡ false)
      × ((respond second (gate_name j) c').1 ≡ none)
unfolding is_pending
answered_once first second j xs c h =
    let gone = run-IsGone j xs (respond first (gate_name j) c).0 (
      ground (
        arith,
        respond-next_id first (gate_name j) c,
        respond-pending first (gate_name j) (gate_name j) c,
        beq_refl (gate_name j),
      )) in
    (respond-answer first (gate_name j) c, rw gone.1, respond_gone second (gate_name j) _ gone.1)

-- ===== src/Fsm/Machine.antt =====
-- wacp/crates/wacp-fsm/src/lib.rs: `StateMachine` as the type of a transition function, its errors,
-- and the fold of a machine over a list of triggers.
use wacp_platform.Prelude.{
  Bool, true, false, String, Result, ok, err, List, [], ◌∷◌, ◌≡◌, refl, ◌⊎◌, inl, inr, arith, any,
  Bool-cases,
}

pub data TransitionError : Type 0 where
  illegal_transition : (state trigger : String) → TransitionError
  terminal_state : (state : String) → TransitionError

abbrev pub StateMachine : Type 0 → Type 0 → Type 0
StateMachine State Trigger = State → Trigger → Result TransitionError State

-- What an owner of the state keeps: the new state, or the old one where the call fails.
abbrev pub after {ℓ} : {S : Type ℓ} → S → Result TransitionError S → S
after s (ok t) = t
after s (err e) = s

pub Result-cases {ℓ κ} :
    {E : Type ℓ} {A : Type κ} (r : Result E A) → ((a : A) × (r ≡ ok a)) ⊎ ((e : E) × (r ≡ err e))
Result-cases (ok a) = inl (a, refl)
Result-cases (err e) = inr (e, refl)

-- One more trigger on a list of accepted ones, if its result is `Ok`.
abbrev pub keep {ℓ κ} : {S : Type ℓ} {T : Type κ} → Result TransitionError S → T → List T → List T
keep (ok s) t ts = t ∷ ts
keep (err e) t ts = ts

module _ {S T : Type 0} (transition : StateMachine S T) where
  -- The state after a list of triggers, those that fail skipped.
  unfoldable pub run : S → List T → S
  run s [] = s
  run s (t ∷ ts) = run (after s (transition s t)) ts

  -- The triggers that a run accepts, in order.
  unfoldable pub accepted : S → List T → List T
  accepted s [] = []
  accepted s (t ∷ ts) = keep (transition s t) t (accepted (after s (transition s t)) ts)

  -- Where only the milestone `m` leads out of a region `B`, a run that never accepts `m` stays in it.
  pub run-region :
      (B : S → Bool) (m : T → Bool)
      → ((s : S) (t : T) → B s ≡ true → m t ≡ false → B (after s (transition s t)) ≡ true)
      → (s : S) (ts : List T) → B s ≡ true
      → any m (accepted s ts) ≡ false
      → B (run s ts) ≡ true
  unfolding run accepted
  run-region B m stays s [] h k = h
  run-region B m stays s (t ∷ ts) h k =
      ground (arith, stays s t h, run-region B m stays (after s (transition s t)) ts)

  -- So a run that leaves the region has accepted the milestone.
  pub any-accepted :
      (B : S → Bool) (m : T → Bool)
      → ((s : S) (t : T) → B s ≡ true → m t ≡ false → B (after s (transition s t)) ≡ true)
      → (s : S) (ts : List T) → B s ≡ true
      → B (run s ts) ≡ false
      → any m (accepted s ts) ≡ true
  any-accepted B m stays s ts h out = elim (Bool-cases (any m (accepted s ts))) [
    | inl e ↦ e
    | inr e ↦ cc (run-region B m stays s ts h e)
  ]

-- ===== src/Workspace/Inbox.antt =====
-- The inbox (state.rs) beside three first-in, first-out queues, one for each priority.
use wacp_platform.Prelude.{
  ℕ, ◌≤◌, ◌<◌, true, Option, none, some, List, [], ◌∷◌, ◌++◌, ◌≡◌, refl, arith, if◌then◌else◌, ltb,
  ◌==◌, nat_eq, retain, string_eq, contains-add, beq_refl,
}
use wacp_platform.Types.Enums.{EnvelopePriority}
use wacp_platform.Types.Enums.EnvelopePriority.{normal, urgent, blocking}
use wacp_platform.Types.Records.{Envelope}
use wacp_platform.Workspace.State.{
  WorkspaceState, priority_rank, insert_ranked, push_inbox, pop_inbox, take_front,
  is_envelope_delivered,
}

-- The documented order of delivery: blocking before urgent before normal.
abbrev pub rank_of : EnvelopePriority → ℕ
rank_of normal = 0
rank_of urgent = 1
rank_of blocking = 2

abbrev pub rank : Envelope → ℕ
rank e = rank_of e.priority

priority_rank_lem : (p : EnvelopePriority) → priority_rank p ≡ rank_of p
unfolding priority_rank
priority_rank_lem normal = refl
priority_rank_lem urgent = refl
priority_rank_lem blocking = refl

-- Ranks never rise along the list, and none is above `k`.
abbrev pub IsRanked : ℕ → List Envelope → Type 0
IsRanked k [] = Unit
IsRanked k (e ∷ es) = (rank e ≤ k) × IsRanked (rank e) es

-- The inbox is in priority order; no rank is above 2.
abbrev pub IsOrdered : {F : Type 0} → WorkspaceState F → Type 0
IsOrdered w = IsRanked 2 w.inbox

-- The envelopes of one rank, oldest first.
pub queue : ℕ → List Envelope → List Envelope
queue r es = retain (λ e. rank e == r) es

rank-le : (e : Envelope) → rank e ≤ 2
rank-le e = ground arith

insert-IsRanked :
    (k : ℕ) (e : Envelope) (es : List Envelope)
    → rank e ≤ k
    → IsRanked k es
    → IsRanked k (insert_ranked e es)
unfolding insert_ranked
insert-IsRanked k e [] h r = (h, tt)
insert-IsRanked k e (x ∷ xs) h r = ground (
  arith,
  insert-IsRanked (rank x) e xs,
  priority_rank_lem x.priority,
  priority_rank_lem e.priority,
)

-- Nothing of a rank above the bound is in an ordered list.
queue_above : (k r : ℕ) (es : List Envelope) → IsRanked k es → k < r → queue r es ≡ []
unfolding queue
queue_above k r [] h lt = refl
queue_above k r (x ∷ xs) h lt = ground (arith, queue_above (rank x) r xs h.1)

queue-insert :
    (k r : ℕ) (e : Envelope) (es : List Envelope)
    → IsRanked k es
    → queue r (insert_ranked e es) ≡ (if rank e == r then queue r es ++ e ∷ [] else queue r es)
unfolding queue insert_ranked
queue-insert k r e [] h = refl
queue-insert k r e (x ∷ xs) h = ground (
  arith,
  queue_above (rank x) r xs h.1,
  queue-insert (rank x) r e xs h.1,
  priority_rank_lem x.priority,
  priority_rank_lem e.priority,
)

IsRanked-weaken : (k m : ℕ) (es : List Envelope) → k ≤ m → IsRanked k es → IsRanked m es
IsRanked-weaken k m [] h r = tt
IsRanked-weaken k m (e ∷ es) h r = (omega arith, r.1)

module _ {F : Type 0} where
  -- Pushing onto an inbox in the order blocking, urgent, normal keeps that order, puts the envelope
  -- behind those of its own priority, and changes the queue of no other priority.
  pub queue-push_inbox :
      (e : Envelope) (w : WorkspaceState F) (r : ℕ)
      → IsOrdered w
      → IsOrdered (push_inbox e w)
        × (queue r (push_inbox e w).inbox
            ≡ (if rank e == r then queue r w.inbox ++ e ∷ [] else queue r w.inbox))
  unfolding push_inbox
  queue-push_inbox e w r h =
      (insert-IsRanked 2 e w.inbox (rank-le e) h, queue-insert 2 r e w.inbox h)

  -- What `pop_inbox` does to the queue of rank `r`: nothing, if the inbox is empty, and then all queues
  -- are; otherwise it takes the head of the envelope's own queue and leaves the others, all queues
  -- of a higher rank are empty, the order is kept, and the envelope counts as delivered.
  abbrev pub Pops : ℕ → WorkspaceState F → WorkspaceState F × Option Envelope → Type 0
  Pops r w (w', none) = (w' ≡ w) × (queue r w.inbox ≡ [])
  Pops r w (w', some e) =
      (queue r w.inbox ≡ (if rank e == r then e ∷ queue r w'.inbox else queue r w'.inbox))
      × ((if ltb (rank e) r then queue r w.inbox else []) ≡ [])
      × IsOrdered w'
      × (is_envelope_delivered e.id w' ≡ true)

  take_front-Pops :
      (r : ℕ) (es : List Envelope) (w : WorkspaceState F)
      → w.inbox ≡ es
      → IsRanked 2 es
      → Pops r w (take_front es w)
  unfolding take_front is_envelope_delivered queue
  take_front-Pops r [] w h o = (refl, rw h)
  take_front-Pops r (e ∷ es) w h o = (
    rw h,
    ground (arith, queue_above (rank e) r es o.1),
    IsRanked-weaken (rank e) 2 es o.0 o.1,
    rw (contains-add e.id e.id w.delivered_envelope_ids, beq_refl e.id),
  )

  -- Popping an ordered inbox serves the oldest envelope of the highest priority present.
  pub pop_inbox-Pops : (r : ℕ) (w : WorkspaceState F) → IsOrdered w → Pops r w (pop_inbox w)
  unfolding pop_inbox
  pop_inbox-Pops r w h = take_front-Pops r w.inbox w refl h

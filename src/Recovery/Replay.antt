-- ===== src/Recovery/Replay.antt =====
-- The replay of a trail (wacp-recovery/src/lib.rs), from the start and from a snapshot.
use wacp_platform.Prelude.{
  ℕ, zero, suc, Bool, true, false, String, Option, none, some, HashMap, get, insert, string_eq, [],
  ◌∷◌, if◌then◌else◌, take, drop, ◌≡◌, refl, arith, get-insert, Option-cases, inl, inr, ap, ◌∙◌,
  sym, if_keeps, has_distinct_keys, insert-has_distinct_keys,
}
use wacp_platform.Types.Enums.{WorkspaceState, TaskStatus}
use wacp_platform.Types.Records.{Bytes}
use wacp_platform.Trail.Memory.{Segment}
use wacp_platform.Recovery.{
  Event, States, parse_workspace_state, parse_task_status, is_workspace_event, is_task_event,
  insert_parsed, extend, replay_event, replay_entry, replay, reconstruct_state,
}

-- The first of two values that is there.
abbrev pub over {ℓ} : {V : Type ℓ} → Option V → Option V → Option V
over (some v) below = some v
over none below = below

-- A map that reads as one laid over another.
IsOver {ℓ} : {V : Type ℓ} → HashMap String V → HashMap String V → HashMap String V → Type ℓ
IsOver top below m = (id : String) → get id m ≡ over (get id top) (get id below)

insert_parsed-IsOver {ℓ} :
    {V : Type ℓ} (parse_value : String → Option V) (name text : Option String)
    (top below m : HashMap String V)
    → IsOver top below m
    → IsOver (insert_parsed parse_value name text top) below (insert_parsed parse_value name text m)
unfolding IsOver insert_parsed
insert_parsed-IsOver parse_value none text top below m h = h
insert_parsed-IsOver parse_value (some name) none top below m h = h
insert_parsed-IsOver parse_value (some name) (some text) top below m h =
    elim (Option-cases (parse_value text)) [
      | inl unknown ↦ λ id. ground (arith, unknown, h id)
      | inr (value, known) ↦ λ id.
          ground (arith, known, h id, get-insert name id value top, get-insert name id value m)
    ]

insert_parsed-distinct {ℓ} :
    {V : Type ℓ} (parse_value : String → Option V) (name text : Option String)
    (m : HashMap String V)
    → has_distinct_keys m ≡ true
    → has_distinct_keys (insert_parsed parse_value name text m) ≡ true
unfolding insert_parsed
insert_parsed-distinct parse_value none text m h = h
insert_parsed-distinct parse_value (some name) none m h = h
insert_parsed-distinct parse_value (some name) (some text) m h =
    elim (Option-cases (parse_value text)) [
      | inl unknown ↦ ground (arith, unknown)
      | inr (value, known) ↦ ground (arith, known, insert-has_distinct_keys name value m h)
    ]

extend-IsOver {ℓ} :
    {V : Type ℓ} (m rest : HashMap String V)
    → has_distinct_keys rest ≡ true
    → IsOver rest m (extend m rest)
unfolding IsOver extend get
extend-IsOver m [] h id = refl
extend-IsOver m ((k, v) ∷ rest) h id = ground (
  arith,
  extend-IsOver (insert k v m) rest (ground arith) id,
  get-insert k id v m,
  string_eq.beq_iff k id,
)

if-IsOver {ℓ} :
    {V : Type ℓ} (test : Bool) (below t f t' f' : HashMap String V)
    → IsOver t below t'
    → IsOver f below f'
    → IsOver (if test then t else f) below (if test then t' else f')
if-IsOver true below t f t' f' h k = h
if-IsOver false below t f t' f' h k = k

empty_over {ℓ} :
    {V : Type ℓ} (id : String) (m : HashMap String V) → get id m ≡ over (get id []) (get id m)
unfolding get
empty_over id m = refl

-- Both maps of the states.
record AreOver (top below states : States) : Type 0 where
  pub workspaces : IsOver top.0 below.0 states.0
  pub tasks : IsOver top.1 below.1 states.1

record AreDistinct (states : States) : Type 0 where
  pub workspaces : has_distinct_keys states.0 ≡ true
  pub tasks : has_distinct_keys states.1 ≡ true

replay_event-AreOver :
    (event : Event) (top below states : States)
    → AreOver top below states
    → AreOver (replay_event event top) below (replay_event event states)
unfolding replay_event
replay_event-AreOver event top below states h = record {
  workspaces =
      if-IsOver (is_workspace_event event.event_type) below.0 _ _ _ _
        (insert_parsed-IsOver parse_workspace_state event.workspace_id event.new_state top.0 below.0
          states.0 h.workspaces)
        h.workspaces;
  tasks =
      if-IsOver (is_task_event event.event_type) below.1 _ _ _ _
        (insert_parsed-IsOver parse_task_status event.task_id event.new_status top.1 below.1
          states.1 h.tasks)
        h.tasks;
}

replay_event-AreDistinct :
    (event : Event) (states : States) → AreDistinct states → AreDistinct (replay_event event states)
unfolding replay_event
replay_event-AreDistinct event states h = record {
  workspaces =
      if_keeps (λ (m : HashMap String WorkspaceState). has_distinct_keys m ≡ true)
        (is_workspace_event event.event_type)
        (insert_parsed-distinct parse_workspace_state event.workspace_id event.new_state states.0
          h.workspaces)
        h.workspaces;
  tasks =
      if_keeps (λ (m : HashMap String TaskStatus). has_distinct_keys m ≡ true)
        (is_task_event event.event_type)
        (insert_parsed-distinct parse_task_status event.task_id event.new_status states.1 h.tasks)
        h.tasks;
}

-- Two states that read alike.
pub record AreAlike (a b : States) : Type 0 where
  pub workspaces : (id : String) → get id a.0 ≡ get id b.0
  pub tasks : (id : String) → get id a.1 ≡ get id b.1

module _ (parse : Bytes → Option Event) where
  replay_entry-AreOver :
      (entry : Bytes) (top below states : States)
      → AreOver top below states
      → AreOver (replay_entry parse entry top) below (replay_entry parse entry states)
  unfolding replay_entry
  replay_entry-AreOver entry top below states h = elim (Option-cases (parse entry)) [
    | inl unknown ↦ rw (unknown, replay_entry) h
    | inr (event, known) ↦ rw (known, replay_entry) (replay_event-AreOver event top below states h)
  ]

  replay_entry-AreDistinct :
      (entry : Bytes) (states : States)
      → AreDistinct states
      → AreDistinct (replay_entry parse entry states)
  unfolding replay_entry
  replay_entry-AreDistinct entry states h = elim (Option-cases (parse entry)) [
    | inl unknown ↦ rw (unknown, replay_entry) h
    | inr (event, known) ↦ rw (known, replay_entry) (replay_event-AreDistinct event states h)
  ]

  replay-AreOver :
      (entries : Segment) (top below states : States)
      → AreOver top below states
      → AreOver (replay parse entries top) below (replay parse entries states)
  unfolding replay
  replay-AreOver [] top below states h = h
  replay-AreOver ((entry, _) ∷ rest) top below states h =
      replay-AreOver rest (replay_entry parse entry top) below (replay_entry parse entry states)
        (replay_entry-AreOver entry top below states h)

  replay-AreDistinct :
      (entries : Segment) (states : States)
      → AreDistinct states
      → AreDistinct (replay parse entries states)
  unfolding replay
  replay-AreDistinct [] states h = h
  replay-AreDistinct ((entry, _) ∷ rest) states h =
      replay-AreDistinct rest (replay_entry parse entry states)
        (replay_entry-AreDistinct entry states h)

  replay-take-drop :
      (n : ℕ) (entries : Segment) (states : States)
      → replay parse (drop n entries) (replay parse (take n entries) states)
        ≡ replay parse entries states
  unfolding replay
  replay-take-drop zero entries states = refl
  replay-take-drop (suc n) [] states = refl
  replay-take-drop (suc n) ((entry, _) ∷ rest) states =
      replay-take-drop n rest (replay_entry parse entry states)

  -- A replay of the later entries, laid over what the earlier ones give, reads as the whole replay.
  pub replay-resumes :
      (n : ℕ) (entries : Segment) (base : States)
      → AreAlike base (reconstruct_state parse (take n entries))
      → AreAlike
          (
            extend base.0 (reconstruct_state parse (drop n entries)).0,
            extend base.1 (reconstruct_state parse (drop n entries)).1,
          )
          (reconstruct_state parse entries)
  unfolding IsOver
  replay-resumes n entries base faithful =
      let earlier = reconstruct_state parse (take n entries) in
      let later = reconstruct_state parse (drop n entries) in
      let whole =
        replay-AreOver (drop n entries) ([], []) earlier earlier
          (record {
            workspaces = λ id. empty_over id earlier.0;
            tasks = λ id. empty_over id earlier.1;
          }) in
      let distinct =
        replay-AreDistinct (drop n entries) ([], []) (record { workspaces = refl; tasks = refl }) in
      let same = replay-take-drop n entries ([], []) in
      record {
        workspaces = λ id.
            extend-IsOver base.0 later.0 distinct.workspaces id
            ∙ (ap (over (get id later.0)) (faithful.workspaces id)
                ∙ (sym (whole.workspaces id) ∙ ap (λ s. get id s.0) same));
        tasks = λ id.
            extend-IsOver base.1 later.1 distinct.tasks id
            ∙ (ap (over (get id later.1)) (faithful.tasks id)
                ∙ (sym (whole.tasks id) ∙ ap (λ s. get id s.1) same));
      }

-- ===== src/Coordinator/Visibility/Mirror.antt =====
-- The two maps of the visibility graph (visibility.rs), over its calls.
use wacp_platform.Prelude.{
  ◌&&◌, ◌||◌, not, String, HashMap, HashSet, get, get_list, add, contains, string_eq, List, [], ◌∷◌,
  ◌==◌, if◌then◌else◌, ok, err, ◌≡◌, refl, arith, get-insert, contains-add, Bool-cases, inl, inr,
}
use wacp_platform.Types.Records.{WorkspaceId}
use wacp_platform.Coordinator.Visibility.{
  VisibilityGraph, grantor_cannot_see, new, or_default, register, add_entry, can_see, grant,
  grant_checked, visible_to, who_can_see,
}

get_list-or_default :
    (id w : String) (m : HashMap String (HashSet WorkspaceId))
    → get_list w (or_default id m) ≡ get_list w m
unfolding or_default
get_list-or_default id w m = ground (arith, get-insert id w [] m, string_eq.beq_iff id w)

contains-add_entry :
    (k w v x : String) (m : HashMap String (HashSet WorkspaceId))
    → contains (get_list w (add_entry k v m)) x ≡ (contains (get_list w m) x || (k == w && v == x))
unfolding add_entry
contains-add_entry k w v x m = ground (
  arith,
  get-insert k w (add v (get_list k m)) m,
  contains-add v x (get_list k m),
  string_eq.beq_iff k w,
)

-- The two maps hold the same edges.
pub IsMirrored : VisibilityGraph → Type 0
IsMirrored g =
    (v t : WorkspaceId) → contains (get_list v g.sees) t ≡ contains (get_list t g.seen_by) v

pub data Call : Type 0 where
  registers : WorkspaceId → Call
  grants : WorkspaceId → WorkspaceId → Call
  grants_checked : WorkspaceId → WorkspaceId → WorkspaceId → Call

unfoldable pub step : Call → VisibilityGraph → VisibilityGraph
step (registers id) g = register id g
step (grants v t) g = (grant v t g).0
step (grants_checked v t by) g = (grant_checked v t by g).0

unfoldable pub run : List Call → VisibilityGraph → VisibilityGraph
run [] g = g
run (x ∷ xs) g = run xs (step x g)

grant-IsMirrored :
    (viewer target : WorkspaceId) (g : VisibilityGraph)
    → IsMirrored g
    → IsMirrored (grant viewer target g).0
unfolding grant IsMirrored
grant-IsMirrored viewer target g h v t = ground (
  arith,
  h v t,
  h viewer target,
  contains-add_entry viewer v target t g.sees,
  contains-add_entry target t viewer v g.seen_by,
  string_eq.beq_iff viewer v,
  string_eq.beq_iff target t,
)

register-IsMirrored :
    (id : WorkspaceId) (g : VisibilityGraph) → IsMirrored g → IsMirrored (register id g)
unfolding register IsMirrored
register-IsMirrored id g h v t =
    ground (arith, h v t, get_list-or_default id v g.sees, get_list-or_default id t g.seen_by)

grant_checked-IsMirrored :
    (viewer target grantor : WorkspaceId) (g : VisibilityGraph)
    → IsMirrored g
    → IsMirrored (grant_checked viewer target grantor g).0
unfolding grant_checked
grant_checked-IsMirrored viewer target grantor g h = elim (Bool-cases (can_see grantor target g)) [
  | inl e ↦ rw e (grant-IsMirrored viewer target g h)
  | inr e ↦ rw e h
]

step-IsMirrored : (x : Call) (g : VisibilityGraph) → IsMirrored g → IsMirrored (step x g)
unfolding step
step-IsMirrored (registers id) g h = register-IsMirrored id g h
step-IsMirrored (grants viewer target) g h = grant-IsMirrored viewer target g h
step-IsMirrored (grants_checked viewer target by) g h =
    grant_checked-IsMirrored viewer target by g h

run-IsMirrored : (xs : List Call) (g : VisibilityGraph) → IsMirrored g → IsMirrored (run xs g)
unfolding run
run-IsMirrored [] g h = h
run-IsMirrored (x ∷ xs) g h = run-IsMirrored xs (step x g) (step-IsMirrored x g h)

new-IsMirrored : IsMirrored new
unfolding IsMirrored get
new-IsMirrored v t = refl

-- After any calls on a new graph, the three queries agree: `target` is in `visible_to viewer` exactly
-- if `can_see viewer target`, and exactly if `viewer` is in `who_can_see target`.
pub queries_agree :
    (xs : List Call) (viewer target : WorkspaceId)
    → (contains (visible_to viewer (run xs new)) target ≡ can_see viewer target (run xs new))
      × (contains (who_can_see target (run xs new)) viewer ≡ can_see viewer target (run xs new))
unfolding visible_to who_can_see can_see IsMirrored
queries_agree xs viewer target = (
  contains-add viewer target (get_list viewer (run xs new).sees),
  ground (
    arith,
    contains-add target viewer (get_list target (run xs new).seen_by),
    run-IsMirrored xs new new-IsMirrored viewer target,
    string_eq.beq_iff viewer target,
    string_eq.beq_iff target viewer,
  ),
)

-- A checked grant adds exactly the edge that it grants, if the grantor sees the target, and nothing
-- otherwise; it takes no visibility away, and it reports whether the edge is new, or the refusal.
pub grant_checked-can_see :
    (viewer target grantor v t : WorkspaceId) (g : VisibilityGraph)
    → (can_see v t (grant_checked viewer target grantor g).0
        ≡ (can_see v t g || (can_see grantor target g && (viewer == v && target == t))))
      × ((grant_checked viewer target grantor g).1 ≡ (
          if can_see grantor target g
          then ok (not (can_see viewer target g))
          else err (grantor_cannot_see target)))
unfolding grant_checked grant can_see
grant_checked-can_see viewer target grantor v t g = (
  ground (
    arith,
    contains-add_entry viewer v target t g.sees,
    string_eq.beq_iff viewer v,
    string_eq.beq_iff target t,
    string_eq.beq_iff viewer target,
    string_eq.beq_iff v t,
  ),
  ground arith,
)

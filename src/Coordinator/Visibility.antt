-- ===== src/Coordinator/Visibility.antt =====
-- wacp/crates/wacp-coordinator/src/visibility.rs: which workspace can read which.
pub mod Mirror
use wacp_platform.Prelude.{
  ℕ, ◌+◌, Bool, true, false, ◌||◌, not, String, HashMap, HashSet, get, insert, contains_key,
  get_list, add, contains, string_eq, List, [], ◌∷◌, ◌==◌, if◌then◌else◌, Result, ok, err, length,
  values,
}
use wacp_platform.Types.Records.{WorkspaceId}

pub data VisibilityError : Type 0 where
  grantor_cannot_see : WorkspaceId → VisibilityError

pub record VisibilityGraph : Type 0 where
  pub sees : HashMap String (HashSet WorkspaceId)
  pub seen_by : HashMap String (HashSet WorkspaceId)

abbrev pub new : VisibilityGraph
new = record { sees = []; seen_by = [] }

-- `entry(id).or_default()`.
unfoldable pub or_default :
    String → HashMap String (HashSet WorkspaceId) → HashMap String (HashSet WorkspaceId)
or_default id m = if contains_key id m then m else insert id [] m

unfoldable pub register : WorkspaceId → VisibilityGraph → VisibilityGraph
unfolding or_default
register id g = record { sees = or_default id g.sees; seen_by = or_default id g.seen_by }

-- `entry(k).or_default().insert(v)`.
unfoldable pub add_entry :
    String
    → WorkspaceId
    → HashMap String (HashSet WorkspaceId)
    → HashMap String (HashSet WorkspaceId)
add_entry k v m = insert k (add v (get_list k m)) m

-- The source names both this method and the map that it reads `can_see`.
unfoldable pub can_see : WorkspaceId → WorkspaceId → VisibilityGraph → Bool
can_see viewer target g = viewer == target || contains (get_list viewer g.sees) target

unfoldable pub grant : WorkspaceId → WorkspaceId → VisibilityGraph → VisibilityGraph × Bool
unfolding add_entry
grant viewer target g =
    if viewer == target
    then (g, false)
    else let newly_inserted = not (contains (get_list viewer g.sees) target) in
      (
        record {
          sees = add_entry viewer target g.sees;
          seen_by = if newly_inserted then add_entry target viewer g.seen_by else g.seen_by;
        },
        newly_inserted,
      )

unfoldable pub grant_checked :
    WorkspaceId
    → WorkspaceId
    → WorkspaceId
    → VisibilityGraph
    → VisibilityGraph × Result VisibilityError Bool
grant_checked viewer target grantor g =
    if not (can_see grantor target g)
    then (g, err (grantor_cannot_see target))
    else let (g', newly) = grant viewer target g in (g', ok newly)

unfoldable pub visible_to : WorkspaceId → VisibilityGraph → HashSet WorkspaceId
visible_to viewer g = add viewer (get_list viewer g.sees)

unfoldable pub who_can_see : WorkspaceId → VisibilityGraph → HashSet WorkspaceId
who_can_see target g = add target (get_list target g.seen_by)

abbrev pub total_length : List (HashSet WorkspaceId) → ℕ
total_length [] = 0
total_length (s ∷ ss) = length s + total_length ss

unfoldable pub grant_count : VisibilityGraph → ℕ
grant_count g = total_length (values g.sees)

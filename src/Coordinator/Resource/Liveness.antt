-- ===== src/Coordinator/Resource/Liveness.antt =====
-- The `LivenessMonitor` of wacp/crates/wacp-coordinator/src/resource.rs.
pub mod Activity
use wacp_platform.Prelude.{
  ℕ, ◌-◌, ◌<◌, ◌≤◌, Bool, true, false, ◌&&◌, ◌||◌, not, String, Option, none, some, List, [], ◌∷◌,
  if◌then◌else◌, ltb, leb, ◌≡◌, arith, HashMap, get, insert, remove, modify, contains, string_eq,
  ◌==◌, get-insert, get-remove, get-modify, contains_key, Bool-cases, inl, inr, is_some,
}
use wacp_platform.Types.Records.{WorkspaceId}

pub record LivenessMonitor : Type 0 where
  pub last_activity : HashMap String ℕ
  pub interval_ms : ℕ

abbrev pub new : ℕ → LivenessMonitor
new interval_ms = record { last_activity = []; interval_ms = interval_ms }

unfoldable pub register : WorkspaceId → ℕ → LivenessMonitor → LivenessMonitor
register id now_ms m = record m { last_activity = insert id now_ms m.last_activity }

unfoldable pub record_activity : WorkspaceId → ℕ → LivenessMonitor → LivenessMonitor
record_activity id now_ms m = record m { last_activity = insert id now_ms m.last_activity }

-- The `filter_map` of `check_inactive`.
unfoldable pub inactive : ℕ → ℕ → HashMap String ℕ → List WorkspaceId
inactive interval_ms now_ms [] = []
inactive interval_ms now_ms ((id, last) ∷ m) =
    let rest = inactive interval_ms now_ms m in
    if leb interval_ms (now_ms - last) then id ∷ rest else rest

unfoldable pub check_inactive : ℕ → LivenessMonitor → List WorkspaceId
check_inactive now_ms m =
    if not (ltb 0 m.interval_ms) then [] else inactive m.interval_ms now_ms m.last_activity

-- The source's `remove`.
unfoldable pub forget : WorkspaceId → LivenessMonitor → LivenessMonitor
forget id m = record m { last_activity = remove id m.last_activity }

unfoldable pub reset_activity : WorkspaceId → ℕ → LivenessMonitor → LivenessMonitor
reset_activity id now_ms m = record m { last_activity = modify id (λ _. now_ms) m.last_activity }

unfoldable pub is_enabled : LivenessMonitor → Bool
is_enabled m = ltb 0 m.interval_ms

-- ===== src/Coordinator/Resource/Timeouts.antt =====
-- The `TimeoutTracker` of wacp/crates/wacp-coordinator/src/resource.rs. Times are milliseconds in a
-- `u64`; a sum wraps, as it does in a release build.
use wacp_platform.Prelude.{
  ℕ, ◌+◌, ◌-◌, ◌%◌, ◌^◌, Bool, true, false, ◌&&◌, not, String, none, some, HashMap, get, insert,
  remove, modify, string_eq, nat_eq, List, [], ◌∷◌, ◌==◌, if◌then◌else◌, leb,
}
use wacp_platform.Types.Enums.{WorkspaceState}
use wacp_platform.Types.Enums.WorkspaceState.{active, blocked, conflicted}
use wacp_platform.Types.Records.{WorkspaceId}

abbrev pub u64_add : ℕ → ℕ → ℕ
u64_add a b = (a + b) % 2 ^ 64

unfoldable pub is_timer_active : WorkspaceState → Bool
is_timer_active active = true
is_timer_active blocked = true
is_timer_active conflicted = true
is_timer_active _ = false

pub record TimeoutEntry : Type 0 where
  pub elapsed : ℕ
  pub limit : ℕ
  pub running : Bool
  pub last_resume : ℕ

pub record TimeoutTracker : Type 0 where
  pub entries : HashMap String TimeoutEntry

abbrev pub new : TimeoutTracker
new = record { entries = [] }

unfoldable pub register : WorkspaceId → ℕ → TimeoutTracker → TimeoutTracker
register id limit t = record {
  entries =
      insert id (record { elapsed = 0; limit = limit; running = false; last_resume = 0 }) t.entries;
}

-- What `on_state_change` does to the entry. `-` stops at 0, as `saturating_sub` does.
unfoldable pub change_entry : Bool → ℕ → TimeoutEntry → TimeoutEntry
change_entry should_run now entry =
    if should_run && not entry.running
    then record entry { running = true; last_resume = now }
    else if not should_run && entry.running
    then record entry { elapsed = u64_add entry.elapsed (now - entry.last_resume); running = false }
    else entry

unfoldable pub on_state_change : WorkspaceId → WorkspaceState → ℕ → TimeoutTracker → TimeoutTracker
unfolding change_entry is_timer_active
on_state_change id new_state now t = record {
  entries = modify id (change_entry (is_timer_active new_state) now) t.entries;
}

unfoldable pub extend : WorkspaceId → ℕ → TimeoutTracker → TimeoutTracker
extend id additional t = record {
  entries = modify id (λ entry. record entry { limit = u64_add entry.limit additional }) t.entries;
}

unfoldable pub entry_elapsed : ℕ → TimeoutEntry → ℕ
entry_elapsed now entry =
    if entry.running then u64_add entry.elapsed (now - entry.last_resume) else entry.elapsed

unfoldable pub elapsed_ms : WorkspaceId → ℕ → TimeoutTracker → ℕ
unfolding entry_elapsed
elapsed_ms id now t = elim (get id t.entries) [ none ↦ 0 | some entry ↦ entry_elapsed now entry ]

-- The test of `check_expired`.
unfoldable pub is_expired : ℕ → TimeoutEntry → Bool
unfolding entry_elapsed
is_expired now entry = if entry.limit == 0 then false else leb entry.limit (entry_elapsed now entry)

unfoldable pub expired_ids : ℕ → HashMap String TimeoutEntry → List WorkspaceId
expired_ids now [] = []
expired_ids now ((id, entry) ∷ m) =
    let rest = expired_ids now m in if is_expired now entry then id ∷ rest else rest

unfoldable pub check_expired : ℕ → TimeoutTracker → List WorkspaceId
unfolding expired_ids is_expired
check_expired now t = expired_ids now t.entries

unfoldable pub remove_entry : WorkspaceId → TimeoutTracker → TimeoutTracker
remove_entry id t = record { entries = remove id t.entries }

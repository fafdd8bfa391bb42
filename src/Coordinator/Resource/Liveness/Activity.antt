-- ===== src/Coordinator/Resource/Liveness/Activity.antt =====
-- The reports of the liveness monitor (resource.rs) after any calls.
use wacp_platform.Prelude.{
  ℕ, ◌-◌, ◌<◌, Bool, true, false, ◌&&◌, String, Option, none, some, List, [], ◌∷◌, if◌then◌else◌,
  leb, ◌≡◌, arith, HashMap, get, insert, remove, modify, contains, string_eq, ◌==◌, get-insert,
  get-remove, get-modify, Bool-cases, inl, inr, is_some, refl,
}
use wacp_platform.Types.Records.{WorkspaceId}
use wacp_platform.Coordinator.Resource.Liveness.{
  LivenessMonitor, new, register, record_activity, inactive, check_inactive, forget, reset_activity,
}

pub data Call : Type 0 where
  registered recorded restarted : WorkspaceId → ℕ → Call
  forgotten : WorkspaceId → Call

unfoldable pub step : Call → LivenessMonitor → LivenessMonitor
step (registered id t) m = register id t m
step (recorded id t) m = record_activity id t m
step (restarted id t) m = reset_activity id t m
step (forgotten id) m = forget id m

unfoldable pub run : List Call → LivenessMonitor → LivenessMonitor
unfolding step
run [] m = m
run (c ∷ cs) m = run cs (step c m)

-- The last activity of one workspace, followed through the calls without the monitor.
abbrev pub follow : WorkspaceId → Call → Option ℕ → Option ℕ
follow w (registered id t) last = if id == w then some t else last
follow w (recorded id t) last = if id == w then some t else last
follow w (restarted id t) last = if id == w && is_some last then some t else last
follow w (forgotten id) last = if id == w then none else last

abbrev pub follow_all : WorkspaceId → List Call → Option ℕ → Option ℕ
follow_all w [] last = last
follow_all w (c ∷ cs) last = follow_all w cs (follow w c last)

abbrev pub is_late : ℕ → ℕ → Option ℕ → Bool
is_late interval_ms now_ms none = false
is_late interval_ms now_ms (some last) = leb interval_ms (now_ms - last)

-- No key is bound twice.
IsDistinct : HashMap String ℕ → Type 0
IsDistinct [] = ◌≡◌ true true
IsDistinct ((k, _) ∷ m) = (get k m ≡ none) × IsDistinct m

insert-IsDistinct :
    (k : String) (v : ℕ) (m : HashMap String ℕ) → IsDistinct m → IsDistinct (insert k v m)
unfolding IsDistinct insert get
insert-IsDistinct k v [] d = (refl, d)
insert-IsDistinct k v ((j, w) ∷ m) (fresh, d) =
    let ih = insert-IsDistinct k v m d in
    elim (Bool-cases (j == k)) [
      | inl same ↦ ground (arith)
      | inr other ↦
          ground (arith, ih, get-insert k j v m, string_eq.beq_iff j k, string_eq.beq_iff k j)
    ]

remove-IsDistinct : (k : String) (m : HashMap String ℕ) → IsDistinct m → IsDistinct (remove k m)
unfolding IsDistinct remove
remove-IsDistinct k [] d = d
remove-IsDistinct k ((j, w) ∷ m) (fresh, d) =
    let ih = remove-IsDistinct k m d in ground (arith, ih, get-remove k j m)

modify-IsDistinct :
    (k : String) (f : ℕ → ℕ) (m : HashMap String ℕ) → IsDistinct m → IsDistinct (modify k f m)
unfolding IsDistinct modify
modify-IsDistinct k f [] d = d
modify-IsDistinct k f ((j, w) ∷ m) (fresh, d) =
    let ih = modify-IsDistinct k f m d in
    ground (arith, ih, get-modify k j f m, string_eq.beq_iff j k, string_eq.beq_iff k j)

contains-inactive :
    (i now : ℕ) (m : HashMap String ℕ) (w : WorkspaceId)
    → IsDistinct m
    → contains (inactive i now m) w ≡ is_late i now (get w m)
unfolding IsDistinct inactive get
contains-inactive i now [] w d = refl
contains-inactive i now ((k, last) ∷ m) w (fresh, d) =
    let ih = contains-inactive i now m w d in ground (arith, ih, string_eq.beq_iff k w)

step-follow :
    (c : Call) (m : LivenessMonitor) (w : WorkspaceId)
    → get w (step c m).last_activity ≡ follow w c (get w m.last_activity)
unfolding step register record_activity reset_activity forget
step-follow (registered id t) m w = get-insert id w t m.last_activity
step-follow (recorded id t) m w = get-insert id w t m.last_activity
step-follow (restarted id t) m w = ground (arith, get-modify id w (λ _. t) m.last_activity)
step-follow (forgotten id) m w = get-remove id w m.last_activity

step-IsDistinct :
    (c : Call) (m : LivenessMonitor)
    → IsDistinct m.last_activity
    → IsDistinct (step c m).last_activity
unfolding step register record_activity reset_activity forget
step-IsDistinct (registered id t) m d = insert-IsDistinct id t m.last_activity d
step-IsDistinct (recorded id t) m d = insert-IsDistinct id t m.last_activity d
step-IsDistinct (restarted id t) m d = modify-IsDistinct id (λ _. t) m.last_activity d
step-IsDistinct (forgotten id) m d = remove-IsDistinct id m.last_activity d

step-interval : (c : Call) (m : LivenessMonitor) → (step c m).interval_ms ≡ m.interval_ms
unfolding step register record_activity reset_activity forget
step-interval (registered id t) m = refl
step-interval (recorded id t) m = refl
step-interval (restarted id t) m = refl
step-interval (forgotten id) m = refl

run-late :
    (cs : List Call) (m : LivenessMonitor) (now : ℕ) (w : WorkspaceId)
    → 0 < m.interval_ms
    → IsDistinct m.last_activity
    → contains (check_inactive now (run cs m)) w
      ≡ is_late m.interval_ms now (follow_all w cs (get w m.last_activity))
unfolding run check_inactive
run-late [] m now w on d = ground (arith, contains-inactive m.interval_ms now m.last_activity w d)
run-late (c ∷ cs) m now w on d =
    let same = step-interval c m in
    let on' : 0 < (step c m).interval_ms = omega (arith, same) in
    let ih = run-late cs (step c m) now w on' (step-IsDistinct c m d) in
    grind (arith, ih, step-follow c m w, same)

-- After any calls on a new monitor with a non-zero interval, a workspace is reported inactive if and
-- only if it has a last activity, followed through those calls, that lies an interval or more back;
-- a workspace that is not registered, or was removed, is never reported, and a reset of one that is
-- not registered does not register it.
pub check_inactive-run :
    (cs : List Call) (interval_ms now : ℕ) (w : WorkspaceId)
    → 0 < interval_ms
    → contains (check_inactive now (run cs (new interval_ms))) w
      ≡ is_late interval_ms now (follow_all w cs none)
unfolding IsDistinct get
check_inactive-run cs interval_ms now w on = run-late cs (new interval_ms) now w on refl

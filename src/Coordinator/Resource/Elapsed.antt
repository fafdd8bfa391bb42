-- ===== src/Coordinator/Resource/Elapsed.antt =====
-- The elapsed time of the timeout tracker (resource.rs) over a timeline of state changes.
use wacp_platform.Prelude.{
  ℕ, ◌+◌, ◌-◌, ◌^◌, ◌≤◌, ◌<◌, Bool, false, some, get, string_eq, nat_eq, List, [], ◌∷◌,
  if◌then◌else◌, ◌≡◌, arith, get-insert, get-modify, beq_refl, ap, ◌∙◌,
}
use wacp_platform.Types.Enums.{WorkspaceState}
use wacp_platform.Types.Records.{WorkspaceId}
use wacp_platform.Coordinator.Resource.Timeouts.{
  TimeoutEntry, TimeoutTracker, is_timer_active, register, change_entry, on_state_change,
  entry_elapsed, elapsed_ms,
}

-- State changes with their times, oldest first.
abbrev pub Timeline : Type 0
Timeline = List (ℕ × WorkspaceState)

-- The times rise, from `start` to `end`.
abbrev pub IsTimeline : ℕ → Timeline → ℕ → Type 0
IsTimeline start [] end = start ≤ end
IsTimeline start ((t, s) ∷ es) end = (start ≤ t) × IsTimeline t es end

-- The time that the timeline spends in timer-active states, segment by segment; `on` says whether the
-- state before the first change is one.
pub active_time : Bool → ℕ → Timeline → ℕ → ℕ
active_time on start [] end = if on then end - start else 0
active_time on start ((t, s) ∷ es) end =
    (if on then t - start else 0) + active_time (is_timer_active s) t es end

unfoldable pub replay : WorkspaceId → Timeline → TimeoutTracker → TimeoutTracker
replay id [] t = t
replay id ((now, s) ∷ es) t = replay id es (on_state_change id s now t)

-- The same for the entry alone.
replay_entry : Timeline → TimeoutEntry → TimeoutEntry
replay_entry [] e = e
replay_entry ((now, s) ∷ es) e = replay_entry es (change_entry (is_timer_active s) now e)

get-replay :
    (id : WorkspaceId) (es : Timeline) (t : TimeoutTracker) (e : TimeoutEntry)
    → get id t.entries ≡ some e
    → get id (replay id es t).entries ≡ some (replay_entry es e)
unfolding replay replay_entry on_state_change
get-replay id [] t e h = h
get-replay id ((now, s) ∷ es) t e h =
    get-replay id es (on_state_change id s now t) (change_entry (is_timer_active s) now e) (
      ground (
        arith,
        get-modify id id (change_entry (is_timer_active s) now) t.entries,
        beq_refl {K = WorkspaceId} id,
      ))

-- What the entry has measured up to `now`.
abbrev measured : ℕ → TimeoutEntry → ℕ
measured now e = e.elapsed + (if e.running then now - e.last_resume else 0)

-- The entry is one that could have been written by the time `now`.
abbrev IsPast : ℕ → TimeoutEntry → Type 0
IsPast now e = (measured now e ≤ now) × ((if e.running then e.last_resume else 0) ≤ now)

change-IsPast :
    (on : Bool) (start now : ℕ) (e : TimeoutEntry)
    → now < 2 ^ 64
    → start ≤ now
    → IsPast start e
    → IsPast now (change_entry on now e)
      × (measured now (change_entry on now e)
          ≡ measured start e + (if e.running then now - start else 0))
      × ((change_entry on now e).running ≡ on)
unfolding change_entry
change-IsPast on start now e b h p = ground arith

timeline_le : (start : ℕ) (es : Timeline) (end : ℕ) → IsTimeline start es end → start ≤ end
timeline_le start [] end h = h
timeline_le start ((t, s) ∷ es) end h = omega (arith, timeline_le t es end h.1)

replay_entry-elapsed :
    (start : ℕ) (es : Timeline) (end : ℕ) (e : TimeoutEntry)
    → end < 2 ^ 64
    → IsTimeline start es end
    → IsPast start e
    → entry_elapsed end (replay_entry es e) ≡ measured start e + active_time e.running start es end
unfolding replay_entry entry_elapsed active_time
replay_entry-elapsed start [] end e b h p = ground arith
replay_entry-elapsed start ((t, s) ∷ es) end e b h p =
    let le = timeline_le t es end h.1 in
    let step = change-IsPast (is_timer_active s) start t e (omega arith) h.0 p in
    let ih = replay_entry-elapsed t es end (change_entry (is_timer_active s) t e) b h.1 step.0 in
    ih ∙ omega (arith, step.1, ap (λ on. active_time on t es end) step.2)

-- A workspace that is registered with a limit and then goes through a timeline of state changes has
-- as its elapsed time just the time that it spent in timer-active states, as long as times fit 64 bits.
pub elapsed-active_time :
    (id : WorkspaceId) (limit : ℕ) (es : Timeline) (end : ℕ) (t : TimeoutTracker)
    → end < 2 ^ 64
    → IsTimeline 0 es end
    → elapsed_ms id end (replay id es (register id limit t)) ≡ active_time false 0 es end
unfolding elapsed_ms register
elapsed-active_time id limit es end t b h =
    let e : TimeoutEntry = record {
      elapsed = 0;
      limit = limit;
      running = false;
      last_resume = 0;
    } in
    let start : get id (register id limit t).entries ≡ some e =
      get-insert id id e t.entries ∙ rw (beq_refl {K = WorkspaceId} id) in
    rw (get-replay id es (register id limit t) e start, elapsed_ms)
      (omega (arith, replay_entry-elapsed 0 es end e b h (omega arith, omega arith)))

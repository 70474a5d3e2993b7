-- ===== src/Scheduler/MissedRuns/Window.antt =====
-- When a run counts as missed.
use rbackup.Base.{◌≡◌, inl, inr, true, Option, some, arith, unwrap_or, Option-cases, ◌↔◌, string_eq}
use rbackup.Base.Int.{ℤ, pos, ◌+ℤ◌, ◌<ℤ◌, ◌≤ℤ◌, int_laws}
use rbackup.Models.{DateTime, Schedule}
use rbackup.Scheduler.ScheduleCalc.{is_due}
use rbackup.Scheduler.MissedRuns.{minutes, is_run_missed}

-- A run is missed exactly where the schedule has a next time that lies more than the grace period,
-- five minutes where none is given, before now.
pub is_run_missed_iff :
    {Json : Type 0} (s : Schedule Json) (now : DateTime) (grace : Option ℤ)
    → (is_run_missed s now grace ≡ true) ↔ (
        (t : DateTime) × (s.next_run_at ≡ some t) × (t +ℤ minutes (unwrap_or grace (pos 5)) <ℤ now))
unfolding is_run_missed
is_run_missed_iff s now grace = elim (Option-cases s.next_run_at) [
  | inl absent ↦ ground arith
  | inr (t, given) ↦ (λ h. (t, given, ground arith), λ (u, e, late). ground arith)
]

-- A missed run is due, unless the grace period is negative.
pub is_due_of_missed :
    {Json : Type 0} (s : Schedule Json) (now : DateTime) (grace : Option ℤ)
    → pos 0 ≤ℤ unwrap_or grace (pos 5)
    → is_run_missed s now grace ≡ true
    → is_due s now ≡ true
unfolding is_due minutes
is_due_of_missed s now grace h missed =
    let (t, given, late) = (is_run_missed_iff s now grace).0 missed in
    let early : t ≤ℤ now = omega int_laws in ground arith

-- ===== src/Scheduler/ScheduleCalc/NextRun.antt =====
-- What `calculate_next_run` returns, and when it fails.
use text.Mathlib.TextEquality.{eq_iff}
use rbackup.Base.{
  ◌+◌, ◌≢◌, sym, ◌∙◌, Option-cases, ◌*◌, ◌-◌, ◌^◌, ◌≡◌, ◌↔◌, refl, ◌⊎◌, inl, inr, String, ◌<>◌,
  true, false, Option, some, arith, unwrap_or, string_eq,
}
use rbackup.Base.Int.{ℤ, pos, pos_part, neg_part, ◌+ℤ◌, ◌<ℤ◌, ◌≤ℤ◌, scale_parts, int_laws}
use rbackup.Error.{ok}
use rbackup.Models.{DateTime, Schedule}
use rbackup.Scheduler.ScheduleCalc.{
  Cron, IsLater, nanos, seconds, calculate_next_run, calculate_next_cron_run,
  calculate_next_interval_run, is_due, parse_and_advance,
}

module _ {Json : Type 0} (cron : Cron) (s : Schedule Json) where
  -- The next time, as the two kinds of schedule promise it.
  pub data NextRun (last : Option DateTime) (now t : DateTime) : Type 0 where
    by_cron :
        (e : String) (c : cron.CronSchedule)
        → s.schedule_type ≡ "cron"
        → s.cron_expression ≡ some e
        → cron.from_str ("0 " <> e) ≡ inr c
        → cron.next_after c now ≡ some t
        → NextRun last now t
    by_interval :
        (k : ℤ)
        → s.schedule_type ≡ "interval"
        → s.interval_seconds ≡ some k
        → pos 0 <ℤ k
        → t ≡ unwrap_or last now +ℤ seconds k
        → NextRun last now t

pub seconds_parts :
    (k : ℤ) → pos_part (seconds k) + nanos * neg_part k ≡ neg_part (seconds k) + nanos * pos_part k
unfolding seconds
seconds_parts k = scale_parts nanos k

interval-ne-cron : ◌≢◌ {A = String} "interval" "cron"
interval-ne-cron = ground (arith, eq_iff "interval" "cron")

module _ {SqlxError Json : Type 0} (cron : Cron) (s : Schedule Json) where
  parse_and_advance-ok :
      (r : String ⊎ cron.CronSchedule) (now t : DateTime)
      → parse_and_advance {SqlxError = SqlxError} cron r now ≡ ok t
      → (c : cron.CronSchedule) × (r ≡ inr c) × (cron.next_after c now ≡ some t)
  unfolding parse_and_advance
  parse_and_advance-ok (inl e) now t h = cc
  parse_and_advance-ok (inr c) now t h = (c, refl, ground arith)

  cron-NextRun :
      (last : Option DateTime) (now t : DateTime)
      → s.schedule_type ≡ "cron"
      → calculate_next_cron_run {SqlxError = SqlxError} cron s now ≡ ok t
      → NextRun cron s last now t
  unfolding calculate_next_cron_run
  cron-NextRun last now t kind h = elim (Option-cases s.cron_expression) [
    | inl missing ↦ ground arith
    | inr (e, given) ↦
        let (c, parsed, next) =
          parse_and_advance-ok (cron.from_str ("0 " <> e)) now t (ground arith) in
        by_cron e c kind given parsed next
  ]

  interval-NextRun :
      (last : Option DateTime) (now t : DateTime)
      → s.schedule_type ≡ "interval"
      → calculate_next_interval_run {SqlxError = SqlxError} s last now ≡ ok t
      → NextRun cron s last now t
  unfolding calculate_next_interval_run
  interval-NextRun last now t kind h = elim (Option-cases s.interval_seconds) [
    | inl missing ↦ ground arith
    | inr (k, given) ↦ by_interval k kind given (ground arith) (ground arith)
  ]

  at_cron :
      (last : Option DateTime) (now : DateTime)
      → s.schedule_type ≡ "cron"
      → calculate_next_run {SqlxError = SqlxError} cron s last now
        ≡ calculate_next_cron_run cron s now
  unfolding calculate_next_run
  at_cron last now h = ground arith

  at_interval :
      (last : Option DateTime) (now : DateTime)
      → s.schedule_type ≡ "interval"
      → calculate_next_run {SqlxError = SqlxError} cron s last now
        ≡ calculate_next_interval_run s last now
  unfolding calculate_next_run
  at_interval last now h = ground (arith, interval-ne-cron)

  at_neither :
      (last : Option DateTime) (now t : DateTime)
      → s.schedule_type ≢ "cron"
      → s.schedule_type ≢ "interval"
      → calculate_next_run {SqlxError = SqlxError} cron s last now ≢ ok t
  unfolding calculate_next_run
  at_neither last now t not_cron not_interval = ground arith

  sound :
      (last : Option DateTime) (now t : DateTime)
      → calculate_next_run {SqlxError = SqlxError} cron s last now ≡ ok t
      → NextRun cron s last now t
  sound last now t h = elim (string_eq.dec s.schedule_type "cron") [
    | yes kind ↦ cron-NextRun last now t kind (sym (at_cron last now kind) ∙ h)
    | no not_cron ↦ elim (string_eq.dec s.schedule_type "interval") [
      | yes kind ↦ interval-NextRun last now t kind (sym (at_interval last now kind) ∙ h)
      | no not_interval ↦ absurd (at_neither last now t not_cron not_interval h)
    ]
  ]

  complete :
      (last : Option DateTime) (now t : DateTime)
      → NextRun cron s last now t
      → calculate_next_run {SqlxError = SqlxError} cron s last now ≡ ok t
  unfolding calculate_next_cron_run calculate_next_interval_run
  complete last now t (by_cron e c kind given parsed next) = at_cron last now kind ∙ ground arith
  complete last now t (by_interval k kind given positive e) =
      at_interval last now kind ∙ ground arith

  -- `calculate_next_run` returns `t` exactly where the schedule promises it: a cron schedule whose
  -- expression parses and has a next time after `now`, or an interval schedule with a positive
  -- interval, counted from the last run, or from `now` where there is none.
  pub calculate_next_run_iff :
      (last : Option DateTime) (now t : DateTime)
      → (calculate_next_run {SqlxError = SqlxError} cron s last now ≡ ok t)
        ↔ NextRun cron s last now t
  calculate_next_run_iff last now t = (sound last now t, complete last now t)

module _ {Json : Type 0} (cron : Cron) (s : Schedule Json) where
  NextRun-later :
      (last : Option DateTime) (now t : DateTime)
      → IsLater cron
      → unwrap_or last now ≡ now
      → NextRun cron s last now t
      → now <ℤ t
  NextRun-later last now t law fresh (by_cron e c kind given parsed next) = law c now t next
  NextRun-later last now t law fresh (by_interval k kind given positive e) =
      rw (e, fresh) (omega (int_laws, seconds_parts k))

module _ {SqlxError Json : Type 0} (cron : Cron) (s : Schedule Json) where
  -- A schedule whose last run is now, or that never ran, is given a time after now: with that time
  -- as its next run it is not due now. The `cron` crate's times are taken to be later than asked.
  pub is_due-calculate_next_run :
      (last : Option DateTime) (now t : DateTime)
      → IsLater cron
      → unwrap_or last now ≡ now
      → calculate_next_run {SqlxError = SqlxError} cron s last now ≡ ok t
      → (now <ℤ t) × (is_due (record s { next_run_at = some t }) now ≡ false)
  unfolding is_due
  is_due-calculate_next_run last now t law fresh h =
      let later = NextRun-later cron s last now t law fresh (sound cron s last now t h) in
      (later, ground arith)

  -- An interval of `i32` seconds puts the next run at most 2^31 - 1 seconds behind the last one, or
  -- behind now.
  pub calculate_next_run_bound :
      (last : Option DateTime) (now t : DateTime) {k : ℤ}
      → s.schedule_type ≡ "interval"
      → s.interval_seconds ≡ some k
      → k <ℤ pos (2 ^ 31)
      → calculate_next_run {SqlxError = SqlxError} cron s last now ≡ ok t
      → (unwrap_or last now <ℤ t) × (t ≤ℤ unwrap_or last now +ℤ pos ((2 ^ 31 - 1) * nanos))
  calculate_next_run_bound last now t {k} kind given fits h = bounds (sound cron s last now t h)
    where
      bounds :
          NextRun cron s last now t
          → (unwrap_or last now <ℤ t) × (t ≤ℤ unwrap_or last now +ℤ pos ((2 ^ 31 - 1) * nanos))
      bounds (by_cron e c kind' given' parsed next) = absurd (interval-ne-cron (sym kind ∙ kind'))
      bounds (by_interval k' kind' given' positive e) =
          let same : k' ≡ k = ground arith in
          rw (e, same)
            (let positive' : pos 0 <ℤ k = rw same at positive in omega (int_laws, seconds_parts k))

-- Time does not undo that a schedule is due.
pub is_due_mono :
    {Json : Type 0} (s : Schedule Json) (now later : DateTime)
    → now ≤ℤ later
    → is_due s now ≡ true
    → is_due s later ≡ true
unfolding is_due
is_due_mono s now later h due = ground arith

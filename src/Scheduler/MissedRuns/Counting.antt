-- ===== src/Scheduler/MissedRuns/Counting.antt =====
-- The number of missed runs against the times that the schedule gives.
use native.Mathlib.Nat.{div-add-mod, mod-lt}
use rbackup.Base.{
  ℕ, zero, suc, ◌+◌, ◌-◌, ◌*◌, ◌/◌, ◌^◌, ◌<◌, ◌≤◌, ◌≡◌, refl, ap, ◌∙◌, ◌⊎◌, inl, inr, Option, some,
  arith, or_else, string_eq, if◌then◌else◌,
}
use rbackup.Base.Int.{
  pos, pos_part, neg_part, ◌+ℤ◌, ◌-ℤ◌, ◌<ℤ◌, ◌≤ℤ◌, leb_ℤ, scale, quot, int_laws, eq_of_parts,
}
use rbackup.Error.{ok, err}
use rbackup.Models.{DateTime, Schedule}
use rbackup.Scheduler.ScheduleCalc.{Cron, nanos, seconds, calculate_next_run}
use rbackup.Scheduler.ScheduleCalc.NextRun.{seconds_parts, by_interval, calculate_next_run_iff}
use rbackup.Scheduler.MissedRuns.{num_seconds, as_usize, missed_since, count_missed_interval_runs}

-- The whole multiples of `k` seconds in `e` nanoseconds.
quotient_bounds :
    (e k : ℕ) → 0 < k → (e / nanos / k * k * nanos ≤ e) × (e < (e / nanos / k + 1) * k * nanos)
quotient_bounds e k h = omega (arith, div-add-mod (e / nanos) k, mod-lt (e / nanos) h)

quotient_pos : (q e k : ℕ) → k * nanos ≤ e → e < (q + 1) * k * nanos → 0 < q
quotient_pos zero e k low high = omega arith
quotient_pos (suc q) e k low high = omega arith

-- The elapsed time between two instants, in nanoseconds, where the first is not the later one.
abbrev gap : DateTime → DateTime → ℕ
gap earlier later = pos_part (later -ℤ earlier)

-- `chrono` keeps a duration within the milliseconds of an `i64`.
abbrev pub duration_limit : ℕ
duration_limit = 2 ^ 63 * 1000000

missed_since_few :
    (k : ℕ) (last now : DateTime)
    → now <ℤ last +ℤ pos (k * nanos)
    → missed_since (pos k) last now ≡ 0
unfolding missed_since ◌+ℤ◌ scale
missed_since_few k last now h = ground arith

as_usize_small : (n : ℕ) → n < 2 ^ 63 → as_usize (pos n) ≡ n
unfolding as_usize
as_usize_small n h = omega arith

quot-le : (m k : ℕ) → 0 < k → m / k ≤ m
quot-le m k h = grind arith

elapsed-gap : (last now : DateTime) → last ≤ℤ now → now -ℤ last ≡ pos (gap last now)
unfolding ◌-ℤ◌
elapsed-gap last now h = ground arith

gap_parts :
    (last now : DateTime)
    → last ≤ℤ now
    → gap last now + pos_part last + neg_part now ≡ pos_part now + neg_part last
unfolding ◌-ℤ◌
gap_parts last now h = ground arith

missed_since_many :
    (k : ℕ) (last now : DateTime)
    → 0 < k
    → last +ℤ pos (k * nanos) ≤ℤ now
    → now <ℤ last +ℤ pos duration_limit
    → missed_since (pos k) last now ≡ gap last now / nanos / k - 1
unfolding missed_since num_seconds quot seconds scale
missed_since_many k last now positive h fits =
    let whole : last ≤ℤ now = omega int_laws in
    let parts = gap_parts last now whole in
    let enough : k * nanos ≤ gap last now = omega int_laws in
    let small : gap last now < duration_limit = omega int_laws in
    rw (elapsed-gap last now whole) (
      ground (
        arith,
        quot-le (gap last now / nanos) k positive,
        as_usize_small (gap last now / nanos / k),
      ))

-- What a count of `n` says about the time since the last run.
abbrev pub CountFits : ℕ → ℕ → DateTime → DateTime → Type 0
CountFits k n last now =
    ((n ≡ 0) × (now <ℤ last +ℤ pos (2 * k * nanos)))
    ⊎ ((0 < n)
        × (last +ℤ pos ((n + 1) * k * nanos) ≤ℤ now)
        × (now <ℤ last +ℤ pos ((n + 2) * k * nanos)))

CountFits-quotient :
    (k q n : ℕ) (last now : DateTime)
    → n ≡ q - 1
    → 0 < q
    → last +ℤ pos (q * k * nanos) ≤ℤ now
    → now <ℤ last +ℤ pos ((q + 1) * k * nanos)
    → CountFits k n last now
CountFits-quotient k zero n last now e h low high = elim h [ ]
CountFits-quotient k (suc zero) n last now e h low high = inl (omega arith, omega int_laws)
CountFits-quotient k (suc (suc q)) n last now e h low high =
    let same : n ≡ suc q = omega arith in
    rw same (inr (omega arith, omega int_laws, omega int_laws))

lt_or_le : (a b : DateTime) → (a <ℤ b) ⊎ (b ≤ℤ a)
lt_or_le a b = omega arith

missed_since-CountFits :
    (k : ℕ) (last now : DateTime)
    → 0 < k
    → now <ℤ last +ℤ pos duration_limit
    → CountFits k (missed_since (pos k) last now) last now
missed_since-CountFits k last now positive fits = elim (lt_or_le now (last +ℤ pos (k * nanos))) [
  | inl early ↦ rw (missed_since_few k last now early) (inl (refl, omega int_laws))
  | inr late ↦
      let whole : last ≤ℤ now = omega int_laws in
      let parts = gap_parts last now whole in
      let (low, high) = quotient_bounds (gap last now) k positive in
      CountFits-quotient k (gap last now / nanos / k) _ last now
        (missed_since_many k last now positive late fits)
        (quotient_pos (gap last now / nanos / k) (gap last now) k (omega int_laws) high)
        (omega int_laws) (omega int_laws)
]

module _ {Json : Type 0} (s : Schedule Json) (last_run : Option DateTime) where
  count-missed_since :
      (k : ℕ) (last now : DateTime)
      → 0 < k
      → s.schedule_type ≡ "interval"
      → s.interval_seconds ≡ some (pos k)
      → or_else last_run s.last_run_at ≡ some last
      → count_missed_interval_runs s last_run now ≡ missed_since (pos k) last now
  unfolding count_missed_interval_runs
  count-missed_since k last now positive kind given known = ground arith

  -- For an interval schedule of `k` seconds whose last run is known, from the argument or else from
  -- the schedule, the count `n` is 0 while fewer than two intervals have passed since that run. From
  -- two intervals on, `n + 1` intervals have passed since then and `n + 2` have not. The elapsed time
  -- has to be one that `chrono` can hold.
  pub count_missed_bounds :
      (k : ℕ) (last now : DateTime)
      → 0 < k
      → s.schedule_type ≡ "interval"
      → s.interval_seconds ≡ some (pos k)
      → or_else last_run s.last_run_at ≡ some last
      → now <ℤ last +ℤ pos duration_limit
      → CountFits k (count_missed_interval_runs s last_run now) last now
  count_missed_bounds k last now positive kind given known fits =
      rw (count-missed_since k last now positive kind given known)
        (missed_since-CountFits k last now positive fits)

-- The count in terms of the steps of the scheduler: from the last run on, `calculate_next_run` is
-- applied as long as it gives times up to now.
module _ (SqlxError : Type 0) {Json : Type 0} (cron : Cron) (s : Schedule Json)
    (now : DateTime) where
  unfoldable pub runs_up_to_now : ℕ → DateTime → ℕ
  runs_up_to_now zero last = 0
  runs_up_to_now (suc fuel) last =
      elim (calculate_next_run {SqlxError = SqlxError} cron s (some last) now) [
        | ok next ↦ if leb_ℤ next now then suc (runs_up_to_now fuel next) else 0
        | err e ↦ 0
      ]

  next_of_interval :
      (k : ℕ) (last : DateTime)
      → 0 < k
      → s.schedule_type ≡ "interval"
      → s.interval_seconds ≡ some (pos k)
      → calculate_next_run {SqlxError = SqlxError} cron s (some last) now
        ≡ ok (last +ℤ pos (k * nanos))
  next_of_interval k last positive kind given =
      (calculate_next_run_iff cron s (some last) now (last +ℤ pos (k * nanos))).1 (
        by_interval (pos k) kind given (omega arith) (
          ap (λ d. last +ℤ d)
            (eq_of_parts (pos (k * nanos)) (seconds (pos k))
              (omega (arith, seconds_parts (pos k))))))

  runs_up_to_now_lem :
      (k fuel q : ℕ) (last : DateTime)
      → 0 < k
      → s.schedule_type ≡ "interval"
      → s.interval_seconds ≡ some (pos k)
      → q ≤ fuel
      → last +ℤ pos (q * k * nanos) ≤ℤ now
      → now <ℤ last +ℤ pos ((q + 1) * k * nanos)
      → runs_up_to_now fuel last ≡ q
  unfolding runs_up_to_now
  runs_up_to_now_lem k zero q last positive kind given room low high = omega arith
  runs_up_to_now_lem k (suc fuel) zero last positive kind given room low high =
      let early : now <ℤ last +ℤ pos (k * nanos) = omega int_laws in
      rw (next_of_interval k last positive kind given, runs_up_to_now) (ground arith)
  runs_up_to_now_lem k (suc fuel) (suc q) last positive kind given room low high =
      let late : last +ℤ pos (k * nanos) ≤ℤ now = grind int_laws in
      let rest =
        runs_up_to_now_lem k fuel q (last +ℤ pos (k * nanos)) positive kind given (omega arith)
          (omega int_laws) (omega int_laws) in
      rw (next_of_interval k last positive kind given, runs_up_to_now) (ground arith)

  runs_up_to_now_early :
      (k fuel : ℕ) (last : DateTime)
      → 0 < k
      → s.schedule_type ≡ "interval"
      → s.interval_seconds ≡ some (pos k)
      → now <ℤ last +ℤ pos (k * nanos)
      → runs_up_to_now fuel last ≡ 0
  unfolding runs_up_to_now
  runs_up_to_now_early k zero last positive kind given early = refl
  runs_up_to_now_early k (suc fuel) last positive kind given early =
      rw (next_of_interval k last positive kind given, runs_up_to_now) (ground arith)

  missed_since-runs_up_to_now :
      (k fuel : ℕ) (last : DateTime)
      → 0 < k
      → s.schedule_type ≡ "interval"
      → s.interval_seconds ≡ some (pos k)
      → now <ℤ last +ℤ pos duration_limit
      → gap last now / nanos ≤ fuel
      → missed_since (pos k) last now ≡ runs_up_to_now fuel last - 1
  missed_since-runs_up_to_now k fuel last positive kind given fits room =
      elim (lt_or_le now (last +ℤ pos (k * nanos))) [
        | inl early ↦
            rw
              (
                missed_since_few k last now early,
                runs_up_to_now_early k fuel last positive kind given early,
              )
              refl
        | inr late ↦
            let whole : last ≤ℤ now = omega int_laws in
            let parts = gap_parts last now whole in
            let (low, high) = quotient_bounds (gap last now) k positive in
            let fewer = quot-le (gap last now / nanos) k positive in
            rw
              (
                missed_since_many k last now positive late fits,
                runs_up_to_now_lem k fuel (gap last now / nanos / k) last positive kind given
                    (omega arith) (omega int_laws) (omega int_laws),
              )
              refl
      ]

  -- The count is one less than the number of times, up to now, that `calculate_next_run` gives when
  -- it is applied again and again from the last run on (0 where there is none). Fuel for the seconds
  -- that have passed is enough.
  pub count_missed-runs_up_to_now :
      (last_run : Option DateTime) (k fuel : ℕ) (last : DateTime)
      → 0 < k
      → s.schedule_type ≡ "interval"
      → s.interval_seconds ≡ some (pos k)
      → or_else last_run s.last_run_at ≡ some last
      → now <ℤ last +ℤ pos duration_limit
      → gap last now / nanos ≤ fuel
      → count_missed_interval_runs s last_run now ≡ runs_up_to_now fuel last - 1
  count_missed-runs_up_to_now last_run k fuel last positive kind given known fits room =
      count-missed_since s last_run k last now positive kind given known
      ∙ missed_since-runs_up_to_now k fuel last positive kind given fits room

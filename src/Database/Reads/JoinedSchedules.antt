-- ===== src/Database/Reads/JoinedSchedules.antt =====
-- Which schedules the join of `get_schedules_for_device` holds.
use mathlib.Core.List.{Memᴰ}
use mathlib.Core.List.Memᴰ
use rbackup.Base.{
  ◌≡◌, ◌↔◌, sym, ap, subst, ◌∙◌, String, Bool, true, List, [], ◌∷◌, map, filter, inl, inr, arith,
  Bool-cases, string_eq, nat_eq,
}
use rbackup.Models.{BackupJob, Schedule}
use rbackup.Database.Reads.{is_joined, join_schedules}

mem-filter :
    {A : Type 0} (test : A → Bool) (a : A) (l : List A)
    → Memᴰ a l
    → test a ≡ true
    → Memᴰ a (filter test l)
mem-filter test a [] m passes = absurd (Memᴰ.not-nil m)
mem-filter test a (x ∷ l) (Memᴰ.head same) passes =
    rw (ap test (sym same) ∙ passes) (Memᴰ.head same)
mem-filter test a (x ∷ l) (Memᴰ.tail m) passes =
    let rest = mem-filter test a l m passes in
    elim (Bool-cases (test x)) [
      | inl kept ↦ rw kept (Memᴰ.tail rest)
      | inr dropped ↦ rw dropped rest
    ]

mem_of_filter :
    {A : Type 0} (test : A → Bool) (a : A) (l : List A)
    → Memᴰ a (filter test l)
    → Memᴰ a l × (test a ≡ true)
mem_of_filter test a [] m = absurd (Memᴰ.not-nil m)
mem_of_filter test a (x ∷ l) m =
    let rest = mem_of_filter test a l in
    elim (Bool-cases (test x)) [
      | inl kept ↦ elim (Memᴰ.cases_cons (rw kept at m)) [
        | inl same ↦ (Memᴰ.head same, ap test same ∙ kept)
        | inr m' ↦ let (later, passes) = rest m' in (Memᴰ.tail later, passes)
      ]
      | inr dropped ↦ let (later, passes) = rest (rw dropped at m) in (Memᴰ.tail later, passes)
    ]

module _ {Json : Type 0} (device_id : String) (jobs : List (BackupJob Json)) where
  -- There is an enabled job of the device with the schedule's job id, and the schedule is enabled.
  pub record IsActive (s : Schedule Json) : Type 0 where
    pub enabled : s.enabled ≡ true
    pub job : BackupJob Json
    pub known : Memᴰ job jobs
    pub id : job.id ≡ s.job_id
    pub device : job.device_id ≡ device_id
    pub job_enabled : job.enabled ≡ true

  is_joined-IsActive :
      (s : Schedule Json) (j : BackupJob Json)
      → Memᴰ j jobs
      → is_joined device_id s j ≡ true
      → IsActive s
  is_joined-IsActive s j known h = record {
    enabled = ground (arith, h);
    job = j;
    known = known;
    id = ground (arith, h);
    device = ground (arith, h);
    job_enabled = ground (arith, h);
  }

  IsActive-is_joined : (s : Schedule Json) (a : IsActive s) → is_joined device_id s a.job ≡ true
  IsActive-is_joined s a = ground (arith, a.enabled, a.id, a.device, a.job_enabled)

  mem-join_schedules :
      (s : Schedule Json) (rows : List (Schedule Json))
      → Memᴰ s (join_schedules device_id jobs rows)
      → Memᴰ s rows × IsActive s
  unfolding join_schedules
  mem-join_schedules s [] m = absurd (Memᴰ.not-nil m)
  mem-join_schedules s (r ∷ rows) m =
      elim (Memᴰ.append_cases (map (λ _. r) (filter (is_joined device_id r) jobs)) m) [
        | inl here ↦
            let (j, kept, same) = Memᴰ.of_map (λ _. r) (filter (is_joined device_id r) jobs) here in
            let (known, joined) = mem_of_filter (is_joined device_id r) j jobs kept in
            (Memᴰ.head (sym same), subst IsActive same (is_joined-IsActive r j known joined))
        | inr later ↦ let (m', active) = mem-join_schedules s rows later in (Memᴰ.tail m', active)
      ]

  IsActive-mem :
      (s : Schedule Json) (rows : List (Schedule Json))
      → Memᴰ s rows
      → IsActive s
      → Memᴰ s (join_schedules device_id jobs rows)
  unfolding join_schedules
  IsActive-mem s [] m a = absurd (Memᴰ.not-nil m)
  IsActive-mem s (r ∷ rows) (Memᴰ.head same) a =
      let kept = mem-filter (is_joined device_id s) a.job jobs a.known (IsActive-is_joined s a) in
      subst (λ q. Memᴰ s (join_schedules device_id jobs (q ∷ rows))) same
        (Memᴰ.append_left (join_schedules device_id jobs rows) (Memᴰ.map (λ _. s) kept))
  IsActive-mem s (r ∷ rows) (Memᴰ.tail m) a =
      Memᴰ.append_right (map (λ _. r) (filter (is_joined device_id r) jobs))
        (IsActive-mem s rows m a)

  -- The join holds the active schedules among the rows, and no other.
  pub mem-join_schedules_iff :
      (s : Schedule Json) (rows : List (Schedule Json))
      → Memᴰ s (join_schedules device_id jobs rows) ↔ (Memᴰ s rows × IsActive s)
  mem-join_schedules_iff s rows =
      (mem-join_schedules s rows, λ (m, active). IsActive-mem s rows m active)

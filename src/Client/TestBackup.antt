-- ===== src/Client/TestBackup.antt =====
-- What the results that a test backup prints are the results of.
use mathlib.Core.List.{Permᴰ}
use mathlib.Core.List.Permᴰ
use rbackup.Base.{
  ◌≡◌, ap, subst, sym, ◌∙◌, Option, none, some, List, [], ◌∷◌, All, arith, filter, take, head?,
  ◌==◌, string_eq, String, Bool-cases, inl, inr,
}
use rbackup.Base.Int.{ℤ, pos, ◌≤ℤ◌, int_laws}
use rbackup.Error.{Result, ok, AppError, ok_or}
use rbackup.Models.{Uuid, BackupJob, Run}
use rbackup.Config.Remote.{RemoteConfig}
use rbackup.External.{Externals}
use rbackup.Database.World.{State, resume-eq-ok}
use rbackup.Database.Reads.{get_job_by_id, get_recent_runs}
use rbackup.Database.Reads.RecentRuns.{IsDescending, get_recent_runs-ok}
use rbackup.Backup.Execute.{execute_backup}
use rbackup.Client.{test_backup}

All-Perm : {A : Type 0} (P : A → Type 0) {xs ys : List A} → Permᴰ xs ys → All P xs → All P ys
All-Perm P Permᴰ.nil h = h
All-Perm P (Permᴰ.cons e p) (h, hs) = (subst P e h, All-Perm P p hs)
All-Perm P (Permᴰ.swap e e') (h, (h', hs)) = (subst P e' h', (subst P e h, hs))
All-Perm P (Permᴰ.trans p q) h = All-Perm P q (All-Perm P p h)

-- No run of the list started later.
abbrev pub IsNewest : {Json : Type 0} → Run Json → List (Run Json) → Type 0
IsNewest {Json} run = All λ (r : Run Json). r.start_time ≤ℤ run.start_time

first-IsNewest :
    {Json : Type 0} (run : Run Json) (sorted : List (Run Json))
    → IsDescending sorted
    → head? (take 1 sorted) ≡ some run
    → IsNewest run sorted
first-IsNewest run [] h e = tt
first-IsNewest run (r ∷ rest) (all, h) e =
    let same : r ≡ run = ground arith in
    subst (λ s. IsNewest s (r ∷ rest)) same (omega int_laws, all)

filter-All :
    {Json : Type 0} (id : String) (runs : List (Run Json))
    → All (λ (r : Run Json). r.device_id ≡ id) (filter (λ (r : Run Json). r.device_id == id) runs)
filter-All id [] = tt
filter-All id (r ∷ runs) = elim (Bool-cases (r.device_id == id)) [
  | inl same ↦ rw same (ground arith, filter-All id runs)
  | inr differ ↦ rw differ (filter-All id runs)
]

first-All :
    {A : Type 0} (P : A → Type 0) (a : A) (xs : List A)
    → All P xs
    → head? (take 1 xs) ≡ some a
    → P a
first-All P a [] h e = cc
first-All P a (x ∷ xs) (h, hs) e = let same : x ≡ a = ground arith in subst P same h

pub ok_or-ok :
    {S E A : Type 0} (o : Option A) (e : AppError E) (a : A) (w w' : S)
    → ◌≡◌ {A = Result E A × S} (ok_or o e, w) (ok a, w')
    → (o ≡ some a) × (w ≡ w')
ok_or-ok none e a w w' h = cc
ok_or-ok (some b) e a w w' h = (ground arith, cc)

module _ (X : Externals) (config : RemoteConfig X.json.Json) (job_id : Uuid) where
  abbrev of_device : BackupJob X.json.Json → State X → List (Run X.json.Json)
  of_device job w = filter (λ (r : Run X.json.Json). r.device_id == job.device_id) w.tables.runs

  -- A test backup that returns results has found the job and run its backup without an error. The
  -- results are those of a run of the job's device, and no run of the device started after it.
  pub test_backup-ok :
      (w w' : State X) (run : Run X.json.Json)
      → test_backup X config job_id w ≡ (ok run, w')
      → (job : BackupJob X.json.Json) × (id : ℤ) × (w1 : State X) × (w2 : State X) × (get_job_by_id
            X job_id w
          ≡ (ok (some job), w1))
        × (execute_backup X job config w1 ≡ (ok id, w2))
        × (w'.tables ≡ w2.tables)
        × (run.device_id ≡ job.device_id)
        × IsNewest run (of_device job w')
  unfolding test_backup
  test_backup-ok w w' run h =
      let (found, w1, looked, rest) = resume-eq-ok (get_job_by_id X job_id w) _ run w' h in
      let (job, w1', is_there, rest1) = resume-eq-ok (ok_or found _, w1) _ run w' rest in
      let (id, w2, backed_up, rest2) =
        resume-eq-ok (execute_backup X job config w1') _ run w' rest1 in
      let (runs, w3, recent, last) =
        resume-eq-ok (get_recent_runs X job.device_id (pos 1) w2) _ run w' rest2 in
      let (job_is, same1) = ok_or-ok found _ job w1 w1' is_there in
      let (run_is, same3) = ok_or-ok (head? runs) _ run w3 w' last in
      let (tables, (sorted, descending, perm, taken)) =
        get_recent_runs-ok X job.device_id 1 w2 w3 runs recent in
      let unchanged : w'.tables ≡ w2.tables = ap (λ (v : State X). v.tables) (sym same3) ∙ tables in
      (
        job,
        id,
        w1',
        w2,
        cc (looked, job_is, same1),
        backed_up,
        unchanged,
        first-All (λ (r : Run X.json.Json). r.device_id ≡ job.device_id) run sorted
            (All-Perm (λ (r : Run X.json.Json). r.device_id ≡ job.device_id) (Permᴰ.symm perm)
              (filter-All job.device_id w2.tables.runs))
            (ap head? (sym taken) ∙ run_is),
        subst
            (λ t.
              IsNewest run (filter (λ (r : Run X.json.Json). r.device_id == job.device_id) t.runs))
            (sym unchanged)
            (All-Perm (λ (r : Run X.json.Json). r.start_time ≤ℤ run.start_time) perm
              (first-IsNewest run sorted descending (ap head? (sym taken) ∙ run_is))),
      )

-- ===== src/Scheduler/Executor/Limit.antt =====
-- What the limit of the executor comes to: the map of running jobs has one entry for a device.
use rbackup.Base.{
  ℕ, ◌≡◌, refl, ap, String, none, some, [], ◌∷◌, arith, length, filter, ltb, is_some, ◌==◌,
  string_eq, if◌then◌else◌,
}
use rbackup.Base.HashMap
use rbackup.Base.HashMap.{HashMap, NodupKeys}
use rbackup.Models.{Uuid}
use rbackup.Scheduler.Executor.{JobExecutor, can_execute, mark_running, mark_completed}

-- The entries of a device.
abbrev entries : String → HashMap String Uuid → ℕ
entries device_id m = length (filter (λ (dev_id, _). dev_id == device_id) m)

entries-absent :
    (device_id : String) (m : HashMap String Uuid)
    → HashMap.get device_id m ≡ none
    → entries device_id m ≡ 0
unfolding HashMap.get
entries-absent device_id [] h = refl
entries-absent device_id (_ ∷ m) h = ground (arith, entries-absent device_id m)

entries-is_some :
    (device_id : String) (m : HashMap String Uuid)
    → NodupKeys m
    → entries device_id m ≡ (if is_some (HashMap.get device_id m) then 1 else 0)
unfolding HashMap.get
entries-is_some device_id [] u = refl
entries-is_some device_id ((j, _) ∷ m) (fresh, u) =
    ground (arith, entries-is_some device_id m u, entries-absent j m fresh)

-- Where no device is listed twice, a job of a device that runs nothing is admitted if the limit is
-- one or more, and a job of a device that runs something only if it is two or more: a limit above
-- two means the same as two.
pub can_execute-ltb :
    (self : JobExecutor) (device_id : String)
    → NodupKeys self.running_jobs
    → can_execute self device_id
      ≡ ltb
          (if is_some (HashMap.get device_id self.running_jobs) then 1 else 0)
          self.max_concurrent_per_device
unfolding can_execute
can_execute-ltb self device_id u =
    ap (λ n. ltb n self.max_concurrent_per_device) (entries-is_some device_id self.running_jobs u)

pub mark_running-NodupKeys :
    (device_id : String) (job_id : Uuid) (self : JobExecutor)
    → NodupKeys self.running_jobs
    → NodupKeys (mark_running device_id job_id self).running_jobs
unfolding mark_running
mark_running-NodupKeys device_id job_id self =
    HashMap.insert-NodupKeys device_id job_id self.running_jobs

pub mark_completed-NodupKeys :
    (device_id : String) (self : JobExecutor)
    → NodupKeys self.running_jobs
    → NodupKeys (mark_completed device_id self).running_jobs
unfolding mark_completed
mark_completed-NodupKeys device_id self = HashMap.remove-NodupKeys device_id self.running_jobs

-- The device's own entry, and those of the others, after a job has been marked.
pub get-mark_running :
    (j device_id : String) (job_id : Uuid) (self : JobExecutor)
    → HashMap.get j (mark_running device_id job_id self).running_jobs
      ≡ (if j == device_id then some job_id else HashMap.get j self.running_jobs)
unfolding mark_running
get-mark_running j device_id job_id self = HashMap.get-insert j device_id job_id self.running_jobs

pub get-mark_completed :
    (j device_id : String) (self : JobExecutor)
    → HashMap.get j (mark_completed device_id self).running_jobs
      ≡ (if j == device_id then none else HashMap.get j self.running_jobs)
unfolding mark_completed
get-mark_completed j device_id self = HashMap.get-remove j device_id self.running_jobs

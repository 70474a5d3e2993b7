-- ===== src/Database/Writes.antt =====
-- The functions that write: `upsert_device`, the heartbeat, schedules and runs.
pub mod Devices
pub mod Heartbeat
mod Tests
use rbackup.Base.{
  ℕ, suc, ◌+◌, ◌/◌, ◌^◌, String, Bool, true, ◌&&◌, Option, none, some, List, [], ◌∷◌, ◌++◌, map,
  inl, inr, filter, head?, is_some, ltb, ◌==◌, string_eq, nat_eq, int_eq, if◌then◌else◌,
}
use rbackup.Base.Int.{ℤ, pos, pos_part, neg_part, ◌-ℤ◌, sub_ℕ}
use rbackup.Models.{DateTime, Uuid, Device, BackupJob, Schedule, Run}
use rbackup.External.{Externals}
use rbackup.Scheduler.ScheduleCalc.{nanos}
use rbackup.Database.World.{Tables, Action, Statement, query}

-- `UPDATE … SET change WHERE test`
abbrev pub update_where : {A : Type 0} → (A → Bool) → (A → A) → List A → List A
update_where test change = map (λ a. if test a then change a else a)

-- `EXTRACT(EPOCH FROM interval)::INTEGER` rounds to the nearest second, halves away from zero.
unfoldable pub epoch_seconds : ℤ → ℤ
epoch_seconds d = sub_ℕ ((pos_part d + nanos / 2) / nanos) ((neg_part d + nanos / 2) / nanos)

-- The columns that `update_run` sets, in the order of its arguments.
pub record RunUpdate : Type 0 where
  pub end_time : DateTime
  pub status : String
  pub exit_code : Option ℤ
  pub error_message : Option String
  pub files_new : Option ℤ
  pub files_changed : Option ℤ
  pub files_unmodified : Option ℤ
  pub data_added_bytes : Option ℤ
  pub snapshot_id : Option String
  pub restic_output : Option String
  pub restic_errors : Option String

module _ (X : Externals) where
  -- The row that `INSERT INTO devices` makes.
  new_device : String → String → String → Option String → DateTime → Device X.json.Json
  new_device device_id name platform hostname now = record {
    id = device_id;
    name = name;
    description = none;
    platform = platform;
    hostname = hostname;
    last_seen = some now;
    created_at = now;
    updated_at = now;
    enabled = true;
    metadata = X.json.empty_object;
  }

  -- `ON CONFLICT (id) DO UPDATE SET ..`
  renew_device :
      String → String → Option String → DateTime → Device X.json.Json → Device X.json.Json
  renew_device name platform hostname now d = record d {
    name = name;
    platform = platform;
    hostname = hostname;
    last_seen = some now;
    updated_at = now;
  }

  upsert : String → String → String → Option String → Statement X (Device X.json.Json)
  upsert device_id name platform hostname now t =
      elim (head? (filter (λ (d : Device X.json.Json). d.id == device_id) t.devices)) [
        | none ↦
            let row = new_device device_id name platform hostname now in
            inr (row, record t { devices = t.devices ++ (row ∷ []) })
        | some old ↦
            let change = renew_device name platform hostname now in
            inr (
              change old,
              record t {
                devices =
                    update_where (λ (d : Device X.json.Json). d.id == device_id) change t.devices;
              },
            )
      ]

  unfoldable pub upsert_device :
      String → String → String → Option String → Action X (Device X.json.Json)
  unfolding upsert new_device renew_device
  upsert_device device_id name platform hostname = query X (upsert device_id name platform hostname)

  unfoldable pub update_device_heartbeat :
      String → Option String → X.json.Json → Action X (Unit {0})
  update_device_heartbeat device_id hostname metadata = query X λ now t. inr (
    tt,
    record t {
      devices =
          update_where (λ (d : Device X.json.Json). d.id == device_id)
            (λ (d : Device X.json.Json). record d {
              last_seen = some now;
              hostname = hostname;
              metadata = metadata;
              updated_at = now;
            })
            t.devices;
    },
  )

  -- Every schedule of the job is changed.
  unfoldable pub update_schedule_last_run : Uuid → DateTime → Option DateTime → Action X (Unit {0})
  update_schedule_last_run job_id last_run_at next_run_at = query X λ now t. inr (
    tt,
    record t {
      schedules =
          update_where (λ (s : Schedule X.json.Json). s.job_id == job_id)
            (λ (s : Schedule X.json.Json). record s {
              last_run_at = some last_run_at;
              next_run_at = next_run_at;
              updated_at = now;
            })
            t.schedules;
    },
  )

  -- The job and the device have to be there, and the sequence of the `i32` ids must not be used up.
  unfoldable pub has_references : Uuid → String → Tables X.json.Json → Bool
  has_references job_id device_id t =
      is_some (head? (filter (λ (j : BackupJob X.json.Json). j.id == job_id) t.backup_jobs))
      && (is_some (head? (filter (λ (d : Device X.json.Json). d.id == device_id) t.devices))
          && ltb t.next_run_id (2 ^ 31))

  -- The row that `create_run` inserts.
  unfoldable pub new_run : ℕ → Uuid → String → String → DateTime → Run X.json.Json
  new_run id job_id device_id triggered_by now = record {
    id = pos id;
    job_id = job_id;
    device_id = device_id;
    start_time = now;
    end_time = none;
    status = "running";
    exit_code = none;
    error_message = none;
    files_new = none;
    files_changed = none;
    files_unmodified = none;
    dirs_new = none;
    dirs_changed = none;
    dirs_unmodified = none;
    data_added_bytes = none;
    total_files_processed = none;
    total_bytes_processed = none;
    duration_seconds = none;
    snapshot_id = none;
    restic_output = none;
    restic_errors = none;
    triggered_by = triggered_by;
    created_at = now;
    metadata = X.json.empty_object;
  }

  unfoldable pub run_insertion : Uuid → String → String → Statement X ℤ
  run_insertion job_id device_id triggered_by now t =
      if has_references job_id device_id t
      then inr (
        pos t.next_run_id,
        record t {
          runs = t.runs ++ (new_run t.next_run_id job_id device_id triggered_by now ∷ []);
          next_run_id = suc t.next_run_id;
        },
      )
      else inl X.violation

  unfoldable pub create_run : Uuid → String → String → Action X ℤ
  create_run job_id device_id triggered_by = query X (run_insertion job_id device_id triggered_by)

  unfoldable pub apply_update : RunUpdate → Run X.json.Json → Run X.json.Json
  unfolding epoch_seconds ◌-ℤ◌
  apply_update u r = record r {
    end_time = some u.end_time;
    status = u.status;
    exit_code = u.exit_code;
    error_message = u.error_message;
    files_new = u.files_new;
    files_changed = u.files_changed;
    files_unmodified = u.files_unmodified;
    data_added_bytes = u.data_added_bytes;
    snapshot_id = u.snapshot_id;
    restic_output = u.restic_output;
    restic_errors = u.restic_errors;
    duration_seconds = some (epoch_seconds (u.end_time -ℤ r.start_time));
  }

  unfoldable pub update_run : ℤ → RunUpdate → Action X (Unit {0})
  update_run run_id u = query X λ now t. inr (
    tt,
    record t {
      runs = update_where (λ (r : Run X.json.Json). r.id == run_id) (apply_update u) t.runs;
    },
  )

-- ===== src/Samples/Program.antt =====
-- A concrete world for the tests: a database with one device, two jobs and their schedules, a
-- `restic` that succeeds, and a clock that moves a second at each reading.
use rbackup.Base.{
  inl, ℕ, ◌+◌, ◌*◌, String, inr, true, false, Option, none, some, List, [], ◌∷◌, ◌==◌, string_eq,
  nat_eq, if◌then◌else◌,
}
use rbackup.Base.Int.{pos}
use rbackup.Models.{Device, BackupJob, Run, Setting}
use rbackup.Scheduler.ScheduleCalc.{nanos}
use rbackup.Backup.Output.Tests.{sample_serde}
use rbackup.Backup.Restic.{JsonValue, ResticCommand}
use rbackup.Config.Remote.{RemoteConfig}
use rbackup.Config.Local.{LocalConfig}
use rbackup.External.{Externals, Fate, served, refused}
use rbackup.Client.Startup.{Surroundings}
use rbackup.Database.World.{Tables, World}
use rbackup.Samples.{
  hourly, SampleJson, empty, text, texts, clock, interval_schedule, cron_schedule,
}

abbrev pub as_texts : List String → List SampleJson
as_texts [] = []
as_texts (s ∷ rest) = text s ∷ as_texts rest

abbrev pub sample_json : JsonValue
sample_json = record {
  Json = SampleJson;
  as_array = λ v. elim v [ empty ↦ none | text s ↦ none | texts l ↦ some (as_texts l) ];
  as_str = λ v. elim v [ empty ↦ none | text s ↦ some s | texts l ↦ none ];
  empty_object = empty;
}

abbrev pub which_restic : String → Option String
which_restic name = if name == "restic" then some "/usr/bin/restic" else none

-- The world in which the `n`-th query has the fate `fate n`.
abbrev pub externals : (ℕ → Fate String) → Externals
externals fate = record {
  SqlxError = String;
  show_sqlx = λ e. e;
  violation = "violation";
  row_not_found = "no rows";
  json = sample_json;
  show_uuid = λ id. if id == 7 then "uuid-7" else "uuid";
  channel_closed = "channel closed";
  cron = hourly;
  serde = sample_serde;
  windows = false;
  which = which_restic;
  run = λ command n. inr (record { code = some (pos 0); stdout = 1 ∷ []; stderr = [] });
  from_utf8_lossy = λ bytes. elim bytes [ [] ↦ "" | b ∷ rest ↦ "summary" ];
  clock = λ n. pos ((12 * 3600 + n) * nanos);
  server_clock = λ n. pos ((12 * 3600 + n) * nanos);
  fate = fate;
}

abbrev pub all_served : Externals
all_served = externals (λ n. served)

abbrev pub all_refused : Externals
all_refused = externals (λ n. refused "connection lost")

abbrev pub device : Device SampleJson
device = record {
  id = "laptop";
  name = "laptop";
  description = none;
  platform = "linux";
  hostname = none;
  last_seen = none;
  created_at = pos 0;
  updated_at = pos 0;
  enabled = true;
  metadata = empty;
}

abbrev pub job : BackupJob SampleJson
job = record {
  id = 7;
  device_id = "laptop";
  name = "home";
  description = none;
  source_paths = "/home" ∷ "/etc" ∷ [];
  exclude_patterns = some ("*.tmp" ∷ []);
  tags = some ("nightly" ∷ []);
  restic_args = texts ("--one-file-system" ∷ []);
  enabled = true;
  created_at = pos 0;
  updated_at = pos 0;
  metadata = empty;
  origin_name = none;
  origin_id = none;
  account_id = none;
}

abbrev pub local : LocalConfig
local = record {
  device = record { id = "laptop" };
  database = record {
    host = "localhost";
    port = 5432;
    user = "backup";
    password = "secret";
    ssl_mode = "require";
  };
  client = record { http_bind = "127.0.0.1:1201"; log_file = "/var/log/rbackup2.log" };
  metrics = record { enabled = false; prometheus_pushgateway = none };
}

-- A finished run, with the id 1.
abbrev pub old_run : Run SampleJson
old_run = record {
  id = pos 1;
  job_id = 7;
  device_id = "laptop";
  start_time = pos 0;
  end_time = some (clock 0 5);
  status = "success";
  exit_code = some (pos 0);
  error_message = none;
  files_new = some (pos 1);
  files_changed = some (pos 0);
  files_unmodified = some (pos 0);
  dirs_new = none;
  dirs_changed = none;
  dirs_unmodified = none;
  data_added_bytes = some (pos 12);
  total_files_processed = none;
  total_bytes_processed = none;
  duration_seconds = some (pos 300);
  snapshot_id = some "first";
  restic_output = none;
  restic_errors = none;
  triggered_by = "manual";
  created_at = pos 0;
  metadata = empty;
}

abbrev pub global_setting : String → String → Setting
global_setting key value = record {
  id = pos 1;
  device_id = none;
  key = key;
  value = value;
  description = none;
  created_at = pos 0;
  updated_at = pos 0;
}

abbrev pub device_setting : String → String → Setting
device_setting key value = record (global_setting key value) { device_id = some "laptop" }

abbrev pub tables : Tables SampleJson
tables = record {
  devices = device ∷ [];
  backup_jobs = job ∷ [];
  schedules = interval_schedule ∷ cron_schedule ∷ [];
  runs = old_run ∷ [];
  settings =
      device_setting "repository_url" "/srv/laptop"
      ∷ global_setting "repository_url" "/srv/all"
      ∷ global_setting "repository_password" "secret"
      ∷ [];
  next_run_id = 2;
}

abbrev pub world : World SampleJson
world = record { tables = tables; queries = 0; readings = 0; processes = [] }

abbrev pub config : RemoteConfig SampleJson
config = record {
  jobs = job ∷ [];
  schedules = interval_schedule ∷ cron_schedule ∷ [];
  settings =
      ("repository_url", "/srv/laptop")
      ∷ ("repository_password", "secret")
      ∷ ("max_concurrent_backups", "2")
      ∷ [];
}

-- The command that this configuration yields.
abbrev pub command : ResticCommand
command = record {
  binary_path = "/usr/bin/restic";
  repository_url = "/srv/laptop";
  repository_password = "secret";
  cache_dir = none;
  environment = [];
}

-- The same without a password.
abbrev pub incomplete_config : RemoteConfig SampleJson
incomplete_config = record config { settings = ("repository_url", "/srv/laptop") ∷ [] }

-- A start with this configuration, a library that connects, and no migration to make.
abbrev pub surroundings : Surroundings SampleJson String
surroundings = record {
  content = inr "file";
  test_backup = none;
  from_str = λ text. inr local;
  parent = λ path. some "/var/log";
  file_name = λ path. some "rbackup2.log";
  daily = λ directory name. none;
  default_filter = inl "not set";
  new_filter = λ directives. inr tt;
  ConnectOptions = String;
  parse_options = λ url. inr url;
  connect_with = λ options. inr tt;
  migrate = λ t. (inr tt, t);
  linux = true;
  hostname = some "host";
}

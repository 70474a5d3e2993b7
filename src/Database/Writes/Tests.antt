-- ===== src/Database/Writes/Tests.antt =====
-- The registration of a device that is there already.
use rbackup.Base.{◌≡◌, ◌≢◌, refl, String, some, [], ◌∷◌, string_eq}
use rbackup.Error.{ok}
use rbackup.Models.{Device}
use rbackup.Database.World.{State, query, answer}
use rbackup.Database.Writes.{renew_device, upsert, upsert_device}
use rbackup.Database.Writes.Devices.{find_device, IsRegistered}
use rbackup.Database.Reads.{get_device}
use rbackup.Database.Writes.{update_device_heartbeat}
use rbackup.Database.Writes.Heartbeat.{beaten, get_device-upsert_device}
use rbackup.Samples.{SampleJson, text, clock}
use rbackup.Samples.Program.{all_served, device, tables, world}

abbrev renewed : Device SampleJson
renewed = record device {
  name = "Laptop";
  platform = "windows";
  hostname = some "host";
  last_seen = some (clock 12 0);
  updated_at = clock 12 0;
}

abbrev after : State all_served
after = record world { tables = record tables { devices = renewed ∷ [] }; queries = 1 }

is_renewed :
    upsert_device all_served "laptop" "Laptop" "windows" (some "host") world ≡ (ok renewed, after)
unfolding upsert_device upsert renew_device query answer string_eq
is_renewed = refl

abbrev beat : State all_served
beat = (update_device_heartbeat all_served "laptop" (some "host") (text "ok") after).1

is_beaten :
    update_device_heartbeat all_served "laptop" (some "host") (text "ok") after ≡ (ok tt, beat)
unfolding update_device_heartbeat query answer
is_beaten = refl

abbrev read : State all_served
read = record beat { queries = 3 }

is_read : get_device all_served "laptop" beat ≡ (
  ok (
      some
        (beaten all_served "laptop" (all_served.server_clock 1) (some "host") (text "ok") renewed)),
  read,
)
unfolding get_device update_device_heartbeat query answer string_eq
is_read = refl

get_device-upsert_device_example :
    (some (beaten all_served "laptop" (all_served.server_clock 1) (some "host") (text "ok") renewed)
      ≡ some (
          beaten all_served "laptop" (all_served.server_clock 1) (some "host") (text "ok") renewed))
    × IsRegistered all_served "laptop" "Laptop" "windows"
        (some "host")
        (clock 12 0)
        (find_device "laptop" tables.devices)
        renewed
    × ((j : String)
        → j ≢ "laptop"
        → find_device j beat.tables.devices ≡ find_device j after.tables.devices)
get_device-upsert_device_example =
    get_device-upsert_device all_served "laptop" "Laptop" "windows" (some "host") (some "host")
      (text "ok") world after beat read renewed
      (some
        (beaten all_served "laptop" (all_served.server_clock 1) (some "host") (text "ok") renewed))
      is_renewed is_beaten is_read

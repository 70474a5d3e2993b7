-- ===== src/Database/Writes/Heartbeat.antt =====
-- A device that is registered, sends heartbeats, and is read back.
use rbackup.Base.{◌≡◌, refl, sym, ap, ◌∙◌, ◌≢◌, String, Option, some, ◌==◌, string_eq}
use rbackup.Error.{ok}
use rbackup.Models.{DateTime, Device}
use rbackup.External.{Externals}
use rbackup.Database.World.{Tables, State}
use rbackup.Database.Reads.{get_device}
use rbackup.Database.Writes.{update_where, upsert_device, update_device_heartbeat}
use rbackup.Database.Writes.Devices.{
  find_device, find_device-update_self, find_device-update_ne, IsRegistered, upsert_device-ok,
}
use rbackup.Database.Queries.{query-ok}

module _ (X : Externals) (id : String) where
  -- What a heartbeat sets in the row of the device.
  abbrev pub beaten :
      DateTime → Option String → X.json.Json → Device X.json.Json → Device X.json.Json
  beaten now hostname metadata d = record d {
    last_seen = some now;
    hostname = hostname;
    metadata = metadata;
    updated_at = now;
  }

  abbrev after_beat :
      DateTime → Option String → X.json.Json → Tables X.json.Json → Tables X.json.Json
  after_beat now hostname metadata t = record t {
    devices =
        update_where (λ (d : Device X.json.Json). d.id == id) (beaten now hostname metadata)
          t.devices;
  }

  heartbeat-tables :
      (hostname : Option String) (metadata : X.json.Json) (w w' : State X)
      → update_device_heartbeat X id hostname metadata w ≡ (ok tt, w')
      → w'.tables ≡ after_beat (X.server_clock w.queries) hostname metadata w.tables
  unfolding update_device_heartbeat
  heartbeat-tables hostname metadata w w' h =
      let (t, e, same) = query-ok X _ w tt w' h in
      let carried : after_beat (X.server_clock w.queries) hostname metadata w.tables ≡ t = cc e in
      ap (λ (v : State X). v.tables) same ∙ sym carried

  get_device-reads :
      (w w' : State X) (found : Option (Device X.json.Json))
      → get_device X id w ≡ (ok found, w')
      → found ≡ find_device id w.tables.devices
  unfolding get_device
  get_device-reads w w' found h =
      let (t, e, same) = query-ok X _ w found w' h in
      let read : find_device id w.tables.devices ≡ found = cc e in sym read

  -- A device that was registered and has sent a heartbeat is read back as it was registered, with the
  -- time, host name and metadata of the heartbeat, and no other device was changed by the heartbeat.
  -- All three queries have to be answered.
  pub get_device-upsert_device :
      (name platform : String) (hostname beat_hostname : Option String) (metadata : X.json.Json)
      (w w1 w2 w3 : State X) (d : Device X.json.Json) (found : Option (Device X.json.Json))
      → upsert_device X id name platform hostname w ≡ (ok d, w1)
      → update_device_heartbeat X id beat_hostname metadata w1 ≡ (ok tt, w2)
      → get_device X id w2 ≡ (ok found, w3)
      → (found ≡ some (beaten (X.server_clock w1.queries) beat_hostname metadata d))
        × IsRegistered X id name platform hostname
            (X.server_clock w.queries)
            (find_device id w.tables.devices)
            d
        × ((j : String)
            → j ≢ id
            → find_device j w2.tables.devices ≡ find_device j w1.tables.devices)
  get_device-upsert_device name platform hostname beat_hostname metadata w w1 w2 w3 d found
        registered beat read =
      let now = X.server_clock w1.queries in
      let change = beaten now beat_hostname metadata in
      let (is_registered, there, _) =
        upsert_device-ok X id name platform hostname w w1 d registered in
      let tables = heartbeat-tables beat_hostname metadata w1 w2 beat in
      (
        get_device-reads w2 w3 found read
            ∙ ap (λ (t : Tables X.json.Json). find_device id t.devices) tables
            ∙ find_device-update_self change (λ e. refl) id w1.tables.devices there,
        is_registered,
        λ j other.
            ap (λ (t : Tables X.json.Json). find_device j t.devices) tables
            ∙ find_device-update_ne change (λ e. refl) id j w1.tables.devices other,
      )

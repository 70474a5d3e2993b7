-- ===== src/Database/Writes/Devices.antt =====
-- The registration of a device.
use rbackup.Base.{
  ◌≡◌, ◌≢◌, refl, sym, ap, subst, String, true, Option, none, some, List, [], ◌∷◌, ◌++◌, arith,
  filter, head?, inl, inr, Option-cases, ◌==◌, string_eq,
}
use rbackup.Error.{ok}
use rbackup.Models.{DateTime, Device}
use rbackup.External.{Externals}
use rbackup.Database.World.{Tables, State}
use rbackup.Database.Writes.{update_where, new_device, renew_device, upsert, upsert_device}
use rbackup.Database.Queries.{query-ok}

module _ {Json : Type 0} where
  -- The row of a device.
  abbrev pub find_device : String → List (Device Json) → Option (Device Json)
  find_device id devices = head? (filter (λ (d : Device Json). d.id == id) devices)

  find_device-append_new :
      (id : String) (devices : List (Device Json)) (row : Device Json)
      → find_device id devices ≡ none
      → row.id ≡ id
      → find_device id (devices ++ (row ∷ [])) ≡ some row
  find_device-append_new id [] row absent same = ground arith
  find_device-append_new id (d ∷ devices) row absent same =
      ground (arith, find_device-append_new id devices row)

  find_device-append_ne :
      (id : String) (devices : List (Device Json)) (row : Device Json)
      → row.id ≢ id
      → find_device id (devices ++ (row ∷ [])) ≡ find_device id devices
  find_device-append_ne id [] row differ = ground arith
  find_device-append_ne id (d ∷ devices) row differ =
      ground (arith, find_device-append_ne id devices row differ)

  module _ (change : Device Json → Device Json)
      (keeps : (d : Device Json) → (change d).id ≡ d.id) where
    pub find_device-update_self :
        (id : String) (devices : List (Device Json)) {old : Device Json}
        → find_device id devices ≡ some old
        → find_device id (update_where (λ (d : Device Json). d.id == id) change devices)
          ≡ some (change old)
    find_device-update_self id [] h = cc
    find_device-update_self id (d ∷ devices) {old} h =
        ground (arith, keeps d, find_device-update_self id devices {old = old})

    pub find_device-update_ne :
        (id j : String) (devices : List (Device Json))
        → j ≢ id
        → find_device j (update_where (λ (d : Device Json). d.id == id) change devices)
          ≡ find_device j devices
    find_device-update_ne id j [] differ = refl
    find_device-update_ne id j (d ∷ devices) differ =
        ground (arith, keeps d, find_device-update_ne id j devices differ)

module _ (X : Externals) (id name platform : String) (hostname : Option String) where
  -- What a registration says of the device: the columns that it sets, and those that it keeps from
  -- the row before it, or else the defaults.
  abbrev pub IsRegistered : DateTime → Option (Device X.json.Json) → Device X.json.Json → Type 0
  IsRegistered now old d =
      (d.id ≡ id)
      × (d.name ≡ name)
      × (d.platform ≡ platform)
      × (d.hostname ≡ hostname)
      × (d.last_seen ≡ some now)
      × (d.enabled ≡ elim old [ none ↦ true | some o ↦ o.enabled ])
      × (d.created_at ≡ elim old [ none ↦ now | some o ↦ o.created_at ])

  -- The device's row is registered and found, and the others are as before.
  abbrev Registers :
      DateTime → Tables X.json.Json → Device X.json.Json → Tables X.json.Json → Type 0
  Registers now t d t' =
      IsRegistered now (find_device id t.devices) d
      × (find_device id t'.devices ≡ some d)
      × ((j : String) → j ≢ id → find_device j t'.devices ≡ find_device j t.devices)

  find_device-id :
      (devices : List (Device X.json.Json)) {d : Device X.json.Json}
      → find_device id devices ≡ some d
      → d.id ≡ id
  find_device-id [] h = cc
  find_device-id (e ∷ devices) {d} h = ground (arith, find_device-id devices {d = d})

  new-Registers :
      (now : DateTime) (t : Tables X.json.Json)
      → find_device id t.devices ≡ none
      → let row = new_device X id name platform hostname now in
        Registers now t row (record t { devices = t.devices ++ (row ∷ []) })
  unfolding new_device
  new-Registers now t absent = (
    rw absent (refl, refl, refl, refl, refl, refl, refl),
    find_device-append_new id t.devices (new_device X id name platform hostname now) absent refl,
    λ j differ.
        find_device-append_ne j t.devices (new_device X id name platform hostname now)
          (λ same. differ (sym same)),
  )

  renewed-Registers :
      (now : DateTime) (t : Tables X.json.Json) (old : Device X.json.Json)
      → find_device id t.devices ≡ some old
      → let change = renew_device X name platform hostname now in
        Registers now t (change old) (record t {
          devices = update_where (λ (d : Device X.json.Json). d.id == id) change t.devices;
        })
  unfolding renew_device
  renewed-Registers now t old there = (
    rw there (find_device-id t.devices there, refl, refl, refl, refl, refl, refl),
    find_device-update_self (renew_device X name platform hostname now) (λ d. refl) id t.devices
        there,
    λ j differ.
        find_device-update_ne (renew_device X name platform hostname now) (λ d. refl) id j t.devices
          differ,
  )

  upsert-Registers :
      (now : DateTime) (t : Tables X.json.Json) (d : Device X.json.Json) (t' : Tables X.json.Json)
      → upsert X id name platform hostname now t ≡ inr (d, t')
      → Registers now t d t'
  unfolding upsert
  upsert-Registers now t d t' h = elim (Option-cases (find_device id t.devices)) [
    | inl absent ↦
        let row = new_device X id name platform hostname now in
        let whole : (row, record t { devices = t.devices ++ (row ∷ []) }) ≡ (d, t') =
          cc (rw (absent, upsert) at h) in
        subst (λ (p : Device X.json.Json × Tables X.json.Json). Registers now t p.0 p.1) whole
          (new-Registers now t absent)
    | inr (old, there) ↦
        let change = renew_device X name platform hostname now in
        let whole : (
          change old,
          record t {
            devices = update_where (λ (d : Device X.json.Json). d.id == id) change t.devices;
          },
        )
            ≡ (d, t') =
          cc (rw (there, upsert) at h) in
        subst (λ (p : Device X.json.Json × Tables X.json.Json). Registers now t p.0 p.1) whole
          (renewed-Registers now t old there)
  ]

  -- After `upsert_device` has returned a device, the table's row with the id is that device, which has
  -- the name, the platform and the hostname that were given, and was last seen at the time of the
  -- query; a device that was there before is enabled or not and created as it was, a new one is
  -- enabled and created now; the rows of all other devices are as before.
  pub upsert_device-ok :
      (w w' : State X) (d : Device X.json.Json)
      → upsert_device X id name platform hostname w ≡ (ok d, w')
      → IsRegistered (X.server_clock w.queries) (find_device id w.tables.devices) d
        × (find_device id w'.tables.devices ≡ some d)
        × ((j : String) → j ≢ id → find_device j w'.tables.devices ≡ find_device j w.tables.devices)
  unfolding upsert_device
  upsert_device-ok w w' d h =
      let (t, answered, same) = query-ok X _ w d w' h in
      let t_is : t ≡ w'.tables = sym (ap (λ (v : State X). v.tables) same) in
      subst (λ (t' : Tables X.json.Json). Registers (X.server_clock w.queries) w.tables d t') t_is
        (upsert-Registers (X.server_clock w.queries) w.tables d t answered)

module _ (X : Externals) (id name platform : String) (hostname : Option String) where
  upsert-runs :
      (now : DateTime) (t : Tables X.json.Json) (d : Device X.json.Json) (t' : Tables X.json.Json)
      → upsert X id name platform hostname now t ≡ inr (d, t')
      → (t'.runs ≡ t.runs) × (t'.next_run_id ≡ t.next_run_id)
  unfolding upsert
  upsert-runs now t d t' h = elim (Option-cases (find_device id t.devices)) [
    | inl absent ↦
        let row = new_device X id name platform hostname now in
        let whole : record t { devices = t.devices ++ (row ∷ []) } ≡ t' =
          cc (rw (absent, upsert) at h) in
        (
          ap (λ (s : Tables X.json.Json). s.runs) (sym whole),
          ap (λ (s : Tables X.json.Json). s.next_run_id) (sym whole),
        )
    | inr (old, there) ↦
        let change = renew_device X name platform hostname now in
        let whole : record t {
          devices = update_where (λ (d : Device X.json.Json). d.id == id) change t.devices;
        }
            ≡ t' =
          cc (rw (there, upsert) at h) in
        (
          ap (λ (s : Tables X.json.Json). s.runs) (sym whole),
          ap (λ (s : Tables X.json.Json). s.next_run_id) (sym whole),
        )
  ]

  -- A registration touches no run.
  pub upsert_device-runs :
      (w w' : State X) (d : Device X.json.Json)
      → upsert_device X id name platform hostname w ≡ (ok d, w')
      → (w'.tables.runs ≡ w.tables.runs) × (w'.tables.next_run_id ≡ w.tables.next_run_id)
  unfolding upsert_device
  upsert_device-runs w w' d h =
      let (t, answered, same) = query-ok X _ w d w' h in
      let t_is : t ≡ w'.tables = sym (ap (λ (v : State X). v.tables) same) in
      subst
        (λ (t' : Tables X.json.Json).
          (t'.runs ≡ w.tables.runs) × (t'.next_run_id ≡ w.tables.next_run_id))
        t_is (upsert-runs (X.server_clock w.queries) w.tables d t answered)

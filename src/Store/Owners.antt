-- ===== src/Store/Owners.antt =====
-- internal/sensorstore/store.go: the ingest source of a device over many calls of `SyncDevice`.
use home_metrics.Base.{
  Bool-cases, ◌≡◌, sym, ap, ◌∙◌, inl, inr, List, [], ◌∷◌, Option, none, some, Option-cases, arith,
}
use home_metrics.Base.Text.{Text, eq_text, eq_text→eq}
use home_metrics.Sensor.{Device}
use home_metrics.Store.{
  DeviceRow, Devices, SyncFaults, source_of, may_claim, device_row, checked_category, stored_row,
  sync_prepared, prepared, sync_device,
}

-- The source that owns a device.
unfoldable pub owner_of : Text → Devices → Option Text
owner_of mac devices = elim (devices mac) [ none ↦ none | some row ↦ row.ingest_source ]

-- The calls of `SyncDevice` one after the other, with whatever failures.
unfoldable pub sync_all : (Text → Option Text) → List (SyncFaults × Device) → Devices → Devices
unfolding sync_device
sync_all types [] devices = devices
sync_all types ((faults, d) ∷ ds) devices = sync_all types ds (sync_device faults types d devices).0

owner_of-row :
    (mac : Text) (devices : Devices) (s : Text)
    → owner_of mac devices ≡ some s
    → (row : DeviceRow) × (devices mac ≡ some row) × (row.ingest_source ≡ some s)
unfolding owner_of
owner_of-row mac devices s h = elim (Option-cases (devices mac)) [
  | inl e ↦ absurd (ground (arith, e))
  | inr (row, e) ↦ (row, e, ground (arith, e))
]

device_row-owner :
    (d : Device) (category : Text) (old row : DeviceRow) (s : Text)
    → old.ingest_source ≡ some s
    → device_row d category (some old) ≡ some row
    → row.ingest_source ≡ some s
unfolding device_row
device_row-owner d category old row s h e =
    elim (Bool-cases (may_claim old.ingest_source (source_of d))) [
      | inl claims ↦ ground (arith, h, e, claims)
      | inr refused ↦ absurd (ground (arith, e, refused))
    ]

stored_row-owner :
    (d : Device) (category : Text) (devices : Devices) (mac s : Text)
    → owner_of mac devices ≡ some s
    → owner_of mac (stored_row d.mac (device_row d category (devices d.mac)) devices).0 ≡ some s
unfolding owner_of
stored_row-owner d category devices mac s h =
    elim (Option-cases (device_row d category (devices d.mac))) [
      | inl e ↦ rw e h
      | inr (row, e) ↦ elim (Bool-cases (eq_text d.mac mac)) [
        | inr other ↦ rw e (rw (other, owner_of) h)
        | inl same ↦
            let (old, stored, owned) = owner_of-row mac devices s h in
            let at : devices d.mac ≡ some old = ap devices (eq_text→eq d.mac mac same) ∙ stored in
            rw e (
              rw (same, owner_of)
                (device_row-owner d category old row s owned
                  (ap (device_row d category) (sym at) ∙ e)))
      ]
    ]

sync_prepared-owner :
    (faults : SyncFaults) (types : Text → Option Text) (d : Device) (devices : Devices)
    (mac s : Text)
    → owner_of mac devices ≡ some s
    → owner_of mac (sync_prepared faults types d devices).0 ≡ some s
unfolding sync_prepared
sync_prepared-owner faults types d devices mac s h =
    let written = stored_row-owner d (checked_category faults.lookup types d).0 devices mac s h in
    ground (arith, h, written)

-- The source that owns a device owns it for good: whatever devices are synchronised afterwards, by
-- whichever collectors and with whatever failures, the row is still there with the same source.
pub sync_all-owner :
    (types : Text → Option Text) (calls : List (SyncFaults × Device)) (devices : Devices)
    (mac s : Text)
    → owner_of mac devices ≡ some s
    → owner_of mac (sync_all types calls devices) ≡ some s
unfolding sync_all sync_device
sync_all-owner types [] devices mac s h = h
sync_all-owner types ((faults, d) ∷ calls) devices mac s h =
    sync_all-owner types calls (sync_device faults types d devices).0 mac s
      (sync_prepared-owner faults types (prepared d) devices mac s h)

-- ===== src/Central/Devices/Credentials.antt =====
-- Which tokens of a device are accepted (internal/store/central.go).
use mathlib.Core.Option
use text.Mathlib.Text.{◌==◌ as str_eq}
use on_watch.Base.{◌≡◌, refl, Option, none, some, String, string_eq}
use on_watch.Ingest.Decoding.{DecodeError, validate_device_id}
use on_watch.Central.Tables.{DeviceRow, Tables, Database, query, or_fail}
use on_watch.Central.Payload.{Externals}
use on_watch.Central.Storing.Laws.{Ensures, and_then-Ensures, query-Ensures, if-Ensures}
use on_watch.Central.Devices.{
  Device, get_device, is_credential, check_credential, check_valid, authenticate_device,
}

-- What a device that is read tells.
abbrev pub Known : {F W : Type 0} → String → Tables F W → Device → Tables F W → Type 0
Known d s device t = (Device.id device ≡ d) × (t ≡ s)

module _ {F W : Type 0} where
  get_device-Known :
      (d : String) (db : Database F W) → Ensures (Known d db.tables) (get_device d db)
  unfolding get_device
  get_device-Known d db =
      and_then-Ensures _ (Known d db.tables) _ (query _ db) (query-Ensures _ db)
        (λ row db1 h. found row db1 h.1)
    where
      found :
          (row : Option DeviceRow) (db1 : Database F W)
          → db1.tables ≡ db.tables
          → Ensures
              (Known d db.tables)
              (or_fail (Option.map (λ r. record { id = d; row = r }) row) db1)
      found none db1 h = tt
      found (some r) db1 h = (refl, h)

  module _ (x : Externals F W) where
    check_credential-Known :
        (d token : String) (db : Database F W)
        → Ensures (Known d db.tables) (check_credential x d token db)
    unfolding check_credential
    check_credential-Known d token db =
        and_then-Ensures _ (Known d db.tables) _ (query _ db) (query-Ensures _ db) (λ row db1 h.
          if-Ensures (Known d db.tables) (is_credential x token row) _ _ db1
            (λ _. rw (← h.1) (get_device-Known d db1)) (λ _. tt))

    check_valid-Known :
        (d token : String) (invalid : Option DecodeError) (db : Database F W)
        → Ensures (Known d db.tables) (check_valid x d token invalid db)
    unfolding check_valid
    check_valid-Known d token (some e) db = tt
    check_valid-Known d token none db =
        if-Ensures (Known d db.tables) (str_eq (x.trim token) "") _ _ db (λ _. tt)
          (λ _. check_credential-Known d token db)

    pub authenticate_device-Known :
        (d token : String) (db : Database F W)
        → Ensures (Known d db.tables) (authenticate_device x d token db)
    unfolding authenticate_device
    authenticate_device-Known d token db = check_valid-Known d token (validate_device_id d) db

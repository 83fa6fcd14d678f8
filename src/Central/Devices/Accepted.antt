-- ===== src/Central/Devices/Accepted.antt =====
-- The token that a device is given is accepted (internal/store/central.go).
use Prim.Native.String.{len}
use text.Mathlib.Text.{◌==◌ as str_eq}
use text.Mathlib.TextEquality.{eq_iff}
use on_watch.Base.{
  ℕ, ◌≡◌, refl, true, false, ◌||◌, Option, none, some, [], String, lookup, arith,
  lookup-insert_self, string_eq, ltb,
}
use on_watch.Ingest.Decoding.{validate_device_id}
use on_watch.Central.Tables.{DeviceRow, Tables, Database, query, exec}
use on_watch.Central.Payload.{Externals}
use on_watch.Central.Storing.Laws.{
  Ensures, Ensures-imp, and_then-Ensures, query-Ensures, exec-Ensures, if-Ensures, query_works,
}
use on_watch.Central.Devices.{
  Device, new_device, is_revoked, set_row, add_row, get_device, insert_device, with_credential,
  create_device, is_credential, check_credential, check_valid, authenticate_device,
}

module _ {F W : Type 0} (x : Externals F W) where
  -- The device has a row with the token, and is not revoked.
  record Holds (token : String) (device : Device) (t : Tables F W) : Type 0 where
    stored : lookup (Device.id device) t.devices ≡ some (Device.row device)
    digest : (Device.row device).token_digest ≡ x.hash token
    live : is_revoked (Device.row device) ≡ false

  Given : String → String → Device × String → Tables F W → Type 0
  Given d token (device, given) t = (given ≡ token) × (Device.id device ≡ d) × Holds token device t

  pub get_device-Reads :
      (d : String) (row : DeviceRow) (db : Database F W)
      → lookup d db.tables.devices ≡ some row
      → Ensures
          (λ device t. (device ≡ record { id = d; row = row }) × (t ≡ db.tables))
          (get_device d db)
  unfolding get_device
  get_device-Reads d row db here =
      and_then-Ensures _ (λ device t. (device ≡ record { id = d; row = row }) × (t ≡ db.tables)) _
        (query _ db) (query-Ensures _ db) (λ found db1 k. rw (k.0, here) (refl, k.1))

  get_device_works :
      (d : String) (row : DeviceRow) (db : Database F W)
      → lookup d db.tables.devices ≡ some row
      → db.faults ≡ []
      → get_device d db ≡ (some (record { id = d; row = row }), db)
  unfolding get_device
  get_device_works d row db here works = rw (query_works _ db works, here) refl

  insert_device-Given :
      (name platform d token : String) (now : ℕ) (db : Database F W)
      → Ensures (Given d token) (insert_device x name platform d token now db)
  unfolding insert_device Given
  insert_device-Given name platform d token now db =
      let row = new_device name (x.hash token) (x.trim platform) now in
      and_then-Ensures (λ (u : Unit {0}) t. lookup d t.devices ≡ some row) (Given d token) _
        (exec (λ t. add_row d row (lookup d t.devices) t) db)
        (Ensures-imp _ (λ (u : Unit {0}) t. lookup d t.devices ≡ some row) _ (exec-Ensures _ db)
          (λ u t made. added row (lookup d db.tables.devices) t made))
        (λ u db1 here.
          and_then-Ensures (λ device t. (device ≡ record { id = d; row = row }) × (t ≡ db1.tables))
            (Given d token) _ (get_device d db1) (get_device-Reads d row db1 here)
            (λ device db2 k.
              rw (k.0, k.1) (refl, refl, record { stored = here; digest = refl; live = refl })))
    where
      added :
          (row : DeviceRow) (found : Option DeviceRow) (t : Tables F W)
          → add_row d row found db.tables ≡ some t
          → lookup d t.devices ≡ some row
      added row (some old) t made = absurd (cc)
      added row none t made =
          let same : set_row d row db.tables ≡ t = ground arith in
          rw (← same) (lookup-insert_self d row db.tables.devices)

  create_device-Given :
      (name platform d token : String) (now : ℕ) (db : Database F W)
      → Ensures (Given d token) (create_device x name platform (some (d, token)) now db)
  unfolding create_device with_credential
  create_device-Given name platform d token now db =
      if-Ensures (Given d token) (str_eq (x.trim name) "" || ltb 128 (len (x.trim name))) _ _ db
        (λ _. tt) (λ _. insert_device-Given (x.trim name) platform d token now db)

  Holds-accepted :
      (token : String) (device : Device) (db : Database F W)
      → Holds token device db.tables
      → validate_device_id (Device.id device) ≡ none
      → str_eq (x.trim token) "" ≡ false
      → db.faults ≡ []
      → authenticate_device x (Device.id device) token db ≡ (some device, db)
  unfolding authenticate_device check_valid check_credential get_device is_credential
  Holds-accepted token device db h valid some_token works =
      let same : str_eq (Device.row device).token_digest (x.hash token) ≡ true =
        (eq_iff _ _).1 h.digest in
      rw (valid, some_token, query_works _ db works, h.stored, same, h.live)
        (get_device_works (Device.id device) (Device.row device) db h.stored works)

  -- If `CreateDevice` has returned a device with a token, `AuthenticateDevice` accepts the token as
  -- that of the device while no statement fails. The generated identifier has the form of one and
  -- the generated token is not blank.
  pub create_device-authenticate :
      (name platform d token given : String) (now : ℕ) (device : Device) (db db1 : Database F W)
      → create_device x name platform (some (d, token)) now db ≡ (some (device, given), db1)
      → validate_device_id d ≡ none
      → str_eq (x.trim token) "" ≡ false
      → db1.faults ≡ []
      → authenticate_device x (Device.id device) given db1 ≡ (some device, db1)
  unfolding Given
  create_device-authenticate name platform d token given now device db db1 made valid some_token
        works =
      let (same, named, held) : Given d token (device, given) db1.tables =
        rw made at (create_device-Given name platform d token now db) in
      rw same (Holds-accepted token device db1 held (rw named valid) some_token works)

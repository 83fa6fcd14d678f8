-- ===== src/Central/Devices/Owned.antt =====
-- What the calls on devices keep, whichever statement fails
-- (internal/store/central.go).
use Prim.Native.String.{len}
use text.Mathlib.Text.{◌==◌ as str_eq}
use mathlib.Core.Option
use mathlib.Core.Path.{subst}
use on_watch.Base.{
  ℕ, ◌≡◌, refl, sym, ◌∙◌, Bool, true, false, inl, inr, Option, none, some, map, String, arith,
  lookup, insert, Bool-cases, string_eq, ltb, ◌||◌, Dict,
}
use on_watch.Ingest.Decoding.{DecodeError, validate_device_id}
use on_watch.Ingest.Desired.{GoText, DesiredConfig, ConfigError, validate_desired_config}
use on_watch.Central.Tables.{DeviceRow, Tables, Database, pure, or_fail, query, exec}
use on_watch.Central.Always.{Always, and_then-Always, query_then, exec-Always, if-Always}
use on_watch.Central.Storing.Laws.{
  Ensures, Closes, Ensures-imp, and_then-Ensures, query-Ensures, exec-Ensures, transaction-Closes,
  if-Ensures,
}
use on_watch.Central.Payload.{Externals}
use on_watch.Central.Devices.{
  DeviceHeartbeat, is_revoked, end_row, revoked, set_row, change_live, update_live, change_any,
  update_any, add_row, mark_row, get_device, end_ownership, mark_revoked, revoke_device,
  record_heartbeat, set_config, set_valid, set_device_desired_config, insert_device,
  with_credential, create_device, rotate_with, rotate_valid, rotate_device_token, new_device,
  beaten,
}
use on_watch.Central.Stable.{Keeps, IsStable}

-- What the first update of `RevokeDevice` has done.
abbrev Marked : {F W : Type 0} → String → Tables F W → Bool → Tables F W → Type 0
Marked d s false t = t ≡ s
Marked d s true t =
    (row : DeviceRow) × (is_revoked row ≡ true)
    × (t.owners ≡ s.owners)
    × (t.devices ≡ insert d row s.devices)

pub row-Keeps :
    (d : String) (row new : DeviceRow) (devices : Dict String DeviceRow)
    → lookup d devices ≡ some row
    → is_revoked new ≡ is_revoked row
    → Keeps d new devices
row-Keeps d row new devices here same other there = let e : row ≡ other = cc in rw (← e) same

module _ {F W : Type 0} where
  pub Closes-Always :
      {A : Type 0} (P : Tables F W → Type 0) (s : Tables F W) (r : Option A × Database F W)
      → P s
      → Closes (λ a t. P t) s r
      → Always P r
  Closes-Always P s (none, db) h k = subst P (sym k) h
  Closes-Always P s (some a, db) h k = k

module _ {F W : Type 0} (P : Tables F W → Type 0) (law : IsStable P) where
  pub get_device-Always :
      (d : String) (db : Database F W) → P db.tables → Always P (get_device d db)
  unfolding get_device
  get_device-Always d db h = query_then P _ _ db h (λ db1 e. subst P (sym e) h)

  pub update_live-Always :
      (d : String) (change : DeviceRow → DeviceRow) (db : Database F W)
      → ((row : DeviceRow) → is_revoked (change row) ≡ is_revoked row)
      → P db.tables
      → Always P (update_live d change db)
  update_live-Always d change db keeps h =
      exec-Always P (λ t. change_live d change (lookup d t.devices) t) db h
        (λ t made. changed (lookup d db.tables.devices) refl t made)
    where
      changed :
          (found : Option DeviceRow)
          → lookup d db.tables.devices ≡ found
          → (t : Tables F W) → change_live d change found db.tables ≡ some t
          → P t
      changed none at_d t made = absurd (cc)
      changed (some row) at_d t made = elim (Bool-cases (is_revoked row)) [
        | inl gone ↦ absurd (ground arith)
        | inr live ↦
            let same : set_row d (change row) db.tables ≡ t = ground arith in
            subst P same (
              law.written d (change row) db.tables
                (row-Keeps d row (change row) db.tables.devices at_d (keeps row)) h)
      ]

  pub record_heartbeat-Always :
      (d : String) (b : DeviceHeartbeat) (now : ℕ) (db : Database F W)
      → P db.tables
      → Always P (record_heartbeat d b now db)
  unfolding record_heartbeat
  record_heartbeat-Always d b now db h =
      and_then-Always P (λ _. get_device d) (update_live d (beaten now b) db)
        (update_live-Always d (beaten now b) db (λ row. refl) h)
        (λ u db1 k. get_device-Always d db1 k)

  pub update_any-Always :
      (d : String) (change : DeviceRow → DeviceRow) (db : Database F W)
      → ((row : DeviceRow) → is_revoked (change row) ≡ is_revoked row)
      → P db.tables
      → Always P (update_any d change db)
  update_any-Always d change db keeps h =
      exec-Always P (λ t. change_any d change (lookup d t.devices) t) db h
        (λ t made. changed (lookup d db.tables.devices) refl t made)
    where
      changed :
          (found : Option DeviceRow)
          → lookup d db.tables.devices ≡ found
          → (t : Tables F W) → change_any d change found db.tables ≡ some t
          → P t
      changed none at_d t made = absurd (cc)
      changed (some row) at_d t made =
          let same : set_row d (change row) db.tables ≡ t = ground arith in
          subst P same (
            law.written d (change row) db.tables
              (row-Keeps d row (change row) db.tables.devices at_d (keeps row)) h)

  pub set_config-Always :
      (d : String) (config : DesiredConfig) (db : Database F W)
      → P db.tables
      → Always P (set_config d config db)
  unfolding set_config
  set_config-Always d config db h =
      and_then-Always P _ (get_device d db) (get_device-Always d db h)
        (λ current db1 k. update_any-Always d _ db1 (λ row. refl) k)

  mark_row-Marked :
      (d : String) (now : ℕ) (s : Tables F W) (found : Option DeviceRow) (db : Database F W)
      → db.tables ≡ s
      → Ensures (Marked d s) (mark_row d now s found db)
  mark_row-Marked d now s none db same = same
  mark_row-Marked d now s (some row) db same =
      if-Ensures (Marked d s) (is_revoked row) _ _ db (λ _. same)
        (λ _. (revoked now row, refl, refl, refl))

  mark_revoked-Marked :
      (d : String) (now : ℕ) (db : Database F W)
      → Ensures (Marked d db.tables) (mark_revoked d now db)
  unfolding mark_revoked
  mark_revoked-Marked d now db =
      and_then-Ensures _ (Marked d db.tables) _ (query _ db) (query-Ensures _ db)
        (λ t db1 e. rw e.0 (mark_row-Marked d now db.tables (lookup d db.tables.devices) db1 e.1))

  end_ownership-Always :
      (d : String) (now : ℕ) (done : Bool) (s : Tables F W) (db : Database F W)
      → P s
      → Marked d s done db.tables
      → Ensures (λ (u : Unit {0}) t. P t) (end_ownership d now done db)
  unfolding end_ownership
  end_ownership-Always d now true s db h (row, gone, owners, devices) =
      Ensures-imp _ (λ (u : Unit {0}) t. P t) _ (exec-Ensures _ db)
        (λ u t made.
          let same : record db.tables { owners = map (end_row d now) db.tables.owners } ≡ t =
            cc made in
          subst P same (law.cut d now row db.tables s gone owners devices h))
  end_ownership-Always d now false s db h same =
      and_then-Ensures _ (λ (u : Unit {0}) t. P t) _ (query _ db) (query-Ensures _ db)
        (λ row db1 e. exists_row row db1 (subst P (sym (e.1 ∙ same)) h))
    where
      exists_row :
          (row : Option DeviceRow) (db1 : Database F W)
          → P db1.tables
          → Ensures (λ (u : Unit {0}) t. P t) (or_fail (Option.map (λ r. tt) row) db1)
      exists_row none db1 k = tt
      exists_row (some r) db1 k = k

  pub revoke_device-Always :
      (d : String) (now : ℕ) (db : Database F W) → P db.tables → Always P (revoke_device d now db)
  unfolding revoke_device
  revoke_device-Always d now db h = Closes-Always P db.tables _ h (
      transaction-Closes (λ (u : Unit {0}) t. P t) _ db
        (λ db1 e.
          and_then-Ensures (Marked d db1.tables) (λ (u : Unit {0}) t. P t) (end_ownership d now)
            (mark_revoked d now db1) (mark_revoked-Marked d now db1)
            (λ done db2 k. end_ownership-Always d now done db1.tables db2 (subst P (sym e) h) k)))

  set_valid-Always :
      (d : String) (config : DesiredConfig) (invalid : Option ConfigError) (db : Database F W)
      → P db.tables
      → Always P (set_valid d config invalid db)
  set_valid-Always d config (some e) db h = h
  set_valid-Always d config none db h = set_config-Always d config db h

  pub set_device_desired_config-Always :
      (text : GoText) (d : String) (config : DesiredConfig) (db : Database F W)
      → P db.tables
      → Always P (set_device_desired_config text d config db)
  unfolding set_device_desired_config
  set_device_desired_config-Always text d config db h =
      set_valid-Always d config (validate_desired_config text config) db h

  add_row-Always :
      (d : String) (new : DeviceRow) (found : Option DeviceRow) (s t : Tables F W)
      → lookup d s.devices ≡ found
      → add_row d new found s ≡ some t
      → P s
      → P t
  add_row-Always d new (some row) s t here made h = absurd (cc)
  add_row-Always d new none s t here made h =
      let same : set_row d new s ≡ t = ground arith in
      subst P same (law.written d new s (λ row there. absurd (cc)) h)

  module _ (x : Externals F W) where
    with_credential-Always :
        (name platform : String) (now : ℕ) (credential : Option (String × String))
        (db : Database F W)
        → P db.tables
        → Always P (with_credential x name platform now credential db)
    unfolding with_credential insert_device
    with_credential-Always name platform now none db h = h
    with_credential-Always name platform now (some (d, token)) db h =
        let new = new_device name (x.hash token) (x.trim platform) now in
        and_then-Always P _ (exec (λ t. add_row d new (lookup d t.devices) t) db)
          (exec-Always P (λ t. add_row d new (lookup d t.devices) t) db h
            (λ t made. add_row-Always d new _ db.tables t refl made h))
          (λ u db1 k.
            and_then-Always P (λ found. pure (found, token)) (get_device d db1)
              (get_device-Always d db1 k) (λ found db2 k2. k2))

    pub create_device-Always :
        (name platform : String) (credential : Option (String × String)) (now : ℕ)
        (db : Database F W)
        → P db.tables
        → Always P (create_device x name platform credential now db)
    unfolding create_device
    create_device-Always name platform credential now db h =
        if-Always P (str_eq (x.trim name) "" || ltb 128 (len (x.trim name))) _ _ db (λ _. h)
          (λ _. with_credential-Always (x.trim name) platform now credential db h)

    rotate_with-Always :
        (d : String) (now : ℕ) (token : Option String) (db : Database F W)
        → P db.tables
        → Always P (rotate_with x d now token db)
    unfolding rotate_with
    rotate_with-Always d now none db h = h
    rotate_with-Always d now (some token) db h =
        and_then-Always P (λ u. pure token) _ (update_live-Always d _ db (λ row. refl) h)
          (λ u db1 k. k)

    rotate_valid-Always :
        (d : String) (now : ℕ) (token : Option String) (invalid : Option DecodeError)
        (db : Database F W)
        → P db.tables
        → Always P (rotate_valid x d now token invalid db)
    rotate_valid-Always d now token (some e) db h = h
    rotate_valid-Always d now token none db h = rotate_with-Always d now token db h

    pub rotate_device_token-Always :
        (d : String) (token : Option String) (now : ℕ) (db : Database F W)
        → P db.tables
        → Always P (rotate_device_token x d token now db)
    unfolding rotate_device_token
    rotate_device_token-Always d token now db h =
        rotate_valid-Always d now token (validate_device_id d) db h

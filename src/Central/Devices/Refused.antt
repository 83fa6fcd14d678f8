-- ===== src/Central/Devices/Refused.antt =====
-- A revoked device is refused (internal/store/central.go).
use mathlib.Core.Option
use mathlib.Core.Path.{subst}
use text.Mathlib.Text.{◌==◌ as str_eq}
use on_watch.Base.{
  ℕ, ◌≡◌, refl, sym, ◌∙◌, Bool, true, false, Option, none, some, map, String, lookup, arith,
  lookup-insert_self, string_eq,
}
use on_watch.Ingest.Decoding.{DecodeError, validate_device_id}
use on_watch.Central.Tables.{DeviceRow, Tables, Database, query, or_fail}
use on_watch.Central.Payload.{Externals}
use on_watch.Central.Storing.Laws.{
  Ensures, Closes, Ensures-imp, and_then-Ensures, query-Ensures, exec-Ensures, transaction-Closes,
  if-Ensures,
}
use on_watch.Central.Devices.{
  is_revoked, end_row, revoked, mark_row, mark_revoked, end_ownership, revoke_device, is_credential,
  check_credential, check_valid, authenticate_device,
}
use on_watch.Central.Stable.{IsCut}

module _ {F W : Type 0} where
  -- The update of `RevokeDevice` has cut the device, or there was no row to update.
  Cuts : String → Bool → Tables F W → Type 0
  Cuts d true t = IsCut d t
  Cuts d false t = (row : DeviceRow) → lookup d t.devices ≡ some row → is_revoked row ≡ true

  mark_row-Cuts :
      (d : String) (now : ℕ) (t : Tables F W) (found : Option DeviceRow) (db : Database F W)
      → lookup d t.devices ≡ found
      → db.tables ≡ t
      → Ensures (Cuts d) (mark_row d now t found db)
  unfolding Cuts IsCut
  mark_row-Cuts d now t none db here same =
      λ row there. let k : lookup d t.devices ≡ some row = rw same at there in absurd (cc)
  mark_row-Cuts d now t (some old) db here same =
      if-Ensures (Cuts d) (is_revoked old) _ _ db
        (λ gone row there.
          let k : lookup d t.devices ≡ some row = rw same at there in
          let e : old ≡ row = cc in rw (← e) gone)
        (λ _. (revoked now old, lookup-insert_self d (revoked now old) t.devices, refl))

  end_ownership-IsCut :
      (d : String) (now : ℕ) (done : Bool) (db : Database F W)
      → Cuts d done db.tables
      → Ensures (λ (u : Unit {0}) t. IsCut d t) (end_ownership d now done db)
  unfolding end_ownership Cuts IsCut
  end_ownership-IsCut d now true db h =
      Ensures-imp _ (λ (u : Unit {0}) t. IsCut d t) _ (exec-Ensures _ db)
        (λ u t made.
          let same : record db.tables { owners = map (end_row d now) db.tables.owners } ≡ t =
            cc made in
          subst (λ t. IsCut d t) same h)
  end_ownership-IsCut d now false db h =
      and_then-Ensures _ (λ (u : Unit {0}) t. IsCut d t) _ (query _ db) (query-Ensures _ db)
        (λ row db1 e. there row db1 e.0 e.1)
    where
      there :
          (found : Option DeviceRow) (db1 : Database F W)
          → found ≡ lookup d db.tables.devices
          → db1.tables ≡ db.tables
          → Ensures (λ (u : Unit {0}) t. IsCut d t) (or_fail (Option.map (λ r. tt) found) db1)
      there none db1 here same = tt
      there (some row) db1 here same = rw same (row, sym here, h row (sym here))

  pub revoke_device-IsCut :
      (d : String) (now : ℕ) (db : Database F W)
      → Closes (λ (u : Unit {0}) t. IsCut d t) db.tables (revoke_device d now db)
  unfolding revoke_device mark_revoked
  revoke_device-IsCut d now db =
      transaction-Closes (λ (u : Unit {0}) t. IsCut d t) _ db
        (λ db1 e.
          and_then-Ensures (Cuts d) (λ (u : Unit {0}) t. IsCut d t) (end_ownership d now)
            (mark_revoked d now db1)
            (and_then-Ensures _ (Cuts d) _ (query _ db1) (query-Ensures _ db1)
              (λ t db2 k. mark_row-Cuts d now t (lookup d t.devices) db2 refl (k.1 ∙ sym k.0)))
            (λ done db2 k. end_ownership-IsCut d now done db2 k))

  Ensures-none :
      {A : Type 0} (r : Option A × Database F W) → Ensures (λ (a : A) t. ⊥) r → r.0 ≡ none
  Ensures-none (none, db) h = refl
  Ensures-none (some a, db) h = absurd h

  module _ (x : Externals F W) where
    is_credential_revoked :
        (token : String) (row : DeviceRow) (found : Option DeviceRow)
        → found ≡ some row
        → is_revoked row ≡ true
        → is_credential x token found ≡ true
        → ⊥
    unfolding is_credential
    is_credential_revoked token row found same gone fits =
        let k : is_credential x token (some row) ≡ true = rw same at fits in ground (arith, gone)

    check_valid-refused :
        (d token : String) (invalid : Option DecodeError) (db : Database F W)
        → IsCut d db.tables
        → Ensures (λ device t. ⊥) (check_valid x d token invalid db)
    unfolding check_valid check_credential IsCut
    check_valid-refused d token (some e) db h = tt
    check_valid-refused d token none db (row, here, gone) =
        if-Ensures (λ device t. ⊥) (str_eq (x.trim token) "") _ _ db (λ _. tt)
          (λ _.
            and_then-Ensures _ (λ device t. ⊥) _ (query _ db) (query-Ensures _ db)
              (λ found db1 e.
                if-Ensures (λ device t. ⊥) (is_credential x token found) _ _ db1
                  (λ fits. absurd (is_credential_revoked token row found (e.0 ∙ here) gone fits))
                  (λ _. tt)))

    pub authenticate_device-refused :
        (d token : String) (db : Database F W)
        → IsCut d db.tables
        → (authenticate_device x d token db).0 ≡ none
    unfolding authenticate_device
    authenticate_device-refused d token db h =
        Ensures-none _ (check_valid-refused d token (validate_device_id d) db h)

-- ===== src/Central/Calls.antt =====
-- Any calls of the central tables, one after the other (internal/store/central.go).
use mathlib.Core.Path.{subst}
use on_watch.Base.{
  ℕ, ◌≡◌, refl, sym, ◌∙◌, inl, inr, Option, some, List, [], ◌∷◌, String, arith, lookup,
  Option-cases, none, string_eq,
}
use on_watch.Ingest.{Event, EventResult}
use on_watch.Ingest.Desired.{GoText, DesiredConfig}
use on_watch.Central.Tables.{DeviceRow, Tables, Database, pure}
use on_watch.Central.Always.{Always}
use on_watch.Central.Payload.{Externals}
use on_watch.Central.Storing.{
  accept_at, store_ingest_event, store_events, store_batch, store_ingest_batch, has_new,
}
use on_watch.Central.Storing.Laws.{
  Ensures, Ensures-imp, and_then-Ensures, exec-Ensures, transaction-Closes, if-Ensures,
}
use on_watch.Central.Storing.Received.{Stores}
use on_watch.Central.Storing.Enriched.{store_ingest_event-Stores}
use on_watch.Central.Stable.{IsStable, IsCut, IsOwned-IsStable, IsCut-IsStable}
use on_watch.Central.Devices.Refused.{revoke_device-IsCut, authenticate_device-refused}
use on_watch.Central.Devices.{
  authenticate_device, DeviceHeartbeat, set_row, revoke_device, record_heartbeat,
  set_device_desired_config, create_device, rotate_device_token,
}
use on_watch.Central.Devices.Owned.{
  Closes-Always, row-Keeps, create_device-Always, rotate_device_token-Always, revoke_device-Always,
  record_heartbeat-Always, set_device_desired_config-Always,
}
use on_watch.Central.Owners.{set_poll_owner, clear_poll_owner}
use on_watch.Central.Owners.Owned.{set_poll_owner-Always, clear_poll_owner-Always}
use on_watch.Central.Owners.Exclusive.{IsOwned}

-- One for each call of internal/store/central.go that changes devices, owners or observations, with
-- its arguments. The import of internal/store/transfer.go and the writes of central_binding.go are
-- left out.
pub data Call : Type 0 where
  create : String → String → Option (String × String) → ℕ → Call
  rotate : String → Option String → ℕ → Call
  revoke : String → ℕ → Call
  beat : String → DeviceHeartbeat → ℕ → Call
  configure : String → DesiredConfig → Call
  assign_owner : String → String → String → String → ℕ → Call
  clear_owner : String → String → ℕ → Call
  store : String → List Event → ℕ → Call

module _ {F W : Type 0} (x : Externals F W) where
  -- Events change no owner and no device.
  record Frames (s t : Tables F W) : Type 0 where
    owners : t.owners ≡ s.owners
    devices : t.devices ≡ s.devices

  store_events-Frames :
      (d : String) (es : List Event) (now : ℕ) (db : Database F W)
      → Ensures (λ (rs : List EventResult) t. Frames db.tables t) (store_events x d es now db)
  unfolding store_events
  store_events-Frames d [] now db = record { owners = refl; devices = refl }
  store_events-Frames d (e ∷ es) now db =
      and_then-Ensures (Stores x d e db.tables) (λ (rs : List EventResult) t. Frames db.tables t) _
        (store_ingest_event x d e now db) (store_ingest_event-Stores x d e now db)
        (λ r db1 h.
          and_then-Ensures (λ (rs : List EventResult) t. Frames db1.tables t)
            (λ (rs : List EventResult) t. Frames db.tables t) (λ rs. pure (r ∷ rs))
            (store_events x d es now db1) (store_events-Frames d es now db1)
            (λ rs db2 k. record { owners = k.owners ∙ h.owners; devices = k.devices ∙ h.devices }))

  module _ (P : Tables F W → Type 0) (law : IsStable P) where
    accept_at-Keeps :
        (d : String) (now : ℕ) (db : Database F W)
        → P db.tables
        → Ensures (λ (u : Unit {0}) t. P t) (accept_at d now db)
    unfolding accept_at
    accept_at-Keeps d now db h =
        Ensures-imp _ (λ (u : Unit {0}) t. P t) (accept_at d now db) (exec-Ensures _ db)
          (λ u t made. elim (Option-cases (lookup d db.tables.devices)) [
            | inl missing ↦ let same : db.tables ≡ t = ground arith in subst P same h
            | inr (row, found) ↦
                let touched : DeviceRow = record row { last_accepted_event_at = some now } in
                let same : set_row d touched db.tables ≡ t = ground arith in
                subst P same (
                  law.written d touched db.tables
                    (row-Keeps d row touched db.tables.devices found refl) h)
          ])

    store_ingest_batch-Always :
        (d : String) (es : List Event) (now : ℕ) (db : Database F W)
        → P db.tables
        → Always P (store_ingest_batch x d es now db)
    unfolding store_ingest_batch store_batch
    store_ingest_batch-Always d es now db h = Closes-Always P db.tables _ h (
        transaction-Closes (λ (rs : List EventResult) t. P t) (store_batch x d es now) db
          (λ db1 e.
            and_then-Ensures (λ (rs : List EventResult) t. P t) (λ (rs : List EventResult) t. P t) _
              (store_events x d es now db1)
              (Ensures-imp (λ (rs : List EventResult) t. Frames db1.tables t)
                (λ (rs : List EventResult) t. P t) _ (store_events-Frames d es now db1)
                (λ rs t f. law.framed db1.tables t f.owners f.devices (subst P (sym e) h)))
              (λ rs db2 k.
                and_then-Ensures (λ (u : Unit {0}) t. P t) (λ (rs : List EventResult) t. P t)
                  (λ u. pure rs) _
                  (if-Ensures (λ (u : Unit {0}) t. P t) (has_new rs) _ _ db2
                    (λ _. accept_at-Keeps d now db2 k) (λ _. k))
                  (λ u db3 k3. k3))))

  module _ (text : GoText) where
    -- The database after a call, whatever it returns.
    pub run : Call → Database F W → Database F W
    run (create name platform credential now) db =
        (create_device x name platform credential now db).1
    run (rotate d token now) db = (rotate_device_token x d token now db).1
    run (revoke d now) db = (revoke_device d now db).1
    run (beat d heartbeat now) db = (record_heartbeat d heartbeat now db).1
    run (configure d config) db = (set_device_desired_config text d config db).1
    run (assign_owner provider account kind d now) db =
        (set_poll_owner x provider account kind d now db).1
    run (clear_owner provider account now) db = (clear_poll_owner x provider account now db).1
    run (store d events now) db = (store_ingest_batch x d events now db).1

    pub run_all : List Call → Database F W → Database F W
    unfolding run
    run_all [] db = db
    run_all (call ∷ calls) db = run_all calls (run call db)

    module _ (P : Tables F W → Type 0) (law : IsStable P) where
      run-Always : (call : Call) (db : Database F W) → P db.tables → P (run call db).tables
      unfolding run
      run-Always (create name platform credential now) db h =
          create_device-Always P law x name platform credential now db h
      run-Always (rotate d token now) db h = rotate_device_token-Always P law x d token now db h
      run-Always (revoke d now) db h = revoke_device-Always P law d now db h
      run-Always (beat d heartbeat now) db h = record_heartbeat-Always P law d heartbeat now db h
      run-Always (configure d config) db h =
          set_device_desired_config-Always P law text d config db h
      run-Always (assign_owner provider account kind d now) db h =
          set_poll_owner-Always x P law provider account kind d now db h
      run-Always (clear_owner provider account now) db h =
          clear_poll_owner-Always x P law provider account now db h
      run-Always (store d events now) db h = store_ingest_batch-Always P law d events now db h

      -- Any calls keep what is stable.
      pub run_all-Always :
          (calls : List Call) (db : Database F W) → P db.tables → P (run_all calls db).tables
      unfolding run_all
      run_all-Always [] db h = h
      run_all-Always (call ∷ calls) db h = run_all-Always calls (run call db) (run-Always call db h)

    -- After any calls on the central tables, whichever statement fails, no account has two active
    -- owners and each device that owns an account is there and not revoked, if that held before.
    pub run_all-IsOwned :
        (calls : List Call) (db : Database F W)
        → IsOwned db.tables
        → IsOwned (run_all calls db).tables
    run_all-IsOwned calls db h = run_all-Always (λ t. IsOwned t) IsOwned-IsStable calls db h

    -- Once `RevokeDevice` has returned without an error, `AuthenticateDevice` accepts no token of the
    -- device, after any calls, heartbeats, new tokens and assignments among them, and whichever
    -- statement fails.
    pub revoked-refused :
        (d token : String) (now : ℕ) (calls : List Call) (db db1 : Database F W)
        → revoke_device d now db ≡ (some tt, db1)
        → (authenticate_device x d token (run_all calls db1)).0 ≡ none
    revoked-refused d token now calls db db1 done =
        let cut : IsCut d db1.tables = rw done at (revoke_device-IsCut d now db) in
        authenticate_device-refused x d token (run_all calls db1)
          (run_all-Always (λ t. IsCut d t) (IsCut-IsStable d) calls db1 cut)

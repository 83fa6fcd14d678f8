-- ===== src/Central/Owners/Owned.antt =====
-- What the calls on poll owners keep, whichever statement fails
-- (internal/store/central.go).
use text.Mathlib.Text.{◌==◌ as str_eq}
use mathlib.Core.Path.{subst}
use on_watch.Base.{
  ℕ, ◌≡◌, refl, sym, ◌∙◌, true, ◌||◌, inl, inr, Option, none, some, [], ◌∷◌, ◌++◌, map, String,
  arith, if◌then◌else◌, lookup, Option-cases, string_eq,
}
use on_watch.Central.Tables.{
  DeviceRow, Owner, server, device, PollOwnerRow, Tables, Database, and_then, or_fail, exec,
}
use on_watch.Central.Always.{
  Always, and_then-Always, query_then, exec-Always, if-Always, transaction-Always,
}
use on_watch.Central.Payload.{Externals, normalize_central_provider}
use on_watch.Central.Rows.{active_owner}
use on_watch.Central.Devices.{set_row}
use on_watch.Central.Devices.Owned.{row-Keeps}
use on_watch.Central.Stable.{IsStable}
use on_watch.Central.Owners.{
  owner_of, is_live, may_own, new_owner, insert_owner, add_owner, assign, set_owner, set_known,
  set_poll_owner, unassign, forget_row, forget, release, clear_poll_owner, end_active,
}
use on_watch.Central.Owners.Exclusive.{HasLive, LiveRow, end_active-Ending}

module _ {F W : Type 0} (x : Externals F W) (P : Tables F W → Type 0) (law : IsStable P) where
  insert_owner-Always :
      (new : PollOwnerRow) (s t : Tables F W)
      → LiveRow s.devices new
      → insert_owner x new s ≡ some t
      → P s
      → P t
  insert_owner-Always new s t live made h =
      elim (Option-cases (active_owner new.provider new.external_account_id s.owners)) [
        | inl free ↦
            let same : record s { owners = s.owners ++ new ∷ [] } ≡ t = ground arith in
            subst P same (law.appended new s free live h)
        | inr (owner, held) ↦ absurd (ground arith)
      ]

  is_live-HasLive :
      (d : String) (found : Option DeviceRow) (t : Tables F W)
      → lookup d t.devices ≡ found
      → is_live x found ≡ true
      → HasLive d t.devices
  is_live-HasLive d none t e h = absurd (cc)
  is_live-HasLive d (some row) t e h = (row, e, ground arith)

  -- The owner is allowed.
  Allowed : Owner → Tables F W → Type 0
  Allowed server t = Unit
  Allowed (device d) t = HasLive d t.devices

  Allowed-LiveRow :
      (provider account : String) (owner : Owner) (now : ℕ) (t : Tables F W)
      → Allowed owner t
      → LiveRow t.devices (new_owner x provider account owner now)
  unfolding Allowed
  Allowed-LiveRow provider account server now t h d live who = absurd (cc)
  Allowed-LiveRow provider account (device e) now t h d live who =
      let same : e ≡ d = cc who in rw (← same) h

  add_owner-Always :
      (provider account : String) (owner : Owner) (now : ℕ) (db : Database F W)
      → P db.tables
      → Always P (add_owner x provider account owner now db)
  unfolding add_owner Allowed
  add_owner-Always provider account owner now db h = allow owner
    where
      new : Owner → PollOwnerRow
      new owner = new_owner x provider account owner now

      insert_it :
          (owner : Owner) (db1 : Database F W)
          → P db1.tables
          → Allowed owner db1.tables
          → Always P (exec (insert_owner x (new owner)) db1)
      insert_it owner db1 k g = exec-Always P (insert_owner x (new owner)) db1 k (λ t made.
          insert_owner-Always (new owner) db1.tables t
            (Allowed-LiveRow provider account owner now db1.tables g) made k)

      allow :
          (owner : Owner)
          → Always P (
              and_then
                (λ allowed. if allowed then exec (insert_owner x (new owner)) else or_fail none)
                (may_own x owner db))
      allow server = insert_it server db h tt
      allow (device d) =
          query_then P (λ t. is_live x (lookup d t.devices)) _ db h
            (λ db1 e.
              let k = subst P (sym e) h in
              if-Always P (is_live x (lookup d db1.tables.devices)) _ _ db1
                (λ live.
                  insert_it (device d) db1 k
                    (is_live-HasLive d (lookup d db1.tables.devices) db1.tables refl live))
                (λ _. k))

  assign-Always :
      (provider account : String) (owner : Owner) (now : ℕ) (active : Option Owner)
      (db : Database F W)
      → P db.tables
      → Always P (assign x provider account owner now active db)
  unfolding assign
  assign-Always provider account owner now none db h =
      add_owner-Always provider account owner now db h
  assign-Always provider account owner now (some active) db h = h

  set_known-Always :
      (provider account : String) (now : ℕ) (owner : Option Owner) (db : Database F W)
      → P db.tables
      → Always P (set_known x provider account now owner db)
  unfolding set_owner
  set_known-Always provider account now none db h = h
  set_known-Always provider account now (some owner) db h = transaction-Always P _ db h (λ db1 e.
      query_then P (λ t. active_owner provider account t.owners) _ db1 (subst P (sym e) h)
        (λ db2 e2. assign-Always provider account owner now _ db2 (subst P (sym (e2 ∙ e)) h)))

  pub set_poll_owner-Always :
      (provider external_id kind d : String) (now : ℕ) (db : Database F W)
      → P db.tables
      → Always P (set_poll_owner x provider external_id kind d now db)
  unfolding set_poll_owner
  set_poll_owner-Always provider external_id kind d now db h =
      let name = normalize_central_provider x provider in
      let account = x.trim external_id in
      if-Always P (str_eq name "" || str_eq account "") _ _ db (λ _. h)
        (λ _. set_known-Always name account now (owner_of kind d) db h)

  forget-Always :
      (provider account : String) (owner : Owner) (db : Database F W)
      → P db.tables
      → Always P (forget x provider account owner db)
  unfolding forget
  forget-Always provider account server db h = h
  forget-Always provider account (device d) db h =
      query_then P (λ t. lookup d t.devices) (forget_row x provider account d) db h
        (λ db1 e. forget_it db1 (subst P (sym e) h) (lookup d db1.tables.devices) refl)
    where
      forget_it :
          (db1 : Database F W)
          → P db1.tables
          → (found : Option DeviceRow) → lookup d db1.tables.devices ≡ found
          → Always P (forget_row x provider account d found db1)
      forget_it db1 k none at_d = k
      forget_it db1 k (some row) at_d =
          exec-Always P (λ t. some (set_row d (unassign x provider account row) t)) db1 k
            (λ t made.
              let same : set_row d (unassign x provider account row) db1.tables ≡ t = cc made in
              subst P same (
                law.written d (unassign x provider account row) db1.tables
                  (row-Keeps d row (unassign x provider account row) db1.tables.devices at_d refl)
                  k))

  release-Always :
      (provider account : String) (now : ℕ) (owner : Option Owner) (db : Database F W)
      → P db.tables
      → Always P (release x provider account now owner db)
  unfolding release
  release-Always provider account now none db h = h
  release-Always provider account now (some owner) db h =
      let change = λ (t : Tables F W).
        some (record t { owners = map (end_active provider account now) t.owners }) in
      and_then-Always P (λ u. forget x provider account owner) _
        (exec-Always P change db h (λ t made. end_it t made))
        (λ u db1 k. forget-Always provider account owner db1 k)
    where
      end_it :
          (t : Tables F W)
          → some
              (record db.tables { owners = map (end_active provider account now) db.tables.owners })
            ≡ some t
          → P t
      end_it t made =
          let same : record db.tables {
            owners = map (end_active provider account now) db.tables.owners;
          }
              ≡ t =
            cc made in
          subst P same (
            law.ended (end_active provider account now) db.tables
              (end_active-Ending provider account now) h)

  pub clear_poll_owner-Always :
      (provider external_id : String) (now : ℕ) (db : Database F W)
      → P db.tables
      → Always P (clear_poll_owner x provider external_id now db)
  unfolding clear_poll_owner
  clear_poll_owner-Always provider external_id now db h =
      let name = normalize_central_provider x provider in
      let account = x.trim external_id in
      transaction-Always P _ db h (λ db1 e.
        query_then P (λ t. active_owner name account t.owners) _ db1 (subst P (sym e) h)
          (λ db2 e2. release-Always name account now _ db2 (subst P (sym (e2 ∙ e)) h)))

-- ===== src/Central/Owners/Exclusive.antt =====
-- No account has two active owners, and a device that owns an account is not revoked
-- (internal/store/central.go).
use text.Mathlib.Text.{◌==◌ as str_eq}
use text.Mathlib.TextEquality.{eq_iff}
use on_watch.Base.{
  ℕ, ◌≡◌, ◌≢◌, refl, sym, ◌∙◌, true, false, ◌&&◌, ◌⊎◌, inl, inr, none, some, List, [], ◌∷◌, ◌++◌,
  map, String, arith, Dict, lookup, insert, lookup-insert_self, lookup-insert_ne, All, All-append,
  All-imp, Bool-cases, string_eq,
}
use on_watch.Central.Tables.{DeviceRow, device, PollOwnerRow, Tables}
use on_watch.Central.Rows.{active_owner}
use on_watch.Central.Devices.{is_revoked, is_held_by, end_row, set_row}
use on_watch.Central.Owners.{is_active, end_active}

-- At most one row of an account is active.
abbrev pub Exclusive : List PollOwnerRow → Type 0
Exclusive [] = Unit
Exclusive (row ∷ rows) =
    (row.ended_at ≡ none → active_owner row.provider row.external_account_id rows ≡ none)
    × Exclusive rows

-- A change of a row that may only end it.
abbrev pub Ending : (PollOwnerRow → PollOwnerRow) → Type 0
Ending f =
    (row : PollOwnerRow)
    → (f row ≡ row) ⊎ ((now : ℕ) × (f row ≡ record row { ended_at = some now }))

active_owner-end :
    (f : PollOwnerRow → PollOwnerRow) (p a : String) (rows : List PollOwnerRow)
    → Ending f
    → active_owner p a rows ≡ none
    → active_owner p a (map f rows) ≡ none
unfolding active_owner
active_owner-end f p a [] ends h = refl
active_owner-end f p a (row ∷ rows) ends h = elim (ends row) [
  | inl same ↦ rw same (ground (arith, active_owner-end f p a rows ends))
  | inr (now, ended) ↦ rw ended (active_owner-end f p a rows ends (ground arith))
]

pub Exclusive-end :
    (f : PollOwnerRow → PollOwnerRow) (rows : List PollOwnerRow)
    → Ending f
    → Exclusive rows
    → Exclusive (map f rows)
Exclusive-end f [] ends h = tt
Exclusive-end f (row ∷ rows) ends h = (
  (λ live. elim (ends row) [
    | inl same ↦ rw same (active_owner-end f _ _ rows ends (h.0 (rw same at live)))
    | inr (now, ended) ↦ let over : some now ≡ none = rw ended at live in absurd (cc)
  ]),
  Exclusive-end f rows ends h.1,
)

pub end_active-Ending : (p a : String) (now : ℕ) → Ending (end_active p a now)
end_active-Ending p a now row = elim (Bool-cases (is_active p a row)) [
  | inl active ↦ inr (now, rw active refl)
  | inr other ↦ inl (rw other refl)
]

active_owner-append :
    (p a : String) (rows : List PollOwnerRow) (new : PollOwnerRow)
    → active_owner p a rows ≡ none
    → (str_eq new.provider p && str_eq new.external_account_id a) ≡ false
    → active_owner p a (rows ++ new ∷ []) ≡ none
unfolding active_owner
active_owner-append p a [] new h other = ground arith
active_owner-append p a (row ∷ rows) new h other = ground (arith, active_owner-append p a rows new)

pub Exclusive-append :
    (rows : List PollOwnerRow) (new : PollOwnerRow)
    → Exclusive rows
    → active_owner new.provider new.external_account_id rows ≡ none
    → Exclusive (rows ++ new ∷ [])
unfolding active_owner
Exclusive-append [] new h free = ((λ e. refl), tt)
Exclusive-append (row ∷ rows) new h free = (
  (λ live. active_owner-append _ _ rows new (h.0 live) (
      ground (
        arith,
        eq_iff row.provider new.provider,
        eq_iff new.provider row.provider,
        eq_iff row.external_account_id new.external_account_id,
        eq_iff new.external_account_id row.external_account_id,
      ))),
  Exclusive-append rows new h.1 (ground arith),
)

pub end_row-Ending : (d : String) (now : ℕ) → Ending (end_row d now)
end_row-Ending d now row = elim (Bool-cases (is_held_by d row)) [
  | inl held ↦ inr (now, rw held refl)
  | inr other ↦ inl (rw other refl)
]

-- A device that is there and not revoked.
abbrev pub HasLive : String → Dict String DeviceRow → Type 0
HasLive d devices = (r : DeviceRow) × (lookup d devices ≡ some r) × (is_revoked r ≡ false)

-- A row that is active for a device is one of a live device.
abbrev pub LiveRow : Dict String DeviceRow → PollOwnerRow → Type 0
LiveRow devices row = (d : String) → row.ended_at ≡ none → row.owner ≡ device d → HasLive d devices

HasLive-insert :
    (d e : String) (row : DeviceRow) (devices : Dict String DeviceRow)
    → (HasLive e devices → is_revoked row ≡ false)
    → HasLive d devices
    → HasLive d (insert e row devices)
HasLive-insert d e row devices stays h = elim (Bool-cases (string_eq.beq e d)) [
  | inl same ↦
      let e' = (eq_iff e d).0 same in
      rw (← e') (row, lookup-insert_self e row devices, stays (rw e' h))
  | inr differs ↦
      (h.0, lookup-insert_ne e d row devices (λ same. let k = (eq_iff e d).1 same in cc) ∙ h.1, h.2)
]

-- The invariant of the tables of owners and devices.
pub record IsOwned {F W : Type 0} (t : Tables F W) : Type 0 where
  pub exclusive : Exclusive t.owners
  pub live : All (LiveRow t.devices) t.owners

pub All-map {ℓ κ μ} :
    {A : Type ℓ} (P : A → Type κ) (Q : A → Type μ) (f : A → A) (xs : List A)
    → ((a : A) → P a → Q (f a))
    → All P xs
    → All Q (map f xs)
All-map P Q f [] next h = tt
All-map P Q f (a ∷ as') next h = (next a h.0, All-map P Q f as' next h.1)

LiveRow-end :
    (f : PollOwnerRow → PollOwnerRow) (devices : Dict String DeviceRow) (row : PollOwnerRow)
    → Ending f
    → LiveRow devices row
    → LiveRow devices (f row)
LiveRow-end f devices row ends h = elim (ends row) [
  | inl same ↦ rw same h
  | inr (now, ended) ↦ rw ended (λ d live who. absurd (cc))
]

held_by :
    (d e : String) (r : PollOwnerRow)
    → r.ended_at ≡ none
    → r.owner ≡ device e
    → is_held_by d r ≡ false
    → d ≢ e
held_by d e r live who other same =
    let here : str_eq e d ≡ true = (eq_iff e d).1 (sym same) in
    let held : is_held_by d r ≡ true = rw (live, who) here in cc

-- A device may be revoked once its rows are ended.
end_row-LiveRow :
    (d : String) (now : ℕ) (row : DeviceRow) (devices : Dict String DeviceRow) (r : PollOwnerRow)
    → LiveRow devices r
    → LiveRow (insert d row devices) (end_row d now r)
end_row-LiveRow d now row devices r h e live who = elim (Bool-cases (is_held_by d r)) [
  | inl held ↦ let over : some now ≡ none = rw held at live in absurd (cc)
  | inr other ↦
      let live' : r.ended_at ≡ none = rw other at live in
      let who' : r.owner ≡ device e = rw other at who in
      let g = h e live' who' in
      (
        g.0,
        lookup-insert_ne d e row devices (λ same. held_by d e r live' who' other same) ∙ g.1,
        g.2,
      )
]

module _ {F W : Type 0} where
  -- Ending rows keeps the invariant.
  pub end-IsOwned :
      (f : PollOwnerRow → PollOwnerRow) (t : Tables F W)
      → Ending f
      → IsOwned t
      → IsOwned (record t { owners = map f t.owners })
  end-IsOwned f t ends h = record {
    exclusive = Exclusive-end f t.owners ends h.exclusive;
    live =
        All-map (LiveRow t.devices) (LiveRow t.devices) f t.owners
          (λ row. LiveRow-end f t.devices row ends) h.live;
  }

  -- A device row may be written that is not revoked where the one before was not.
  pub set_row-IsOwned :
      (d : String) (row : DeviceRow) (t : Tables F W)
      → (HasLive d t.devices → is_revoked row ≡ false)
      → IsOwned t
      → IsOwned (set_row d row t)
  set_row-IsOwned d row t stays h = record {
    exclusive = h.exclusive;
    live =
        All-imp (LiveRow t.devices) (LiveRow (insert d row t.devices)) t.owners
          (λ r g e live who. HasLive-insert e d row t.devices stays (g e live who)) h.live;
  }

  pub append-IsOwned :
      (new : PollOwnerRow) (t : Tables F W)
      → active_owner new.provider new.external_account_id t.owners ≡ none
      → LiveRow t.devices new
      → IsOwned t
      → IsOwned (record t { owners = t.owners ++ new ∷ [] })
  append-IsOwned new t free g h = record {
    exclusive = Exclusive-append t.owners new h.exclusive free;
    live = All-append (LiveRow t.devices) t.owners (new ∷ []) h.live (g, tt);
  }

  -- A device is revoked together with its rows.
  pub revoke-IsOwned :
      (d : String) (now : ℕ) (row : DeviceRow) (s t : Tables F W)
      → s.owners ≡ t.owners
      → s.devices ≡ insert d row t.devices
      → IsOwned t
      → IsOwned (record s { owners = map (end_row d now) s.owners })
  revoke-IsOwned d now row s t owners devices h =
      rw (owners, devices)
        (record {
          exclusive = Exclusive-end (end_row d now) t.owners (end_row-Ending d now) h.exclusive;
          live =
              All-map (LiveRow t.devices) (LiveRow (insert d row t.devices)) (end_row d now)
                t.owners (λ r. end_row-LiveRow d now row t.devices r) h.live;
        })

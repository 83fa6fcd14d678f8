-- ===== src/Central/Stable.antt =====
-- Properties of the owners and devices that the calls of the central tables keep
-- (internal/store/central.go).
use on_watch.Base.{
  ℕ, ◌≡◌, refl, ◌∙◌, true, inl, inr, none, some, [], ◌∷◌, ◌++◌, map, String, Dict, lookup, insert,
  lookup-insert_self, lookup-insert_ne, Bool-cases, string_eq,
}
use text.Mathlib.TextEquality.{eq_iff}
use on_watch.Central.Tables.{DeviceRow, PollOwnerRow, Tables}
use on_watch.Central.Rows.{active_owner}
use on_watch.Central.Devices.{is_revoked, end_row, set_row}
use on_watch.Central.Owners.Exclusive.{
  Ending, LiveRow, IsOwned, end-IsOwned, set_row-IsOwned, append-IsOwned, revoke-IsOwned,
}

-- A row that is revoked exactly if the one before is.
abbrev pub Keeps : String → DeviceRow → Dict String DeviceRow → Type 0
Keeps d new devices =
    (row : DeviceRow) → lookup d devices ≡ some row → is_revoked new ≡ is_revoked row

-- What the calls need to keep a property of the tables.
pub record IsStable {F W : Type 0} (P : Tables F W → Type 0) : Type 0 where
  pub written :
      (d : String) (new : DeviceRow) (t : Tables F W)
      → Keeps d new t.devices
      → P t
      → P (set_row d new t)
  pub ended :
      (f : PollOwnerRow → PollOwnerRow) (t : Tables F W)
      → Ending f
      → P t
      → P (record t { owners = map f t.owners })
  pub appended :
      (new : PollOwnerRow) (t : Tables F W)
      → active_owner new.provider new.external_account_id t.owners ≡ none
      → LiveRow t.devices new
      → P t
      → P (record t { owners = t.owners ++ new ∷ [] })
  pub cut :
      (d : String) (now : ℕ) (row : DeviceRow) (s t : Tables F W)
      → is_revoked row ≡ true
      → s.owners ≡ t.owners
      → s.devices ≡ insert d row t.devices
      → P t
      → P (record s { owners = map (end_row d now) s.owners })
  pub framed : (s t : Tables F W) → t.owners ≡ s.owners → t.devices ≡ s.devices → P s → P t

-- A device that is there and revoked.
unfoldable pub IsCut : {F W : Type 0} → String → Tables F W → Type 0
IsCut d t = (row : DeviceRow) × (lookup d t.devices ≡ some row) × (is_revoked row ≡ true)

module _ {F W : Type 0} where
  pub IsOwned-IsStable : IsStable {F = F} {W = W} (λ t. IsOwned t)
  IsOwned-IsStable = record {
    written = λ d new t keeps h. set_row-IsOwned d new t (λ g. keeps g.0 g.1 ∙ g.2) h;
    ended = λ f t ends h. end-IsOwned f t ends h;
    appended = λ new t free live h. append-IsOwned new t free live h;
    cut = λ d now row s t gone owners devices h. revoke-IsOwned d now row s t owners devices h;
    framed = λ s t owners devices h. record {
      exclusive = rw owners h.exclusive;
      live = rw (owners, devices) h.live;
    };
  }

  IsCut-insert :
      (d e : String) (new : DeviceRow) (s t : Tables F W)
      → ((row : DeviceRow)
          → lookup e s.devices ≡ some row
          → is_revoked row ≡ true
          → is_revoked new ≡ true)
      → t.devices ≡ insert e new s.devices
      → IsCut d s
      → IsCut d t
  unfolding IsCut
  IsCut-insert d e new s t keeps devices (row, here, gone) = elim (Bool-cases (string_eq.beq e d)) [
    | inl same ↦
        let e' = (eq_iff e d).0 same in
        let at_e : lookup e s.devices ≡ some row = rw e' here in
        (new, rw (devices, ← e') (lookup-insert_self e new s.devices), keeps row at_e gone)
    | inr differs ↦ (
      row,
      rw devices
          (lookup-insert_ne e d new s.devices (λ same. let k = (eq_iff e d).1 same in cc) ∙ here),
      gone,
    )
  ]

  pub IsCut-IsStable : (d : String) → IsStable {F = F} {W = W} (λ t. IsCut d t)
  unfolding IsCut
  IsCut-IsStable d = record {
    written = λ e new t keeps h.
        IsCut-insert d e new t (set_row e new t) (λ row here gone. keeps row here ∙ gone) refl h;
    ended = λ f t ends h. h;
    appended = λ new t free live h. h;
    cut = λ e now row s t gone owners devices h.
        IsCut-insert d e row t s (λ old here revoked. gone) devices h;
    framed = λ s t owners devices h. rw devices h;
  }

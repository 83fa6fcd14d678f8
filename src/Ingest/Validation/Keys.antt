-- ===== src/Ingest/Validation/Keys.antt =====
-- What `Event.Validate` promises of a payload (internal/ingest/types.go).
use on_watch.Base.{
  ℕ, ◌≡◌, refl, Bool, true, false, ◌||◌, none, some, List, [], ◌∷◌, ◌++◌, String, All, arith,
  Bool-cases, inl, inr,
}
use on_watch.Ingest.{Event}
use on_watch.Ingest.Validation.{
  Json, null, boolean, number, string, array, object, Items, no_items, item, Fields, no_fields,
  field, Payloads, is_forbidden, walk, walk_items, walk_fields, contains_forbidden_key,
  validate_payload, validate,
}

-- The keys of a value, at any depth.
mutual
  pub keys : Json → List String
  keys null = []
  keys (boolean b) = []
  keys (number n) = []
  keys (string t) = []
  keys (array items) = keys_items items
  keys (object fields) = keys_fields fields

  pub keys_items : Items → List String
  keys_items no_items = []
  keys_items (item v items) = keys v ++ keys_items items

  pub keys_fields : Fields → List String
  keys_fields no_fields = []
  keys_fields (field key v fields) = key ∷ (keys v ++ keys_fields fields)

All-both {ℓ} :
    {A : Type 0} (P : A → Type ℓ) (xs ys : List A) → All P xs → All P ys → All P (xs ++ ys)
All-both P [] ys h k = k
All-both P (x ∷ xs) ys h k = (h.0, All-both P xs ys h.1 k)

neither : (a b : Bool) → (a || b) ≡ false → (a ≡ false) × (b ≡ false)
neither true b h = absurd (cc)
neither false b h = (refl, h)

module _ {F : Type 0} (p : Payloads F) where
  abbrev Allowed : String → Type 0
  Allowed key = is_forbidden p key ≡ false

  mutual
    unfolding walk walk_items walk_fields keys keys_items keys_fields

    walk-keys : (v : Json) → walk p v ≡ false → All Allowed (keys v)
    walk-keys null h = tt
    walk-keys (boolean b) h = tt
    walk-keys (number n) h = tt
    walk-keys (string t) h = tt
    walk-keys (array items) h = walk_items-keys items h
    walk-keys (object fields) h = walk_fields-keys fields h

    walk_items-keys : (items : Items) → walk_items p items ≡ false → All Allowed (keys_items items)
    walk_items-keys no_items h = tt
    walk_items-keys (item v items) h =
        let both = neither (walk p v) (walk_items p items) h in
        All-both Allowed (keys v) (keys_items items) (walk-keys v both.0)
          (walk_items-keys items both.1)

    walk_fields-keys :
        (fields : Fields) → walk_fields p fields ≡ false → All Allowed (keys_fields fields)
    walk_fields-keys no_fields h = tt
    walk_fields-keys (field key v fields) h =
        let first = neither (is_forbidden p key) (walk p v || walk_fields p fields) h in
        let both = neither (walk p v) (walk_fields p fields) first.1 in
        (
          first.0,
          All-both Allowed (keys v) (keys_fields fields) (walk-keys v both.0)
              (walk_fields-keys fields both.1),
        )

  validate_payload-key :
      (event : Event)
      → validate_payload p event ≡ none
      → contains_forbidden_key p event.payload ≡ false
  unfolding validate_payload
  validate_payload-key event h = elim (Bool-cases (contains_forbidden_key p event.payload)) [
    | inr allowed ↦ allowed
    | inl blocked ↦ absurd (ground arith)
  ]

  validate-payload :
      (now : ℕ) (event : Event) → validate p now event ≡ none → validate_payload p event ≡ none
  unfolding validate
  validate-payload now event h = ground arith

  -- An event that passes `Validate` has no forbidden key in its payload, at any depth.
  pub validate-keys :
      (now : ℕ) (event : Event) (v : Json)
      → validate p now event ≡ none
      → p.parse event.payload ≡ some v
      → All (λ key. is_forbidden p key ≡ false) (keys v)
  unfolding contains_forbidden_key
  validate-keys now event v h parsed = walk-keys v (
      rw (parsed, contains_forbidden_key) at
        (validate_payload-key event (validate-payload now event h)))

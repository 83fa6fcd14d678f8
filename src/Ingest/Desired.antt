-- ===== src/Ingest/Desired.antt =====
-- The configuration that the server wants of a collector, and `ValidateDesiredConfig`
-- (internal/ingest/types.go). What the `strings`, `time`, `unicode` and `net/mail` packages do is
-- the parameter `GoText`. A revision is a natural number, so the test for a negative one falls away.
use Prim.Native.String.{len}
use text.Mathlib.Text.{◌==◌ as str_eq}
use on_watch.Base.{
  ℕ, Bool, false, not, ◌&&◌, ◌||◌, Option, none, some, List, [], ◌∷◌, String, ltb, if◌then◌else◌,
  length,
}
use on_watch.Ingest.{has_seen}

-- `parse_duration` is in nanoseconds, 0 for a negative duration. `parse_address` is the name and
-- the address.
pub record GoText : Type 0 where
  pub trim : String → String
  pub lower : String → String
  pub contains_any : String → String → Bool
  pub has_control : String → Bool
  pub parse_duration : String → Option ℕ
  pub parse_address : String → Option (String × String)

pub record ProviderAssignment : Type 0 where
  pub provider : String
  pub external_id : String
  pub credential_alias : String
  pub antigravity_account_email : String
  pub poll_interval : String

pub record DesiredConfig : Type 0 where
  pub revision : ℕ
  pub assignments : List ProviderAssignment
  pub sources : List String
  pub collection_interval : String
  pub upload_interval : String

pub data ConfigError : Type 0 where
  invalid_desired_config invalid_collection_interval invalid_upload_interval invalid_assignment
        invalid_antigravity_account_email duplicate_antigravity_account_email invalid_poll_interval
        duplicate_assignment invalid_source :
      ConfigError

-- One second.
abbrev pub second : ℕ
second = 1000000000

abbrev pub unsafe_chars : String
unsafe_chars = "\0\r\n/\\"

abbrev pub has_pair : String → String → List (String × String) → Bool
has_pair provider account [] = false
has_pair provider account ((p, a) ∷ seen) =
    (str_eq p provider && str_eq a account) || has_pair provider account seen

module _ (text : GoText) where
  open text use {trim, lower, contains_any, has_control, parse_duration, parse_address}

  -- `ValidateAntigravityBinding` returns no error.
  pub has_binding : ProviderAssignment → Bool
  has_binding a =
      let email = trim a.antigravity_account_email in
      if str_eq email ""
      then false
      else if ltb 256 (len a.antigravity_account_email) || has_control a.antigravity_account_email
      then false
      else elim (parse_address email) [
        | none ↦ false
        | some (name, address) ↦ str_eq name "" && str_eq address email
      ]

  -- An interval that is given has to be a duration of some length.
  pub is_interval : ℕ → String → Bool
  is_interval least value = elim (parse_duration value) [
    | none ↦ false
    | some interval ↦ not (ltb interval least)
  ]

  -- The checks of one assignment, but for the keys that were seen; `emails` are those before it.
  pub check_assignment : List String → ProviderAssignment → Option ConfigError
  unfolding has_binding is_interval
  check_assignment emails a =
      let provider = lower (trim a.provider) in
      let account = trim a.external_id in
      if str_eq provider ""
        || ltb 64 (len provider)
        || str_eq account ""
        || ltb 256 (len account)
        || ltb 128 (len a.credential_alias)
      then some invalid_assignment
      else if contains_any provider unsafe_chars
          || contains_any account unsafe_chars
          || contains_any a.credential_alias unsafe_chars
      then some invalid_assignment
      else if str_eq a.antigravity_account_email ""
      then (if is_interval 10000000000 a.poll_interval then none else some invalid_poll_interval)
      else if not (str_eq provider "antigravity") || not (has_binding a)
      then some invalid_antigravity_account_email
      else if has_seen (trim a.antigravity_account_email) emails
      then some duplicate_antigravity_account_email
      else if is_interval 10000000000 a.poll_interval
      then none
      else some invalid_poll_interval

  abbrev pub more_emails : ProviderAssignment → List String → List String
  more_emails a emails =
      if str_eq a.antigravity_account_email ""
      then emails
      else trim a.antigravity_account_email ∷ emails

  -- The key joins the pair by a zero byte, which neither part has.
  pub check_assignments :
      List (String × String) → List String → List ProviderAssignment → Option ConfigError
  unfolding check_assignment
  check_assignments seen emails [] = none
  check_assignments seen emails (a ∷ as') =
      let provider = lower (trim a.provider) in
      let account = trim a.external_id in
      let rest = check_assignments ((provider, account) ∷ seen) (more_emails a emails) as' in
      elim (check_assignment emails a) [
        | some e ↦ some e
        | none ↦ if has_pair provider account seen then some duplicate_assignment else rest
      ]

  pub check_sources : List String → Option ConfigError
  check_sources [] = none
  check_sources (source ∷ sources) =
      let s = trim source in
      let rest = check_sources sources in
      if str_eq s "" || ltb 64 (len s) || contains_any s unsafe_chars
      then some invalid_source
      else rest

  unfoldable pub validate_desired_config : DesiredConfig → Option ConfigError
  unfolding is_interval check_assignments check_sources
  validate_desired_config config =
      if ltb 64 (length config.assignments) || ltb 32 (length config.sources)
      then some invalid_desired_config
      else if not (str_eq config.collection_interval "")
          && not (is_interval second config.collection_interval)
      then some invalid_collection_interval
      else if not (str_eq config.upload_interval "")
          && not (is_interval second config.upload_interval)
      then some invalid_upload_interval
      else elim (check_assignments [] [] config.assignments) [
        | some e ↦ some e
        | none ↦ check_sources config.sources
      ]

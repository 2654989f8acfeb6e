-- ===== src/Panel/Subjects/Tables.antt =====
-- The tables of subjects, as migrations 00010 to 00037 of internal/panel/store/migrations leave them.
-- Times and ids are not negative; the rows of a table are in the order of their ids.
use antimage.Common.{
  ℕ, Bool, true, false, not, ◌&&◌, String, Option, none, some, List, leb, ℕ_discrete,
}
use antimage.Common.Int.{ℤ}
use antimage.Common.Maps
use antimage.Common.Outcome.{Outcome, ok, err}

abbrev pub Bytes : Type 0
Bytes = List ℕ

-- CredentialKind
pub data CredentialKind : Type 0 where
  uuid password other_kind : CredentialKind

abbrev pub same_kind : CredentialKind → CredentialKind → Bool
same_kind uuid uuid = true
same_kind password password = true
same_kind other_kind other_kind = true
same_kind _ _ = false

pub data SubjectError : Type 0 where
  name_required no_box no_random constraint unknown_kind invalid_uuid : SubjectError
  short_password not_found no_credential wrong_key no_token : SubjectError
  name_taken : String → SubjectError
  bad_import : CredentialKind → SubjectError → SubjectError

-- A row of `subjects`.
pub record Subject : Type 0 where
  pub name : String
  pub enabled : Bool
  pub expires_at : Option ℕ
  pub expired_at : Option ℕ
  pub created_at : ℕ
  pub note : String
  pub quota_bytes : Option ℤ
  pub quota_used_bytes : ℕ
  pub quota_reset_at : Option ℕ
  pub quota_period_start : Option ℕ
  pub quota_period_seconds : Option ℕ
  pub frozen_at : Option ℕ
  pub frozen_reason : Option String
  pub max_devices : Option ℤ
  pub max_ips : Option ℤ
  pub max_connections : Option ℤ
  pub subscription_token : String
  pub usage_coefficient : ℤ

-- A row of `services`.
pub record Service : Type 0 where
  pub node_id : ℕ
  pub enabled : Bool
  pub usage_coefficient : ℤ

-- A row of `subject_credentials`, whose key is the subject and the kind.
pub record Credential : Type 0 where
  pub subject_id : ℕ
  pub kind : CredentialKind
  pub value_enc : Bytes
  pub rotation : ℕ
  pub created_at : ℕ

-- A row of `resellers`.
pub record Seller : Type 0 where
  pub admin_id : ℕ
  pub usage_coefficient : ℤ

-- `nodes` holds the usage coefficients, `grants` is subject_services and `owners` is
-- reseller_subjects: subject and reseller.
pub record Tables : Type 0 where
  pub nodes : List (ℕ × ℤ)
  pub services : List (ℕ × Service)
  pub subjects : List (ℕ × Subject)
  pub grants : List (ℕ × ℕ)
  pub credentials : List Credential
  pub sellers : List (ℕ × Seller)
  pub owners : List (ℕ × ℕ)

abbrev pub get_row : ℕ → Tables → Option Subject
get_row id db = Maps.get ℕ_discrete id db.subjects

abbrev pub change_row : ℕ → (Subject → Subject) → Tables → Tables
change_row id change db = record db { subjects = Maps.modify ℕ_discrete id change db.subjects }

-- An UPDATE whose error is sql.ErrNoRows when no row has the id.
abbrev pub update_one : ℕ → (Subject → Subject) → Tables → Outcome SubjectError Tables
update_one id change db = elim (get_row id db) [
  | none ↦ err not_found
  | some s ↦ ok (change_row id change db)
]

-- Subject.Expired
abbrev pub is_expired : ℕ → Subject → Bool
is_expired at s = elim s.expires_at [ none ↦ false | some expiry ↦ leb expiry at ]

-- Subject.Active
abbrev pub is_subject_active : ℕ → Subject → Bool
is_subject_active at s = s.enabled && not (is_expired at s)

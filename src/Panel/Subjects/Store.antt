-- ===== src/Panel/Subjects/Store.antt =====
-- internal/panel/subjects/subjects.go: the writes of Store, each as the function of its transaction,
-- and Get and List.
use antimage.Common.{
  ℕ, ◌==◌, Bool, true, false, ◌&&◌, String, String_discrete, Option, none, some, List, [], ◌∷◌,
  ◌++◌, if◌then◌else◌, ite, ℕ_discrete,
}
use antimage.Common.Int.{ℤ, pos}
use antimage.Common.Maps
use antimage.Common.Outcome.{Outcome, ok, err, ◌>>=◌, ◌>>◌, ◌refuses◌}
use antimage.Panel.Subjects.Tables.{
  Bytes, CredentialKind, uuid, password, SubjectError, name_required, no_box, constraint, not_found,
  name_taken, bad_import, Subject, Credential, Tables, get_row, change_row, update_one,
}
use antimage.Panel.Subjects.Credentials.{
  Aead, Draws, drawn, generate_credential, validate_credential, put_credential,
}

-- strings.TrimSpace, the folding of NOCASE, and what uuid.Parse accepts.
pub record Texts : Type 0 where
  pub trim_space : String → String
  pub nocase : String → String
  pub is_uuid : Bytes → Bool

-- CreateInput
pub record CreateInput : Type 0 where
  pub name : String
  pub note : String
  pub expires_at : Option ℕ
  pub service_ids : List ℕ
  pub credentials : CredentialKind → Option Bytes
  pub quota_bytes : Option ℤ
  pub max_devices : Option ℤ
  pub max_ips : Option ℤ
  pub max_connections : Option ℤ

-- UpdateInput
pub record UpdateInput : Type 0 where
  pub name : Option String
  pub note : Option String
  pub enabled : Option Bool
  pub expires_at : Option ℕ
  pub clear_expiry : Bool
  pub service_ids : Option (List ℕ)

-- Another row than `id` has the name, up to case.
unfoldable pub has_name : (String → String) → String → ℕ → List (ℕ × Subject) → Bool
unfolding String_discrete
has_name nocase name id [] = false
has_name nocase name id (e ∷ rest) =
    let others = has_name nocase name id rest in
    if e.0 == id then others else ite (String_discrete (nocase e.1.name) (nocase name)) true others

-- Another row than `id` has the token, and the index reads it.
unfoldable pub has_token : String → ℕ → List (ℕ × Subject) → Bool
unfolding String_discrete
has_token token id [] = false
has_token token id (e ∷ rest) =
    let others = has_token token id rest in
    if e.0 == id then others else ite (String_discrete e.1.subscription_token token) true others

unfoldable pub clashes : String → ℕ → List (ℕ × Subject) → Bool
unfolding String_discrete
clashes token id rows = ite (String_discrete token "") false (has_token token id rows)

-- The row that Create inserts, under the trimmed name.
abbrev pub new_subject : CreateInput → String → String → ℕ → Subject
new_subject input name token now = record {
  name = name;
  enabled = true;
  expires_at = input.expires_at;
  expired_at = none;
  created_at = now;
  note = input.note;
  quota_bytes = input.quota_bytes;
  quota_used_bytes = 0;
  quota_reset_at = none;
  quota_period_start = none;
  quota_period_seconds = none;
  frozen_at = none;
  frozen_reason = none;
  max_devices = input.max_devices;
  max_ips = input.max_ips;
  max_connections = input.max_connections;
  subscription_token = token;
  usage_coefficient = pos 10000;
}

-- The value of a kind: imported, or generated.
unfoldable pub chosen : Texts → Draws → CreateInput → CredentialKind → Outcome SubjectError Bytes
chosen texts draws input kind = elim (input.credentials kind) [
  | none ↦ generate_credential draws kind
  | some value ↦ elim (validate_credential texts.is_uuid kind value) [
    | ok u ↦ ok value
    | err e ↦ err (bad_import kind e)
  ]
]

-- INSERT INTO subject_services …, with its foreign key and primary key
unfoldable pub has_grant : ℕ → ℕ → List (ℕ × ℕ) → Bool
has_grant id service [] = false
has_grant id service (g ∷ rest) =
    let others = has_grant id service rest in
    if (g.0 == id) && (g.1 == service) then true else others

unfoldable pub grant : ℕ → ℕ → Tables → Outcome SubjectError Tables
grant id service db = elim (Maps.get ℕ_discrete service db.services) [
  | none ↦ err constraint
  | some s ↦
      if has_grant id service db.grants
      then err constraint
      else ok (record db { grants = db.grants ++ (id, service) ∷ [] })
]

unfoldable pub grant_all : ℕ → List ℕ → Tables → Outcome SubjectError Tables
grant_all id [] db = ok db
grant_all id (service ∷ rest) db = grant id service db >>= (λ next. grant_all id rest next)

-- The loop of Create over the two kinds.
abbrev pub put_kind :
    Texts
    → Aead
    → Draws
    → CreateInput
    → ℕ
    → ℕ
    → CredentialKind
    → Tables
    → Outcome SubjectError Tables
put_kind texts a draws input id now kind db =
    chosen texts draws input kind >>= (λ value. put_credential a draws id kind value now db)

abbrev pub inserted_subject : ℕ → Subject → Tables → Tables
inserted_subject id s db = record db { subjects = db.subjects ++ (id, s) ∷ [] }

unfoldable pub create_in_box :
    Texts → Aead → Draws → CreateInput → ℕ → String → Tables → Outcome SubjectError (ℕ × Tables)
create_in_box texts a draws input now name db = do
  token ← drawn draws.token
  let id = Maps.fresh_id db.subjects
  has_name texts.nocase name id db.subjects refuses name_taken name
  clashes token id db.subjects refuses name_taken name
  let db₁ = inserted_subject id (new_subject input name token now) db
  db₂ ← put_kind texts a draws input id now uuid db₁
  db₃ ← put_kind texts a draws input id now password db₂
  db₄ ← grant_all id input.service_ids db₃
  ok (id, db₄)

-- Create
unfoldable pub create_subject :
    Texts → Option Aead → Draws → CreateInput → ℕ → Tables → Outcome SubjectError (ℕ × Tables)
unfolding String_discrete
create_subject texts box draws input now db =
    ite (String_discrete (texts.trim_space input.name) "") (err name_required) (elim box [
      | none ↦ err no_box
      | some a ↦ create_in_box texts a draws input now (texts.trim_space input.name) db
    ])

unfoldable pub rename : Texts → ℕ → Option String → Tables → Outcome SubjectError Tables
unfolding String_discrete
rename texts id none db = ok db
rename texts id (some given) db =
    let name = texts.trim_space given in
    ite (String_discrete name "") (err name_required) (
      if has_name texts.nocase name id db.subjects
      then err (name_taken name)
      else ok (change_row id (λ s. record s { name = name }) db))

abbrev pub set_note : Option String → Subject → Subject
set_note none s = s
set_note (some note) s = record s { note = note }

abbrev pub set_enabled : Option Bool → Subject → Subject
set_enabled none s = s
set_enabled (some true) s = record s { enabled = true; expired_at = none }
set_enabled (some false) s = record s { enabled = false }

abbrev pub set_expiry : Bool → Option ℕ → Subject → Subject
set_expiry true expiry s = record s { expires_at = none; expired_at = none }
set_expiry false none s = s
set_expiry false (some expiry) s = record s { expires_at = some expiry; expired_at = none }

unfoldable pub delete_grants : ℕ → List (ℕ × ℕ) → List (ℕ × ℕ)
delete_grants id [] = []
delete_grants id (g ∷ rest) =
    let others = delete_grants id rest in if g.0 == id then others else g ∷ others

abbrev pub replace_grants : ℕ → Option (List ℕ) → Tables → Outcome SubjectError Tables
replace_grants id none db = ok db
replace_grants id (some services) db =
    grant_all id services (record db { grants = delete_grants id db.grants })

-- Update
unfoldable pub update_subject : Texts → ℕ → UpdateInput → Tables → Outcome SubjectError Tables
update_subject texts id input db = elim (get_row id db) [
  | none ↦ err not_found
  | some s ↦ rename texts id input.name db >>= (λ db₁. replace_grants id input.service_ids (
      change_row id
        (λ r.
          set_expiry input.clear_expiry input.expires_at
            (set_enabled input.enabled (set_note input.note r)))
        db₁))
]

unfoldable pub delete_credentials : ℕ → List Credential → List Credential
delete_credentials id [] = []
delete_credentials id (c ∷ rest) =
    let others = delete_credentials id rest in if c.subject_id == id then others else c ∷ others

-- Delete, with the rows that the schema deletes along.
unfoldable pub delete_subject : ℕ → Tables → Outcome SubjectError Tables
delete_subject id db = elim (get_row id db) [
  | none ↦ err not_found
  | some s ↦ ok (record db {
    subjects = Maps.delete ℕ_discrete id db.subjects;
    grants = delete_grants id db.grants;
    credentials = delete_credentials id db.credentials;
    owners = Maps.delete ℕ_discrete id db.owners;
  })
]

-- Freeze
unfoldable pub freeze : ℕ → String → ℕ → Tables → Outcome SubjectError Tables
freeze id reason now =
    update_one id (λ s. record s { frozen_at = some now; frozen_reason = some reason })

-- Unfreeze
unfoldable pub unfreeze : ℕ → Tables → Outcome SubjectError Tables
unfreeze id = update_one id (λ s. record s { frozen_at = none; frozen_reason = none })

-- Disable
unfoldable pub disable : ℕ → Tables → Outcome SubjectError Tables
disable id = update_one id (λ s. record s { enabled = false })

-- Enable
unfoldable pub enable : ℕ → Tables → Outcome SubjectError Tables
enable id = update_one id (λ s. record s { enabled = true; expired_at = none })

-- ===== src/Panel/Subjects/Credentials.antt =====
-- internal/shared/secrets/box.go (Seal, Open), and the credentials of
-- internal/panel/subjects/subjects.go.
use antimage.Common.{
  ℕ, ◌+◌, ◌==◌, Bool, ◌&&◌, String, Option, none, some, List, [], ◌∷◌, ◌++◌, ltb, length, take,
  drop, if◌then◌else◌, ◌≡◌,
}
use antimage.Common.Outcome.{Outcome, ok, err, ◌>>=◌, ◌refuses◌}
use antimage.Panel.Subjects.Tables.{
  Bytes, CredentialKind, uuid, password, other_kind, same_kind, SubjectError, no_box, no_random,
  unknown_kind, invalid_uuid, short_password, no_credential, wrong_key, constraint, Credential,
  Tables, get_row,
}

-- The AEAD of the standard library, under the panel's key.
pub record Aead : Type 0 where
  pub nonce_size : ℕ
  pub seal_with : Bytes → Bytes → Bytes
  pub open_with : Bytes → Bytes → Option Bytes

-- What it documents: a message opens under the nonce that it was sealed with.
abbrev pub IsSound : Aead → Type 0
IsSound a = (nonce plain : Bytes) → a.open_with nonce (a.seal_with nonce plain) ≡ some plain

-- Box.Seal, with the nonce that was read, if it could be.
abbrev pub seal : Aead → Option Bytes → Bytes → Outcome SubjectError Bytes
seal a none plain = err no_random
seal a (some nonce) plain = ok (nonce ++ a.seal_with nonce plain)

-- Box.Open
abbrev pub open_sealed : Aead → Bytes → Outcome SubjectError Bytes
open_sealed a sealed =
    if ltb (length sealed) a.nonce_size
    then err wrong_key
    else (elim (a.open_with (take a.nonce_size sealed) (drop a.nonce_size sealed)) [
      | none ↦ err wrong_key
      | some plain ↦ ok plain
    ])

-- What a call draws from the source of randomness: a token, a credential of each kind as the uuid
-- and base64 packages write it, and a nonce for each.
pub record Draws : Type 0 where
  pub token : Option String
  pub value : CredentialKind → Option Bytes
  pub nonce : CredentialKind → Option Bytes

abbrev pub drawn {ℓ} : {A : Type ℓ} → Option A → Outcome SubjectError A
drawn none = err no_random
drawn (some a) = ok a

-- GenerateCredential
unfoldable pub generate_credential : Draws → CredentialKind → Outcome SubjectError Bytes
generate_credential draws other_kind = err unknown_kind
generate_credential draws kind = drawn (draws.value kind)

-- ValidateCredential; `is_uuid` says what uuid.Parse accepts.
unfoldable pub validate_credential :
    (Bytes → Bool) → CredentialKind → Bytes → Outcome SubjectError (Unit {0})
validate_credential is_uuid uuid value = if is_uuid value then ok tt else err invalid_uuid
validate_credential is_uuid password value = ltb (length value) 16 refuses short_password
validate_credential is_uuid other_kind value = err unknown_kind

abbrev pub is_credential : ℕ → CredentialKind → Credential → Bool
is_credential id kind c = (c.subject_id == id) && same_kind c.kind kind

-- INSERT … ON CONFLICT(subject_id, kind) DO UPDATE
unfoldable pub upsert_credential : Credential → List Credential → List Credential
upsert_credential c [] = c ∷ []
upsert_credential c (old ∷ rest) =
    let others = upsert_credential c rest in
    if is_credential c.subject_id c.kind old
    then record old {
      value_enc = c.value_enc;
      rotation = old.rotation + 1;
      created_at = c.created_at;
    }
      ∷ rest
    else old ∷ others

unfoldable pub find_credential : ℕ → CredentialKind → List Credential → Option Credential
find_credential id kind [] = none
find_credential id kind (c ∷ rest) =
    let other = find_credential id kind rest in if is_credential id kind c then some c else other

-- putCredential
unfoldable pub put_credential :
    Aead → Draws → ℕ → CredentialKind → Bytes → ℕ → Tables → Outcome SubjectError Tables
put_credential a draws id kind value now db = do
  sealed ← seal a (draws.nonce kind) value
  ok (record db {
    credentials =
        upsert_credential
          (record {
            subject_id = id;
            kind = kind;
            value_enc = sealed;
            rotation = 0;
            created_at = now;
          })
          db.credentials;
  })

-- Rotate, of a subject that is there; the foreign key refuses any other.
unfoldable pub rotate :
    Aead → Draws → ℕ → CredentialKind → ℕ → Tables → Outcome SubjectError (Bytes × Tables)
rotate a draws id kind now db = do
  value ← generate_credential draws kind
  after ← put_credential a draws id kind value now db
  elim (get_row id db) [ none ↦ err constraint | some s ↦ ok (value, after) ]

abbrev pub unsealed : Aead → Option Credential → Outcome SubjectError Bytes
unsealed a none = err no_credential
unsealed a (some c) = open_sealed a c.value_enc

-- Credential; the box may be missing.
unfoldable pub credential : Option Aead → ℕ → CredentialKind → Tables → Outcome SubjectError Bytes
credential none id kind db = err no_box
credential (some a) id kind db = unsealed a (find_credential id kind db.credentials)

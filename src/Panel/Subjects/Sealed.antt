-- ===== src/Panel/Subjects/Sealed.antt =====
-- What is sealed into the tables, and what is read back.
use antimage.Common.{
  ℕ, ◌≡◌, ◌≢◌, refl, sym, arith, true, false, Option, none, some, List, [], ◌∷◌, ◌++◌, ltb, length,
  length-append, take-append, drop-append, Option-cases, Bool-cases, inl, inr, ◌⊎◌, ap,
}
use antimage.Common.Outcome.{ok, bind-eq-ok, ok-pair, ok-injective}
use antimage.Panel.Subjects.Tables.{
  Bytes, CredentialKind, uuid, password, other_kind, same_kind, Credential, Tables, get_row,
}
use antimage.Panel.Subjects.Credentials.{
  unsealed, Aead, IsSound, Draws, seal, open_sealed, generate_credential, is_credential,
  upsert_credential, find_credential, put_credential, rotate, credential,
}

-- Every nonce that is read fills the size that the cipher wants.
abbrev pub HasNonces : Aead → Draws → Type 0
HasNonces a draws =
    (kind : CredentialKind) (nonce : Bytes)
    → draws.nonce kind ≡ some nonce
    → length nonce ≡ a.nonce_size

opened :
    (a : Aead) (nonce plain : Bytes)
    → IsSound a
    → length nonce ≡ a.nonce_size
    → open_sealed a (nonce ++ a.seal_with nonce plain) ≡ ok plain
opened a nonce plain sound h =
    let cipher = a.seal_with nonce plain in
    let long : ltb (length (nonce ++ cipher)) a.nonce_size ≡ false =
      ground (arith, length-append nonce cipher) in
    rw long (
      rw (take-append a.nonce_size nonce cipher h)
        (rw (drop-append a.nonce_size nonce cipher h) (rw (sound nonce plain) refl)))

pub open_sealed-seal :
    (a : Aead) (nonce : Option Bytes) (plain sealed : Bytes)
    → IsSound a
    → ((n : Bytes) → nonce ≡ some n → length n ≡ a.nonce_size)
    → seal a nonce plain ≡ ok sealed
    → open_sealed a sealed ≡ ok plain
open_sealed-seal a none plain sealed sound sized h = absurd (cc h)
open_sealed-seal a (some n) plain sealed sound sized h =
    rw (sym (ok-injective h)) (opened a n plain sound (sized n refl))

same_kind_refl : (kind : CredentialKind) → same_kind kind kind ≡ true
same_kind_refl uuid = refl
same_kind_refl password = refl
same_kind_refl other_kind = refl

same_kind-eq : (a b : CredentialKind) → same_kind a b ≡ true → a ≡ b
same_kind-eq uuid uuid h = refl
same_kind-eq password password h = refl
same_kind-eq other_kind other_kind h = refl
same_kind-eq uuid password h = absurd (cc h)
same_kind-eq uuid other_kind h = absurd (cc h)
same_kind-eq password uuid h = absurd (cc h)
same_kind-eq password other_kind h = absurd (cc h)
same_kind-eq other_kind uuid h = absurd (cc h)
same_kind-eq other_kind password h = absurd (cc h)

-- The value of the credential that a search finds.
abbrev pub value_in : Option Credential → Option Bytes
value_in none = none
value_in (some c) = some c.value_enc

stored :
    (c : Credential) (rows : List Credential)
    → value_in (find_credential c.subject_id c.kind (upsert_credential c rows)) ≡ some c.value_enc
unfolding find_credential upsert_credential
stored c [] = ground (arith, same_kind_refl c.kind)
stored c (x ∷ rows) = ground (arith, stored c rows)

put_kept :
    (c : Credential) (id : ℕ) (kind : CredentialKind) (rows : List Credential)
    → is_credential id kind c ≡ false
    → find_credential id kind (upsert_credential c rows) ≡ find_credential id kind rows
unfolding find_credential upsert_credential
put_kept c id kind [] h = rw h refl
put_kept c id kind (x ∷ rows) h = elim (Bool-cases (is_credential c.subject_id c.kind x)) [
  | inr e ↦ rw (e, upsert_credential) (ground (arith, put_kept c id kind rows h))
  | inl e ↦ ground (arith, same_kind-eq x.kind c.kind)
]

sealed_row : ℕ → CredentialKind → Bytes → ℕ → Credential
sealed_row id kind sealed now = record {
  subject_id = id;
  kind = kind;
  value_enc = sealed;
  rotation = 0;
  created_at = now;
}

-- What putCredential has done: it wrote a row that opens to the value, and no other.
pub record Put (a : Aead) (id : ℕ) (kind : CredentialKind) (value : Bytes) (db after : Tables)
    : Type 0 where
  pub opens : credential (some a) id kind after ≡ ok value
  pub others :
      (j : ℕ) (k : CredentialKind)
      → (j ≢ id) ⊎ (k ≢ kind)
      → credential (some a) j k after ≡ credential (some a) j k db
  pub rest : after ≡ record db { credentials = after.credentials }

not_same :
    (id j now : ℕ) (kind k : CredentialKind) (sealed : Bytes)
    → (j ≢ id) ⊎ (k ≢ kind)
    → is_credential j k (sealed_row id kind sealed now) ≡ false
unfolding sealed_row
not_same id j now kind k sealed (inl h) = ground (arith, h)
not_same id j now kind k sealed (inr h) = ground (arith, h, same_kind-eq kind k)

unsealed-value :
    (a : Aead) (found : Option Credential) (sealed value : Bytes)
    → value_in found ≡ some sealed
    → open_sealed a sealed ≡ ok value
    → unsealed a found ≡ ok value
unsealed-value a none sealed value h opens = absurd (cc h)
unsealed-value a (some c) sealed value h opens =
    let same : c.value_enc ≡ sealed = cc h in rw same opens

pub put_credential-Put :
    (a : Aead) (draws : Draws) (id : ℕ) (kind : CredentialKind) (value : Bytes) (now : ℕ)
    (db after : Tables)
    → IsSound a
    → HasNonces a draws
    → put_credential a draws id kind value now db ≡ ok after
    → Put a id kind value db after
unfolding put_credential credential sealed_row
put_credential-Put a draws id kind value now db after sound sized h =
    let (sealed, s, done) = bind-eq-ok (seal a (draws.nonce kind) value) _ h in
    let written : Tables = record db {
      credentials = upsert_credential (sealed_row id kind sealed now) db.credentials;
    } in
    let same : written ≡ after = ok-injective done in
    let opens = open_sealed-seal a (draws.nonce kind) value sealed sound (sized kind) s in
    rw (sym same) (record {
      opens =
          unsealed-value a _ sealed value (stored (sealed_row id kind sealed now) db.credentials)
            opens;
      others = λ j k other. ap (unsealed a) (
          put_kept (sealed_row id kind sealed now) j k db.credentials
            (not_same id j now kind k sealed other));
      rest = refl;
    })

-- After Rotate the subject's credential of that kind reads back as the returned value, and every
-- other credential of every subject reads as before: for an AEAD that opens what it sealed, and
-- nonces of its size.
pub rotate-credential :
    (a : Aead) (draws : Draws) (id : ℕ) (kind : CredentialKind) (value : Bytes) (now : ℕ)
    (db after : Tables)
    → IsSound a
    → HasNonces a draws
    → rotate a draws id kind now db ≡ ok (value, after)
    → (credential (some a) id kind after ≡ ok value)
      × ((j : ℕ) (k : CredentialKind)
          → (j ≢ id) ⊎ (k ≢ kind)
          → credential (some a) j k after ≡ credential (some a) j k db)
unfolding rotate
rotate-credential a draws id kind value now db after sound sized h =
    let (v, drew, h₁) = bind-eq-ok (generate_credential draws kind) _ h in
    let (t, put, h₂) = bind-eq-ok (put_credential a draws id kind v now db) _ h₁ in
    elim (Option-cases (get_row id db)) [
      | inl e ↦ absurd (cc (rw e at h₂))
      | inr (s, e) ↦
          let (v', t') = ok-pair (rw e at h₂) in
          let p = put_credential-Put a draws id kind v now db t sound sized put in
          (rw (sym v') (rw (sym t') p.opens), rw (sym t') p.others)
    ]

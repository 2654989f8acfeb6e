-- ===== src/Panel/Subjects/Created.antt =====
-- What Create has written when it returns an id.
use antimage.Common.{
  ℕ, ◌==◌, ◌≡◌, ◌≢◌, refl, sym, ◌∙◌, arith, false, ◌&&◌, ◌||◌, String, String_discrete, none, some,
  List, [], ◌∷◌, ◌++◌, contains, ℕ_discrete, Option-cases, Bool-cases, inl, inr, subst, if_pos,
  if_neg,
}
use antimage.Common.Maps
use antimage.Common.Outcome.{ok, bind-eq-ok, refuses-eq-ok, ok-pair, ok-injective}
use antimage.Panel.Subjects.Tables.{
  Bytes, CredentialKind, uuid, password, name_taken, Tables, get_row,
}
use antimage.Panel.Subjects.Credentials.{Aead, IsSound, Draws, drawn, credential}
use antimage.Panel.Subjects.Sealed.{HasNonces, Put, put_credential-Put}
use antimage.Panel.Subjects.Store.{
  Texts, CreateInput, has_name, clashes, new_subject, chosen, has_grant, grant, grant_all, put_kind,
  inserted_subject, create_in_box, create_subject,
}

has_grant-append :
    (j s id service : ℕ) (grants : List (ℕ × ℕ))
    → has_grant j s (grants ++ (id, service) ∷ [])
      ≡ (has_grant j s grants || ((id == j) && (service == s)))
unfolding has_grant
has_grant-append j s id service [] = ground arith
has_grant-append j s id service (g ∷ grants) =
    ground (arith, has_grant-append j s id service grants)

-- What one grant writes, and what a list of them writes.
pub record Granted (id : ℕ) (services : List ℕ) (db after : Tables) : Type 0 where
  pub grants :
      (j s : ℕ)
      → has_grant j s after.grants
        ≡ (has_grant j s db.grants || ((id == j) && contains ℕ_discrete s services))
  pub rest : after ≡ record db { grants = after.grants }

grant-ok :
    (id service : ℕ) (db after : Tables)
    → grant id service db ≡ ok after
    → after ≡ record db { grants = db.grants ++ (id, service) ∷ [] }
unfolding grant
grant-ok id service db after h = elim (Option-cases (Maps.get ℕ_discrete service db.services)) [
  | inl e ↦ absurd (cc (rw (e, grant) at h))
  | inr (s, e) ↦ elim (Bool-cases (has_grant id service db.grants)) [
    | inl f ↦ absurd (cc (rw f at (rw (e, grant) at h)))
    | inr f ↦ sym (ok-injective (rw f at (rw (e, grant) at h)))
  ]
]

granted_more :
    (j s id service : ℕ) (services : List ℕ) (db mid after : Tables)
    → mid ≡ record db { grants = db.grants ++ (id, service) ∷ [] }
    → has_grant j s after.grants
      ≡ (has_grant j s mid.grants || ((id == j) && contains ℕ_discrete s services))
    → has_grant j s after.grants
      ≡ (has_grant j s db.grants || ((id == j) && contains ℕ_discrete s (service ∷ services)))
unfolding contains
granted_more j s id service services db mid after step h =
    let mids : has_grant j s mid.grants
        ≡ (has_grant j s db.grants || ((id == j) && (service == s))) =
      rw step (has_grant-append j s id service db.grants) in
    ground (arith, h, mids)

pub grant_all-Granted :
    (id : ℕ) (services : List ℕ) (db after : Tables)
    → grant_all id services db ≡ ok after
    → Granted id services db after
unfolding grant_all contains
grant_all-Granted id [] db after h =
    let same : after ≡ db = sym (ok-injective h) in
    record { grants = λ j s. rw same (ground arith); rest = rw same refl }
grant_all-Granted id (service ∷ services) db after h =
    let (mid, first, more) = bind-eq-ok (grant id service db) _ h in
    let step = grant-ok id service db mid first in
    let w = grant_all-Granted id services mid after more in
    record {
      grants = λ j s. granted_more j s id service services db mid after step (w.grants j s);
      rest = rw step at w.rest;
    }

-- What the transaction of Create has done.
pub record Created (texts : Texts) (a : Aead) (draws : Draws) (input : CreateInput) (now : ℕ)
    (name : String) (db : Tables) (id : ℕ) (after : Tables) : Type 0 where
  pub token : String
  pub row : after.subjects ≡ db.subjects ++ (id, new_subject input name token now) ∷ []
  pub key : id ≡ Maps.fresh_id db.subjects
  pub name_free : has_name texts.nocase name id db.subjects ≡ false
  pub token_free : clashes token id db.subjects ≡ false
  pub of_uuid : credential (some a) id uuid after ≡ chosen texts draws input uuid
  pub of_password : credential (some a) id password after ≡ chosen texts draws input password
  pub others :
      (j : ℕ) (k : CredentialKind)
      → j ≢ id
      → credential (some a) j k after ≡ credential (some a) j k db
  pub grants :
      (j s : ℕ)
      → has_grant j s after.grants
        ≡ (has_grant j s db.grants || ((id == j) && contains ℕ_discrete s input.service_ids))

put_kind-Put :
    (texts : Texts) (a : Aead) (draws : Draws) (input : CreateInput) (id now : ℕ)
    (kind : CredentialKind) (db after : Tables)
    → IsSound a
    → HasNonces a draws
    → put_kind texts a draws input id now kind db ≡ ok after
    → (value : Bytes) × (chosen texts draws input kind ≡ ok value) × Put a id kind value db after
put_kind-Put texts a draws input id now kind db after sound sized h =
    let (value, c, put) = bind-eq-ok (chosen texts draws input kind) _ h in
    (value, c, put_credential-Put a draws id kind value now db after sound sized put)

built :
    (texts : Texts) (a : Aead) (draws : Draws) (input : CreateInput) (now : ℕ) (name token : String)
    (db db₂ db₃ db₄ : Tables) (u v : Bytes)
    → has_name texts.nocase name (Maps.fresh_id db.subjects) db.subjects ≡ false
    → clashes token (Maps.fresh_id db.subjects) db.subjects ≡ false
    → chosen texts draws input uuid ≡ ok u
    → chosen texts draws input password ≡ ok v
    → Put a
        (Maps.fresh_id db.subjects)
        uuid
        u
        (inserted_subject (Maps.fresh_id db.subjects) (new_subject input name token now) db)
        db₂
    → Put a (Maps.fresh_id db.subjects) password v db₂ db₃
    → Granted (Maps.fresh_id db.subjects) input.service_ids db₃ db₄
    → Created texts a draws input now name db (Maps.fresh_id db.subjects) db₄
unfolding credential
built texts a draws input now name token db db₂ db₃ db₄ u v free clear cu cv put_u put_v g =
    record {
      token = token;
      row = cc (put_u.rest, put_v.rest, g.rest);
      key = refl;
      name_free = free;
      token_free = clear;
      of_uuid = rw g.rest (
          put_v.others (Maps.fresh_id db.subjects) uuid (inr (λ same. cc same))
          ∙ put_u.opens
          ∙ sym cu);
      of_password = rw g.rest (put_v.opens ∙ sym cv);
      others = λ j k other. rw g.rest (put_v.others j k (inl other) ∙ put_u.others j k (inl other));
      grants = λ j s.
          let before : db₃.grants ≡ db.grants = cc (put_u.rest, put_v.rest) in
          subst
            (λ gs. has_grant j s db₄.grants ≡ (
              has_grant j s gs
              || ((Maps.fresh_id db.subjects == j) && contains ℕ_discrete s input.service_ids)))
            before (g.grants j s);
    }

create_in_box-Created :
    (texts : Texts) (a : Aead) (draws : Draws) (input : CreateInput) (now : ℕ) (name : String)
    (db : Tables) (id : ℕ) (after : Tables)
    → IsSound a
    → HasNonces a draws
    → create_in_box texts a draws input now name db ≡ ok (id, after)
    → Created texts a draws input now name db id after
unfolding create_in_box credential
create_in_box-Created texts a draws input now name db id after sound sized h =
    let (token, drew, h₁) = bind-eq-ok (drawn draws.token) _ h in
    let (free, h₂) =
      refuses-eq-ok (has_name texts.nocase name (Maps.fresh_id db.subjects) db.subjects)
        (name_taken name) _ h₁ in
    let (clear, h₃) =
      refuses-eq-ok (clashes token (Maps.fresh_id db.subjects) db.subjects) (name_taken name) _
        h₂ in
    let key = Maps.fresh_id db.subjects in
    let db₁ = inserted_subject key (new_subject input name token now) db in
    let (db₂, p₁, h₄) = bind-eq-ok (put_kind texts a draws input key now uuid db₁) _ h₃ in
    let (db₃, p₂, h₅) = bind-eq-ok (put_kind texts a draws input key now password db₂) _ h₄ in
    let (db₄, p₃, h₆) = bind-eq-ok (grant_all key input.service_ids db₃) _ h₅ in
    let (key_is, after_is) = ok-pair h₆ in
    let (u, cu, put_u) = put_kind-Put texts a draws input key now uuid db₁ db₂ sound sized p₁ in
    let (v, cv, put_v) = put_kind-Put texts a draws input key now password db₂ db₃ sound sized p₂ in
    let g = grant_all-Granted key input.service_ids db₃ db₄ p₃ in
    subst (λ t. Created texts a draws input now name db id t) after_is
      (subst (λ i. Created texts a draws input now name db i db₄) key_is
        (built texts a draws input now name token db db₂ db₃ db₄ u v free clear cu cv put_u put_v
          g))

-- When Create returns an id: it is that of a new row at the end of the table, enabled, unfrozen and
-- unused, under the trimmed name, which is not empty and which no row had; each of the two
-- credentials reads back as the one that was imported or else generated, and those of all other
-- subjects as before; and the subject has exactly the given services in addition to the grants
-- before. This holds for an AEAD that opens what it sealed, and nonces of its size.
pub create_subject-Created :
    (texts : Texts) (a : Aead) (draws : Draws) (input : CreateInput) (now : ℕ) (db : Tables)
    (id : ℕ) (after : Tables)
    → IsSound a
    → HasNonces a draws
    → create_subject texts (some a) draws input now db ≡ ok (id, after)
    → (get_row id db ≡ none)
      × (texts.trim_space input.name ≢ "")
      × Created texts a draws input now (texts.trim_space input.name) db id after
unfolding create_subject
create_subject-Created texts a draws input now db id after sound sized h =
    elim (String_discrete (texts.trim_space input.name) "") [
      | yes e ↦ absurd (cc (rw (if_pos (String_discrete (texts.trim_space input.name) "") e) at h))
      | no named ↦
          let c =
            create_in_box-Created texts a draws input now (texts.trim_space input.name) db id after
              sound sized
              (rw (if_neg (String_discrete (texts.trim_space input.name) "") named) at h) in
          (rw c.key (Maps.fresh_id-is_free db.subjects), named, c)
    ]

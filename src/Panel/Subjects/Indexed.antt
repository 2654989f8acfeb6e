-- ===== src/Panel/Subjects/Indexed.antt =====
-- Each write of a subject, and the unique indexes.
use antimage.Common.{
  ℕ, ◌≡◌, refl, sym, ◌∙◌, ap, arith, Bool, true, false, String, String_discrete, Option, none, some,
  List, [], ◌∷◌, ite, Option-cases, Bool-cases, inl, inr,
}
use antimage.Common.Outcome.{ok, bind-eq-ok, ok-pair, ok-injective}
use antimage.Panel.Subjects.Tables.{
  Bytes, CredentialKind, Subject, Tables, get_row, change_row, update_one,
}
use antimage.Panel.Subjects.Credentials.{
  Aead, IsSound, Draws, generate_credential, put_credential, rotate,
}
use antimage.Panel.Subjects.Sealed.{HasNonces, put_credential-Put}
use antimage.Panel.Subjects.Store.{
  Texts, CreateInput, UpdateInput, has_name, new_subject, create_subject, rename, set_note,
  set_enabled, set_expiry, replace_grants, update_subject, delete_subject, delete_grants,
}
use antimage.Panel.Subjects.Created.{grant_all-Granted, create_subject-Created}
use antimage.Panel.Subjects.Tokens.{}
use antimage.Panel.Subjects.Sweeper.{retire, retire_all}
use antimage.Panel.Subjects.Unique.{
  name_key, token_key, IsUnique, has_name-IsFree, clashes-IsFree, modify-IsUnique, append-IsUnique,
  delete-IsUnique,
}

-- The unique indexes on names, which ignores case, and on tokens, which ignores the empty one.
abbrev pub IsIndexed : Texts → Tables → Type 0
IsIndexed texts db = IsUnique (name_key texts.nocase) db.subjects × IsUnique token_key db.subjects

-- A change that touches neither column.
both_kept :
    (texts : Texts) (id : ℕ) (change : Subject → Subject) (db : Tables)
    → ((s : Subject) → (change s).name ≡ s.name)
    → ((s : Subject) → (change s).subscription_token ≡ s.subscription_token)
    → IsIndexed texts db
    → IsIndexed texts (change_row id change db)
both_kept texts id change db names tokens (v, w) = (
  modify-IsUnique (name_key texts.nocase) id change db.subjects
      (λ s row. inl (ap (λ n. some (texts.nocase n)) (names s))) v,
  modify-IsUnique token_key id change db.subjects
      (λ s row. inl (ap (λ t. ite (String_discrete t "") none (some t)) (tokens s))) w,
)

update_one-ok :
    (id : ℕ) (change : Subject → Subject) (db after : Tables)
    → update_one id change db ≡ ok after
    → after ≡ change_row id change db
update_one-ok id change db after h = elim (Option-cases (get_row id db)) [
  | inl e ↦ absurd (cc (rw (e, update_one) at h))
  | inr (s, e) ↦ sym (ok-injective (rw (e, update_one) at h))
]

pub updated :
    (texts : Texts) (id : ℕ) (change : Subject → Subject) (db after : Tables)
    → ((s : Subject) → (change s).name ≡ s.name)
    → ((s : Subject) → (change s).subscription_token ≡ s.subscription_token)
    → IsIndexed texts db
    → update_one id change db ≡ ok after
    → IsIndexed texts after
updated texts id change db after names tokens v h =
    rw (update_one-ok id change db after h) (both_kept texts id change db names tokens v)

renamed :
    (texts : Texts) (id : ℕ) (given : Option String) (db after : Tables)
    → IsIndexed texts db
    → rename texts id given db ≡ ok after
    → IsIndexed texts after
unfolding rename
renamed texts id none db after v h = rw (sym (ok-injective h)) v
renamed texts id (some given) db after (v, w) h =
    let name = texts.trim_space given in
    let change : Subject → Subject = λ s. record s { name = name } in
    elim (String_discrete name "") [
      | yes e ↦ absurd (ground (arith, h))
      | no named ↦ elim (Bool-cases (has_name texts.nocase name id db.subjects)) [
        | inl taken ↦ absurd (ground (arith, h))
        | inr free ↦
            let done : after ≡ change_row id change db = ground (arith, h) in
            rw done (
              modify-IsUnique (name_key texts.nocase) id change db.subjects
                  (λ s row.
                    inr (has_name-IsFree texts.nocase (change s) name id db.subjects free refl))
                  v,
              modify-IsUnique token_key id change db.subjects (λ s row. inl refl) w,
            )
      ]
    ]

set_note-kept :
    (n : Option String) (s : Subject)
    → ((set_note n s).name ≡ s.name) × ((set_note n s).subscription_token ≡ s.subscription_token)
set_note-kept none s = (refl, refl)
set_note-kept (some n) s = (refl, refl)

set_enabled-kept :
    (b : Option Bool) (s : Subject)
    → ((set_enabled b s).name ≡ s.name)
      × ((set_enabled b s).subscription_token ≡ s.subscription_token)
set_enabled-kept none s = (refl, refl)
set_enabled-kept (some true) s = (refl, refl)
set_enabled-kept (some false) s = (refl, refl)

set_expiry-kept :
    (c : Bool) (e : Option ℕ) (s : Subject)
    → ((set_expiry c e s).name ≡ s.name)
      × ((set_expiry c e s).subscription_token ≡ s.subscription_token)
set_expiry-kept true e s = (refl, refl)
set_expiry-kept false none s = (refl, refl)
set_expiry-kept false (some e) s = (refl, refl)

regranted :
    (id : ℕ) (services : Option (List ℕ)) (db after : Tables)
    → replace_grants id services db ≡ ok after
    → after.subjects ≡ db.subjects
regranted id none db after h = ap (λ t. t.subjects) (sym (ok-injective h))
regranted id (some services) db after h =
    let g =
      grant_all-Granted id services (record db { grants = delete_grants id db.grants }) after h in
    ap (λ t. t.subjects) g.rest

changed : Option String → Option Bool → Bool → Option ℕ → Subject → Subject
changed note enabled clear expiry r =
    set_expiry clear expiry (set_enabled enabled (set_note note r))

changed_kept :
    (input : UpdateInput) (r : Subject)
    → ((changed input.note input.enabled input.clear_expiry input.expires_at r).name ≡ r.name)
      × ((changed input.note input.enabled input.clear_expiry input.expires_at r).subscription_token
          ≡ r.subscription_token)
unfolding changed
changed_kept input r =
    let n = set_note-kept input.note r in
    let e = set_enabled-kept input.enabled (set_note input.note r) in
    let x =
      set_expiry-kept input.clear_expiry input.expires_at
        (set_enabled input.enabled (set_note input.note r)) in
    (x.0 ∙ e.0 ∙ n.0, x.1 ∙ e.1 ∙ n.1)

pub update_subject-IsIndexed :
    (texts : Texts) (id : ℕ) (input : UpdateInput) (db after : Tables)
    → IsIndexed texts db
    → update_subject texts id input db ≡ ok after
    → IsIndexed texts after
unfolding update_subject changed
update_subject-IsIndexed texts id input db after v h = elim (Option-cases (get_row id db)) [
  | inl e ↦ absurd (cc (rw (e, update_subject) at h))
  | inr (s, e) ↦
      let change = changed input.note input.enabled input.clear_expiry input.expires_at in
      let (mid, first, last) =
        bind-eq-ok (rename texts id input.name db) _ (rw (e, update_subject) at h) in
      let w =
        both_kept texts id change mid (λ r. (changed_kept input r).0)
          (λ r. (changed_kept input r).1) (renamed texts id input.name db mid v first) in
      rw (regranted id input.service_ids (change_row id change mid) after last) w
]

pub create_subject-IsIndexed :
    (texts : Texts) (a : Aead) (draws : Draws) (input : CreateInput) (now id : ℕ)
    (db after : Tables)
    → IsSound a
    → HasNonces a draws
    → IsIndexed texts db
    → create_subject texts (some a) draws input now db ≡ ok (id, after)
    → IsIndexed texts after
create_subject-IsIndexed texts a draws input now id db after sound sized (v, w) h =
    let (fresh, named, c) =
      create_subject-Created texts a draws input now db id after sound sized h in
    let name = texts.trim_space input.name in
    let new = new_subject input name c.token now in
    rw c.row (
      append-IsUnique (name_key texts.nocase) id new db.subjects fresh
          (has_name-IsFree texts.nocase new name id db.subjects c.name_free refl) v,
      append-IsUnique token_key id new db.subjects fresh
          (clashes-IsFree new c.token id db.subjects c.token_free refl) w,
    )

pub delete_subject-IsIndexed :
    (texts : Texts) (id : ℕ) (db after : Tables)
    → IsIndexed texts db
    → delete_subject id db ≡ ok after
    → IsIndexed texts after
unfolding delete_subject
delete_subject-IsIndexed texts id db after (v, w) h = elim (Option-cases (get_row id db)) [
  | inl e ↦ absurd (cc (rw (e, delete_subject) at h))
  | inr (s, e) ↦ rw (sym (ok-injective (rw (e, delete_subject) at h))) (
    delete-IsUnique (name_key texts.nocase) id db.subjects v,
    delete-IsUnique token_key id db.subjects w,
  )
]

pub rotate-IsIndexed :
    (texts : Texts) (a : Aead) (draws : Draws) (id now : ℕ) (kind : CredentialKind) (value : Bytes)
    (db after : Tables)
    → IsSound a
    → HasNonces a draws
    → IsIndexed texts db
    → rotate a draws id kind now db ≡ ok (value, after)
    → IsIndexed texts after
unfolding rotate
rotate-IsIndexed texts a draws id now kind value db after sound sized v h =
    let (new, drew, h₁) = bind-eq-ok (generate_credential draws kind) _ h in
    let (t, put, h₂) = bind-eq-ok (put_credential a draws id kind new now db) _ h₁ in
    let p = put_credential-Put a draws id kind new now db t sound sized put in
    elim (Option-cases (get_row id db)) [
      | inl e ↦ absurd (cc (rw e at h₂))
      | inr (s, e) ↦ let same : t ≡ after = (ok-pair (rw e at h₂)).1 in rw (sym same) (rw p.rest v)
    ]

pub retire_all-IsIndexed :
    (texts : Texts) (now : ℕ) (ids : List ℕ) (db : Tables)
    → IsIndexed texts db
    → IsIndexed texts (retire_all now ids db)
unfolding retire_all
retire_all-IsIndexed texts now [] db v = v
retire_all-IsIndexed texts now (id ∷ ids) db v =
    retire_all-IsIndexed texts now ids (change_row id (retire now) db)
      (both_kept texts id (retire now) db (λ s. refl) (λ s. refl) v)

-- ===== src/Panel/Subjects/Calls.antt =====
-- Calls of the store, of the tokens and of the expiry sweep, one after the other.
use antimage.Common.{ℕ, ◌≡◌, refl, true, false, String, Option, none, some}
use antimage.Common.Outcome.{ok}
use antimage.Panel.Subjects.Tables.{Bytes, CredentialKind, Tables}
use antimage.Panel.Subjects.Credentials.{Aead, IsSound, Draws, rotate}
use antimage.Panel.Subjects.Sealed.{HasNonces}
use antimage.Panel.Subjects.Store.{
  Texts, CreateInput, UpdateInput, create_subject, update_subject, delete_subject, freeze, unfreeze,
  disable, enable,
}
use antimage.Panel.Subjects.Tokens.{ensure_token, revoke_token, clear_token}
use antimage.Panel.Subjects.Sweeper.{due_subjects, retire_all}
use antimage.Panel.Subjects.Indexed.{
  IsIndexed, updated, create_subject-IsIndexed, update_subject-IsIndexed, delete_subject-IsIndexed,
  rotate-IsIndexed, retire_all-IsIndexed,
}
use antimage.Panel.Subjects.Reissued.{
  ensure_token-IsIndexed, revoke_token-IsIndexed, clear_token-IsIndexed,
}

module _ (texts : Texts) (a : Aead) where
  -- A call that succeeds.
  pub data Call (db : Tables) : Tables → Type 0 where
    creates :
        {after : Tables} (draws : Draws) (input : CreateInput) (now id : ℕ)
        → HasNonces a draws
        → create_subject texts (some a) draws input now db ≡ ok (id, after)
        → Call db after
    updates :
        {after : Tables} (id : ℕ) (input : UpdateInput)
        → update_subject texts id input db ≡ ok after
        → Call db after
    deletes : {after : Tables} (id : ℕ) → delete_subject id db ≡ ok after → Call db after
    freezes :
        {after : Tables} (id : ℕ) (reason : String) (now : ℕ)
        → freeze id reason now db ≡ ok after
        → Call db after
    unfreezes : {after : Tables} (id : ℕ) → unfreeze id db ≡ ok after → Call db after
    disables : {after : Tables} (id : ℕ) → disable id db ≡ ok after → Call db after
    enables : {after : Tables} (id : ℕ) → enable id db ≡ ok after → Call db after
    rotates :
        {after : Tables} (draws : Draws) (id : ℕ) (kind : CredentialKind) (value : Bytes) (now : ℕ)
        → HasNonces a draws
        → rotate a draws id kind now db ≡ ok (value, after)
        → Call db after
    sweeps : (now : ℕ) → Call db (retire_all now (due_subjects now db.subjects) db)
    ensures :
        {after : Tables} (draw : Option String) (id : ℕ) (token : String)
        → ensure_token draw (λ t. t) id db ≡ ok (token, after)
        → Call db after
    revokes :
        {after : Tables} (draw : Option String) (id : ℕ) (token : String)
        → revoke_token draw id db ≡ ok (token, after)
        → Call db after
    clears : {after : Tables} (id : ℕ) → clear_token id db ≡ ok after → Call db after

  pub data History (db : Tables) : Tables → Type 0 where
    start : History db db
    later : {mid after : Tables} → History db mid → Call mid after → History db after

  Call-IsIndexed :
      (db after : Tables) → IsSound a → IsIndexed texts db → Call db after → IsIndexed texts after
  unfolding freeze unfreeze disable enable
  Call-IsIndexed db _ sound v (creates {after = after} draws input now id sized h) =
      create_subject-IsIndexed texts a draws input now id db after sound sized v h
  Call-IsIndexed db _ sound v (updates {after = after} id input h) =
      update_subject-IsIndexed texts id input db after v h
  Call-IsIndexed db _ sound v (deletes {after = after} id h) =
      delete_subject-IsIndexed texts id db after v h
  Call-IsIndexed db _ sound v (freezes {after = after} id reason now h) =
      updated texts id (λ s. record s { frozen_at = some now; frozen_reason = some reason }) db
        after (λ s. refl) (λ s. refl) v h
  Call-IsIndexed db _ sound v (unfreezes {after = after} id h) =
      updated texts id (λ s. record s { frozen_at = none; frozen_reason = none }) db after
        (λ s. refl) (λ s. refl) v h
  Call-IsIndexed db _ sound v (disables {after = after} id h) =
      updated texts id (λ s. record s { enabled = false }) db after (λ s. refl) (λ s. refl) v h
  Call-IsIndexed db _ sound v (enables {after = after} id h) =
      updated texts id (λ s. record s { enabled = true; expired_at = none }) db after (λ s. refl)
        (λ s. refl) v h
  Call-IsIndexed db _ sound v (rotates {after = after} draws id kind value now sized h) =
      rotate-IsIndexed texts a draws id now kind value db after sound sized v h
  Call-IsIndexed db _ sound v (sweeps now) =
      retire_all-IsIndexed texts now (due_subjects now db.subjects) db v
  Call-IsIndexed db _ sound v (ensures {after = after} draw id token h) =
      ensure_token-IsIndexed texts draw id token db after v h
  Call-IsIndexed db _ sound v (revokes {after = after} draw id token h) =
      revoke_token-IsIndexed texts draw id token db after v h
  Call-IsIndexed db _ sound v (clears {after = after} id h) =
      clear_token-IsIndexed texts id db after v h

  -- Whatever successful calls of the store, the tokens and the expiry sweep follow one another, no
  -- two subjects ever have names that differ in case only, or the same subscription token, if none
  -- had at the start: the checks of the calls stand for the unique indexes.
  pub History-IsIndexed :
      (db after : Tables)
      → IsSound a
      → IsIndexed texts db
      → History db after
      → IsIndexed texts after
  History-IsIndexed db _ sound v start = v
  History-IsIndexed db _ sound v (later {mid = mid} {after = after} past call) =
      Call-IsIndexed mid after sound (History-IsIndexed db mid sound v past) call

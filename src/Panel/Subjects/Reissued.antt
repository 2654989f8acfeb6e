-- ===== src/Panel/Subjects/Reissued.antt =====
-- Each write of a token (internal/panel/subjects/tokens.go), and the unique indexes.
use antimage.Common.{
  ℕ, ◌≡◌, refl, sym, String, String_discrete, Option, if_pos, if_neg, Option-cases, Bool-cases, inl,
  inr,
}
use antimage.Common.Outcome.{ok, bind-eq-ok, ok-pair, ok-injective}
use antimage.Panel.Subjects.Tables.{Subject, Tables, get_row, change_row}
use antimage.Panel.Subjects.Credentials.{drawn}
use antimage.Panel.Subjects.Sealed.{}
use antimage.Panel.Subjects.Store.{Texts, clashes}
use antimage.Panel.Subjects.Created.{}
use antimage.Panel.Subjects.Tokens.{
  peek_token, write_token, ensure_token, revoke_token, clear_token,
}
use antimage.Panel.Subjects.Sweeper.{}
use antimage.Panel.Subjects.Unique.{
  empty-IsFree, name_key, token_key, clashes-IsFree, modify-IsUnique,
}
use antimage.Panel.Subjects.Indexed.{IsIndexed}

write_token-IsIndexed :
    (texts : Texts) (id : ℕ) (token : String) (db after : Tables)
    → IsIndexed texts db
    → write_token id token db ≡ ok after
    → IsIndexed texts after
unfolding write_token
write_token-IsIndexed texts id token db after (v, w) h =
    let change : Subject → Subject = λ s. record s { subscription_token = token } in
    elim (Option-cases (get_row id db)) [
      | inl e ↦ rw (sym (ok-injective (rw (e, write_token) at h))) (v, w)
      | inr (s, e) ↦ elim (Bool-cases (clashes token id db.subjects)) [
        | inl f ↦ absurd (cc (rw f at (rw (e, write_token) at h)))
        | inr f ↦
            let done : change_row id change db ≡ after =
              ok-injective (rw f at (rw (e, write_token) at h)) in
            rw (sym done) (
              modify-IsUnique (name_key texts.nocase) id change db.subjects (λ r row. inl refl) v,
              modify-IsUnique token_key id change db.subjects
                  (λ r row. inr (clashes-IsFree (change r) token id db.subjects f refl)) w,
            )
      ]
    ]

pub clear_token-IsIndexed :
    (texts : Texts) (id : ℕ) (db after : Tables)
    → IsIndexed texts db
    → clear_token id db ≡ ok after
    → IsIndexed texts after
unfolding clear_token
clear_token-IsIndexed texts id db after (v, w) h =
    let change : Subject → Subject = λ s. record s { subscription_token = "" } in
    elim (Option-cases (get_row id db)) [
      | inl e ↦ absurd (cc (rw (e, clear_token) at h))
      | inr (s, e) ↦ rw (sym (ok-injective (rw (e, clear_token) at h))) (
        modify-IsUnique (name_key texts.nocase) id change db.subjects (λ r row. inl refl) v,
        modify-IsUnique token_key id change db.subjects
            (λ r row. inr (empty-IsFree (change r) id db.subjects refl)) w,
      )
    ]

pub revoke_token-IsIndexed :
    (texts : Texts) (draw : Option String) (id : ℕ) (token : String) (db after : Tables)
    → IsIndexed texts db
    → revoke_token draw id db ≡ ok (token, after)
    → IsIndexed texts after
unfolding revoke_token
revoke_token-IsIndexed texts draw id token db after v h =
    let (fresh, drew, h₁) = bind-eq-ok (drawn draw) _ h in
    let (t, wrote, h₂) = bind-eq-ok (write_token id fresh db) _ h₁ in
    rw (sym (ok-pair h₂).1) (write_token-IsIndexed texts id fresh db t v wrote)

pub ensure_token-IsIndexed :
    (texts : Texts) (draw : Option String) (id : ℕ) (token : String) (db after : Tables)
    → IsIndexed texts db
    → ensure_token draw (λ t. t) id db ≡ ok (token, after)
    → IsIndexed texts after
unfolding ensure_token
ensure_token-IsIndexed texts draw id token db after v h =
    let (seen, peeked, h₁) = bind-eq-ok (peek_token id db) _ h in
    elim (String_discrete seen "") [
      | no there ↦ rw (sym (ok-pair (rw (if_neg (String_discrete seen "") there _ _) at h₁)).1) v
      | yes e ↦
          let (fresh, drew, h₂) =
            bind-eq-ok (drawn draw) _ (rw (if_pos (String_discrete seen "") e _ _) at h₁) in
          let (current, again, h₃) = bind-eq-ok (peek_token id db) _ h₂ in
          elim (String_discrete current "") [
            | no there ↦
                rw (sym (ok-pair (rw (if_neg (String_discrete current "") there _ _) at h₃)).1) v
            | yes f ↦
                let (t, wrote, h₄) =
                  bind-eq-ok (write_token id fresh db) _
                    (rw (if_pos (String_discrete current "") f _ _) at h₃) in
                rw (sym (ok-pair h₄).1) (write_token-IsIndexed texts id fresh db t v wrote)
          ]
    ]

-- ===== src/Panel/Subjects/Links.antt =====
-- Which subject a subscription token leads to.
use antimage.Common.{
  ℕ, ◌≡◌, ◌≢◌, refl, sym, ◌∙◌, ap, arith, Bool, true, false, String, String_discrete, Option, none,
  some, [], ◌∷◌, ℕ_discrete, ite, if_pos, if_neg, Option-cases, Bool-cases, inl, inr,
}
use antimage.Common.Maps
use antimage.Common.Outcome.{ok, err, bind-eq-ok, ok-pair, ok-injective}
use antimage.Panel.Subjects.Tables.{no_token, Subject, Tables, get_row, change_row}
use antimage.Panel.Subjects.Credentials.{drawn}
use antimage.Panel.Subjects.Store.{clashes}
use antimage.Panel.Subjects.Tokens.{write_token, revoke_token, with_token, lookup_by_token}
use antimage.Panel.Subjects.Swept.{IsKeyed}
use antimage.Panel.Subjects.Unique.{
  Rows, row_at, token_key, IsUnique, clashes-IsFree, modify-IsUnique,
}

with_token-some :
    (token : String) (id : ℕ) (on : Bool) (rows : Rows)
    → IsKeyed rows
    → with_token token rows ≡ some (id, on)
    → (s : Subject) × (row_at id rows ≡ some s) × (s.subscription_token ≡ token) × (s.enabled ≡ on)
unfolding with_token Maps.get
with_token-some token id on [] keys h = absurd (cc h)
with_token-some token id on (e ∷ rows) keys h =
    elim (String_discrete e.1.subscription_token token) [
      | yes same ↦
          let here : ◌≡◌ {A = ℕ × Bool} (e.0, e.1.enabled) (id, on) = ground arith in
          (e.1, ground (arith, here), same, cc here)
      | no other ↦
          let (s, row, t, b) = with_token-some token id on rows keys.1 (ground arith) in
          (s, ground (arith, row, keys.0), t, b)
    ]

with_token-none :
    (token : String) (id : ℕ) (s : Subject) (rows : Rows)
    → with_token token rows ≡ none
    → row_at id rows ≡ some s
    → s.subscription_token ≢ token
unfolding with_token Maps.get
with_token-none token id s [] h row same = absurd (cc row)
with_token-none token id s (e ∷ rows) h row same = ground (arith, with_token-none token id s rows)

get-modify-none :
    (id j : ℕ) (change : Subject → Subject) (rows : Rows)
    → row_at j rows ≡ none
    → row_at j (Maps.modify ℕ_discrete id change rows) ≡ none
get-modify-none id j change rows h =
    let there = Maps.get-modify ℕ_discrete id j change rows in ground (arith, there)

IsKeyed-either :
    {P : Type 0} (d : Dec P) (x y : ℕ × Subject) (rows : Rows)
    → IsKeyed (x ∷ rows)
    → IsKeyed (y ∷ rows)
    → IsKeyed (ite d (x ∷ rows) (y ∷ rows))
IsKeyed-either (yes p) x y rows a b = a
IsKeyed-either (no p) x y rows a b = b

pub modify-IsKeyed :
    (id : ℕ) (change : Subject → Subject) (rows : Rows)
    → IsKeyed rows
    → IsKeyed (Maps.modify ℕ_discrete id change rows)
unfolding Maps.modify
modify-IsKeyed id change [] keys = tt
modify-IsKeyed id change (e ∷ rows) keys =
    let head = get-modify-none id e.0 change rows keys.0 in
    let rest = modify-IsKeyed id change rows keys.1 in
    IsKeyed-either (ℕ_discrete id e.0) (e.0, change e.1) e (Maps.modify ℕ_discrete id change rows)
      (head, rest) (head, rest)

-- A lookup finds exactly the enabled subject with the token.
found :
    (token : String) (id : ℕ) (s : Subject) (db : Tables)
    → IsKeyed db.subjects
    → IsUnique token_key db.subjects
    → get_row id db ≡ some s
    → s.subscription_token ≡ token
    → token ≢ ""
    → s.enabled ≡ true
    → lookup_by_token token db ≡ ok id
unfolding lookup_by_token
found token id s db keys v row of_s named on = elim (Option-cases (with_token token db.subjects)) [
  | inl e ↦ absurd (with_token-none token id s db.subjects e row of_s)
  | inr ((i, b), e) ↦
      let (t, there, of_t, bit) = with_token-some token i b db.subjects keys e in
      let key_t : token_key t ≡ some token = ground arith in
      let key_s : token_key s ≡ some token = ground arith in
      let same : i ≡ id = v i id t s token there row key_t key_s in
      let whole : b ≡ true = ground arith in
      rw (if_neg (String_discrete token "") named _ _)
        (rw (e, lookup_by_token) (rw whole (ap ok same)))
]

unlinked : (token : String) (db : Tables) → token ≡ "" → lookup_by_token token db ≡ err no_token
unfolding lookup_by_token
unlinked token db e = if_pos (String_discrete token "") e _ _

not_found_by :
    (token : String) (db : Tables)
    → IsKeyed db.subjects
    → ((i : ℕ) (t : Subject) → get_row i db ≡ some t → t.subscription_token ≢ token)
    → lookup_by_token token db ≡ err no_token
unfolding lookup_by_token
not_found_by token db keys nobody = elim (String_discrete token "") [
  | yes e ↦ if_pos (String_discrete token "") e _ _
  | no named ↦ elim (Option-cases (with_token token db.subjects)) [
    | inl e ↦ rw (if_neg (String_discrete token "") named _ _) (rw (e, lookup_by_token) refl)
    | inr ((i, b), e) ↦
        let (t, there, of_t, bit) = with_token-some token i b db.subjects keys e in
        absurd (nobody i t there of_t)
  ]
]

changed_row :
    (id : ℕ) (change : Subject → Subject) (rows : Rows) (s : Subject)
    → row_at id rows ≡ some s
    → row_at id (Maps.modify ℕ_discrete id change rows) ≡ some (change s)
changed_row id change rows s h =
    let there = Maps.get-modify ℕ_discrete id id change rows in ground (arith, there)

other_row :
    (id j : ℕ) (change : Subject → Subject) (rows : Rows) (t : Subject)
    → j ≢ id
    → row_at j (Maps.modify ℕ_discrete id change rows) ≡ some t
    → row_at j rows ≡ some t
other_row id j change rows t other h =
    let there = Maps.get-modify ℕ_discrete id j change rows in ground (arith, there)

abbrev written : ℕ → String → Tables → Tables
written id token = change_row id (λ r. record r { subscription_token = token })

abbrev token_or : Option Subject → String → String
token_or none token = token
token_or (some s) token = s.subscription_token

-- Two rows with the same token that is not empty are one.
still_held :
    (id i : ℕ) (s t : Subject) (token : String) (db : Tables)
    → IsUnique token_key db.subjects
    → get_row id db ≡ some s
    → row_at i db.subjects ≡ some t
    → i ≢ id
    → t.subscription_token ≡ s.subscription_token
    → s.subscription_token ≢ ""
    → ⊥
still_held id i s t token db v row there other same filled =
    let key_t : token_key t ≡ some s.subscription_token = ground arith in
    let key_s : token_key s ≡ some s.subscription_token = ground arith in
    other (v i id t s s.subscription_token there row key_t key_s)

moved :
    (id : ℕ) (token : String) (s : Subject) (db : Tables)
    → IsKeyed db.subjects
    → IsUnique token_key db.subjects
    → clashes token id db.subjects ≡ false
    → get_row id db ≡ some s
    → s.enabled ≡ true
    → token ≢ ""
    → token ≢ s.subscription_token
    → (lookup_by_token token (written id token db) ≡ ok id)
      × (lookup_by_token s.subscription_token (written id token db) ≡ err no_token)
moved id token s db keys v free row on named new =
    let change : Subject → Subject = λ r. record r { subscription_token = token } in
    let keys' = modify-IsKeyed id change db.subjects keys in
    (
      found token id (change s) (written id token db) keys'
          (modify-IsUnique token_key id change db.subjects
            (λ r there. inr (clashes-IsFree (change r) token id db.subjects free refl)) v)
          (changed_row id change db.subjects s row) refl named on,
      elim (String_discrete s.subscription_token "") [
        | yes empty ↦ unlinked s.subscription_token (written id token db) empty
        | no filled ↦
            not_found_by s.subscription_token (written id token db) keys' (λ i t there same.
              elim (ℕ_discrete i id) [
                | yes here ↦ new (
                    ap (λ o. token_or o token)
                      (sym (changed_row id change db.subjects s row)
                        ∙ sym (ap (λ n. row_at n (written id token db).subjects) here)
                        ∙ there)
                    ∙ same)
                | no other ↦
                    still_held id i s t token db v row
                      (other_row id i change db.subjects t other there) other same filled
              ])
      ],
    )

-- RevokeToken moves the link: afterwards the returned token leads to the subject, and its old token
-- leads to nobody. The subject is enabled, the returned token is not empty and not the old one; the
-- rows have distinct ids, and no two have the same token.
pub revoke_token-lookup :
    (draw : Option String) (id : ℕ) (token : String) (s : Subject) (db after : Tables)
    → IsKeyed db.subjects
    → IsUnique token_key db.subjects
    → get_row id db ≡ some s
    → s.enabled ≡ true
    → token ≢ ""
    → token ≢ s.subscription_token
    → revoke_token draw id db ≡ ok (token, after)
    → (lookup_by_token token after ≡ ok id)
      × (lookup_by_token s.subscription_token after ≡ err no_token)
unfolding revoke_token write_token
revoke_token-lookup draw id token s db after keys v row on named new h =
    let (fresh, drew, h₁) = bind-eq-ok (drawn draw) _ h in
    let (t, wrote, h₂) = bind-eq-ok (write_token id fresh db) _ h₁ in
    let (is_fresh, is_after) = ok-pair h₂ in
    elim (Bool-cases (clashes fresh id db.subjects)) [
      | inl f ↦ absurd (cc (rw f at (rw (row, write_token) at wrote)))
      | inr f ↦
          let done : written id fresh db ≡ t =
            ok-injective (rw f at (rw (row, write_token) at wrote)) in
          rw (sym (done ∙ is_after)) (
            rw (sym is_fresh) (
              moved id fresh s db keys v f row on (λ e. named (sym is_fresh ∙ e))
                (λ e. new (sym is_fresh ∙ e))))
    ]

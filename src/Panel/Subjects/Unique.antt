-- ===== src/Panel/Subjects/Unique.antt =====
-- A unique index on a column of `subjects`, and the writes that keep it.
use antimage.Common.{
  ℕ, ◌≡◌, ◌≢◌, sym, ◌∙◌, arith, false, String, String_discrete, Option, none, some, List, [], ◌∷◌,
  ◌++◌, ℕ_discrete, ite, Option-cases, inl, inr, ap, if_neg, ◌⊎◌,
}
use antimage.Common.Maps
use antimage.Panel.Subjects.Tables.{Subject}
use antimage.Panel.Subjects.Store.{has_name, has_token, clashes}
use mathlib.Core.Option

abbrev pub Rows : Type 0
Rows = List (ℕ × Subject)

abbrev pub row_at : ℕ → Rows → Option Subject
row_at id rows = Maps.get ℕ_discrete id rows

-- What the index sees of a row, if it sees it at all.
abbrev pub Key : Type 0
Key = Subject → Option String

abbrev pub name_key : (String → String) → Key
name_key nocase s = some (nocase s.name)

abbrev pub token_key : Key
token_key s = ite (String_discrete s.subscription_token "") none (some s.subscription_token)

-- No two rows have the same key.
abbrev pub IsUnique : Key → Rows → Type 0
IsUnique key rows =
    (i j : ℕ) (s t : Subject) (k : String)
    → row_at i rows ≡ some s
    → row_at j rows ≡ some t
    → key s ≡ some k
    → key t ≡ some k
    → i ≡ j

-- No row but that of `id` has the key.
abbrev pub IsFree : Key → Option String → ℕ → Rows → Type 0
IsFree key k id rows =
    (j : ℕ) (t : Subject)
    → j ≢ id
    → row_at j rows ≡ some t
    → (w : String) → k ≡ some w
    → key t ≢ some w

has_name-false :
    (nocase : String → String) (name : String) (id j : ℕ) (rows : Rows) (t : Subject)
    → has_name nocase name id rows ≡ false
    → j ≢ id
    → row_at j rows ≡ some t
    → nocase t.name ≢ nocase name
unfolding has_name Maps.get
has_name-false nocase name id j [] t h other row same = absurd (cc row)
has_name-false nocase name id j (e ∷ rows) t h other row same =
    ground (arith, has_name-false nocase name id j rows t)

pub has_name-IsFree :
    (nocase : String → String) (s : Subject) (name : String) (id : ℕ) (rows : Rows)
    → has_name nocase name id rows ≡ false
    → s.name ≡ name
    → IsFree (name_key nocase) (name_key nocase s) id rows
has_name-IsFree nocase s name id rows h named j t other row w e f =
    has_name-false nocase name id j rows t h other row (cc (e, f, named))

has_token-false :
    (token : String) (id j : ℕ) (rows : Rows) (t : Subject)
    → has_token token id rows ≡ false
    → j ≢ id
    → row_at j rows ≡ some t
    → t.subscription_token ≢ token
unfolding has_token Maps.get
has_token-false token id j [] t h other row same = absurd (cc row)
has_token-false token id j (e ∷ rows) t h other row same =
    ground (arith, has_token-false token id j rows t)

token_key-some :
    (s : Subject) (w : String) → token_key s ≡ some w → (s.subscription_token ≡ w) × (w ≢ "")
token_key-some s w h = elim (String_discrete s.subscription_token "") [
  | yes e ↦ absurd (ground arith)
  | no named ↦ let same : s.subscription_token ≡ w = ground arith in (same, λ e. named (same ∙ e))
]

pub clashes-IsFree :
    (s : Subject) (token : String) (id : ℕ) (rows : Rows)
    → clashes token id rows ≡ false
    → s.subscription_token ≡ token
    → IsFree token_key (token_key s) id rows
unfolding clashes
clashes-IsFree s token id rows h of_s j t other row w e f =
    let (s_is, filled) = token_key-some s w e in
    let (t_is, _) = token_key-some t w f in
    let named : token ≢ "" = λ empty. filled (sym s_is ∙ of_s ∙ empty) in
    has_token-false token id j rows t (ground arith) other row (t_is ∙ sym s_is ∙ of_s)

pub empty-IsFree :
    (s : Subject) (id : ℕ) (rows : Rows)
    → s.subscription_token ≡ ""
    → IsFree token_key (token_key s) id rows
empty-IsFree s id rows empty j t other row w e f =
    let (same, filled) = token_key-some s w e in filled (sym same ∙ empty)

one_changed :
    (key : Key) (id : ℕ) (change : Subject → Subject) (rows : Rows)
    → ((s : Subject)
        → row_at id rows ≡ some s
        → (key (change s) ≡ key s) ⊎ IsFree key (key (change s)) id rows)
    → IsUnique key rows
    → (i j : ℕ) (s t : Subject) (k : String) → i ≡ id
    → j ≢ id
    → ite (ℕ_discrete i id) (Option.map change (row_at i rows)) (row_at i rows) ≡ some s
    → ite (ℕ_discrete j id) (Option.map change (row_at j rows)) (row_at j rows) ≡ some t
    → key s ≡ some k
    → key t ≡ some k
    → i ≡ j
one_changed key id change rows ok_change v i j s t k e other rs rt ks kt =
    let old_t : row_at j rows ≡ some t = ground arith in
    elim (Option-cases (row_at id rows)) [
      | inl gone ↦ absurd (ground arith)
      | inr (r, there) ↦
          let new_s : change r ≡ s = ground arith in
          elim (ok_change r there) [
            | inl same ↦ v i j r t k (rw e there) old_t (sym same ∙ ap key new_s ∙ ks) kt
            | inr free ↦ absurd (free j t other old_t k (ap key new_s ∙ ks) kt)
          ]
    ]

pub modify-IsUnique :
    (key : Key) (id : ℕ) (change : Subject → Subject) (rows : Rows)
    → ((s : Subject)
        → row_at id rows ≡ some s
        → (key (change s) ≡ key s) ⊎ IsFree key (key (change s)) id rows)
    → IsUnique key rows
    → IsUnique key (Maps.modify ℕ_discrete id change rows)
modify-IsUnique key id change rows ok_change v i j s t k rs rt ks kt =
    let gi = Maps.get-modify ℕ_discrete id i change rows in
    let gj = Maps.get-modify ℕ_discrete id j change rows in
    elim (ℕ_discrete i id) [
      | yes e ↦ elim (ℕ_discrete j id) [
        | yes f ↦ e ∙ sym f
        | no other ↦
            one_changed key id change rows ok_change v i j s t k e other (sym gi ∙ rs) (sym gj ∙ rt)
              ks kt
      ]
      | no other ↦ elim (ℕ_discrete j id) [
        | yes f ↦ sym (
            one_changed key id change rows ok_change v j i t s k f other (sym gj ∙ rt) (sym gi ∙ rs)
              kt ks)
        | no another ↦
            v i j s t k (sym (if_neg (ℕ_discrete i id) other _ _) ∙ sym gi ∙ rs)
              (sym (if_neg (ℕ_discrete j id) another _ _) ∙ sym gj ∙ rt) ks kt
      ]
    ]

appended :
    (id j : ℕ) (rows : Rows) (new t : Subject)
    → row_at id rows ≡ none
    → row_at j (rows ++ (id, new) ∷ []) ≡ some t
    → ((j ≢ id) × (row_at j rows ≡ some t)) ⊎ ((j ≡ id) × (new ≡ t))
appended id j rows new t fresh h = elim (Option-cases (row_at j rows)) [
  | inl e ↦
      let there = sym (Maps.get-append_none ℕ_discrete j rows (id, new) e) ∙ h in
      inr (ground (arith, there))
  | inr (s, e) ↦
      let there = sym (Maps.get-append_some ℕ_discrete j rows (id, new) e) ∙ h in
      inl (λ same. cc (rw same at e, fresh), e ∙ there)
]

pub append-IsUnique :
    (key : Key) (id : ℕ) (new : Subject) (rows : Rows)
    → row_at id rows ≡ none
    → IsFree key (key new) id rows
    → IsUnique key rows
    → IsUnique key (rows ++ (id, new) ∷ [])
append-IsUnique key id new rows fresh free v i j s t k rs rt ks kt =
    elim (appended id i rows new s fresh rs) [
      | inl (i_old, old_s) ↦ elim (appended id j rows new t fresh rt) [
        | inl (j_old, old_t) ↦ v i j s t k old_s old_t ks kt
        | inr (j_new, is_t) ↦ absurd (free i s i_old old_s k (ap key is_t ∙ kt) ks)
      ]
      | inr (i_new, is_s) ↦ elim (appended id j rows new t fresh rt) [
        | inl (j_old, old_t) ↦ absurd (free j t j_old old_t k (ap key is_s ∙ ks) kt)
        | inr (j_new, is_t) ↦ i_new ∙ sym j_new
      ]
    ]

undeleted :
    (id j : ℕ) (rows : Rows) (t : Subject)
    → row_at j (Maps.delete ℕ_discrete id rows) ≡ some t
    → row_at j rows ≡ some t
undeleted id j rows t h =
    let there = sym (Maps.get-delete ℕ_discrete id j rows) ∙ h in ground (arith, there)

pub delete-IsUnique :
    (key : Key) (id : ℕ) (rows : Rows)
    → IsUnique key rows
    → IsUnique key (Maps.delete ℕ_discrete id rows)
delete-IsUnique key id rows v i j s t k rs rt ks kt =
    v i j s t k (undeleted id i rows s rs) (undeleted id j rows t rt) ks kt

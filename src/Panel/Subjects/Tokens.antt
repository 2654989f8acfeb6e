-- ===== src/Panel/Subjects/Tokens.antt =====
-- internal/panel/subjects/tokens.go: subscription tokens.
use antimage.Common.{
  ℕ, Bool, String, String_discrete, Option, none, some, List, [], ◌∷◌, if◌then◌else◌, ite,
}
use antimage.Common.Outcome.{Outcome, ok, err, ◌>>=◌}
use antimage.Panel.Subjects.Tables.{
  SubjectError, constraint, not_found, no_token, Subject, Tables, get_row, change_row,
}
use antimage.Panel.Subjects.Credentials.{drawn}
use antimage.Panel.Subjects.Store.{clashes}

-- PeekToken
abbrev pub peek_token : ℕ → Tables → Outcome SubjectError String
peek_token id db = elim (get_row id db) [ none ↦ err not_found | some s ↦ ok s.subscription_token ]

-- UPDATE subjects SET subscription_token = ? WHERE id = ?
unfoldable pub write_token : ℕ → String → Tables → Outcome SubjectError Tables
write_token id token db = elim (get_row id db) [
  | none ↦ ok db
  | some s ↦
      if clashes token id db.subjects
      then err constraint
      else ok (change_row id (λ r. record r { subscription_token = token }) db)
]

-- EnsureToken; `meanwhile` is what others write before its transaction.
unfoldable pub ensure_token :
    Option String → (Tables → Tables) → ℕ → Tables → Outcome SubjectError (String × Tables)
unfolding String_discrete
ensure_token draw meanwhile id db = peek_token id db >>= (λ token.
    ite (String_discrete token "")
      (drawn draw >>= (λ fresh. peek_token id (meanwhile db) >>= (λ current.
        ite (String_discrete current "")
          (write_token id fresh (meanwhile db) >>= (λ after. ok (fresh, after)))
          (ok (current, meanwhile db)))))
      (ok (token, db)))

-- RevokeToken
unfoldable pub revoke_token : Option String → ℕ → Tables → Outcome SubjectError (String × Tables)
revoke_token draw id db =
    drawn draw >>= (λ fresh. write_token id fresh db >>= (λ after. ok (fresh, after)))

-- SELECT id, enabled FROM subjects WHERE subscription_token = ?
unfoldable pub with_token : String → List (ℕ × Subject) → Option (ℕ × Bool)
unfolding String_discrete
with_token token [] = none
with_token token (e ∷ rest) =
    let other = with_token token rest in
    ite (String_discrete e.1.subscription_token token) (some (e.0, e.1.enabled)) other

-- LookupByToken
unfoldable pub lookup_by_token : String → Tables → Outcome SubjectError ℕ
unfolding String_discrete
lookup_by_token token db =
    ite (String_discrete token "") (err no_token) (elim (with_token token db.subjects) [
      | none ↦ err no_token
      | some (id, enabled) ↦ if enabled then ok id else err no_token
    ])

-- ClearToken
unfoldable pub clear_token : ℕ → Tables → Outcome SubjectError Tables
clear_token id db = elim (get_row id db) [
  | none ↦ err not_found
  | some s ↦ ok (change_row id (λ r. record r { subscription_token = "" }) db)
]

-- ===== src/Panel/Resellers/Account.antt =====
-- Credit against a reseller's account: a total, and the keys that were applied.
use antimage.Common.{
  ℕ, ◌≡◌, ◌⊎◌, inl, inr, refl, arith, String, String_discrete, ℕ_discrete, true, false, none, some,
  List, [], ◌∷◌, ◌++◌, ite, contains, if◌then◌else◌, Option-cases, Bool-cases,
}
use antimage.Common.Int.{ℤ, pos, ◌+ℤ◌}
use antimage.Common.Outcome.{ok, refuses-eq-ok}
use antimage.Panel.Resellers.Tables.{Movement, Tables, sum_int64, deltas, find_key}
use antimage.Panel.Resellers.Ledger.{
  CreditInput, movement, append_movement, credit, has_row, refers_to, find_or_append, is_empty_text,
  is_zero, reasons,
}

unfoldable pub sum_from : ℤ → List ℤ → ℤ
sum_from total [] = total
sum_from total (d ∷ rest) = sum_from (total +ℤ d) rest

-- The keys of a reseller's movements.
unfoldable pub keys : ℕ → List Movement → List String
unfolding ℕ_discrete
keys id [] = []
keys id (m ∷ rest) =
    let others = keys id rest in
    ite (ℕ_discrete m.reseller_id id) (m.idempotency_key ∷ others) others

-- The abstract account.
pub record Account : Type 0 where
  pub total : ℤ
  pub applied : List String

abbrev pub account : ℕ → List Movement → Account
account id ledger = record { total = sum_from (pos 0) (deltas id ledger); applied = keys id ledger }

-- One movement: applied when its key is new.
abbrev pub post : ℤ → String → Account → Account
post delta key a =
    if contains String_discrete key a.applied
    then a
    else record { total = a.total +ℤ delta; applied = a.applied ++ key ∷ [] }

pub sum_from-append : (t : ℤ) (ds : List ℤ) (d : ℤ) → sum_from t (ds ++ d ∷ []) ≡ sum_from t ds +ℤ d
unfolding sum_from
sum_from-append t [] d = refl
sum_from-append t (x ∷ ds) d = sum_from-append (t +ℤ x) ds d

pub sum_int64-ok : (t : ℤ) (ds : List ℤ) (r : ℤ) → sum_int64 t ds ≡ ok r → r ≡ sum_from t ds
unfolding sum_from
sum_int64-ok t [] r h = cc
sum_int64-ok t (d ∷ ds) r h = ground (arith, sum_int64-ok (t +ℤ d) ds r)

pub deltas-append :
    (id : ℕ) (l : List Movement) (m : Movement)
    → deltas id (l ++ m ∷ [])
      ≡ ite (ℕ_discrete m.reseller_id id) (deltas id l ++ m.delta ∷ []) (deltas id l)
unfolding deltas
deltas-append id [] m = refl
deltas-append id (x ∷ l) m = ground (arith, deltas-append id l m)

keys-append :
    (id : ℕ) (l : List Movement) (m : Movement)
    → keys id (l ++ m ∷ [])
      ≡ ite (ℕ_discrete m.reseller_id id) (keys id l ++ m.idempotency_key ∷ []) (keys id l)
unfolding keys
keys-append id [] m = refl
keys-append id (x ∷ l) m = ground (arith, keys-append id l m)

contains-keys-some :
    (id : ℕ) (key : String) (l : List Movement) {m : Movement}
    → find_key id key l ≡ some m
    → contains String_discrete key (keys id l) ≡ true
unfolding find_key keys contains
contains-keys-some id key [] h = cc
contains-keys-some id key (x ∷ l) {m} h = ground (arith, contains-keys-some id key l {m = m})

contains-keys-none :
    (id : ℕ) (key : String) (l : List Movement)
    → find_key id key l ≡ none
    → contains String_discrete key (keys id l) ≡ false
unfolding find_key keys contains
contains-keys-none id key [] h = refl
contains-keys-none id key (x ∷ l) h = ground (arith, contains-keys-none id key l)

pub find_key-append_some :
    (id : ℕ) (key : String) (l : List Movement) (m : Movement) {x : Movement}
    → find_key id key l ≡ some x
    → find_key id key (l ++ m ∷ []) ≡ some x
unfolding find_key
find_key-append_some id key [] m h = cc
find_key-append_some id key (y ∷ l) m {x} h =
    ground (arith, find_key-append_some id key l m {x = x})

pub find_key-append_new :
    (l : List Movement) (m : Movement)
    → find_key m.reseller_id m.idempotency_key l ≡ none
    → find_key m.reseller_id m.idempotency_key (l ++ m ∷ []) ≡ some m
unfolding find_key
find_key-append_new [] m h = ground arith
find_key-append_new (y ∷ l) m h = ground (arith, find_key-append_new l m)

-- What a successful Credit did: it found the movement of the key, or appended a new one.
abbrev pub Repeated : {S : Type 0} → CreditInput → Tables S → ℕ → Tables S → Type 0
Repeated {S} input db id db' =
    (m : Movement) × (find_key input.reseller_id input.idempotency_key db.ledger ≡ some m)
    × (id ≡ m.id)
    × (◌≡◌ {A = Tables S} db' db)

abbrev pub Appended : {S : Type 0} → CreditInput → ℕ → Tables S → ℕ → Tables S → Type 0
Appended {S} input now db id db' =
    (find_key input.reseller_id input.idempotency_key db.ledger ≡ none)
    × (id ≡ (movement input now db.ledger).id)
    × (◌≡◌ {A = Tables S} db'
        (record db { ledger = db.ledger ++ movement input now db.ledger ∷ [] }))

append_movement-ok :
    {S : Type 0} (input : CreditInput) (now : ℕ) (db : Tables S) (id : ℕ) (db' : Tables S)
    → append_movement input now db ≡ ok (id, db')
    → (id ≡ (movement input now db.ledger).id)
      × (db' ≡ record db { ledger = db.ledger ++ movement input now db.ledger ∷ [] })
unfolding append_movement
append_movement-ok input now db id db' h =
    elim (Bool-cases (has_row db.resellers input.reseller_id)) [
      | inr e ↦ absurd (cc (rw e at h))
      | inl e ↦ elim (Bool-cases (refers_to (has_row db.quotas) input.subject_id)) [
        | inr f ↦ absurd (cc (rw (e, f) at h))
        | inl f ↦
            elim (Bool-cases
              (refers_to (λ id. contains ℕ_discrete id db.admins) input.actor_admin_id)) [
                | inr g ↦ absurd (cc (rw (e, f, g) at h))
                | inl g ↦ let done = rw (e, f, g) at h in (cc done, cc done)
              ]
      ]
    ]

find_or_append-ok :
    {S : Type 0} (input : CreditInput) (now : ℕ) (db : Tables S) (id : ℕ) (db' : Tables S)
    → find_or_append input now db ≡ ok (id, db')
    → Repeated input db id db' ⊎ Appended input now db id db'
find_or_append-ok input now db id db' h =
    elim (Option-cases (find_key input.reseller_id input.idempotency_key db.ledger)) [
      | inl e ↦
          let (same, tables) =
            append_movement-ok input now db id db' (rw (e, find_or_append) at h) in
          inr (e, same, tables)
      | inr (m, e) ↦ let done = rw (e, find_or_append) at h in inl (m, e, cc done, cc done)
    ]

credit-passed :
    {S : Type 0} (trim : String → String) (input : CreditInput) (now : ℕ) (db : Tables S) (id : ℕ)
    (db' : Tables S)
    → credit trim input now db ≡ ok (id, db')
    → (is_empty_text (trim input.idempotency_key) ≡ false)
      × (find_or_append input now db ≡ ok (id, db'))
unfolding credit
credit-passed trim input now db id db' h =
    let (_, named) = refuses-eq-ok _ _ _ h in
    let (key, reasoned) = refuses-eq-ok _ _ _ named in
    let (_, rest) = refuses-eq-ok _ _ _ reasoned in (key, rest)

pub credit-ok :
    {S : Type 0} (trim : String → String) (input : CreditInput) (now : ℕ) (db : Tables S) (id : ℕ)
    (db' : Tables S)
    → credit trim input now db ≡ ok (id, db')
    → Repeated input db id db' ⊎ Appended input now db id db'
credit-ok trim input now db id db' h =
    find_or_append-ok input now db id db' ((credit-passed trim input now db id db' h).1)

-- After a successful call, the ledger has the key with the returned id.
pub credit-found :
    {S : Type 0} (trim : String → String) (input : CreditInput) (now : ℕ) (db : Tables S) (id : ℕ)
    (db' : Tables S)
    → credit trim input now db ≡ ok (id, db')
    → (m : Movement) × (find_key input.reseller_id input.idempotency_key db'.ledger ≡ some m)
      × (id ≡ m.id)
credit-found trim input now db id db' h = elim (credit-ok trim input now db id db' h) [
  | inl (m, found, same, tables) ↦ (m, rw tables found, same)
  | inr (new, same, tables) ↦ (
    movement input now db.ledger,
    rw tables (find_key-append_new db.ledger (movement input now db.ledger) new),
    same,
  )
]

-- Credit implements the abstract account: for every reseller, after a successful call the account
-- of the call's reseller is its account with the delta posted under the key, and that of every
-- other reseller is unchanged. So a key counts once, however often it is sent.
pub credit-account :
    {S : Type 0} (trim : String → String) (input : CreditInput) (now : ℕ) (db : Tables S) (id : ℕ)
    (db' : Tables S) (r : ℕ)
    → credit trim input now db ≡ ok (id, db')
    → account r db'.ledger
      ≡ ite
          (ℕ_discrete input.reseller_id r)
          (post input.delta input.idempotency_key (account r db.ledger))
          (account r db.ledger)
credit-account trim input now db id db' r h = elim (credit-ok trim input now db id db' h) [
  | inl (m, found, _, same) ↦
      ground
        (arith, same, contains-keys-some input.reseller_id input.idempotency_key db.ledger found)
  | inr (new, _, same) ↦ rw same (
      ground (
        arith,
        contains-keys-none input.reseller_id input.idempotency_key db.ledger new,
        keys-append r db.ledger (movement input now db.ledger),
        deltas-append r db.ledger (movement input now db.ledger),
        sum_from-append (pos 0) (deltas r db.ledger) input.delta,
      ))
]

-- A repeated Credit applies nothing: after a successful call, a second one with the same reseller
-- and key succeeds if its delta is not zero and its reason is known, returns the first one's id,
-- and leaves all tables as they are.
pub credit_repeat :
    {S : Type 0} (trim : String → String) (input again : CreditInput) (now later : ℕ)
    (db : Tables S) (id : ℕ) (db' : Tables S)
    → again.reseller_id ≡ input.reseller_id
    → again.idempotency_key ≡ input.idempotency_key
    → is_zero again.delta ≡ false
    → contains String_discrete again.reason reasons ≡ true
    → credit trim input now db ≡ ok (id, db')
    → credit trim again later db' ≡ ok (id, db')
unfolding credit
credit_repeat trim input again now later db id db' same_reseller same_key nonzero known h =
    let key = (credit-passed trim input now db id db' h).0 in
    let (m, found, same) = credit-found trim input now db id db' h in
    rw (nonzero, known, same_reseller, same_key, key, find_or_append)
      (rw (found, find_or_append) (rw same refl))

-- ===== src/Panel/Quota/Judged.antt =====
-- findSubjectsOverQuota, which folds over all rows in one pass, against a bill for each subject.
use antimage.Common.{
  ℕ, ◌==◌, ◌≡◌, ◌≢◌, refl, sym, ◌∙◌, ap, arith, true, false, Option, none, some, List, [], ◌∷◌,
  ◌++◌, ℕ_discrete, if◌then◌else◌, All, Option-cases, Bool-cases, inl, inr, subst,
}
use antimage.Common.Int.{ℤ, pos, ◌+ℤ◌, ltb_ℤ, wrap_64}
use antimage.Common.Maps
use antimage.Common.Outcome.{Outcome, ok, ◌>>=◌, bind-eq-ok, ok-injective, Outcome-cases}
use antimage.Panel.Subjects.Tables.{Subject, Tables}
use antimage.Panel.Subjects.Swept.{IsKeyed}
use antimage.Panel.Usage.Tables.{Usage}
use antimage.Panel.Quota.Over.{
  QuotaError, Raw, Group, OverQuota, eligible_quota, raw_rows, sum_groups, group_rows, subject_rows,
  query_rows, price_group, flush, fresh_current, is_same, scan_rows, find_subjects_over_quota,
}
use mathlib.Core.List.{append_assoc, append-nil}

-- What the rows of one subject cost, from an amount on.
unfoldable pub bill : List Group → ℤ → Outcome QuotaError ℤ
bill [] amount = ok amount
bill (g ∷ rest) amount = price_group g >>= (λ a. bill rest (wrap_64 (amount +ℤ a)))

-- The subject, if the bill reaches the quota.
abbrev pub verdict : OverQuota → List OverQuota
verdict o = if ltb_ℤ o.billable o.quota then [] else o ∷ []

-- The rows of one subject; one without rows is not judged.
unfoldable pub judge : List Group → Outcome QuotaError (List OverQuota)
judge [] = ok []
judge (g ∷ rest) =
    bill (g ∷ rest) (pos 0)
    >>= (λ amount. ok (verdict (record (fresh_current g) { billable = amount })))

unfoldable pub judge_all : List (List Group) → Outcome QuotaError (List OverQuota)
judge_all [] = ok []
judge_all (rows ∷ rest) = judge rows >>= (λ o. judge_all rest >>= (λ more. ok (o ++ more)))

-- The rows of each subject by themselves.
unfoldable pub subject_blocks :
    List (ℕ × Subject) → Tables → Usage → ℕ → Outcome QuotaError (List (List Group))
subject_blocks [] db usage now = ok []
subject_blocks (e ∷ rest) db usage now =
    subject_rows e.0 e.1 db usage now
    >>= (λ rows. subject_blocks rest db usage now >>= (λ more. ok (rows ∷ more)))

abbrev concat : List (List Group) → List Group
concat [] = []
concat (rows ∷ rest) = rows ++ concat rest

query_rows-blocks :
    (rows : List (ℕ × Subject)) (db : Tables) (usage : Usage) (now : ℕ)
    → query_rows rows db usage now ≡ (subject_blocks rows db usage now >>= (λ bs. ok (concat bs)))
unfolding query_rows subject_blocks
query_rows-blocks [] db usage now = refl
query_rows-blocks (e ∷ rest) db usage now = ground (arith, query_rows-blocks rest db usage now)

-- The rows of a subject that is being scanned.
scan-block :
    (rows tail : List Group) (current : OverQuota) (out : List OverQuota)
    → All (λ r. r.subject_id ≡ current.subject_id) rows
    → scan_rows (rows ++ tail) (some current) out ≡ (
        bill rows current.billable
        >>= (λ amount. scan_rows tail (some (record current { billable = amount })) out))
unfolding scan_rows bill
scan-block [] tail current out all = refl
scan-block (g ∷ rows) tail current out all =
    let same : (current.subject_id == g.subject_id) ≡ true = ground (arith, all.0) in
    rw same (elim (Outcome-cases (price_group g)) [
      | inr (e, failed) ↦ rw failed refl
      | inl (a, priced) ↦ rw priced (
          scan-block rows tail (record current { billable = wrap_64 (current.billable +ℤ a) }) out
            all.1)
    ])

-- The first row of another subject starts a bill, and the one before is judged.
scan-next :
    (g : Group) (rows tail : List Group) (current : Option OverQuota) (out : List OverQuota)
    → is_same g current ≡ false
    → All (λ r. r.subject_id ≡ g.subject_id) rows
    → scan_rows (g ∷ rows ++ tail) current out ≡ (
        bill (g ∷ rows) (pos 0) >>= (λ amount.
          scan_rows tail
            (some (record (fresh_current g) { billable = amount }))
            (flush current out)))
unfolding scan_rows bill
scan-next g rows tail current out other all = rw other (elim (Outcome-cases (price_group g)) [
  | inr (e, failed) ↦ rw failed refl
  | inl (a, priced) ↦ rw priced (
      scan-block rows tail (record (fresh_current g) { billable = wrap_64 (pos 0 +ℤ a) })
        (flush current out) all)
])

abbrev id_of : Option OverQuota → Option ℕ
id_of none = none
id_of (some o) = some o.subject_id

-- The blocks are each of one subject, and none of the subject before it.
IsSplit : Option ℕ → List (List Group) → Type 0
IsSplit last [] = Unit
IsSplit last ([] ∷ bs) = IsSplit last bs
IsSplit last ((g ∷ rows) ∷ bs) =
    (last ≢ some g.subject_id)
    × All (λ r. r.subject_id ≡ g.subject_id) rows
    × IsSplit (some g.subject_id) bs

not_same :
    (g : Group) (current : Option OverQuota)
    → id_of current ≢ some g.subject_id
    → is_same g current ≡ false
not_same g none other = refl
not_same g (some o) other =
    ground (arith, λ (same : o.subject_id ≡ g.subject_id). other (ap some same))

flush-verdict :
    (o : OverQuota) (out more : List OverQuota)
    → flush (some o) out ++ more ≡ out ++ (verdict o ++ more)
flush-verdict o out more = elim (Bool-cases (ltb_ℤ o.billable o.quota)) [
  | inl e ↦ rw e refl
  | inr e ↦ rw e (append_assoc out (o ∷ []) more)
]

scan-blocks :
    (bs : List (List Group)) (current : Option OverQuota) (out : List OverQuota)
    → IsSplit (id_of current) bs
    → scan_rows (concat bs) current out ≡ (judge_all bs >>= (λ o. ok (flush current out ++ o)))
unfolding scan_rows judge_all judge IsSplit
scan-blocks [] current out split = ap ok (sym (append-nil (flush current out)))
scan-blocks ([] ∷ bs) current out split =
    scan-blocks bs current out split
    ∙ (elim (Outcome-cases (judge_all bs)) [ inl (o, e) ↦ rw e refl | inr (x, e) ↦ rw e refl ])
scan-blocks ((g ∷ rows) ∷ bs) current out split =
    scan-next g rows (concat bs) current out (not_same g current split.0) split.1
    ∙ (elim (Outcome-cases (bill (g ∷ rows) (pos 0))) [
      | inr (x, failed) ↦ rw failed refl
      | inl (amount, billed) ↦
          let over = record (fresh_current g) { billable = amount } in
          rw billed (
            scan-blocks bs (some over) (flush current out) split.2
            ∙ (elim (Outcome-cases (judge_all bs)) [
              | inl (o, e) ↦ rw e (ap ok (flush-verdict over (flush current out) o))
              | inr (x, e) ↦ rw e refl
            ]))
    ])

group_rows-of :
    (id : ℕ) (quota : ℤ) (s : Subject) (db : Tables) (raws : List Raw)
    → All (λ r. r.subject_id ≡ id) (group_rows id quota s db raws)
unfolding group_rows
group_rows-of id quota s db [] = tt
group_rows-of id quota s db (r ∷ raws) = (refl, group_rows-of id quota s db raws)

pub subject_rows-of :
    (id : ℕ) (s : Subject) (db : Tables) (usage : Usage) (now : ℕ) (rows : List Group)
    → subject_rows id s db usage now ≡ ok rows
    → All (λ r. r.subject_id ≡ id) rows
unfolding subject_rows
subject_rows-of id s db usage now rows h = elim (Option-cases (eligible_quota s)) [
  | inl e ↦
      subst (λ rs. All (λ r. r.subject_id ≡ id) rs) (ok-injective (rw (e, subject_rows) at h)) tt
  | inr (quota, e) ↦
      let (sums, s_is, done) =
        bind-eq-ok (sum_groups (raw_rows id s now usage) []) _ (rw (e, subject_rows) at h) in
      subst (λ rs. All (λ r. r.subject_id ≡ id) rs) (ok-injective done)
        (group_rows-of id quota s db sums)
]

some-injective : {a b : ℕ} → ◌≡◌ {A = Option ℕ} (some a) (some b) → a ≡ b
some-injective h = cc h

-- The subject before is not among those that follow.
abbrev IsPast : Option ℕ → List (ℕ × Subject) → Type 0
IsPast last rows = (id : ℕ) → last ≡ some id → Maps.get ℕ_discrete id rows ≡ none

IsPast-tail :
    (last : Option ℕ) (e : ℕ × Subject) (rest : List (ℕ × Subject))
    → IsPast last (e ∷ rest)
    → IsPast last rest
unfolding Maps.get
IsPast-tail last e rest past id h = ground (arith, past id h)

IsPast-head :
    (last : Option ℕ) (e : ℕ × Subject) (rest : List (ℕ × Subject))
    → IsPast last (e ∷ rest)
    → last ≢ some e.0
unfolding Maps.get
IsPast-head last e rest past h = ground (arith, past e.0 h)

IsSplit-cons :
    (last : Option ℕ) (e : ℕ × Subject) (rest : List (ℕ × Subject)) (rows : List Group)
    (bs : List (List Group))
    → All (λ r. r.subject_id ≡ e.0) rows
    → last ≢ some e.0
    → IsSplit last bs
    → IsSplit (some e.0) bs
    → IsSplit last (rows ∷ bs)
unfolding IsSplit
IsSplit-cons last e rest [] bs all other same next = same
IsSplit-cons last e rest (g ∷ rows) bs all other same next =
    ((λ h. other (h ∙ ap some all.0)), rw all.0 all.1, rw all.0 next)

blocks-IsSplit :
    (last : Option ℕ) (rows : List (ℕ × Subject)) (db : Tables) (usage : Usage) (now : ℕ)
    (bs : List (List Group))
    → IsKeyed rows
    → IsPast last rows
    → subject_blocks rows db usage now ≡ ok bs
    → IsSplit last bs
unfolding subject_blocks IsSplit
blocks-IsSplit last [] db usage now bs keys past h = subst (IsSplit last) (ok-injective h) tt
blocks-IsSplit last (e ∷ rest) db usage now bs keys past h =
    let (rows, first, h₁) = bind-eq-ok (subject_rows e.0 e.1 db usage now) _ h in
    let (more, others, h₂) = bind-eq-ok (subject_blocks rest db usage now) _ h₁ in
    subst (IsSplit last) (ok-injective h₂) (
      IsSplit-cons last e rest rows more (subject_rows-of e.0 e.1 db usage now rows first)
        (IsPast-head last e rest past)
        (blocks-IsSplit last rest db usage now more keys.1 (IsPast-tail last e rest past) others)
        (blocks-IsSplit (some e.0) rest db usage now more keys.1
          (λ id same. rw (sym (some-injective same)) keys.0) others))

-- The single pass of findSubjectsOverQuota over the rows of all subjects judges each subject by the
-- rows of its own period alone: its answer, and its error, are those of billing one subject after
-- the other, and keeping those whose bill reaches their quota. The rows of `subjects` have distinct
-- ids.
pub find_subjects_over_quota-judge :
    (db : Tables) (usage : Usage) (now : ℕ)
    → IsKeyed db.subjects
    → find_subjects_over_quota db usage now
      ≡ (subject_blocks db.subjects db usage now >>= judge_all)
unfolding find_subjects_over_quota
find_subjects_over_quota-judge db usage now keys =
    rw (query_rows-blocks db.subjects db usage now)
      (elim (Outcome-cases (subject_blocks db.subjects db usage now)) [
        | inr (x, e) ↦ rw e refl
        | inl (bs, e) ↦ rw e (
            scan-blocks bs none []
              (blocks-IsSplit none db.subjects db usage now bs keys (λ id h. cc h) e)
            ∙ elim (Outcome-cases (judge_all bs)) [
              | inl (o, f) ↦ rw f refl
              | inr (x, f) ↦ rw f refl
            ])
      ])

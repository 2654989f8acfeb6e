-- ===== src/NodeStatus/Diagram.antt =====
-- The transitions that ValidateTransition accepts, as a graph: which status can ever follow another.
use antimage.Common.{true, none, ◌≡◌, refl, ◌↔◌, ◌⊎◌, inl, inr, arith}
use mathlib.Core.Path.{subst}
use antimage.NodeStatus.{Status, pending, enrolling, online, unknown, is_valid, validate_transition}
use antimage.NodeStatus.Table.{is_enrolled, unknown_not_valid}

-- A history of accepted changes, from `s` on.
pub data Reach (s : Status) : Status → Type 0 where
  here : Reach s s
  next : {t u : Status} → Reach s t → validate_transition t u ≡ none → Reach s u

abbrev pub MayFollow : Status → Status → Type 0
MayFollow s t =
    (s ≡ t) ⊎ ((is_valid s ≡ true) × ((is_enrolled t ≡ true) ⊎ ((s ≡ pending) × (t ≡ enrolling))))

step-MayFollow : (s t : Status) → validate_transition s t ≡ none → MayFollow s t
unfolding validate_transition
step-MayFollow pending pending h = ground arith
step-MayFollow _ _ h = ground arith

MayFollow-trans : (s t u : Status) → MayFollow s t → MayFollow t u → MayFollow s u
MayFollow-trans s t u h k = ground arith

Reach-MayFollow : {s t : Status} → Reach s t → MayFollow s t
Reach-MayFollow here = inl refl
Reach-MayFollow {s} (next {t = t} {u = u} r h) =
    MayFollow-trans s t u (Reach-MayFollow r) (step-MayFollow t u h)

Reach-online : (s : Status) → is_valid s ≡ true → Reach s online
unfolding validate_transition
Reach-online pending h = next {t = enrolling} (next here refl) refl
Reach-online (unknown s) h = absurd (unknown_not_valid s h)
Reach-online _ h = next here refl

online-enrolled : (t : Status) → is_enrolled t ≡ true → validate_transition online t ≡ none
unfolding validate_transition
online-enrolled online h = refl
online-enrolled _ h = ground arith

Reach-of_MayFollow : (s t : Status) → MayFollow s t → Reach s t
unfolding validate_transition
Reach-of_MayFollow s t (inl e) = subst (Reach s) e here
Reach-of_MayFollow s t (inr (h, inl k)) = next (Reach-online s h) (online-enrolled t k)
Reach-of_MayFollow s t (inr (h, inr (p, q))) = rw (p, q) (next here refl)

-- For all statuses, some history of accepted transitions leads from one to another exactly when they
-- are the same, or the first is known and either the second is a status after enrolment or they are
-- `pending` and `enrolling`. So no node returns to its enrolment, and none is ever stuck.
pub Reach-iff : (s t : Status) → Reach s t ↔ MayFollow s t
Reach-iff s t = (Reach-MayFollow, Reach-of_MayFollow s t)

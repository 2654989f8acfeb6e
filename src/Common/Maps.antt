-- ===== src/Common/Maps.antt =====
-- Go's maps as association lists. `put` overwrites the entry in place, or adds one at the end;
-- `delete` drops the entry; `modify` changes it. The order of the entries is the order in which `range` visits them.
use mathlib.Core.Path.{◌≡◌, refl}
use mathlib.Core.Logic.{ite}
use mathlib.Core.Option
use mathlib.Core.Option.{Option, none, some}
use mathlib.Core.List.{List, [], ◌∷◌, ◌++◌}
use native.Mathlib.Omega.{arith}
use native.Mathlib.Decide.{ℕ_discrete}
use Prim.Native.Nat.{ℕ, ◌+◌, ◌≤◌}
use antimage.Common.Tests.{leb, if◌then◌else◌}

module _ {ℓ} {K V : Type ℓ} (dec : Discrete K) where
  unfoldable pub get : K → List (K × V) → Option V
  get k [] = none
  get k (e ∷ m) = ite (dec k e.0) (some e.1) (get k m)

  unfoldable pub put : K → V → List (K × V) → List (K × V)
  put k v [] = (k, v) ∷ []
  put k v (e ∷ m) = ite (dec k e.0) ((k, v) ∷ m) (e ∷ put k v m)

  unfoldable pub delete : K → List (K × V) → List (K × V)
  delete k [] = []
  delete k (e ∷ m) = let rest = delete k m in ite (dec k e.0) rest (e ∷ rest)

  pub get-put :
      (k j : K) (v : V) (m : List (K × V)) → get j (put k v m) ≡ ite (dec j k) (some v) (get j m)
  unfolding get put
  get-put k j v [] = refl
  get-put k j v (e ∷ m) = ground (arith, get-put k j v m)

  pub get-delete : (k j : K) (m : List (K × V)) → get j (delete k m) ≡ ite (dec j k) none (get j m)
  unfolding get delete
  get-delete k j [] = ground arith
  get-delete k j (e ∷ m) = ground (arith, get-delete k j m)

  pub get-append_some :
      (k : K) (m : List (K × V)) (e : K × V) {v : V}
      → get k m ≡ some v
      → get k (m ++ e ∷ []) ≡ some v
  unfolding get
  get-append_some k [] e h = cc
  get-append_some k (d ∷ m) e {v} h = ground (arith, get-append_some k m e {v = v})

  pub get-append_none :
      (k : K) (m : List (K × V)) (e : K × V)
      → get k m ≡ none
      → get k (m ++ e ∷ []) ≡ ite (dec k e.0) (some e.1) none
  unfolding get
  get-append_none k [] e h = refl
  get-append_none k (d ∷ m) e h = ground (arith, get-append_none k m e)

  unfoldable pub modify : K → (V → V) → List (K × V) → List (K × V)
  modify k change [] = []
  modify k change (e ∷ m) =
      let rest = modify k change m in ite (dec k e.0) ((e.0, change e.1) ∷ rest) (e ∷ rest)

  pub get-modify :
      (k j : K) (change : V → V) (m : List (K × V))
      → get j (modify k change m) ≡ ite (dec j k) (Option.map change (get j m)) (get j m)
  unfolding get modify
  get-modify k j change [] = ground arith
  get-modify k j change (e ∷ m) = ground (arith, get-modify k j change m)

-- The id of the next row of an INTEGER PRIMARY KEY.
unfoldable pub fresh_id : {V : Type 0} → List (ℕ × V) → ℕ
fresh_id [] = 1
fresh_id (e ∷ m) = let rest = fresh_id m in if leb rest e.0 then e.0 + 1 else rest

fresh_id-above :
    {V : Type 0} (n : ℕ) (m : List (ℕ × V)) → fresh_id m ≤ n → get ℕ_discrete n m ≡ none
unfolding fresh_id get
fresh_id-above n [] h = refl
fresh_id-above n (e ∷ m) h = ground (arith, fresh_id-above n m)

pub fresh_id-is_free : {V : Type 0} (m : List (ℕ × V)) → get ℕ_discrete (fresh_id m) m ≡ none
fresh_id-is_free m = fresh_id-above (fresh_id m) m (omega arith)

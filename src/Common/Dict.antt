-- ===== src/Common/Dict.antt =====
-- std::unordered_map. The order of its entries is not specified, and no theorem depends on it.
pub mod Keys
use mathlib.Core.Path.{◌≡◌, refl}
use mathlib.Core.Bool.{Bool, true, false}
use mathlib.Core.Option.{Option, none, some}
use mathlib.Core.List.{List, [], ◌∷◌, map}
use native.Mathlib.Omega.{arith}
use ncaf.Common.Tests.{if◌then◌else◌}
use ncaf.Common.Equal.{KeyEq, ◌==◌}

pub record Dict {ℓ κ} (K : Type ℓ) (V : Type κ) : Type (ℓ ⊔ κ) where
  pub entries : List (K × V)

module _ {ℓ κ} {K : Type ℓ} {V : Type κ} where
  abbrev pub empty : Dict K V
  empty = record { entries = [] }

  abbrev pub values : Dict K V → List V
  values d = map (λ e. e.1) d.entries

module _ {ℓ κ} {K : Type ℓ} {V : Type κ} ⦃e : KeyEq K⦄ where
  look : K → List (K × V) → Option V
  look k [] = none
  look k ((j, v) ∷ l) = if j == k then some v else look k l

  without : K → List (K × V) → List (K × V)
  without k [] = []
  without k ((j, v) ∷ l) = let rest = without k l in if j == k then rest else (j, v) ∷ rest

  -- find(k)
  unfoldable pub find : K → Dict K V → Option V
  unfolding look
  find k d = look k d.entries

  -- erase(k)
  unfoldable pub erase : K → Dict K V → Dict K V
  unfolding without
  erase k d = record { entries = without k d.entries }

  -- d[k] = v
  unfoldable pub put : K → V → Dict K V → Dict K V
  unfolding without
  put k v d = record { entries = (k, v) ∷ without k d.entries }

  look-without :
      (k j : K) (l : List (K × V)) → look j (without k l) ≡ (if k == j then none else look j l)
  unfolding look without
  look-without k j [] = ground arith
  look-without k j ((i, v) ∷ l) =
      ground (arith, look-without k j l, e.same_key_iff i k, e.same_key_iff i j, e.same_key_iff k j)

  pub find-erase :
      (k j : K) (d : Dict K V) → find j (erase k d) ≡ (if k == j then none else find j d)
  unfolding find erase
  find-erase k j d = look-without k j d.entries

  pub find-put :
      (k j : K) (v : V) (d : Dict K V) → find j (put k v d) ≡ (if k == j then some v else find j d)
  unfolding find put
  find-put k j v d = ground (arith, look-without k j d.entries)

abbrev pub is_some {ℓ} : {A : Type ℓ} → Option A → Bool
is_some none = false
is_some (some a) = true

-- contains(k)
abbrev pub contains {ℓ κ} : {K : Type ℓ} {V : Type κ} ⦃e : KeyEq K⦄ → K → Dict K V → Bool
contains k d = is_some (find k d)

pub find-empty {ℓ κ} :
    {K : Type ℓ} {V : Type κ} ⦃e : KeyEq K⦄ (k : K) → find k (empty {V = V}) ≡ none
unfolding find
find-empty k = refl

pub ruleset dict_laws = (find-empty, find-erase, find-put)

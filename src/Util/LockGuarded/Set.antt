-- ===== src/Util/LockGuarded/Set.antt =====
-- include/ncaf/internal/util.h, `LockGuardedSet`: a std::unordered_set is a dictionary without values.
use ncaf.Common.{
  ◌≡◌, ap, Bool, true, false, not, ◌&&◌, ◌||◌, List, [], ◌∷◌, if◌then◌else◌, KeyEq, ◌==◌, arith,
}
use ncaf.Common.Dict.{Dict, is_some, put, erase, contains, find-empty, find-put, find-erase}

module _ {ℓ} {T : Type ℓ} ⦃e : KeyEq T⦄ where
  unfoldable pub insert_value : T → Dict T (Unit {0}) → Dict T (Unit {0}) × Bool
  insert_value value s = if contains value s then (s, false) else (put value tt s, true)

  unfoldable pub erase_value : T → Dict T (Unit {0}) → Dict T (Unit {0})
  erase_value value s = erase value s

  unfoldable pub contains_value : T → Dict T (Unit {0}) → Bool
  contains_value value s = contains value s

  -- Insert adds the one value and tells whether it was missing.
  pub contains_value-insert_value :
      (value v : T) (s : Dict T (Unit {0}))
      → (contains_value v (insert_value value s).0 ≡ (value == v || contains_value v s))
        × ((insert_value value s).1 ≡ not (contains_value value s))
  unfolding insert_value contains_value
  contains_value-insert_value value v s =
      ground (arith, find-put value v tt s, e.same_key_iff value v)

  -- Erase removes the one value.
  pub contains_value-erase_value :
      (value v : T) (s : Dict T (Unit {0}))
      → contains_value v (erase_value value s) ≡ (not (value == v) && contains_value v s)
  unfolding erase_value contains_value
  contains_value-erase_value value v s = ground (arith, find-erase value v s)

unfoldable pub is_empty_set {ℓ} : {T : Type ℓ} → Dict T (Unit {0}) → Bool
is_empty_set s = elim s.entries [ [] ↦ true | e ∷ es ↦ false ]

entries_contain {ℓ} :
    {T : Type ℓ} ⦃e : KeyEq T⦄ (entries : List (T × Unit {0}))
    → is_empty_set (record { entries = entries }) ≡ true
    → (v : T) → contains v (record { entries = entries }) ≡ false
unfolding is_empty_set
entries_contain [] h v = ap is_some (find-empty {V = Unit {0}} v)
entries_contain (e ∷ es) h v = absurd (ground arith)

-- A set that is empty contains no value.
pub is_empty_set_lem {ℓ} :
    {T : Type ℓ} ⦃e : KeyEq T⦄ (s : Dict T (Unit {0}))
    → is_empty_set s ≡ true
    → (v : T) → contains_value v s ≡ false
unfolding contains_value
is_empty_set_lem s h v = entries_contain s.entries h v

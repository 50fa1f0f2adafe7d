-- ===== src/Util/LockGuarded.antt =====
-- include/ncaf/internal/util.h, `LockGuardedMap`: each operation holds the mutex from its first line to
-- its last, so it is one step. Erase and Contains are those of the dictionary that it guards.
pub mod Set
use ncaf.Common.{
  ◌≡◌, Bool, true, false, not, Option, none, some, Result, or_throw, key_not_found, if◌then◌else◌,
  KeyEq, ◌==◌, arith,
}
use ncaf.Common.Dict.{Dict, find, put, contains, empty, find-put}

abbrev pub or_new : {V : Type 0} → V → Option V → V
or_new v none = v
or_new v (some old) = old

module _ {ℓ} {K : Type ℓ} {V : Type 0} ⦃e : KeyEq K⦄ where
  -- try_emplace: an entry that is there stays.
  unfoldable pub insert : K → V → Dict K V → Dict K V × Bool
  insert k v d = if contains k d then (d, false) else (put k v d, true)

  unfoldable pub clear : Dict K V → Dict K V
  clear d = empty

  unfoldable pub at : K → Dict K V → Result V
  at k d = or_throw (find k d) key_not_found

  -- Insert keeps the first value: a key finds its old value if it had one, else the new one, and
  -- every other key finds what it found; the result tells which.
  pub find-insert :
      (k j : K) (v : V) (d : Dict K V)
      → (find j (insert k v d).0 ≡ (if k == j then some (or_new v (find k d)) else find j d))
        × ((insert k v d).1 ≡ not (contains k d))
  unfolding insert
  find-insert k j v d = ground (arith, find-put k j v d, e.same_key_iff k j)

  pub insert-absent :
      (k : K) (v : V) (d : Dict K V) → find k d ≡ none → (insert k v d).0 ≡ put k v d
  unfolding insert
  insert-absent k v d free = ground arith

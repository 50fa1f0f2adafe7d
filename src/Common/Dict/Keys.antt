-- ===== src/Common/Dict/Keys.antt =====
-- A map whose keys are numbers and differ: what its entries add up to.
use Prim.Native.Nat.{ℕ, ◌+◌, ◌<◌}
use native.Mathlib.Decide.{ℕ_discrete}
use mathlib.Core.Path.{◌≡◌, refl, subst}
use mathlib.Core.Bool.{false}
use mathlib.Core.Logic.{inl, inr}
use mathlib.Core.Option.{Option, none, some}
use mathlib.Core.List.{List, [], ◌∷◌}
use native.Mathlib.Omega.{arith}
use ncaf.Common.Tests.{nat_beq, nat_beq_iff, Bool-cases}
use ncaf.Common.Equal.{nat_eq}
use ncaf.Common.Dict.{Dict, find, put, erase, look, without}

module _ {V : Type 0} where
  abbrev HasNoKey : ℕ → List (ℕ × V) → Type 0
  HasNoKey k [] = Unit {0}
  HasNoKey k ((j, v) ∷ l) = (nat_beq j k ≡ false) × HasNoKey k l

  abbrev pub HasUniqueKeys : List (ℕ × V) → Type 0
  HasUniqueKeys [] = Unit {0}
  HasUniqueKeys ((k, v) ∷ l) = HasNoKey k l × HasUniqueKeys l

  -- The sum of `f` over the values.
  abbrev pub sum_in : (V → ℕ) → List (ℕ × V) → ℕ
  sum_in f [] = 0
  sum_in f ((k, v) ∷ l) = f v + sum_in f l

  abbrev pub value_of : (V → ℕ) → Option V → ℕ
  value_of f none = 0
  value_of f (some v) = f v

  HasNoKey-look : (k : ℕ) (l : List (ℕ × V)) → look k l ≡ none → HasNoKey k l
  unfolding look
  HasNoKey-look k [] h = tt
  HasNoKey-look k ((j, v) ∷ l) h = elim (Bool-cases (nat_beq j k)) [
    | inl same ↦ absurd (ground arith)
    | inr other ↦ (other, HasNoKey-look k l (ground arith))
  ]

  without-absent : (k : ℕ) (l : List (ℕ × V)) → HasNoKey k l → without k l ≡ l
  unfolding without
  without-absent k [] h = refl
  without-absent k ((j, v) ∷ l) h = ground (arith, without-absent k l h.1)

  look-absent : (k : ℕ) (l : List (ℕ × V)) → HasNoKey k l → look k l ≡ none
  unfolding look
  look-absent k [] h = refl
  look-absent k ((j, v) ∷ l) h = ground (arith, look-absent k l h.1)

  HasNoKey-without : (j k : ℕ) (l : List (ℕ × V)) → HasNoKey j l → HasNoKey j (without k l)
  unfolding without
  HasNoKey-without j k [] h = tt
  HasNoKey-without j k ((i, v) ∷ l) h = elim (Bool-cases (nat_beq i k)) [
    | inl same ↦ rw same (HasNoKey-without j k l h.1)
    | inr other ↦ rw other (h.0, HasNoKey-without j k l h.1)
  ]

  HasUniqueKeys-without : (k : ℕ) (l : List (ℕ × V)) → HasUniqueKeys l → HasUniqueKeys (without k l)
  unfolding without
  HasUniqueKeys-without k [] h = tt
  HasUniqueKeys-without k ((i, v) ∷ l) h = elim (Bool-cases (nat_beq i k)) [
    | inl same ↦ rw same (HasUniqueKeys-without k l h.1)
    | inr other ↦ rw other (HasNoKey-without i k l h.0, HasUniqueKeys-without k l h.1)
  ]

  sum_in-without :
      (f : V → ℕ) (k : ℕ) (l : List (ℕ × V))
      → HasUniqueKeys l
      → sum_in f (without k l) + value_of f (look k l) ≡ sum_in f l
  unfolding without look
  sum_in-without f k [] h = refl
  sum_in-without f k ((i, v) ∷ l) h = elim (Bool-cases (nat_beq i k)) [
    | inl same ↦
        rw (same, without-absent k l (subst (λ j. HasNoKey j l) ((nat_beq_iff i k).0 same) h.0))
          (omega arith)
    | inr other ↦ rw other (omega (arith, sum_in-without f k l h.1))
  ]

  pub sum_in-put :
      (f : V → ℕ) (k : ℕ) (v : V) (d : Dict ℕ V)
      → find k d ≡ none
      → sum_in f (put k v d).entries ≡ sum_in f d.entries + f v
  unfolding put find
  sum_in-put f k v d absent =
      rw (without-absent k d.entries (HasNoKey-look k d.entries absent)) (omega arith)

  pub HasUniqueKeys-put :
      (k : ℕ) (v : V) (d : Dict ℕ V)
      → find k d ≡ none
      → HasUniqueKeys d.entries
      → HasUniqueKeys (put k v d).entries
  unfolding put find
  HasUniqueKeys-put k v d absent h =
      let gone = HasNoKey-look k d.entries absent in rw (without-absent k d.entries gone) (gone, h)

  pub sum_in-erase :
      (f : V → ℕ) (k : ℕ) (d : Dict ℕ V)
      → HasUniqueKeys d.entries
      → sum_in f (erase k d).entries + value_of f (find k d) ≡ sum_in f d.entries
  unfolding erase find
  sum_in-erase f k d h = sum_in-without f k d.entries h

  pub HasUniqueKeys-erase :
      (k : ℕ) (d : Dict ℕ V) → HasUniqueKeys d.entries → HasUniqueKeys (erase k d).entries
  unfolding erase
  HasUniqueKeys-erase k d h = HasUniqueKeys-without k d.entries h

  abbrev pub AllIn : (V → Type 0) → List (ℕ × V) → Type 0
  AllIn P [] = Unit {0}
  AllIn P ((k, v) ∷ l) = P v × AllIn P l

  AllIn-without : (P : V → Type 0) (k : ℕ) (l : List (ℕ × V)) → AllIn P l → AllIn P (without k l)
  unfolding without
  AllIn-without P k [] h = tt
  AllIn-without P k ((i, v) ∷ l) h = elim (Bool-cases (nat_beq i k)) [
    | inl same ↦ rw same (AllIn-without P k l h.1)
    | inr other ↦ rw other (h.0, AllIn-without P k l h.1)
  ]

  AllIn-look :
      (P : V → Type 0) (k : ℕ) (l : List (ℕ × V)) {v : V} → AllIn P l → look k l ≡ some v → P v
  unfolding look
  AllIn-look P k [] h e = absurd (ground arith)
  AllIn-look P k ((i, w) ∷ l) {v} h e = elim (Bool-cases (nat_beq i k)) [
    | inl same ↦ let this : w ≡ v = ground arith in subst P this h.0
    | inr other ↦ AllIn-look P k l h.1 (ground arith)
  ]

  pub AllIn-put :
      (P : V → Type 0) (k : ℕ) (v : V) (d : Dict ℕ V)
      → P v
      → AllIn P d.entries
      → AllIn P (put k v d).entries
  unfolding put
  AllIn-put P k v d p h = (p, AllIn-without P k d.entries h)

  pub AllIn-erase :
      (P : V → Type 0) (k : ℕ) (d : Dict ℕ V) → AllIn P d.entries → AllIn P (erase k d).entries
  unfolding erase
  AllIn-erase P k d h = AllIn-without P k d.entries h

  pub AllIn-find :
      (P : V → Type 0) (k : ℕ) (d : Dict ℕ V) {v : V} → AllIn P d.entries → find k d ≡ some v → P v
  unfolding find
  AllIn-find P k d h e = AllIn-look P k d.entries h e

  look_positive :
      (f : V → ℕ) (l : List (ℕ × V))
      → HasUniqueKeys l
      → 0 < sum_in f l
      → (k : ℕ) × (v : V) × (look k l ≡ some v) × (0 < f v)
  unfolding look
  look_positive f [] h pos = absurd (omega arith)
  look_positive f ((k, v) ∷ l) h pos = elim (ℕ_discrete 0 (f v)) [
    | no some_here ↦ (k, v, ground arith, omega (arith, some_here))
    | yes nothing ↦
        let (j, w, there, more) = look_positive f l h.1 (omega (arith, nothing)) in
        (j, w, ground (arith, nat_beq_iff k j, look-absent k l h.0), more)
  ]

  -- What adds up to more than 0 has an entry that does.
  pub find_positive :
      (f : V → ℕ) (d : Dict ℕ V)
      → HasUniqueKeys d.entries
      → 0 < sum_in f d.entries
      → (k : ℕ) × (v : V) × (find k d ≡ some v) × (0 < f v)
  unfolding find
  find_positive f d h pos = look_positive f d.entries h pos

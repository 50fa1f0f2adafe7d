-- ===== src/Ref/Union.antt =====
-- include/ncaf/internal/actor_ref_serialization/actor_ref_serialization_reader.h, `ActorRefReader`: which
-- member of a union is read. A union is known by which of its schema's fields Cap'n Proto has set.
use ncaf.Common.{
  ℕ, zero, suc, ◌+◌, ◌≡◌, refl, List, [], ◌∷◌, ◌++◌, Bool, true, false, Option, none, some, Result,
  err, or_throw, ◌>>=◌, decode_error, arith,
}

-- identify_discriminant, its loop from index `ix` on.
unfoldable pub identify_from : ℕ → List Bool → Option ℕ
identify_from ix [] = none
identify_from ix (has ∷ fields) = elim has [
  | true ↦ some ix
  | false ↦ identify_from (suc ix) fields
]

unfoldable pub identify_discriminant : List Bool → Option ℕ
unfolding identify_from
identify_discriminant fields = identify_from 0 fields

-- `read` reads the member at an index.
unfoldable pub read_union : {A : Type 0} → (ℕ → Result A) → List Bool → Result A
unfolding identify_discriminant
read_union read fields = do disc ← or_throw (identify_discriminant fields) decode_error; read disc

abbrev pub unset : ℕ → List Bool
unset zero = []
unset (suc n) = false ∷ unset n

identify_from_set :
    (ix n : ℕ) (behind : List Bool) → identify_from ix (unset n ++ (true ∷ behind)) ≡ some (ix + n)
unfolding identify_from
identify_from_set ix zero behind = ground arith
identify_from_set ix (suc n) behind = ground (arith, identify_from_set (suc ix) n behind)

identify_from-unset : (ix n : ℕ) → identify_from ix (unset n) ≡ none
unfolding identify_from
identify_from-unset ix zero = refl
identify_from-unset ix (suc n) = identify_from-unset (suc ix) n

-- The member that is read is that of the first field that is set; with none the read fails.
pub read_union_lem :
    {A : Type 0} (read : ℕ → Result A) (n : ℕ) (behind : List Bool)
    → (read_union read (unset n ++ (true ∷ behind)) ≡ read n)
      × (read_union read (unset n) ≡ err decode_error)
unfolding read_union identify_discriminant
read_union_lem read n behind =
    (ground (arith, identify_from_set 0 n behind), ground (arith, identify_from-unset 0 n))

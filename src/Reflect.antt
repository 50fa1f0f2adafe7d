-- ===== src/Reflect.antt =====
-- include/ncaf/internal/reflect.h: the searches that the compiler runs. A type, and a pointer to a
-- method with its type, are known by a number.
pub mod Index
use ncaf.Common.{
  ℕ, zero, suc, ◌+◌, List, [], ◌∷◌, Bool, true, false, nat_beq, ltb, length, get_elem?, Option,
  none, some, if◌then◌else◌,
}

-- GetIndexInParamPack, its loop from index `i` on.
unfoldable pub index_from : ℕ → ℕ → List ℕ → Option ℕ
index_from i t [] = none
index_from i t (x ∷ xs) = elim (nat_beq t x) [ true ↦ some i | false ↦ index_from (suc i) t xs ]

unfoldable pub get_index_in_param_pack : ℕ → List ℕ → Option ℕ
unfolding index_from
get_index_in_param_pack t pack = index_from 0 t pack

-- IsSameMemberFn, for the method at an index of the tuple, if there is one.
abbrev pub is_same_member_fn : Option ℕ → ℕ → Bool
is_same_member_fn none func = false
is_same_member_fn (some m) func = nat_beq m func

-- GetActorMethodIndex<kFunc, kIndex>, with a bound on its instances.
unfoldable pub method_index_from : ℕ → List ℕ → ℕ → ℕ → Option ℕ
method_index_from zero methods func index = none
method_index_from (suc fuel) methods func index = elim (nat_beq (length methods) 0) [
  | true ↦ none
  | false ↦ elim (is_same_member_fn (get_elem? methods index) func) [
    | true ↦ some index
    | false ↦ elim (ltb (index + 1) (length methods)) [
      | true ↦ method_index_from fuel methods func (index + 1)
      | false ↦ none
    ]
  ]
]

unfoldable pub get_actor_method_index : List ℕ → ℕ → Option ℕ
unfolding method_index_from
get_actor_method_index methods func = method_index_from (suc (length methods)) methods func 0

-- HasActorMethods
unfoldable pub has_actor_methods : List ℕ → Bool
has_actor_methods methods = ltb 0 (length methods)

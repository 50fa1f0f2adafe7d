-- ===== src/Reflect/Index.antt =====
-- reflect.h: its two searches, compared.
use ncaf.Common.{
  ℕ, zero, suc, ◌+◌, ◌≤◌, ◌≡◌, refl, ap, ◌∙◌, sym, List, [], ◌∷◌, ◌++◌, append_assoc, nat_beq_iff,
  length, length-append, get_elem?, some, arith,
}
use ncaf.Reflect.{index_from, get_index_in_param_pack, method_index_from, get_actor_method_index}

elem-append :
    (before : List ℕ) (x : ℕ) (after : List ℕ)
    → get_elem? (before ++ (x ∷ after)) (length before) ≡ some x
elem-append [] x after = refl
elem-append (b ∷ before) x after = elem-append before x after

-- The methods before the index were tried.
from_here :
    (fuel : ℕ) (before : List ℕ) (x : ℕ) (after : List ℕ) (func : ℕ)
    → length after + 1 ≤ fuel
    → method_index_from fuel (before ++ (x ∷ after)) func (length before)
      ≡ index_from (length before) func (x ∷ after)
unfolding method_index_from index_from
from_here zero before x after func h = absurd (omega arith)
from_here (suc fuel) before x [] func h = ground (
  arith,
  elem-append before x [],
  length-append before (x ∷ []),
  nat_beq_iff x func,
  nat_beq_iff func x,
)
from_here (suc fuel) before x (y ∷ after) func h =
    let moved : length (before ++ (x ∷ [])) ≡ length before + 1 =
      omega (arith, length-append before (x ∷ [])) in
    let next : method_index_from fuel (before ++ (x ∷ (y ∷ after))) func (length before + 1)
        ≡ index_from (suc (length before)) func (y ∷ after) =
      ap (λ ms. method_index_from fuel ms func (length before + 1))
        (sym (append_assoc before (x ∷ []) (y ∷ after)))
      ∙ ap (method_index_from fuel ((before ++ (x ∷ [])) ++ (y ∷ after)) func) (sym moved)
      ∙ from_here fuel (before ++ (x ∷ [])) y after func (omega arith)
      ∙ ap (λ k. index_from k func (y ∷ after)) (omega (arith, moved)) in
    ground (
      arith,
      elem-append before x (y ∷ after),
      length-append before (x ∷ (y ∷ after)),
      nat_beq_iff x func,
      nat_beq_iff func x,
    )

-- GetActorMethodIndex, by recursion on the index, finds the index that GetIndexInParamPack, by a loop,
-- finds in the same list: that of the first entry that is the one asked for, or none.
pub method_index_lem :
    (methods : List ℕ) (func : ℕ)
    → get_actor_method_index methods func ≡ get_index_in_param_pack func methods
unfolding get_actor_method_index get_index_in_param_pack method_index_from
method_index_lem [] func = refl
method_index_lem (x ∷ methods) func =
    from_here (suc (length (x ∷ methods))) [] x methods func (omega arith)

-- ===== src/Network/Cluster/Found.antt =====
-- Where a request is found, and where it cannot be.
use ncaf.Common.{
  ℕ, ◌<◌, ◌≡◌, ◌⊎◌, refl, sym, ap, ◌∙◌, subst, List, [], ◌∷◌, ◌++◌, Bool-cases, inl, inr, nat_eq,
  arith,
}
use native.Mathlib.Decide.{ℕ_discrete}
use ncaf.Common.Totals.{sum_of}
use ncaf.Common.Dict.{Dict}
use ncaf.Common.Dict.Keys.{HasUniqueKeys, AllIn, sum_in, AllIn-find, find_positive}
use ncaf.Network.{normal, Identifier, Operation}
use ncaf.Network.Cluster.Count.{is_for, one_for, op_for, message_for, is_for-true}
use ncaf.Network.Cluster.Places.{All}
use ncaf.Network.Cluster.Conserved.{AllBound}

pub none_for :
    (x : Identifier) (n : x.flag ≡ normal) (P : Identifier → Type 0) (ops : List Operation)
    → (P x → ⊥)
    → All (λ op. P op.identifier) ops
    → sum_of (op_for x) ops ≡ 0
none_for x n P [] no_x h = refl
none_for x n P (op ∷ ops) no_x h = elim (Bool-cases (is_for x op.identifier)) [
  | inl this ↦ absurd (no_x (subst P (is_for-true x op.identifier n this) h.0))
  | inr other ↦ rw other (omega (arith, none_for x n P ops no_x h.1))
]

pub for_some : (x y : Identifier) → x.flag ≡ normal → 0 < one_for x y → y ≡ x
for_some x y n pos = elim (Bool-cases (is_for x y)) [
  | inl this ↦ is_for-true x y n this
  | inr other ↦ absurd (ground arith)
]

pub none_waits :
    (x : Identifier) (n : x.flag ≡ normal) (P : Identifier → Type 0) (d : Dict ℕ Identifier)
    → (P x → ⊥)
    → HasUniqueKeys d.entries
    → AllIn P d.entries
    → sum_in (one_for x) d.entries ≡ 0
none_waits x n P d no_x unique h = elim (ℕ_discrete 0 (sum_in (one_for x) d.entries)) [
  | yes e ↦ sym e
  | no ne ↦
      let (k, y, there, pos) = find_positive (one_for x) d unique (omega (arith, ne)) in
      absurd (no_x (subst P (for_some x y n pos) (AllIn-find P k d h there)))
]

-- A message for `x` that is on the way goes to one of its two nodes.
pub on_the_wire :
    (x : Identifier) (n : x.flag ≡ normal) (ms : List (ℕ × Operation))
    → AllBound ms
    → 0 < sum_of (message_for x) ms
    → (before after : List (ℕ × Operation)) × (to : ℕ) × (op : Operation) × (ms
        ≡ before ++ ((to, op) ∷ after))
      × (op.identifier ≡ x)
      × ((to ≡ x.response_node_id) ⊎ (to ≡ x.request_node_id))
on_the_wire x n [] h pos = absurd (omega arith)
on_the_wire x n ((to, op) ∷ ms) h pos = elim (Bool-cases (is_for x op.identifier)) [
  | inl this ↦
      let is = is_for-true x op.identifier n this in
      (
        [],
        ms,
        to,
        op,
        refl,
        is,
        elim h.0.1 [
          | inl e ↦ inl (e ∙ ap (λ y. y.response_node_id) is)
          | inr e ↦ inr (e ∙ ap (λ y. y.request_node_id) is)
        ],
      )
  | inr other ↦
      let (before, after, to', op', split, is, goes_to) =
        on_the_wire x n ms h.1 (ground (arith, pos, other)) in
      ((to, op) ∷ before, after, to', op', ap (◌∷◌ (to, op)) split, is, goes_to)
]

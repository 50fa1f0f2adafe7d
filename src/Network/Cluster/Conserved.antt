-- ===== src/Network/Cluster/Conserved.antt =====
-- What holds of a cluster in every reachable state.
use ncaf.Common.{
  ℕ, ◌+◌, ◌≤◌, ◌<◌, ◌≡◌, ◌≢◌, ◌⊎◌, inl, inr, sym, ap, subst, List, [], ◌∷◌, true, false, Bool-cases,
  nat_beq, nat_beq_iff, some, nat_eq, arith,
}
use native.Mathlib.Decide.{ℕ_discrete}
use ncaf.Common.Totals.{sum_of}
use ncaf.Common.Dict.{find}
use ncaf.Network.{normal, Identifier, Operation, Broker}
use ncaf.Network.Cluster.{Cluster, with_node}
use ncaf.Network.Cluster.Count.{one_for, message_for, open_in, answers_in, opens, answers, starts}
use ncaf.Network.Cluster.Places.{NodeInv}

-- A message goes to the node that is asked, or back to the one that asked.
abbrev pub IsBound : ℕ × Operation → Type 0
IsBound (to, op) =
    (op.identifier.request_node_id ≢ op.identifier.response_node_id)
    × ((to ≡ op.identifier.response_node_id) ⊎ (to ≡ op.identifier.request_node_id))

abbrev pub AllBound : List (ℕ × Operation) → Type 0
AllBound [] = Unit {0}
AllBound (m ∷ ms) = IsBound m × AllBound ms

abbrev pub AllHandedOut : (ℕ → Broker) → List Identifier → Type 0
AllHandedOut node [] = Unit {0}
AllHandedOut node (y ∷ ys) =
    (y.request_id_in_node < (node y.request_node_id).send_request_id_counter) × AllHandedOut node ys

-- The operation of `x` is in the map of the node that asked.
abbrev pub IsRegistered : Identifier → Broker → Type 0
IsRegistered x b =
    (op : Operation) × (find x.request_id_in_node b.send_request_id_to_operation ≡ some op)
    × (op.identifier ≡ x)

pub record Inv (s : Cluster) : Type 0 where
  pub nodes : (i : ℕ) → NodeInv i (s.node i)
  pub bound : AllBound s.wire
  pub handed_out : AllHandedOut s.node s.started
  pub once : (x : Identifier) → x.flag ≡ normal → starts x s ≤ 1
  pub conserved :
      (x : Identifier)
      → x.flag ≡ normal
      → x.request_node_id ≢ x.response_node_id
      → starts x s ≡ opens x s + answers x s
  pub registered :
      (x : Identifier)
      → x.flag ≡ normal
      → x.request_node_id ≢ x.response_node_id
      → 0 < opens x s
      → IsRegistered x (s.node x.request_node_id)

-- A step of node `i`, which becomes `b`: what is asked of it for the request `x`.
pub record Balance (s : Cluster) (i : ℕ) (b : Broker) (wire : List (ℕ × Operation))
    (started : List Identifier) (x : Identifier) : Type 0 where
  pub total :
      open_in x b + sum_of (message_for x) wire + answers_in x b + starts x s
      ≡ open_in x (s.node i)
        + sum_of (message_for x) s.wire
        + answers_in x (s.node i)
        + sum_of (one_for x) started
  pub elsewhere :
      i ≢ x.request_node_id
      → i ≢ x.response_node_id
      → sum_of (message_for x) wire ≡ sum_of (message_for x) s.wire
  pub asked_here :
      i ≢ x.request_node_id
      → (answers_in x b ≡ answers_in x (s.node i)) × (sum_of (one_for x) started ≡ starts x s)
  pub registered_still :
      i ≡ x.request_node_id
      → 0 < open_in x b + open_in x (s.node x.response_node_id) + sum_of (message_for x) wire
      → (0 < opens x s → IsRegistered x (s.node i))
      → IsRegistered x b

nodes_with :
    (s : Cluster) (i : ℕ) (b : Broker)
    → ((j : ℕ) → NodeInv j (s.node j))
    → NodeInv i b
    → (j : ℕ) → NodeInv j (with_node s.node i b j)
nodes_with s i b all v j = elim (Bool-cases (nat_beq i j)) [
  | inl same ↦ rw same (subst (λ k. NodeInv k b) ((nat_beq_iff i j).0 same) v)
  | inr other ↦ rw other (all j)
]

module _ (s : Cluster) (i : ℕ) (b : Broker) (wire : List (ℕ × Operation))
    (started : List Identifier) (x : Identifier) where
  abbrev pub next : Cluster
  next = record { node = with_node s.node i b; wire = wire; started = started }

  at_request :
      i ≡ x.request_node_id
      → x.request_node_id ≢ x.response_node_id
      → (nat_beq i x.request_node_id ≡ true) × (nat_beq i x.response_node_id ≡ false)
  at_request e apart = ground arith

  at_response :
      i ≢ x.request_node_id
      → i ≡ x.response_node_id
      → (nat_beq i x.request_node_id ≡ false) × (nat_beq i x.response_node_id ≡ true)
  at_response n e = ground arith

  at_neither :
      i ≢ x.request_node_id
      → i ≢ x.response_node_id
      → (nat_beq i x.request_node_id ≡ false) × (nat_beq i x.response_node_id ≡ false)
  at_neither n m = ground arith

  module _ (balance : Balance s i b wire started x)
      (apart : x.request_node_id ≢ x.response_node_id) where
    -- The places after the step, against those before.
    next_counts :
        opens x next + answers x next + starts x s ≡ opens x s + answers x s + starts x next
    next_counts = elim (ℕ_discrete i x.request_node_id) [
      | yes e ↦
          let (r, a) = at_request e apart in
          rw (r, a)
            (omega (
              arith,
              balance.total,
              ap (λ k. open_in x (s.node k)) e,
              ap (λ k. answers_in x (s.node k)) e,
            ))
      | no n ↦ elim (ℕ_discrete i x.response_node_id) [
        | yes e ↦
            let (r, a) = at_response n e in
            rw (r, a)
              (omega (arith, balance.total, balance.asked_here n, ap (λ k. open_in x (s.node k)) e))
        | no m ↦
            let (r, a) = at_neither n m in
            rw (r, a) (omega (arith, balance.elsewhere n m, balance.asked_here n))
      ]
    ]

    next-IsRegistered :
        (0 < opens x s → IsRegistered x (s.node x.request_node_id))
        → 0 < opens x next
        → IsRegistered x (next.node x.request_node_id)
    next-IsRegistered before still_open = elim (ℕ_discrete i x.request_node_id) [
      | yes e ↦
          let (r, a) = at_request e apart in
          rw r (
            balance.registered_still e (let positive = rw (r, a) at still_open in positive)
              (λ pos. subst (λ k. IsRegistered x (s.node k)) (sym e) (before pos)))
      | no n ↦ elim (ℕ_discrete i x.response_node_id) [
        | yes e ↦
            let (r, a) = at_response n e in
            let positive = rw (r, a) at still_open in
            rw r (
              before (
                omega (
                  arith,
                  positive,
                  balance.total,
                  balance.asked_here n,
                  ap (λ k. open_in x (s.node k)) e,
                )))
        | no m ↦
            let (r, a) = at_neither n m in
            let positive = rw (r, a) at still_open in
            rw r (before (omega (arith, positive, balance.elsewhere n m)))
      ]
    ]

module _ (s : Cluster) (i : ℕ) (b : Broker) (wire : List (ℕ × Operation))
    (started : List Identifier) where
  pub next-Inv :
      Inv s
      → NodeInv i b
      → AllBound wire
      → AllHandedOut (with_node s.node i b) started
      → ((x : Identifier) → x.flag ≡ normal → sum_of (one_for x) started ≤ 1)
      → ((x : Identifier)
          → x.flag ≡ normal
          → x.request_node_id ≢ x.response_node_id
          → Balance s i b wire started x)
      → Inv (record { node = with_node s.node i b; wire = wire; started = started })
  next-Inv v node bound handed_out once balance = record {
    nodes = nodes_with s i b v.nodes node;
    bound = bound;
    handed_out = handed_out;
    once = once;
    conserved = λ x n apart.
        omega (
          arith,
          next_counts s i b wire started x (balance x n apart) apart,
          v.conserved x n apart,
        );
    registered = λ x n apart.
        next-IsRegistered s i b wire started x (balance x n apart) apart (v.registered x n apart);
  }

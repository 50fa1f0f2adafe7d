-- ===== src/Network/Cluster/Queued.antt =====
-- The messages on the way and the requests that were started, as the steps change them.
use ncaf.Common.{
  ℕ, ◌≤◌, ◌<◌, ◌≡◌, inl, inr, refl, subst, List, [], ◌∷◌, ◌++◌, Bool-cases, nat_eq, arith,
}
use ncaf.Common.Totals.{sum_of}
use ncaf.Network.{normal, Identifier, Operation, Broker}
use ncaf.Network.Cluster.Count.{is_for, one_for, is_for-true}
use ncaf.Network.Cluster.Conserved.{IsBound, AllBound, AllHandedOut}

pub AllBound-append :
    (ms : List (ℕ × Operation)) (m : ℕ × Operation)
    → AllBound ms
    → IsBound m
    → AllBound (ms ++ (m ∷ []))
AllBound-append [] m h b = (b, tt)
AllBound-append (n ∷ ms) m h b = (h.0, AllBound-append ms m h.1 b)

pub AllBound-take :
    (before : List (ℕ × Operation)) (m : ℕ × Operation) (after : List (ℕ × Operation))
    → AllBound (before ++ (m ∷ after))
    → IsBound m × AllBound (before ++ after)
AllBound-take [] m after h = h
AllBound-take (n ∷ before) m after h =
    let (b, rest) = AllBound-take before m after h.1 in (b, (h.0, rest))

pub AllHandedOut-mono :
    (node node' : ℕ → Broker) (ys : List Identifier)
    → ((j : ℕ) → (node j).send_request_id_counter ≤ (node' j).send_request_id_counter)
    → AllHandedOut node ys
    → AllHandedOut node' ys
AllHandedOut-mono node node' [] le h = tt
AllHandedOut-mono node node' (y ∷ ys) le h =
    (omega (arith, h.0, le y.request_node_id), AllHandedOut-mono node node' ys le h.1)

pub AllHandedOut-append :
    (node : ℕ → Broker) (ys : List Identifier) (y : Identifier)
    → AllHandedOut node ys
    → y.request_id_in_node < (node y.request_node_id).send_request_id_counter
    → AllHandedOut node (ys ++ (y ∷ []))
AllHandedOut-append node [] y h lt = (lt, tt)
AllHandedOut-append node (z ∷ ys) y h lt = (h.0, AllHandedOut-append node ys y h.1 lt)

-- A request whose id was not handed out was not started.
pub not_started :
    (node : ℕ → Broker) (x : Identifier) (ys : List Identifier)
    → x.flag ≡ normal
    → AllHandedOut node ys
    → (node x.request_node_id).send_request_id_counter ≤ x.request_id_in_node
    → sum_of (one_for x) ys ≡ 0
not_started node x [] n h le = refl
not_started node x (y ∷ ys) n h le = elim (Bool-cases (is_for x y)) [
  | inl same ↦
      let is = is_for-true x y n same in
      absurd (
        omega (
          arith,
          subst (λ z. z.request_id_in_node < (node z.request_node_id).send_request_id_counter) is
              h.0,
        ))
  | inr other ↦ rw other (omega (arith, not_started node x ys n h.1 le))
]

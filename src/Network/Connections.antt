-- ===== src/Network/Connections.antt =====
-- EstablishConnections, and the broker that the constructor makes.
use ncaf.Common.{
  refl, Bool, Bool-cases, inl, inr, false, not, ◌&&◌, ◌||◌, ℕ, ◌≡◌, List, [], ◌∷◌, true, nat_beq,
  if◌then◌else◌, Option, none, some, ok, nat_eq, arith,
}
use ncaf.Common.Dict.{Dict, find, empty, find-empty}
use ncaf.Util.LockGuarded.{insert, find-insert}
use ncaf.Network.{NodeInfo, Zmq, bind_local, connect_all, establish_connections}

-- The address of the first node of the list that has this id.
abbrev pub address_of : ℕ → List NodeInfo → Option (List ℕ)
address_of id [] = none
address_of id (node ∷ nodes) =
    if nat_beq node.node_id id then some node.address else address_of id nodes

abbrev pub or_else : Option (List ℕ) → Option (List ℕ) → Option (List ℕ)
or_else none o = o
or_else (some a) o = some a

-- The list has this id.
unfoldable pub found_local_address : ℕ → List NodeInfo → Bool
found_local_address this [] = false
found_local_address this (node ∷ nodes) =
    nat_beq node.node_id this || found_local_address this nodes

-- zmq can use the address of each node.
abbrev pub Usable : Zmq → ℕ → List NodeInfo → Type 0
Usable zmq this [] = Unit {0}
Usable zmq this (node ∷ nodes) =
    ((if nat_beq node.node_id this then zmq.binds node.address else zmq.connects node.address)
      ≡ true)
    × Usable zmq this nodes

bind_local-found :
    (zmq : Zmq) (this : ℕ) (nodes : List NodeInfo)
    → bind_local zmq this nodes ≡ ok true
    → found_local_address this nodes ≡ true
unfolding bind_local found_local_address
bind_local-found zmq this [] h = absurd (ground arith)
bind_local-found zmq this (node ∷ nodes) h = ground (arith, bind_local-found zmq this nodes)

binds_local :
    (zmq : Zmq) (this : ℕ) (nodes : List NodeInfo)
    → found_local_address this nodes ≡ true
    → Usable zmq this nodes
    → bind_local zmq this nodes ≡ ok true
unfolding bind_local found_local_address
binds_local zmq this [] found usable = absurd (ground arith)
binds_local zmq this (node ∷ nodes) found (here, rest) = ground (
  arith,
  here,
  (λ (f : found_local_address this nodes ≡ true). binds_local zmq this nodes f rest),
)

connect_all_lem :
    (zmq : Zmq) (this : ℕ) (nodes : List NodeInfo) (sockets : Dict ℕ (List ℕ)) {d : Dict ℕ (List ℕ)}
    (j : ℕ)
    → connect_all zmq this nodes sockets ≡ ok d
    → find j d ≡ or_else (find j sockets) (if nat_beq j this then none else address_of j nodes)
unfolding connect_all
connect_all_lem zmq this [] sockets j h = ground arith
connect_all_lem zmq this (node ∷ nodes) sockets {d} j h = ground (
  arith,
  connect_all_lem zmq this nodes sockets {d = d} j,
  (find-insert node.node_id j node.address sockets).0,
  (find-insert node.node_id j node.address sockets).1,
  connect_all_lem zmq this nodes (insert node.node_id node.address sockets).0 {d = d} j,
)

-- When EstablishConnections returns, this node's id is in the list, and the sockets are one for
-- every other id of the list, at the address of the node with that id.
pub establish_connections_lem :
    (zmq : Zmq) (this : ℕ) (nodes : List NodeInfo) {d : Dict ℕ (List ℕ)}
    → establish_connections zmq this nodes ≡ ok d
    → (found_local_address this nodes ≡ true)
      × ((j : ℕ) → find j d ≡ (if nat_beq j this then none else address_of j nodes))
unfolding establish_connections
establish_connections_lem zmq this nodes {d} h =
    let bound : bind_local zmq this nodes ≡ ok true = ground arith in
    let connected : connect_all zmq this nodes empty ≡ ok d = ground arith in
    (
      bind_local-found zmq this nodes bound,
      λ j. ground (
        arith,
        connect_all_lem zmq this nodes empty {d = d} j connected,
        find-empty {V = List ℕ} j,
      ),
    )

-- No two nodes of the list have the same id, this node's id aside.
abbrev pub distinct : ℕ → List NodeInfo → Bool
distinct this [] = true
distinct this (node ∷ nodes) =
    (nat_beq node.node_id this || not (found_local_address node.node_id nodes))
    && distinct this nodes

connects :
    (zmq : Zmq) (this : ℕ) (nodes : List NodeInfo) (sockets : Dict ℕ (List ℕ))
    → Usable zmq this nodes
    → distinct this nodes ≡ true
    → ((j : ℕ)
        → nat_beq j this ≡ false
        → found_local_address j nodes ≡ true
        → find j sockets ≡ none)
    → (d : Dict ℕ (List ℕ)) × (connect_all zmq this nodes sockets ≡ ok d)
unfolding connect_all found_local_address
connects zmq this [] sockets usable apart free = (sockets, refl)
connects zmq this (node ∷ nodes) sockets (usable, rest) apart free =
    elim (Bool-cases (nat_beq node.node_id this)) [
      | inl here ↦
          let (d, done) =
            connects zmq this nodes sockets rest (ground arith)
              (λ j other found. free j other (ground arith)) in
          (d, ground arith)
      | inr away ↦
          let sockets' = (insert node.node_id node.address sockets).0 in
          let new : find node.node_id sockets ≡ none = free node.node_id away (ground arith) in
          let (d, done) = connects zmq this nodes sockets' rest (ground arith) (λ j other found.
            ground (arith, (find-insert node.node_id j node.address sockets).0, free j other)) in
          (d, ground (arith, (find-insert node.node_id node.node_id node.address sockets).1))
    ]

-- EstablishConnections returns when this node's id is in the list, no two of the other nodes have the
-- same id and zmq can use the addresses.
pub establish_connections_returns :
    (zmq : Zmq) (this : ℕ) (nodes : List NodeInfo)
    → found_local_address this nodes ≡ true
    → distinct this nodes ≡ true
    → Usable zmq this nodes
    → (d : Dict ℕ (List ℕ)) × (establish_connections zmq this nodes ≡ ok d)
unfolding establish_connections
establish_connections_returns zmq this nodes found apart usable =
    let (d, done) = connects zmq this nodes empty usable apart (λ j other there. find-empty j) in
    (d, rw (binds_local zmq this nodes found usable) done)

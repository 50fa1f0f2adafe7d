-- ===== src/Network/Receiving.antt =====
-- src/ncaf/internal/network.cc, ReceiveProcessLoop, and what it makes of heartbeats.
use ncaf.Common.{
  if◌then◌else◌, ℕ, ◌≡◌, refl, sym, ap, ◌∙◌, fun_ext, List, [], ◌∷◌, true, false, Bool, ◌||◌,
  Bool-cases, inl, inr, nat_beq, Option, none, some, Result, ok, ◌>>=◌, nat_eq, nat_beq_iff, arith,
}
use ncaf.Common.Dict.{Dict, find, put, find-put}
use ncaf.Serde.Codec.{Codec}
use ncaf.Network.{NodeInfo, heartbeat, Identifier, Broker}
use ncaf.Network.Loops.{check_heartbeat, handle_received_message}
use ncaf.Network.Requests.{decodes}
use ncaf.Network.Heartbeats.{
  or_epoch, seen_at, any_dead, touched, seen_at-touched, check_heartbeat_lem,
}

-- A round of the loop: the clock at its check, and what is received and when, or nothing in time.
abbrev pub Round : Type 0
Round = ℕ × Option (ℕ × List (List ℕ))

abbrev pub receive : Codec Identifier → Option (ℕ × List (List ℕ)) → Broker → Result Broker
receive codec none b = ok b
receive codec (some (at, multi)) b = handle_received_message codec at multi b

-- ReceiveProcessLoop until a stop is requested, after the rounds; whether the process exits.
unfoldable pub receive_loop : Codec Identifier → List Round → Broker → Result (Broker × Bool)
receive_loop codec [] b = ok (b, false)
receive_loop codec ((now, received) ∷ rounds) b =
    let (b', dead) = check_heartbeat now b.node_list b in
    elim dead [
      | true ↦ ok (b', true)
      | false ↦ do b'' ← receive codec received b'; receive_loop codec rounds b''
    ]

-- A heartbeat that is received, by its sender, or nothing.
abbrev pub Heard : Type 0
Heard = ℕ × Option (ℕ × Identifier)

abbrev pub heard_parts : Codec Identifier → Option (ℕ × Identifier) → Option (ℕ × List (List ℕ))
heard_parts codec none = none
heard_parts codec (some (at, i)) =
    some (at, codec.serialize (record i { flag = heartbeat }) ∷ [] ∷ [])

abbrev pub heard_rounds : Codec Identifier → List Heard → List Round
heard_rounds codec [] = []
heard_rounds codec ((now, heard) ∷ hs) = (now, heard_parts codec heard) ∷ heard_rounds codec hs

abbrev pub hears : Option (ℕ × Identifier) → (ℕ → ℕ) → ℕ → ℕ
hears none seen j = seen j
hears (some (at, i)) seen j = if nat_beq i.request_node_id j then at else seen j

-- At the check of some round, another node had been silent for `timeout`.
abbrev pub any_silent : ℕ → ℕ → List NodeInfo → (ℕ → ℕ) → List Heard → Bool
any_silent this timeout nodes seen [] = false
any_silent this timeout nodes seen ((now, heard) ∷ hs) =
    any_dead this timeout now seen nodes || any_silent this timeout nodes (hears heard seen) hs

-- CheckHeartbeat changes nothing but last_seen_, and there only entries that were missing.
pub check_keeps :
    (now : ℕ) (nodes : List NodeInfo) (b : Broker)
    → (check_heartbeat now nodes b).0
      ≡ record b { last_seen = (check_heartbeat now nodes b).0.last_seen }
unfolding check_heartbeat
check_keeps now [] b = refl
check_keeps now (node ∷ nodes) b =
    ground (arith, check_keeps now nodes b, check_keeps now nodes (touched b node.node_id))

check_seen :
    (now : ℕ) (nodes : List NodeInfo) (b : Broker) (j : ℕ)
    → seen_at (check_heartbeat now nodes b).0 j ≡ seen_at b j
unfolding check_heartbeat
check_seen now [] b j = refl
check_seen now (node ∷ nodes) b j = ground (
  arith,
  check_seen now nodes b j,
  check_seen now nodes (touched b node.node_id) j,
  seen_at-touched b node.node_id j,
)

received_heartbeat :
    (codec : Codec Identifier) (at : ℕ) (i : Identifier) (b : Broker)
    → handle_received_message codec at (codec.serialize (record i { flag = heartbeat }) ∷ [] ∷ []) b
      ≡ ok (record b { last_seen = put i.request_node_id at b.last_seen })
unfolding handle_received_message
received_heartbeat codec at i b = ground (arith, decodes codec (record i { flag = heartbeat }))

-- The broker after a check and what was received.
received :
    (codec : Codec Identifier) (now : ℕ) (heard : Option (ℕ × Identifier)) (b : Broker)
    → (d : Dict ℕ ℕ) × (receive codec
          (heard_parts codec heard)
          (check_heartbeat now b.node_list b).0
        ≡ ok (record b { last_seen = d }))
      × ((j : ℕ) → or_epoch (find j d) ≡ hears heard (seen_at b) j)
received codec now none b = (
  (check_heartbeat now b.node_list b).0.last_seen,
  ap ok (check_keeps now b.node_list b),
  λ j. check_seen now b.node_list b j,
)
received codec now (some (at, i)) b =
    let c = (check_heartbeat now b.node_list b).0 in
    (
      put i.request_node_id at c.last_seen,
      received_heartbeat codec at i c
          ∙ ap
              (λ (c' : Broker). ok (record c' { last_seen = put i.request_node_id at c.last_seen }))
              (check_keeps now b.node_list b),
      λ j. ground (
        arith,
        find-put i.request_node_id j at c.last_seen,
        check_seen now b.node_list b j,
        nat_beq_iff i.request_node_id j,
      ),
    )

-- The receive loop, over rounds that receive heartbeats or nothing, ends the process exactly when, at
-- the check of some round, another node of the list had been silent for heartbeat_timeout or longer:
-- a heartbeat that was received puts its sender's time forward, and a check changes no node's time.
pub receive_loop_lem :
    (codec : Codec Identifier) (hs : List Heard) (b : Broker)
    → (b' : Broker) × (receive_loop codec (heard_rounds codec hs) b
        ≡ ok (b', any_silent b.this_node_id b.config.heartbeat_timeout b.node_list (seen_at b) hs))
unfolding receive_loop
receive_loop_lem codec [] b = (b, refl)
receive_loop_lem codec ((now, heard) ∷ hs) b =
    let c = check_heartbeat now b.node_list b in
    let exits = check_heartbeat_lem now b.node_list b in
    elim (Bool-cases c.1) [
      | inl dead ↦ (c.0, rw (dead, sym exits ∙ dead, receive_loop) refl)
      | inr alive ↦
          let (d, got, seen) = received codec now heard b in
          let (b', ran) = receive_loop_lem codec hs (record b { last_seen = d }) in
          (
            b',
            rw (alive, sym exits ∙ alive, got, receive_loop)
                (ran
                  ∙ ap
                      (λ f.
                        ok (
                          b',
                          any_silent b.this_node_id b.config.heartbeat_timeout b.node_list f hs,
                        ))
                      (fun_ext seen)),
          )
    ]

-- ===== src/Network/Cluster/Sendings.antt =====
-- A node of a cluster can send what it has queued, up to a given request or its reply.
use ncaf.Common.{
  ℕ, ◌<◌, ◌≡◌, ◌≢◌, refl, sym, ap, ◌∙◌, subst, List, [], ◌∷◌, ◌++◌, Bool, true, Bool-cases, inl,
  inr, nat_eq, arith,
}
use ncaf.Common.Totals.{sum_of}
use ncaf.Common.Dict.{Dict}
use ncaf.Serde.Codec.{Codec}
use ncaf.Network.{normal, Identifier, Operation, Broker}
use ncaf.Network.Loops.{complete_sent}
use ncaf.Network.Sockets.{HasSocket, SendsTo, RepliesTo, transmit_ok}
use ncaf.Network.Cluster.{Cluster, with_node, Step, send, send_reply, Reach, later}
use ncaf.Network.Cluster.Count.{is_for, op_for, is_for-true}
use ncaf.Network.Cluster.Places.{All}
use ncaf.Network.Cluster.Counts.{handed, complete_sent_keeps}

pub data Run (codec : Codec Identifier) (accepts : ℕ → Bool) (s : Cluster) : Cluster → Type 0 where
  stay : Run codec accepts s s
  goes : {t u : Cluster} → Run codec accepts s t → Step codec accepts t u → Run codec accepts s u

pub Run-trans :
    {codec : Codec Identifier} {accepts : ℕ → Bool} {s t u : Cluster}
    → Run codec accepts s t
    → Run codec accepts t u
    → Run codec accepts s u
Run-trans r stay = r
Run-trans r (goes q st) = goes (Run-trans r q) st

pub Reach-Run :
    {codec : Codec Identifier} {accepts : ℕ → Bool} {s t : Cluster}
    → Reach codec accepts s
    → Run codec accepts s t
    → Reach codec accepts t
Reach-Run r stay = r
Reach-Run r (goes run st) = later (Reach-Run r run) st

pub with_node_at : (node : ℕ → Broker) (i : ℕ) (b : Broker) → with_node node i b i ≡ b
with_node_at node i b = ground arith

pub with_node_other :
    (node : ℕ → Broker) (i j : ℕ) (b : Broker) → i ≢ j → with_node node i b j ≡ node j
with_node_other node i j b apart = ground arith

-- A message for `x` is on the way to `node`.
pub record IsOnItsWay (x : Identifier) (node : ℕ) (s : Cluster) : Type 0 where
  pub before : List (ℕ × Operation)
  pub after : List (ℕ × Operation)
  pub op : Operation
  pub wire : s.wire ≡ before ++ ((node, op) ∷ after)
  pub is : op.identifier ≡ x

module _ (codec : Codec Identifier) (accepts : ℕ → Bool)
    (all_accepted : (node : ℕ) → accepts node ≡ true) (x : Identifier) (n : x.flag ≡ normal) (i : ℕ)
    (d : Dict ℕ (List ℕ)) where
  -- Steps of node `i` that leave the other nodes and the messages that it received.
  pub record Sent (s t : Cluster) : Type 0 where
    pub run : Run codec accepts s t
    pub others : (j : ℕ) → i ≢ j → t.node j ≡ s.node j
    pub counter : (t.node i).received_request_id_counter ≡ (s.node i).received_request_id_counter

  then-Sent : {s t u : Cluster} → Sent s t → Sent t u → Sent s u
  then-Sent a b = record {
    run = Run-trans a.run b.run;
    others = λ j apart. b.others j apart ∙ a.others j apart;
    counter = b.counter ∙ a.counter;
  }

  after_send : (s : Cluster) (op : Operation) (b : Broker) (to : ℕ) → Cluster
  after_send s op b to = record s { node = with_node s.node i b; wire = s.wire ++ ((to, op) ∷ []) }

  pub send_up_to :
      (s : Cluster) (ops : List Operation)
      → (s.node i).pending_send_operations ≡ ops
      → (s.node i).node_id_to_send_socket ≡ d
      → All (SendsTo d) ops
      → 0 < sum_of (op_for x) ops
      → (t : Cluster) × Sent s t × IsOnItsWay x x.response_node_id t
  unfolding after_send
  send_up_to s [] q e ready pos = absurd (omega arith)
  send_up_to s (op ∷ ops) q e ready pos =
      let to = op.identifier.response_node_id in
      let c : Broker = record (s.node i) { pending_send_operations = ops } in
      let b = complete_sent op (handed codec 0 to op c) in
      let t = after_send s op b to in
      let same = complete_sent_keeps op (handed codec 0 to op c) in
      let at_i = with_node_at s.node i b in
      let sent =
        transmit_ok codec accepts 0 to op c (all_accepted to)
          (subst (λ f. HasSocket f to) (sym e) ready.0) in
      let one : Sent s t = record {
        run = goes stay (send i 0 q sent refl refl refl);
        others = λ j apart. with_node_other s.node i j b apart;
        counter = ap (λ k. k.received_request_id_counter) (at_i ∙ same);
      } in
      elim (Bool-cases (is_for x op.identifier)) [
        | inl this ↦
            let is = is_for-true x op.identifier n this in
            (
              t,
              one,
              record {
                before = s.wire;
                after = [];
                op = op;
                wire = ap (λ y. s.wire ++ ((y.response_node_id, op) ∷ [])) is;
                is = is;
              },
            )
        | inr another ↦
            let (u, more, there) =
              send_up_to t ops (ap (λ k. k.pending_send_operations) (at_i ∙ same))
                (ap (λ k. k.node_id_to_send_socket) (at_i ∙ same) ∙ e) ready.1
                (ground (arith, pos, another)) in
            (u, then-Sent one more, there)
      ]

  pub reply_up_to :
      (s : Cluster) (ops : List Operation)
      → (s.node i).pending_reply_operations ≡ ops
      → (s.node i).node_id_to_send_socket ≡ d
      → All (RepliesTo d) ops
      → 0 < sum_of (op_for x) ops
      → (t : Cluster) × Sent s t × IsOnItsWay x x.request_node_id t
  unfolding after_send
  reply_up_to s [] q e ready pos = absurd (omega arith)
  reply_up_to s (op ∷ ops) q e ready pos =
      let to = op.identifier.request_node_id in
      let c : Broker = record (s.node i) { pending_reply_operations = ops } in
      let b = handed codec 0 to op c in
      let t = after_send s op b to in
      let at_i = with_node_at s.node i b in
      let sent =
        transmit_ok codec accepts 0 to op c (all_accepted to)
          (subst (λ f. HasSocket f to) (sym e) ready.0) in
      let one : Sent s t = record {
        run = goes stay (send_reply i 0 q sent refl refl refl);
        others = λ j apart. with_node_other s.node i j b apart;
        counter = ap (λ k. k.received_request_id_counter) at_i;
      } in
      elim (Bool-cases (is_for x op.identifier)) [
        | inl this ↦
            let is = is_for-true x op.identifier n this in
            (
              t,
              one,
              record {
                before = s.wire;
                after = [];
                op = op;
                wire = ap (λ y. s.wire ++ ((y.request_node_id, op) ∷ [])) is;
                is = is;
              },
            )
        | inr another ↦
            let (u, more, there) =
              reply_up_to t ops (ap (λ k. k.pending_reply_operations) at_i)
                (ap (λ k. k.node_id_to_send_socket) at_i ∙ e) ready.1
                (ground (arith, pos, another)) in
            (u, then-Sent one more, there)
      ]

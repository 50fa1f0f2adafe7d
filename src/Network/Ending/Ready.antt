-- ===== src/Network/Ending/Ready.antt =====
-- src/ncaf/internal/network.cc: runs of ClusterAlignedStop and the broker's threads, and when the
-- sending thread can go on.
use ncaf.Common.{ℕ, ◌≡◌, List, [], ◌∷◌, Bool, true, false, nat_beq, nat_eq}
use ncaf.Common.Dict.{Dict}
use ncaf.Serde.Codec.{Codec}
use ncaf.Network.{NodeInfo, Identifier, Broker}
use ncaf.Network.Cluster.Places.{All}
use ncaf.Network.Sockets.{HasSocket, SendsTo, RepliesTo}
use ncaf.Network.Ending.{Main, Sender, sending, sending_reply, beating, Receiver, System, Step}

pub data Run (codec : Codec Identifier) (accepts : ℕ → Bool) (s : System) : System → Type 0 where
  stay : Run codec accepts s s
  goes : {t u : System} → Run codec accepts s t → Step codec accepts t u → Run codec accepts s u

pub Run-trans :
    {codec : Codec Identifier} {accepts : ℕ → Bool} {s t u : System}
    → Run codec accepts s t
    → Run codec accepts t u
    → Run codec accepts s u
Run-trans r stay = r
Run-trans r (goes q st) = goes (Run-trans r q) st

abbrev pub BeatsTo : Dict ℕ (List ℕ) → ℕ → List NodeInfo → Type 0
BeatsTo d this [] = Unit {0}
BeatsTo d this (node ∷ nodes) =
    (nat_beq node.node_id this ≡ false → HasSocket d node.node_id) × BeatsTo d this nodes

-- What SendProcessLoop has in its hands has a socket, too.
abbrev pub HandReady : Dict ℕ (List ℕ) → ℕ → Sender → Type 0
HandReady d this (sending op) = SendsTo d op
HandReady d this (sending_reply op) = RepliesTo d op
HandReady d this (beating left) = BeatsTo d this left
HandReady d this _ = Unit {0}

-- What the sending thread does not change.
pub record Setting : Type 0 where
  pub main : Main
  pub send_stop : Bool
  pub recv_stop : Bool
  pub receiver : Receiver
  pub this : ℕ

abbrev pub IsPlaced : Setting → System → Type 0
IsPlaced x s =
    (s.main ≡ x.main)
    × (s.send_stop ≡ x.send_stop)
    × (s.recv_stop ≡ x.recv_stop)
    × (s.receiver ≡ x.receiver)

abbrev pub IsKept : Dict ℕ (List ℕ) → Setting → Broker → Type 0
IsKept d x b = (b.this_node_id ≡ x.this) × (b.stopped ≡ true) × (b.node_id_to_send_socket ≡ d)

pub record IsReady (d : Dict ℕ (List ℕ)) (x : Setting) (s : System) : Type 0 where
  pub placed : IsPlaced x s
  pub kept : IsKept d x s.broker
  pub sends : All (SendsTo d) s.broker.pending_send_operations
  pub replies : All (RepliesTo d) s.broker.pending_reply_operations

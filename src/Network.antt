-- ===== src/Network.antt =====
-- hdfs/messages: addresses, connections and what a process sends on them, as the controller, the
-- storage nodes and the clients share it.
use hdfs_in_golang.Base.{ℕ, Bool, true, false, Option, none, some, List, ◌∷◌, is_some}
use hdfs_in_golang.Text.{Text, split}
use hdfs_in_golang.Proto.{Wrapper}
use hdfs_in_golang.Transport.{Bytes, Codec}

-- MAX_REPLICAS and HEARTBEAT_PER_SEC of helper.go.
abbrev pub max_replicas : ℕ
max_replicas = 3

abbrev pub heartbeat_per_sec : ℕ
heartbeat_per_sec = 5

-- What a process depends on beyond the repository: the package proto, whether a host accepts
-- connections on a port, and the process's own address, `HostName:Port`.
pub record Net : Type 0 where
  pub codec : Codec
  pub dials : Text → Text → Bool
  pub self : Text

-- One connection's worth of output: where it went, the message, and the bytes behind it.
pub record Packet : Type 0 where
  pub host : Text
  pub port : Text
  pub message : Wrapper
  pub payload : Bytes

-- addr := strings.Split(s, ":"); addr[0], addr[1]. With no colon the second index panics.
abbrev second : List Text → Option (Text × Text)
second (host ∷ port ∷ rest) = some (host, port)
second _ = none

unfoldable pub address : Text → Option (Text × Text)
address s = second (split b':' s)

-- What came of sending: no connection, an error of proto.Marshal, or the packet.
pub data Delivery : Type 0 where
  unreachable unencodable : Delivery
  delivered : Packet → Delivery

module _ (net : Net) where
  -- GetConnection, Send, and a Write of the payload.
  unfoldable pub deliver : Text → Text → Wrapper → Bytes → Delivery
  deliver host port message payload = elim (net.dials host port) [
    | false ↦ unreachable
    | true ↦ elim (is_some (net.codec.marshal message)) [
      | false ↦ unencodable
      | true ↦ delivered (record { host = host; port = port; message = message; payload = payload })
    ]
  ]

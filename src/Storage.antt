-- ===== src/Storage.antt =====
-- hdfs/nodes/storagenode.go: the state of a storage node, and how it sends.
pub mod Chunks
pub mod Requests
use hdfs_in_golang.Base.{
  ℕ, ◌+◌, Bool, true, false, Option, none, some, List, [], ◌∷◌, ◌++◌, ◌==◌, nat_eq, list_eq,
  is_some, if◌then◌else◌,
}
use hdfs_in_golang.Base.Dict.{Dict}
use hdfs_in_golang.Base.Exec.{Exec, Outcome, ok, err, panicked}
use hdfs_in_golang.Text.{Text, codes}
use hdfs_in_golang.Transport.{Bytes}
use hdfs_in_golang.Proto.{Wrapper}
use hdfs_in_golang.Network.{Net, address}

-- What was written on one connection: the message, unless proto.Marshal refused it, and the bytes
-- behind it.
pub record Output : Type 0 where
  pub host : Text
  pub port : Text
  pub message : Option Wrapper
  pub payload : Bytes

abbrev pub output_on : Net → Text → Text → Wrapper → Bytes → Output
output_on net host port message payload = record {
  host = host;
  port = port;
  message = if is_some (net.codec.marshal message) then some message else none;
  payload = payload;
}

-- The folders ChunkData and ChunkMetaData by the names of their files, the counters, and what was
-- sent, in order.
pub record StorageNode : Type 0 where
  pub chunk_data : Dict Text Bytes
  pub chunk_metadata : Dict Text Text
  pub received_chunks : ℕ
  pub received_bytes : ℕ
  pub sent : List Output

-- What a node depends on: the network, whether os.Create makes a file of a name, the hexadecimal
-- SHA-256 of some bytes, the path of the folder ChunkData, and the controller's host and port.
pub record NodeEnv : Type 0 where
  pub net : Net
  pub creates : Text → Bool
  pub digest : Bytes → Text
  pub data_path : Text
  pub controller_hostname : Text
  pub controller_port : Text

abbrev pub NodeAction : Type 0 → Type 0
NodeAction A = Exec StorageNode A

module _ (env : NodeEnv) where
  -- filepath.Join(storageDirectory, "ChunkData", name), for a name of one path element.
  abbrev pub chunk_path : Text → Text
  chunk_path name = if name == [] then env.data_path else env.data_path ++ b'/' ∷ name

  -- GetConnection, Send with its error passed over, a Write of the payload, and Close. The result is
  -- whether there was a connection.
  unfoldable pub send_on : Text → Text → Wrapper → Bytes → NodeAction Bool
  send_on host port message payload s = elim (env.net.dials host port) [
    | false ↦ (ok false, s)
    | true ↦
        (ok true, record s { sent = s.sent ++ output_on env.net host port message payload ∷ [] })
  ]

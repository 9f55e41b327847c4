-- ===== src/Tests.antt =====
-- Sample data for the examples in the modules below: a network, a codec, a hash, messages, nodes.
mod Messages
mod Files
mod Nodes
mod Chunks
mod Sending
mod Receiving
mod Typing
mod Cluster
mod Concurrent
use hdfs_in_golang.Base.{
  ℕ, zero, suc, ◌+◌, ◌*◌, ◌%◌, ◌^◌, Bool, true, false, not, Option, none, some, List, [], ◌∷◌, ltb,
  ◌==◌, nat_eq, list_eq,
}
use hdfs_in_golang.Text.{Text, codes}
use hdfs_in_golang.Bloom.{Murmur}
use hdfs_in_golang.Transport.{Bytes, Codec}
use hdfs_in_golang.Network.{Net}
use hdfs_in_golang.Proto.{
  Wrapper, FileMetaData, StorageNodesMetadata, RequestType, write, response, empty, success, error,
}
use hdfs_in_golang.Controller.{Controller, StorageNodeInfo, FileInfo, Env, start}

-- A response by its kind and its text; other messages are not sent in the examples.
abbrev marshal : Wrapper → Option Bytes
marshal (response r) = elim r.msg_type [
  | success ↦ some (0 ∷ r.description)
  | error ↦ some (1 ∷ r.description)
]
marshal _ = some []

abbrev unmarshal : Bytes → Option Wrapper
unmarshal [] = some empty
unmarshal (zero ∷ text) = some (response (record { msg_type = success; description = text }))
unmarshal (suc _ ∷ text) = some (response (record { msg_type = error; description = text }))

abbrev pub codec : Codec
codec = record { marshal = marshal; unmarshal = unmarshal; allocates = λ n. ltb n 1_000_000 }

abbrev weight : Text → ℕ
weight [] = 17
weight (c ∷ s) = (c + 31 * weight s) % 2 ^ 32

abbrev pub murmur : Murmur
murmur = record { sum32 = weight; sum32_with_seed = λ s seed. (weight s + 7 * seed) % 2 ^ 32 }

-- The host `gone` accepts no connection.
abbrev pub env : Env
env = record {
  net = record {
    codec = codec;
    dials = λ host port. not (host == codes "gone");
    self = codes "control:9000";
  };
  murmur = murmur;
  creates = λ name. not (name == []);
}

abbrev pub node : ℕ → Text → StorageNodeInfo
node time hostname = record {
  available_space = 500;
  total_number_of_storage_request = 0;
  hostname = hostname;
  port = codes "7000";
  last_heartbeat_time = time;
  files = [];
}

abbrev pub wanted : RequestType → FileMetaData
wanted t = record {
  file_name = codes "logs";
  file_size = 300;
  total_chunks = 2;
  chunk_size = 200;
  checksum = codes "c0ffee";
  request_type = t;
  locations = [];
  sender_addr = codes "client:8000";
  receiver_addr = codes "control:9000";
  file_extension = codes ".txt";
  folder_name = codes "root";
}

abbrev pub entry : FileInfo
entry = record {
  total_number_of_chunks = 2;
  chunk_size = 200;
  file_size = 300;
  file_checksum = codes "c0ffee";
  folder_name = codes "root";
}

-- A controller with no node, and one with a node.
abbrev pub idle : Controller
idle = start [] []

abbrev pub served : Controller
served = record idle { active_nodes_map = (codes "a:7000", node 0 (codes "a")) ∷ [] }

abbrev pub question : Text → StorageNodesMetadata
question sender = record {
  available_space = 0;
  total_number_of_storage_requests = 0;
  addr = sender;
  files = [];
  request_type = RequestType.read;
  sender_addr = sender;
  receiver_addr = [];
}

-- ===== src/Controller.antt =====
-- hdfs/controller/controller.go: the state of the controller, and how it sends. The operations
-- stand in the modules below.
pub mod Metadata
pub mod Placement
pub mod Heartbeat
pub mod Failure
pub mod Replies
pub mod Handler
pub mod Quiet
pub mod Invariant
pub mod Consistency
pub mod Concurrent
use hdfs_in_golang.Base.{
  ℕ, ◌+◌, Bool, true, false, Option, none, some, List, [], ◌∷◌, ◌++◌, ◌==◌, nat_eq, if◌then◌else◌,
}
use hdfs_in_golang.Base.Dict.{Dict}
use hdfs_in_golang.Base.Exec.{Exec, Outcome, ok, err, panicked, stalled}
use hdfs_in_golang.Text.{Text, codes}
use hdfs_in_golang.Text.Entry.{entry_of}
use hdfs_in_golang.Bloom
use hdfs_in_golang.Bloom.{BloomFilter, Murmur}
use hdfs_in_golang.Proto.{Wrapper}
use hdfs_in_golang.Network.{
  Net, Packet, Delivery, address, deliver, unreachable, unencodable, delivered,
}

pub record ChunksInfo : Type 0 where
  pub filename : Text
  pub chunk_file_name : Text
  pub chunk_file_path : Text

-- The time is in nanoseconds.
pub record StorageNodeInfo : Type 0 where
  pub available_space : ℕ
  pub total_number_of_storage_request : ℕ
  pub hostname : Text
  pub port : Text
  pub last_heartbeat_time : ℕ
  pub files : List ChunksInfo

pub record FileInfo : Type 0 where
  pub total_number_of_chunks : ℕ
  pub chunk_size : ℕ
  pub file_size : ℕ
  pub file_checksum : Text
  pub folder_name : Text

-- Chunk filename and node address give the path of the chunk on that node.
abbrev pub ChunkMap : Type 0
ChunkMap = Dict Text (Dict Text Text)

-- The package's variables, the readers that hold activeNodesMapMutex between requests and the writers that
-- wait for it, the two folders that it writes (contents by file name), and the packets
-- that were sent, in order.
pub record Controller : Type 0 where
  pub active_nodes_map : Dict Text StorageNodeInfo
  pub active_nodes_readers : ℕ
  pub active_nodes_writers : ℕ
  pub file_chunk_map : Dict Text ChunkMap
  pub file_map : Dict Text FileInfo
  pub bf : BloomFilter
  pub file_metadata_dir : Dict Text Text
  pub chunk_metadata_dir : Dict Text Text
  pub sent : List Packet

-- `var bf = filters.New(10000, 3)`
abbrev pub bf_bits : ℕ
bf_bits = 10000

abbrev pub bf_hashes : ℕ
bf_hashes = 3

-- The process at its start, over the folders that it finds.
unfoldable pub start : Dict Text Text → Dict Text Text → Controller
start file_metadata_dir chunk_metadata_dir = record {
  active_nodes_map = [];
  active_nodes_readers = 0;
  active_nodes_writers = 0;
  file_chunk_map = [];
  file_map = [];
  bf = Bloom.new bf_bits bf_hashes;
  file_metadata_dir = file_metadata_dir;
  chunk_metadata_dir = chunk_metadata_dir;
  sent = [];
}

-- What the controller depends on: the network, murmur3, and whether os.Create makes a file of a
-- name in one of its folders.
pub record Env : Type 0 where
  pub net : Net
  pub murmur : Murmur
  pub creates : Text → Bool

abbrev pub Action : Type 0 → Type 0
Action A = Exec Controller A

-- filepath.Join(directory, "FileMetaData", name) and the same for ChunkStorageNodeMetadata, as the
-- entry of the folder.
abbrev pub file_entry : Text → Text
file_entry = entry_of (codes "FileMetaData")

abbrev pub chunk_entry : Text → Text
chunk_entry = entry_of (codes "ChunkStorageNodeMetadata")

-- activeNodesMapMutex.Lock(): it waits for the readers, and none of those that are counted comes to
-- release the lock.
unfoldable pub lock_active_nodes : Action Unit
lock_active_nodes c =
    if c.active_nodes_readers == 0
    then (ok tt, c)
    else (err stalled, record c { active_nodes_writers = c.active_nodes_writers + 1 })

-- activeNodesMapMutex.RLock(): it waits behind a writer that waits.
unfoldable pub rlock_active_nodes : Action Unit
rlock_active_nodes c = if c.active_nodes_writers == 0 then (ok tt, c) else (err stalled, c)

module _ (env : Env) where
  -- What sending did: `false` is an error of proto.Marshal, `none` no connection.
  abbrev record_delivery : Delivery → Action (Option Bool)
  record_delivery unreachable c = (ok none, c)
  record_delivery unencodable c = (ok (some false), c)
  record_delivery (delivered p) c = (ok (some true), record c { sent = c.sent ++ p ∷ [] })

  -- Split, GetConnection, Send and Close.
  unfoldable pub send_to : Text → Wrapper → Action (Option Bool)
  send_to addr message c = elim (address addr) [
    | none ↦ (err panicked, c)
    | some (host, port) ↦ record_delivery (deliver env.net host port message []) c
  ]

  -- bf.Get([]byte(name)) and bf.Put([]byte(name))
  unfoldable pub bf_get : Text → Action Bool
  bf_get name c = elim (Bloom.get env.murmur c.bf name) [
    | none ↦ (err panicked, c)
    | some found ↦ (ok found, c)
  ]

  unfoldable pub bf_put : Text → Action Unit
  bf_put name c = elim (Bloom.put env.murmur c.bf name) [
    | none ↦ (err panicked, c)
    | some bf ↦ (ok tt, record c { bf = bf })
  ]

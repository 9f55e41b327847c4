-- ===== src/Proto.antt =====
-- proto/metadata.proto: the messages, as the generated package `messages` gives them to Go. A field
-- that holds a pointer to a message may be nil.
use hdfs_in_golang.Base.{ℕ, Option, none, some, List, []}
use hdfs_in_golang.Text.{Text}

pub data RequestType : Type 0 where
  replica write read delete folder_info : RequestType

pub data MsgType : Type 0 where
  success error : MsgType

pub record ChunkStorageLocations : Type 0 where
  pub chunk_filename : Text
  pub replicas : List Text

pub record FileMetaData : Type 0 where
  pub file_name : Text
  pub file_size : ℕ
  pub total_chunks : ℕ
  pub chunk_size : ℕ
  pub checksum : Text
  pub request_type : RequestType
  pub locations : List (Option ChunkStorageLocations)
  pub sender_addr : Text
  pub receiver_addr : Text
  pub file_extension : Text
  pub folder_name : Text

pub record ChunkMetaData : Type 0 where
  pub file_name : Text
  pub locations : Option ChunkStorageLocations
  pub chunk_size : ℕ
  pub checksum : Text
  pub request_type : RequestType
  pub sender_addr : Text
  pub receiver_addr : Text
  pub file_extension : Text

pub record ChunkFileInfo : Type 0 where
  pub filename : Text
  pub chunk_filename : Text
  pub chunk_filepath : Text

pub record StorageNodesMetadata : Type 0 where
  pub available_space : ℕ
  pub total_number_of_storage_requests : ℕ
  pub addr : Text
  pub files : List ChunkFileInfo
  pub request_type : RequestType
  pub sender_addr : Text
  pub receiver_addr : Text

pub record Response : Type 0 where
  pub msg_type : MsgType
  pub description : Text

pub record Request : Type 0 where
  pub request_type : RequestType
  pub description : Text
  pub sender_addr : Text
  pub receiver_addr : Text

-- The `oneof` of Wrapper; `empty` is a wrapper with no case set.
pub data Wrapper : Type 0 where
  file_metadata : FileMetaData → Wrapper
  chunk_metadata : ChunkMetaData → Wrapper
  storage_nodes_metadata : StorageNodesMetadata → Wrapper
  response : Response → Wrapper
  request : Request → Wrapper
  empty : Wrapper

-- The generated getters, which read a nil pointer as a message with no field set.
abbrev pub get_chunk_filename : Option ChunkStorageLocations → Text
get_chunk_filename none = []
get_chunk_filename (some l) = l.chunk_filename

abbrev pub get_replicas : Option ChunkStorageLocations → List Text
get_replicas none = []
get_replicas (some l) = l.replicas

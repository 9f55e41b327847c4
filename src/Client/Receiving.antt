-- ===== src/Client/Receiving.antt =====
-- How a client receives a file: retrieveChunkDataFromStorageNodes, saveChunkInfoToDisk, mergeChunks
-- and handleClientRequest of client.go.
pub mod Names
pub mod Numbered
pub mod Merged
pub mod Delivered
pub mod Arrivals
pub mod Asking
use hdfs_in_golang.Base.{
  ℕ, zero, suc, ◌+◌, ◌-◌, ◌%◌, ◌^◌, Bool, true, false, ◌&&◌, ◌||◌, Option, none, some, List, [],
  ◌∷◌, ◌++◌, length, take, replicate, ltb, leb, ◌==◌, nat_eq, list_eq, if◌then◌else◌,
}
use hdfs_in_golang.Base.Exec.{
  ok, err, fatal, fail, pure, gets, modify, or_panic, handle_error, ◌>>=◌, ◌>>◌,
}
use hdfs_in_golang.Text.{Text, codes}
use hdfs_in_golang.Text.Decimal.{format_uint}
use hdfs_in_golang.Text.Path.{stem}
use hdfs_in_golang.Transport.{Bytes}
use hdfs_in_golang.Proto.{
  Wrapper, FileMetaData, ChunkMetaData, ChunkStorageLocations, StorageNodesMetadata, RequestType,
  read, write, file_metadata, chunk_metadata, storage_nodes_metadata, response, request, empty,
}
use hdfs_in_golang.Network.{address}
use hdfs_in_golang.Storage.Chunks.{copy_n}
use hdfs_in_golang.Client.{
  Client, ClientEnv, ClientAction, find_file, put_file, remove_file, send_on,
}
use hdfs_in_golang.Client.Sending.{chunk_name, main_node, send_file_data_to_storage_nodes}

-- fmt.Println(fmt.Sprintf("Storage Node: %s, Available Space: %d, ...")), without its newline.
unfoldable pub print_storage_node_info : StorageNodesMetadata → ClientAction Unit
print_storage_node_info msg = modify (λ c. record c {
  printed =
      c.printed
      ++ (codes "Storage Node: "
          ++ (msg.addr
              ++ (codes ", Available Space: "
                  ++ (format_uint msg.available_space
                      ++ (codes ", Total Number of Storage Request Processed: "
                          ++ format_uint msg.total_number_of_storage_requests)))))
        ∷ [];
})

abbrev pub unless_lost : ClientAction Unit → Bool → ClientAction Unit
unless_lost next true = next
unless_lost next false = pure tt

abbrev pub named : Option ChunkStorageLocations → Option Text
named none = none
named (some l) = some l.chunk_filename

-- What the new file holds so far.
abbrev pub written : Option Bytes → Bytes
written none = []
written (some bytes) = bytes

module _ (env : ClientEnv) where
  -- What a node is asked for.
  unfoldable pub chunk_request : FileMetaData → Text → Text → ChunkMetaData
  chunk_request msg name node = record {
    file_name = msg.file_name;
    locations = some (record { chunk_filename = name; replicas = [] });
    chunk_size = 0;
    checksum = [];
    request_type = read;
    sender_addr = env.net.self;
    receiver_addr = node;
    file_extension = msg.file_extension;
  }

  -- The loop of retrieveChunkDataFromStorageNodes; a location that is nil or has no replica panics.
  unfoldable pub ask_nodes : FileMetaData → List (Option ChunkStorageLocations) → ClientAction Unit
  ask_nodes msg [] = pure tt
  ask_nodes msg (location ∷ locations) = do
    (node, replicas) ← or_panic (main_node (some location))
    (host, port) ← or_panic (address node)
    name ← or_panic (named location)
    connected ← send_on env host port (chunk_metadata (chunk_request msg name node))
    unless_lost (ask_nodes msg locations) connected

  unfoldable pub retrieve_chunk_data_from_storage_nodes : FileMetaData → ClientAction Unit
  unfolding ask_nodes
  retrieve_chunk_data_from_storage_nodes msg = do
    modify (λ c. record c {
      total_number_of_chunks = msg.total_chunks;
      file_check_sum = msg.checksum;
      file_size = msg.file_size;
      folder_name = msg.folder_name;
      received_bytes = 0;
      chunks_received = 0;
    })
    ask_nodes msg msg.locations

  -- saveChunkInfoToDisk, from a connection that brings `incoming` before the peer closes it: with
  -- fewer bytes than announced, io.CopyN fails and the process ends.
  unfoldable pub save_chunk_info_to_disk : ChunkMetaData → Bytes → ClientAction Unit
  save_chunk_info_to_disk msg incoming = do
    name ← or_panic (named msg.locations)
    let bytes = copy_n msg.chunk_size incoming
    handle_error (env.creates name)
    modify (λ c. record c { folders = put_file c.folder_name name bytes c.folders })
    handle_error (leb msg.chunk_size (length bytes) || leb (2 ^ 63) msg.chunk_size)
    modify (λ c. record c {
      received_bytes = c.received_bytes + length bytes;
      chunks_received = (c.chunks_received + 1) % 2 ^ 64;
    })

  -- One Read of a whole file into a buffer of its size, which is zeros behind what was read.
  unfoldable pub read_once : Bytes → Bytes
  read_once bytes = take env.read_limit bytes ++ replicate (length bytes - env.read_limit) 0

  -- What happens with a chunk's file in mergeChunks: it is appended to the new file and removed.
  unfoldable pub append_chunk : Text → Text → Option Bytes → ClientAction Unit
  unfolding read_once
  append_chunk name chunk none = fail fatal
  append_chunk name chunk (some bytes) = modify (λ c. record c {
    folders = remove_file c.folder_name chunk (
        put_file c.folder_name name
          (written (find_file c.folder_name name c.folders) ++ read_once bytes) c.folders);
  })

  -- The loop of mergeChunks from chunk `j` on.
  unfoldable pub merge_from : Text → ℕ → ℕ → ClientAction Unit
  unfolding append_chunk
  merge_from name zero j = pure tt
  merge_from name (suc rounds) j = do
    found ← gets (λ c. find_file c.folder_name (chunk_name name j) c.folders)
    append_chunk name (chunk_name name j) found
    merge_from name rounds (j + 1)

  abbrev keep_valid : Text → Text → Option Bytes → ClientAction Unit
  keep_valid name check none = fail fatal
  keep_valid name check (some bytes) =
      if env.digest bytes == check
      then pure tt
      else modify (λ c. record c { folders = remove_file c.folder_name name c.folders })

  -- ValidateFile on the new file, which goes if its checksum is another.
  unfoldable pub validate_merged : Text → ClientAction Unit
  validate_merged name = do
    found ← gets (λ c. find_file c.folder_name name c.folders)
    check ← gets (λ c. c.file_check_sum)
    keep_valid name check found

  unfoldable pub merge_chunks : ClientAction Unit
  unfolding merge_from validate_merged
  merge_chunks = do
    name ← gets (λ c. stem c.file_path)
    total ← gets (λ c. c.total_number_of_chunks)
    handle_error (env.creates name)
    modify (λ c. record c { folders = put_file c.folder_name name [] c.folders })
    merge_from name total 0
    validate_merged name

  -- The case of ChunkMetadata.
  unfoldable pub receive_chunk : ChunkMetaData → Bytes → ClientAction Unit
  unfolding merge_chunks
  receive_chunk msg incoming = do
    save_chunk_info_to_disk msg incoming
    all ←
        gets (λ c. c.chunks_received == c.total_number_of_chunks && c.file_size == c.received_bytes)
    if all then merge_chunks else pure tt

  -- The case of FileMetadata.
  unfoldable pub receive_locations : FileMetaData → RequestType → ClientAction Unit
  receive_locations msg write = do
    path ← gets (λ c. c.file_path)
    send_file_data_to_storage_nodes env path msg
  receive_locations msg _ = retrieve_chunk_data_from_storage_nodes msg

  -- handleClientRequest on the messages that Receive gives, as the controller's; `incoming` are the
  -- bytes behind a chunk's message.
  unfoldable pub handle_reply : Bytes → List (Option Wrapper) → ClientAction Unit
  unfolding receive_locations receive_chunk
  handle_reply incoming [] = pure tt
  handle_reply incoming (none ∷ wrappers) = fail fatal
  handle_reply incoming (some (file_metadata msg) ∷ wrappers) =
      receive_locations msg msg.request_type
  handle_reply incoming (some (chunk_metadata msg) ∷ wrappers) = receive_chunk msg incoming
  handle_reply incoming (some (storage_nodes_metadata msg) ∷ wrappers) = print_storage_node_info msg
  handle_reply incoming (some (response msg) ∷ wrappers) =
      modify (λ c. record c { printed = c.printed ++ msg.description ∷ [] })
  handle_reply incoming (some empty ∷ wrappers) = pure tt
  handle_reply incoming (some (request msg) ∷ wrappers) = handle_reply incoming wrappers

-- ===== src/Storage/Requests.antt =====
-- What a storage node does for a request: sendChunkMetadataToReplicas,
-- sendDeleteRequestToReplicas, saveChunkInfoToDisk, deleteChunkInfoFromDisk,
-- sendHeartBeatToController, requestReplicaInfoFromController, sendChunkDataToClient,
-- handleCorruptedChunk, getChunkInfoAndSendToClient, requestDataFromReplicationNode and
-- handleClientRequest of storagenode.go, and ValidateFile of hdfs/messages/helper.go.
pub mod Served
pub mod Removed
pub mod Repair
pub mod Replicated
use hdfs_in_golang.Base.{
  ℕ, Bool, true, false, Option, none, some, List, [], ◌∷◌, ◌++◌, nat_eq, list_eq, ◌==◌,
  if◌then◌else◌,
}
use hdfs_in_golang.Base.Dict
use hdfs_in_golang.Base.Exec.{
  ok, err, panicked, stalled, fatal, fail, pure, gets, modify, or_panic, handle_error, ◌>>=◌, ◌>>◌,
}
use hdfs_in_golang.Text.{Text, codes}
use hdfs_in_golang.Transport.{Bytes}
use hdfs_in_golang.Proto.{
  Wrapper, ChunkMetaData, ChunkStorageLocations, RequestType, replica, write, read, delete,
  get_chunk_filename, get_replicas, file_metadata, chunk_metadata, storage_nodes_metadata, response,
  request, empty,
}
use hdfs_in_golang.Network.{address}
use hdfs_in_golang.Controller.Heartbeat.{joined}
use hdfs_in_golang.Storage.{StorageNode, NodeEnv, NodeAction, send_on}
use hdfs_in_golang.Storage.Chunks.{
  increment_received_chunks, decrement_received_chunks, save_chunk_data, save_chunk_metadata,
  get_chunk_info_from_disk, delete_chunk, get_stored_files_info,
}

-- The message without replicas to pass it on to.
abbrev pub without_replicas : Option ChunkStorageLocations → Option ChunkStorageLocations
without_replicas none = none
without_replicas (some l) = some (record l { replicas = [] })

-- What is done on a connection that was made; without one the loop over the replicas ends.
abbrev unless_lost : NodeAction Unit → Bool → NodeAction Unit
unless_lost next true = next
unless_lost next false = pure tt

module _ (env : NodeEnv) where
  -- The loop of sendChunkMetadataToReplicas, on the message that is changed as it goes.
  unfoldable pub forward_chunk : ChunkMetaData → List Text → NodeAction Unit
  forward_chunk msg [] = pure tt
  forward_chunk msg (loc ∷ replicas) = do
    (host, port) ← or_panic (address loc)
    (msg', data') ← get_chunk_info_from_disk (record msg { receiver_addr = loc })
    connected ← send_on env host port (chunk_metadata msg') data'
    unless_lost (forward_chunk msg' replicas) connected

  unfoldable pub send_chunk_metadata_to_replicas : ChunkMetaData → NodeAction Unit
  unfolding forward_chunk
  send_chunk_metadata_to_replicas msg =
      forward_chunk
        (record msg { locations = without_replicas msg.locations; sender_addr = env.net.self })
        (get_replicas msg.locations)

  unfoldable pub forward_delete : ChunkMetaData → List Text → NodeAction Unit
  forward_delete msg [] = pure tt
  forward_delete msg (loc ∷ replicas) = do
    (host, port) ← or_panic (address loc)
    connected ← send_on env host port (chunk_metadata (record msg { receiver_addr = loc })) []
    unless_lost (forward_delete msg replicas) connected

  unfoldable pub send_delete_request_to_replicas : ChunkMetaData → NodeAction Unit
  unfolding forward_delete
  send_delete_request_to_replicas msg =
      forward_delete
        (record msg { locations = without_replicas msg.locations; sender_addr = env.net.self })
        (get_replicas msg.locations)

  -- `incoming` are the bytes behind the message on the connection.
  unfoldable pub save_chunk_info_to_disk : ChunkMetaData → Bytes → NodeAction Unit
  save_chunk_info_to_disk msg incoming = do
    save_chunk_metadata env msg
    save_chunk_data env msg incoming
    send_chunk_metadata_to_replicas msg
    increment_received_chunks

  unfoldable pub delete_chunk_info_from_disk : ChunkMetaData → NodeAction Unit
  delete_chunk_info_from_disk msg = do
    delete_chunk msg
    send_delete_request_to_replicas msg
    decrement_received_chunks

  -- One round of sendHeartBeatToController, with the free space of the disk. With no connection it
  -- does nothing.
  unfoldable pub send_heart_beat_to_controller : ℕ → NodeAction Unit
  send_heart_beat_to_controller available_space =
      if env.net.dials env.controller_hostname env.controller_port
      then (do
        files ← get_stored_files_info
        chunks ← gets (λ s. s.received_chunks)
        connected ←
            send_on env env.controller_hostname env.controller_port
              (storage_nodes_metadata (record {
                available_space = available_space;
                total_number_of_storage_requests = chunks;
                addr = env.net.self;
                files = files;
                request_type = write;
                sender_addr = [];
                receiver_addr = [];
              }))
              []
        pure tt)
      else pure tt

  -- requestReplicaInfoFromController: the message comes back as it was changed.
  unfoldable pub request_replica_info_from_controller : ChunkMetaData → NodeAction ChunkMetaData
  request_replica_info_from_controller msg = do
    let msg' = record msg {
      sender_addr = env.net.self;
      receiver_addr = joined env.controller_hostname env.controller_port;
      request_type = replica;
    }
    connected ← send_on env env.controller_hostname env.controller_port (chunk_metadata msg') []
    pure (if connected then msg' else msg)

  unfoldable pub send_chunk_data_to_client : Text → ChunkMetaData → Bytes → NodeAction Unit
  send_chunk_data_to_client sender_addr msg data' = do
    (host, port) ← or_panic (address sender_addr)
    connected ←
        send_on env host port
          (chunk_metadata (record msg {
            request_type = write;
            receiver_addr = sender_addr;
            sender_addr = env.net.self;
          }))
          data'
    pure tt

  -- ValidateFile on the file of a chunk: one that cannot be opened ends the process.
  unfoldable pub validate_file : Text → Text → NodeAction Bool
  validate_file checksum name = do
    found ← gets (λ s. Dict.lookup name s.chunk_data)
    elim found [ none ↦ fail fatal | some bytes ↦ pure (env.digest bytes == checksum) ]

  -- handleCorruptedChunk. Each round lasts five seconds, in which the goroutine that asks the
  -- controller ends and other connections may change the node: `meanwhile` has a change for each
  -- round. A list that is used up stands for a loop that goes on.
  unfoldable pub handle_corrupted_chunk :
      List (StorageNode → StorageNode) → ChunkMetaData → NodeAction Unit
  handle_corrupted_chunk [] msg = fail stalled
  handle_corrupted_chunk (change ∷ meanwhile) msg = do
    let original_addr = msg.sender_addr
    asked ← request_replica_info_from_controller msg
    modify change
    (msg', data') ← get_chunk_info_from_disk asked
    valid ← validate_file msg'.checksum (get_chunk_filename msg'.locations)
    if valid
        then send_chunk_data_to_client original_addr msg' data'
        else handle_corrupted_chunk meanwhile msg'

  unfoldable pub get_chunk_info_and_send_to_client :
      List (StorageNode → StorageNode) → ChunkMetaData → NodeAction Unit
  get_chunk_info_and_send_to_client meanwhile msg = do
    (msg', data') ← get_chunk_info_from_disk msg
    valid ← validate_file msg'.checksum (get_chunk_filename msg'.locations)
    if valid
        then send_chunk_data_to_client msg'.sender_addr msg' data'
        else handle_corrupted_chunk meanwhile msg'

  -- requestDataFromReplicationNode, on a message whose locations are there. Without a replica the
  -- first index panics.
  unfoldable pub ask_replica : ChunkMetaData → ChunkStorageLocations → List Text → NodeAction Unit
  ask_replica msg l [] = fail panicked
  ask_replica msg l (loc ∷ replicas) = do
    (host, port) ← or_panic (address loc)
    connected ←
        send_on env host port
          (chunk_metadata (record msg {
            locations = some (record l { replicas = replicas });
            request_type = read;
            receiver_addr = loc;
            sender_addr = env.net.self;
          }))
          []
    pure tt

  unfoldable pub request_data_from_replication_node : ChunkMetaData → NodeAction Unit
  unfolding ask_replica
  request_data_from_replication_node msg = do
    l ← or_panic msg.locations
    ask_replica msg l l.replicas

  -- The case of ChunkMetadata. Every branch first logs a field of the locations, a nil dereference
  -- if there are none.
  unfoldable pub handle_chunk :
      List (StorageNode → StorageNode) → ChunkMetaData → Bytes → RequestType → NodeAction Unit
  handle_chunk meanwhile msg incoming replica = request_data_from_replication_node msg
  handle_chunk meanwhile msg incoming write = do
    l ← or_panic msg.locations
    save_chunk_info_to_disk msg incoming
  handle_chunk meanwhile msg incoming delete = do
    l ← or_panic msg.locations
    delete_chunk_info_from_disk msg
  handle_chunk meanwhile msg incoming _ = do
    l ← or_panic msg.locations
    get_chunk_info_and_send_to_client meanwhile msg

  -- handleClientRequest on the messages that Receive gives, as the controller's; `incoming` are
  -- the bytes behind the chunk's message.
  unfoldable pub handle_node_request :
      List (StorageNode → StorageNode) → Bytes → List (Option Wrapper) → NodeAction Unit
  unfolding handle_chunk
  handle_node_request meanwhile incoming [] = pure tt
  handle_node_request meanwhile incoming (none ∷ wrappers) = fail fatal
  handle_node_request meanwhile incoming (some (chunk_metadata msg) ∷ wrappers) =
      handle_chunk meanwhile msg incoming msg.request_type
  handle_node_request meanwhile incoming (some empty ∷ wrappers) = pure tt
  handle_node_request meanwhile incoming (some (file_metadata msg) ∷ wrappers) =
      handle_node_request meanwhile incoming wrappers
  handle_node_request meanwhile incoming (some (storage_nodes_metadata msg) ∷ wrappers) =
      handle_node_request meanwhile incoming wrappers
  handle_node_request meanwhile incoming (some (response msg) ∷ wrappers) =
      handle_node_request meanwhile incoming wrappers
  handle_node_request meanwhile incoming (some (request msg) ∷ wrappers) =
      handle_node_request meanwhile incoming wrappers

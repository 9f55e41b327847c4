-- ===== src/Controller/Replies.antt =====
-- What the controller sends: sendStorageNodesToClient, sendFileMetadataToClient,
-- sendReplicasToStorageNode, sendMessagesToClient, getActiveStorageNodeInfoForClient,
-- getFilesWithinFolder, getAndSendFilesWithinFolder, deleteFromStorageNodes and
-- sendStorageNodeDeleteRequest of controller.go.
pub mod Folders
use hdfs_in_golang.Base.{
  ℕ, ◌+◌, Bool, true, false, Option, none, some, List, [], ◌∷◌, ◌++◌, ◌==◌, nat_eq, list_eq,
  if◌then◌else◌,
}
use hdfs_in_golang.Base.Dict
use hdfs_in_golang.Base.Dict.{Dict}
use hdfs_in_golang.Base.Exec.{
  ok, err, panicked, fail, pure, gets, modify, or_panic, handle_error, ◌>>=◌, ◌>>◌,
}
use hdfs_in_golang.Text.{Text, codes}
use hdfs_in_golang.Proto.{
  FileMetaData, ChunkMetaData, StorageNodesMetadata, Request, MsgType, success, replica,
  RequestType, file_metadata, chunk_metadata, storage_nodes_metadata, response,
}
use hdfs_in_golang.Controller.{
  Controller, ChunkMap, StorageNodeInfo, FileInfo, Env, Action, send_to,
}
use hdfs_in_golang.Controller.Placement.{
  get_storage_nodes, get_replicas_for_storage_node, chunks_of, nodes_of,
}
use hdfs_in_golang.Controller.Heartbeat.{joined}

-- strings.Join(files, " ")
unfoldable pub join_words : List Text → Text
join_words [] = []
join_words (w ∷ []) = w
join_words (w ∷ v ∷ ws) = w ++ b' ' ∷ join_words (v ∷ ws)

-- getFilesWithinFolder
unfoldable pub files_within : Text → Dict Text FileInfo → List Text
files_within folder [] = []
files_within folder ((name, info) ∷ d) =
    let rest = files_within folder d in if info.folder_name == folder then name ∷ rest else rest

unfoldable pub get_files_within_folder : Text → Action (List Text)
unfolding files_within
get_files_within_folder folder = gets (λ c. files_within folder c.file_map)

-- A connection that fails returns out of the loop below, and then the read lock stays taken.
unfoldable pub or_leave : Option Bool → Action Unit → Action Unit
or_leave none next = modify (λ c. record c { active_nodes_readers = c.active_nodes_readers + 1 })
or_leave (some _) next = next

-- `HandleError(msgHandler.Send(wrapper))`: an error of proto.Marshal is fatal.
abbrev pub checked : Option Bool → Action Unit
checked none = pure tt
checked (some sent) = handle_error sent

module _ (env : Env) where
  -- sendStorageNodesToClient
  unfoldable pub send_storage_nodes_to_client : List ℕ → FileMetaData → Action Unit
  send_storage_nodes_to_client draws msg = do
    locations ← get_storage_nodes draws msg.total_chunks
    sent ← send_to env msg.sender_addr (
        file_metadata (record msg {
          locations = locations;
          receiver_addr = msg.sender_addr;
          sender_addr = env.net.self;
        }))
    checked sent

  -- sendFileMetadataToClient
  unfoldable pub send_file_metadata_to_client : FileMetaData → Action Unit
  send_file_metadata_to_client msg = do
    sent ←
        send_to env msg.sender_addr (
          file_metadata
            (record msg { receiver_addr = msg.sender_addr; sender_addr = env.net.self }))
    pure tt

  -- sendReplicasToStorageNode
  unfoldable pub send_replicas_to_storage_node : ChunkMetaData → Action Unit
  send_replicas_to_storage_node msg = do
    msg' ← get_replicas_for_storage_node msg
    sent ← send_to env msg'.sender_addr (
        chunk_metadata
          (record msg' { receiver_addr = msg'.sender_addr; sender_addr = env.net.self }))
    pure tt

  -- sendMessagesToClient
  unfoldable pub send_messages_to_client : MsgType → Text → Text → Action Unit
  send_messages_to_client msg_type sender_addr description = do
    sent ←
        send_to env sender_addr
          (response (record { msg_type = msg_type; description = description }))
    pure tt

  -- What getActiveStorageNodeInfoForClient says of one node.
  abbrev pub node_message : StorageNodesMetadata → StorageNodeInfo → StorageNodesMetadata
  node_message metadata node = record {
    available_space = node.available_space;
    total_number_of_storage_requests = node.total_number_of_storage_request;
    addr = joined node.hostname node.port;
    files = [];
    request_type = replica;
    sender_addr = env.net.self;
    receiver_addr = metadata.addr;
  }

  -- Its loop.
  unfoldable pub send_nodes : StorageNodesMetadata → Dict Text StorageNodeInfo → Action Unit
  send_nodes metadata [] = pure tt
  send_nodes metadata ((addr, node) ∷ nodes) = do
    sent ← send_to env metadata.sender_addr (storage_nodes_metadata (node_message metadata node))
    or_leave sent (send_nodes metadata nodes)

  unfoldable pub get_active_storage_node_info_for_client : StorageNodesMetadata → Action Unit
  unfolding send_nodes
  get_active_storage_node_info_for_client metadata = do
    nodes ← gets (λ c. c.active_nodes_map)
    send_nodes metadata nodes

  -- getAndSendFilesWithinFolder
  unfoldable pub get_and_send_files_within_folder : Request → Action Unit
  unfolding get_files_within_folder
  get_and_send_files_within_folder request = do
    files ← get_files_within_folder request.description
    sent ← send_to env request.sender_addr (
        response (record {
          msg_type = success;
          description = request.description ++ (codes " \n " ++ join_words files);
        }))
    pure tt

  -- sendStorageNodeDeleteRequest, to the first node of the chunk; a chunk with no node panics.
  unfoldable pub delete_request : Text → Text → List Text → Action Unit
  delete_request filename chunk_filename [] = fail panicked
  delete_request filename chunk_filename (main_node ∷ replicas) = do
    sent ← send_to env main_node (
        chunk_metadata (record {
          file_name = filename;
          locations = some (record { chunk_filename = chunk_filename; replicas = replicas });
          chunk_size = 0;
          checksum = [];
          request_type = RequestType.delete;
          sender_addr = env.net.self;
          receiver_addr = main_node;
          file_extension = [];
        }))
    pure tt

  unfoldable pub send_storage_node_delete_request : Text → Text → Action Unit
  unfolding delete_request
  send_storage_node_delete_request filename chunk_filename = do
    nodes ← gets (λ c. Dict.keys (nodes_of filename chunk_filename c.file_chunk_map))
    delete_request filename chunk_filename nodes

  -- deleteFromStorageNodes
  unfoldable pub delete_chunks : Text → ChunkMap → Action Unit
  unfolding send_storage_node_delete_request
  delete_chunks filename [] = pure tt
  delete_chunks filename ((chunk_filename, nodes) ∷ chunks) = do
    send_storage_node_delete_request filename chunk_filename
    delete_chunks filename chunks

  unfoldable pub delete_from_storage_nodes : FileMetaData → Action Unit
  unfolding delete_chunks
  delete_from_storage_nodes msg = do
    chunks ← gets (λ c. chunks_of msg.file_name c.file_chunk_map)
    delete_chunks msg.file_name chunks

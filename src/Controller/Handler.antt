-- ===== src/Controller/Handler.antt =====
-- handleClientRequest of controller.go.
pub mod Aliased
pub mod Found
pub mod Known
pub mod Removed
pub mod Unknown
use hdfs_in_golang.Base.{
  ℕ, Bool, true, false, not, ◌&&◌, ◌||◌, Option, none, some, List, [], ◌∷◌, ◌++◌, list_eq, nat_eq,
  if◌then◌else◌,
}
use hdfs_in_golang.Base.Dict
use hdfs_in_golang.Base.Exec.{fatal, fail, pure, gets, ◌>>=◌, ◌>>◌}
use hdfs_in_golang.Text.{Text, codes}
use hdfs_in_golang.Proto.{
  FileMetaData, StorageNodesMetadata, RequestType, write, delete, success, error, Wrapper,
  file_metadata, chunk_metadata, storage_nodes_metadata, response, request, empty,
}
use hdfs_in_golang.Controller.{Controller, Env, Action, bf_get, bf_put, rlock_active_nodes}
use hdfs_in_golang.Controller.Metadata.{get_file_metadata, save_file_metadata, delete_file_metadata}
use hdfs_in_golang.Controller.Placement.{get_storage_nodes_for_client}
use hdfs_in_golang.Controller.Heartbeat.{save_storage_node_info}
use hdfs_in_golang.Controller.Replies.{
  send_storage_nodes_to_client, send_file_metadata_to_client, send_replicas_to_storage_node,
  send_messages_to_client, get_active_storage_node_info_for_client,
  get_and_send_files_within_folder, delete_from_storage_nodes,
}

-- The texts of the replies.
abbrev pub already_present : FileMetaData → Text
already_present msg =
    msg.file_name ++ (msg.file_extension ++ codes " with similar name already present")

abbrev pub not_found : FileMetaData → Text
not_found msg = codes "File " ++ (msg.file_name ++ (msg.file_extension ++ codes " not found"))

abbrev pub removed : FileMetaData → Text
removed msg = codes "Successfully removed " ++ msg.file_name

module _ (env : Env) where
  -- found := bf.Get(name); _, prs := fileMap[name]; found && prs
  unfoldable pub is_present : Text → Action Bool
  is_present name = do
    found ← bf_get env name
    prs ← gets (λ c. Dict.has name c.file_map)
    pure (found && prs)

  -- The branch that saves a new file.
  unfoldable pub accept_file : List ℕ → FileMetaData → Action Unit
  accept_file draws msg = do
    save_file_metadata env msg
    bf_put env msg.file_name
    send_storage_nodes_to_client env draws msg

  -- The branch that deletes a file.
  unfoldable pub remove_file : FileMetaData → Action Unit
  remove_file msg = do
    delete_from_storage_nodes env msg
    delete_file_metadata msg
    send_messages_to_client env success msg.sender_addr (removed msg)

  -- The branch that tells where a file is.
  unfoldable pub retrieve_file : FileMetaData → Action Unit
  retrieve_file msg = do
    msg₁ ← get_file_metadata msg
    msg₂ ← get_storage_nodes_for_client msg₁
    send_file_metadata_to_client env msg₂

  unfoldable pub handle_write : List ℕ → FileMetaData → Action Unit
  handle_write draws msg = do
    present ← is_present msg.file_name
    if present
        then (send_messages_to_client env error msg.sender_addr (already_present msg))
        else accept_file draws msg

  unfoldable pub handle_delete : FileMetaData → Action Unit
  handle_delete msg = do
    present ← is_present msg.file_name
    if present
        then remove_file msg
        else (send_messages_to_client env error msg.sender_addr (not_found msg))

  unfoldable pub handle_read : FileMetaData → Action Unit
  handle_read msg = do
    present ← is_present msg.file_name
    if present
        then retrieve_file msg
        else (send_messages_to_client env error msg.sender_addr (not_found msg))

  -- The case of FileMetaData: a request type that is neither Write nor Delete is a read.
  unfoldable pub handle_file_metadata : List ℕ → FileMetaData → RequestType → Action Unit
  unfolding handle_write handle_delete handle_read
  handle_file_metadata draws msg write = handle_write draws msg
  handle_file_metadata draws msg delete = handle_delete msg
  handle_file_metadata draws msg _ = handle_read msg

  -- The case of StorageNodesMetadata.
  unfoldable pub handle_storage_nodes_metadata :
      ℕ → StorageNodesMetadata → RequestType → Action Unit
  handle_storage_nodes_metadata now msg write = save_storage_node_info env now msg
  handle_storage_nodes_metadata now msg _ = get_active_storage_node_info_for_client env msg

  -- One connection: the messages that Receive gives until the peer closes (`none` is one that
  -- proto.Unmarshal refused), the time, and the draws of rand.Intn. After the last message Receive
  -- gives an empty one. Each message first takes the lock for reading, for the log.
  unfoldable pub handle_client_request : ℕ → List ℕ → List (Option Wrapper) → Action Unit
  unfolding handle_file_metadata handle_storage_nodes_metadata
  handle_client_request now draws [] = rlock_active_nodes
  handle_client_request now draws (none ∷ wrappers) = fail fatal
  handle_client_request now draws (some (file_metadata msg) ∷ wrappers) =
      rlock_active_nodes >> handle_file_metadata draws msg msg.request_type
  handle_client_request now draws (some (storage_nodes_metadata msg) ∷ wrappers) =
      rlock_active_nodes >> handle_storage_nodes_metadata now msg msg.request_type
  handle_client_request now draws (some (chunk_metadata msg) ∷ wrappers) =
      rlock_active_nodes >> send_replicas_to_storage_node env msg
  handle_client_request now draws (some (request msg) ∷ wrappers) =
      rlock_active_nodes
      >> (get_and_send_files_within_folder env msg >> handle_client_request now draws wrappers)
  handle_client_request now draws (some empty ∷ wrappers) = rlock_active_nodes
  handle_client_request now draws (some (response msg) ∷ wrappers) =
      rlock_active_nodes >> handle_client_request now draws wrappers

-- ===== src/Controller/Consistency/Requests.antt =====
-- Every request that handleClientRequest answers leaves the controller consistent.
use hdfs_in_golang.Base.{
  ℕ, ◌+◌, ◌≡◌, subst, Bool, Option, none, some, List, [], ◌∷◌, nat_eq, list_eq, Bool-cases, inl,
  inr, if◌then◌else◌,
}
use hdfs_in_golang.Base.Dict
use hdfs_in_golang.Base.Dict.{Dict}
use hdfs_in_golang.Base.Exec.{ok, fatal, ◌>>=◌, ◌>>◌}
use hdfs_in_golang.Text.{Text}
use hdfs_in_golang.Controller.{
  Controller, ChunkMap, StorageNodeInfo, Env, Action, send_to, file_entry, chunk_entry,
  rlock_active_nodes,
}
use hdfs_in_golang.Text.Entry.{IsElement}
use hdfs_in_golang.Controller.Invariant.{IsConsistent, erase-IsIndexed}
use hdfs_in_golang.Controller.Consistency.{
  Survives, Keeps, Keeps-bind, Keeps-Quiet, Keeps-pure, Keeps-fail, Keeps-if, Keeps-readers,
  Keeps-rlock, keeps_rules,
}
use hdfs_in_golang.Proto.{
  Wrapper, FileMetaData, MsgType, StorageNodesMetadata, RequestType, write, delete, file_metadata,
  chunk_metadata, storage_nodes_metadata, response, request, empty, success,
}
use hdfs_in_golang.Controller.Metadata.{delete_chunk_file_info_from_disk, delete_file_metadata}
use hdfs_in_golang.Controller.Heartbeat.{
  get_and_save_chunk_info_to_memory, write_chunk_files, save_chunk_file_info_to_disk,
  save_storage_node_info, monitor_nodes,
}
use hdfs_in_golang.Controller.Replies.{
  node_message, or_leave, send_nodes, send_messages_to_client, get_and_send_files_within_folder,
  get_active_storage_node_info_for_client, send_storage_nodes_to_client, delete_from_storage_nodes,
}
use hdfs_in_golang.Controller.Quiet.{
  Quiet-send_to, Quiet-send_messages, Quiet-send_storage_nodes, Quiet-send_replicas, Quiet-folders,
  Quiet-delete_from_storage_nodes, Quiet-retrieval,
}
use hdfs_in_golang.Controller.Handler.{
  is_present, accept_file, remove_file, retrieve_file, handle_write, handle_delete, handle_read,
  handle_file_metadata, handle_storage_nodes_metadata, handle_client_request, removed,
}
use hdfs_in_golang.Controller.Consistency.Files.{
  deleted, delete_of_present, delete_of_unreported, delete_of_unsaved, saved, is_present-has,
  accept_file-saved, accept_file_fatal, saved-IsMirrored, deleted-IsMirrored,
}

module _ (env : Env) where
  accept-Keeps :
      (draws : List ℕ) (msg : FileMetaData)
      → IsElement msg.file_name
      → Keeps env (accept_file env draws msg)
  accept-Keeps draws msg one = record {
    at = λ c h. elim (Bool-cases (env.creates msg.file_name)) [
      | inl creates ↦
          let (bf, e, h₂) = accept_file-saved env c draws msg creates h.indexed in
          rw e (
            (Keeps-Quiet env (send_storage_nodes_to_client env draws msg)
                (Quiet-send_storage_nodes env draws msg)).at
              (saved msg bf c)
              (record { indexed = h₂; mirrored = saved-IsMirrored c msg bf one h.mirrored }))
      | inr refused ↦ rw (accept_file_fatal env c draws msg refused) tt
    ];
  }

  deleted-IsConsistent :
      (name : Text) (c : Controller)
      → IsElement name
      → IsConsistent env c
      → IsConsistent env (deleted name c)
  deleted-IsConsistent name c one h =
      let v = erase-IsIndexed env c name h.indexed in
      record {
        indexed = record { inserted = v.inserted; filter = v.filter; known = v.known };
        mirrored = deleted-IsMirrored name c one h.mirrored;
      }

  delete-Keeps : (name : Text) → IsElement name → Keeps env (delete_chunk_file_info_from_disk name)
  delete-Keeps name one = record {
    at = λ c h. elim (Bool-cases (Dict.has (chunk_entry name) c.chunk_metadata_dir)) [
      | inr unreported ↦ rw (delete_of_unreported name c unreported) tt
      | inl reported ↦ elim (Bool-cases (Dict.has (file_entry name) c.file_metadata_dir)) [
        | inr unsaved ↦ rw (delete_of_unsaved name c reported unsaved) tt
        | inl saved ↦
            rw (delete_of_present name c reported saved) (deleted-IsConsistent name c one h)
      ]
    ];
  }

  write_chunk_file-Keeps :
      (filename : Text) (chunks : ChunkMap) (d : Dict Text ChunkMap)
      → Keeps env (write_chunk_files env d)
      → Keeps env (write_chunk_files env ((filename, chunks) ∷ d))
  unfolding write_chunk_files
  write_chunk_file-Keeps filename chunks d ih = search keeps_rules depth 9

  write_chunk_files-Keeps : (d : Dict Text ChunkMap) → Keeps env (write_chunk_files env d)
  unfolding write_chunk_files
  write_chunk_files-Keeps [] = Keeps-pure env tt
  write_chunk_files-Keeps ((filename, chunks) ∷ d) =
      write_chunk_file-Keeps filename chunks d (write_chunk_files-Keeps d)

  memory-Keeps : (msg : StorageNodesMetadata) → Keeps env (get_and_save_chunk_info_to_memory msg)
  unfolding get_and_save_chunk_info_to_memory
  memory-Keeps msg = search keeps_rules depth 9

  disk-Keeps : Keeps env (save_chunk_file_info_to_disk env)
  unfolding save_chunk_file_info_to_disk
  disk-Keeps = search (keeps_rules, write_chunk_files-Keeps)

  pub heartbeat-Keeps :
      (now : ℕ) (msg : StorageNodesMetadata) → Keeps env (save_storage_node_info env now msg)
  unfolding save_storage_node_info
  heartbeat-Keeps now msg = search (keeps_rules, memory-Keeps, disk-Keeps) depth 9

  or_leave-Keeps :
      (sent : Option Bool) (next : Action Unit) → Keeps env next → Keeps env (or_leave sent next)
  unfolding or_leave
  or_leave-Keeps none next k = Keeps-readers env (λ c. c.active_nodes_readers + 1)
  or_leave-Keeps (some b) next k = k

  send_nodes-Keeps :
      (msg : StorageNodesMetadata) (nodes : Dict Text StorageNodeInfo)
      → Keeps env (send_nodes env msg nodes)
  unfolding send_nodes
  send_nodes-Keeps msg [] = Keeps-pure env tt
  send_nodes-Keeps msg ((addr, node) ∷ nodes) =
      let message = storage_nodes_metadata (node_message env msg node) in
      let rest = send_nodes-Keeps msg nodes in
      Keeps-bind env (send_to env msg.sender_addr message)
        (λ sent. or_leave sent (send_nodes env msg nodes))
        (Keeps-Quiet env _ (Quiet-send_to env msg.sender_addr message))
        (λ sent. or_leave-Keeps sent (send_nodes env msg nodes) rest)

  list-Keeps :
      (msg : StorageNodesMetadata) → Keeps env (get_active_storage_node_info_for_client env msg)
  unfolding get_active_storage_node_info_for_client
  list-Keeps msg = search (keeps_rules, send_nodes-Keeps)

  pub monitor-Keeps : (now : ℕ) → Keeps env (monitor_nodes now)
  unfolding monitor_nodes
  monitor-Keeps now = search keeps_rules depth 9

  delete_file-Keeps :
      (msg : FileMetaData) → IsElement msg.file_name → Keeps env (remove_file env msg)
  unfolding remove_file delete_file_metadata
  delete_file-Keeps msg one =
      let reply = removed msg in
      Keeps-bind env (delete_from_storage_nodes env msg) _
        (Keeps-Quiet env _ (Quiet-delete_from_storage_nodes env msg))
        (λ _.
          Keeps-bind env (delete_chunk_file_info_from_disk msg.file_name) _
            (delete-Keeps msg.file_name one)
            (λ _. Keeps-Quiet env _ (Quiet-send_messages env success msg.sender_addr reply)))

  retrieve-Keeps : (msg : FileMetaData) → Keeps env (retrieve_file env msg)
  unfolding retrieve_file
  retrieve-Keeps msg = Keeps-Quiet env _ (Quiet-retrieval env msg)

  -- A test of presence, and what is done with its answer.
  present-Keeps :
      (name : Text) (m n : Action Unit)
      → Keeps env m
      → Keeps env n
      → Keeps env (is_present env name >>= λ present. if present then m else n)
  present-Keeps name m n km kn = record {
    at = λ c h. rw (is_present-has env c name h.indexed) ((Keeps-if env _ m n km kn).at c h);
  }

  reply-Keeps :
      (t : MsgType) (addr description : Text)
      → Keeps env (send_messages_to_client env t addr description)
  reply-Keeps t addr description = Keeps-Quiet env _ (Quiet-send_messages env t addr description)

  write-Keeps :
      (draws : List ℕ) (msg : FileMetaData)
      → IsElement msg.file_name
      → Keeps env (handle_write env draws msg)
  unfolding handle_write
  write-Keeps draws msg one =
      present-Keeps msg.file_name _ _ (reply-Keeps _ _ _) (accept-Keeps draws msg one)

  remove-Keeps : (msg : FileMetaData) → IsElement msg.file_name → Keeps env (handle_delete env msg)
  unfolding handle_delete
  remove-Keeps msg one =
      present-Keeps msg.file_name _ _ (delete_file-Keeps msg one) (reply-Keeps _ _ _)

  read-Keeps : (msg : FileMetaData) → Keeps env (handle_read env msg)
  unfolding handle_read
  read-Keeps msg = present-Keeps msg.file_name _ _ (retrieve-Keeps msg) (reply-Keeps _ _ _)

  file-Keeps :
      (draws : List ℕ) (msg : FileMetaData) (t : RequestType)
      → IsElement msg.file_name
      → Keeps env (handle_file_metadata env draws msg t)
  unfolding handle_file_metadata
  file-Keeps draws msg write one = write-Keeps draws msg one
  file-Keeps draws msg delete one = remove-Keeps msg one
  file-Keeps draws msg _ one = read-Keeps msg

  node-Keeps :
      (now : ℕ) (msg : StorageNodesMetadata) (t : RequestType)
      → Keeps env (handle_storage_nodes_metadata env now msg t)
  unfolding handle_storage_nodes_metadata
  node-Keeps now msg write = heartbeat-Keeps now msg
  node-Keeps now msg _ = list-Keeps msg

  -- Every file that the messages name is one element of a path.
  abbrev pub AreElements : List (Option Wrapper) → Type 0
  AreElements [] = Unit
  AreElements (some (file_metadata msg) ∷ wrappers) = IsElement msg.file_name × AreElements wrappers
  AreElements (_ ∷ wrappers) = AreElements wrappers

  behind_lock : (m : Action Unit) → Keeps env m → Keeps env (rlock_active_nodes >> m)
  behind_lock m k = Keeps-bind env rlock_active_nodes (λ _. m) (Keeps-rlock env) (λ _. k)

  request-Keeps :
      (now : ℕ) (draws : List ℕ) (wrappers : List (Option Wrapper))
      → AreElements wrappers
      → Keeps env (handle_client_request env now draws wrappers)
  unfolding handle_client_request
  request-Keeps now draws [] one = Keeps-rlock env
  request-Keeps now draws (none ∷ wrappers) one = Keeps-fail env fatal
  request-Keeps now draws (some (file_metadata msg) ∷ wrappers) one =
      behind_lock _ (file-Keeps draws msg msg.request_type one.0)
  request-Keeps now draws (some (storage_nodes_metadata msg) ∷ wrappers) one =
      behind_lock _ (node-Keeps now msg msg.request_type)
  request-Keeps now draws (some (chunk_metadata msg) ∷ wrappers) one =
      behind_lock _ (Keeps-Quiet env _ (Quiet-send_replicas env msg))
  request-Keeps now draws (some (request msg) ∷ wrappers) one = behind_lock _ (
      Keeps-bind env (get_and_send_files_within_folder env msg)
        (λ _. handle_client_request env now draws wrappers)
        (Keeps-Quiet env _ (Quiet-folders env msg)) (λ _. request-Keeps now draws wrappers one))
  request-Keeps now draws (some empty ∷ wrappers) one = Keeps-rlock env
  request-Keeps now draws (some (response msg) ∷ wrappers) one =
      behind_lock _ (request-Keeps now draws wrappers one)

  -- A connection that was handled to its end, whatever messages it brought, leaves a consistent
  -- controller consistent, if every file name in them is one element of a path (no slash, not
  -- empty, neither `.` nor `..`): the Bloom filter knows every file of the table, no name is twice in
  -- the table, and the folder FileMetaData holds exactly the files of the table's entries.
  pub handle_client_request-IsConsistent :
      (now : ℕ) (draws : List ℕ) (wrappers : List (Option Wrapper)) (c : Controller)
      → AreElements wrappers
      → IsConsistent env c
      → (handle_client_request env now draws wrappers c).0 ≡ ok tt
      → IsConsistent env (handle_client_request env now draws wrappers c).1
  handle_client_request-IsConsistent now draws wrappers c one h e =
      let s = (request-Keeps now draws wrappers one).at c h in
      subst (λ r. Survives env r (handle_client_request env now draws wrappers c).1) e s

-- ===== src/Controller/Concurrent.antt =====
-- The connections that handleClientRequest of controller.go serves at the same time, one goroutine
-- each: the case of FileMetadata as the steps between which other goroutines run.
pub mod Spared
pub mod Twice
pub mod Effects
pub mod Indexed
use hdfs_in_golang.Base.{
  ℕ, zero, suc, ◌≡◌, Bool, true, false, ◌&&◌, List, [], nat_eq, list_eq, ◌==◌, if◌then◌else◌,
}
use hdfs_in_golang.Base.Dict
use hdfs_in_golang.Base.Dict.{Dict}
use hdfs_in_golang.Text.{Text}
use hdfs_in_golang.Base.Exec.{ok, err, stalled, fail, pure, gets, modify, handle_error, ◌>>=◌, ◌>>◌}
use hdfs_in_golang.Proto.{
  FileMetaData, StorageNodesMetadata, RequestType, write, delete, success, error,
}
use hdfs_in_golang.Controller.{file_entry, Controller, StorageNodeInfo, Env, Action, bf_get, bf_put}
use hdfs_in_golang.Controller.Metadata.{
  info_of, metadata_text, get_file_metadata, remove_chunk_metadata, remove_file_metadata,
}
use hdfs_in_golang.Controller.Placement.{get_storage_nodes_for_client}
use hdfs_in_golang.Controller.Heartbeat.{monitor_nodes}
use hdfs_in_golang.Controller.Replies.{
  send_storage_nodes_to_client, send_file_metadata_to_client, send_messages_to_client,
  delete_from_storage_nodes,
}
use hdfs_in_golang.Controller.Handler.{
  already_present, not_found, removed, handle_storage_nodes_metadata,
}

-- Where a goroutine is in the case of FileMetadata, with the draws of rand.Intn that it will make.
-- `looked` has the answer of the filter, `tested` that of both tests; then, of a write, `entered`
-- is after the entry of fileMap, `filed` after the file, `noted` after bf.Put; of a delete,
-- `dismissed` is after the nodes were told, `unreported` and `forgotten` after the two parts of
-- deleteChunkFileInfoFromDisk; of a read, `described` is after getFileMetadata and `located` after
-- getStorageNodesForClient.
pub data Pc : Type 0 where
  idle : Pc
  arrived : List ℕ → FileMetaData → Pc
  looked tested : List ℕ → FileMetaData → Bool → Pc
  entered filed noted : List ℕ → FileMetaData → Pc
  dismissed unreported forgotten : FileMetaData → Pc
  described located : FileMetaData → Pc

module _ (env : Env) where
  -- What follows the tests.
  unfoldable pub choose : List ℕ → FileMetaData → RequestType → Bool → Action Pc
  choose draws msg write true = do
    send_messages_to_client env error msg.sender_addr (already_present msg)
    pure idle
  choose draws msg write false = do
    modify (λ c. record c { file_map = Dict.insert msg.file_name (info_of msg) c.file_map })
    pure (entered draws msg)
  choose draws msg delete true = do delete_from_storage_nodes env msg; pure (dismissed msg)
  choose draws msg _ true = do msg₁ ← get_file_metadata msg; pure (described msg₁)
  choose draws msg _ false = do
    send_messages_to_client env error msg.sender_addr (not_found msg)
    pure idle

  -- One step of a goroutine.
  unfoldable pub move : Pc → Action Pc
  unfolding choose
  move idle = pure idle
  move (arrived draws msg) = do found ← bf_get env msg.file_name; pure (looked draws msg found)
  move (looked draws msg found) = do
    prs ← gets (λ c. Dict.has msg.file_name c.file_map)
    pure (tested draws msg (found && prs))
  move (tested draws msg present) = choose draws msg msg.request_type present
  move (entered draws msg) = do
    handle_error (env.creates msg.file_name)
    modify (λ c. record c {
      file_metadata_dir =
          Dict.insert (file_entry msg.file_name) (metadata_text msg.file_name (info_of msg))
            c.file_metadata_dir;
    })
    pure (filed draws msg)
  move (filed draws msg) = do bf_put env msg.file_name; pure (noted draws msg)
  move (noted draws msg) = do send_storage_nodes_to_client env draws msg; pure idle
  move (dismissed msg) = do
    removed ← remove_chunk_metadata msg.file_name
    modify (λ c. record c { file_chunk_map = Dict.erase msg.file_name c.file_chunk_map })
    handle_error removed
    pure (unreported msg)
  move (unreported msg) = do
    removed ← remove_file_metadata msg.file_name
    modify (λ c. record c { file_map = Dict.erase msg.file_name c.file_map })
    handle_error removed
    pure (forgotten msg)
  move (forgotten msg) = do
    send_messages_to_client env success msg.sender_addr (removed msg)
    pure idle
  move (described msg) = do msg₁ ← get_storage_nodes_for_client msg; pure (located msg₁)
  move (located msg) = do send_file_metadata_to_client env msg; pure idle

-- The controller and its goroutines; a number that no connection has is `idle`.
pub record System : Type 0 where
  pub controller : Controller
  pub at : ℕ → Pc

abbrev pub update : (ℕ → Pc) → ℕ → Pc → ℕ → Pc
update pcs i p j = if j == i then p else pcs j

module _ (env : Env) where
  -- A new connection with the metadata of a file, a step of a goroutine that does not end the
  -- process, a heartbeat or a request for the nodes that is handled at once, a round of the
  -- monitor, or a heartbeat or a round that waits for the lock from then on. A connection first
  -- takes the lock for reading, so no writer may be waiting.
  pub data Step (s : System) : System → Type 0 where
    accept :
        (i : ℕ) (draws : List ℕ) (msg : FileMetaData)
        → s.at i ≡ idle
        → s.controller.active_nodes_writers ≡ 0
        → Step s (record s { at = update s.at i (arrived draws msg) })
    pick :
        (i : ℕ) (p : Pc) (c : Controller)
        → move env (s.at i) s.controller ≡ (ok p, c)
        → Step s (record { controller = c; at = update s.at i p })
    report :
        (now : ℕ) (msg : StorageNodesMetadata) (c : Controller)
        → s.controller.active_nodes_writers ≡ 0
        → handle_storage_nodes_metadata env now msg msg.request_type s.controller ≡ (ok tt, c)
        → Step s (record s { controller = c })
    tick :
        (now : ℕ) (dead : Dict Text StorageNodeInfo) (c : Controller)
        → monitor_nodes now s.controller ≡ (ok dead, c)
        → Step s (record s { controller = c })
    wait_report :
        (now : ℕ) (msg : StorageNodesMetadata) (c : Controller)
        → s.controller.active_nodes_writers ≡ 0
        → handle_storage_nodes_metadata env now msg msg.request_type s.controller ≡ (err stalled, c)
        → Step s (record s { controller = c })
    wait_tick :
        (now : ℕ) (c : Controller)
        → monitor_nodes now s.controller ≡ (err stalled, c)
        → Step s (record s { controller = c })

  -- What comes of a controller that serves no connection.
  pub data Reach (c : Controller) : System → Type 0 where
    begin : Reach c (record { controller = c; at = λ i. idle })
    later : {s t : System} → Reach c s → Step s t → Reach c t

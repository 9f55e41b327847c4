-- ===== src/Controller/Heartbeat.antt =====
-- Heartbeats of storage nodes: getAndSaveChunkInfoToMemory, saveChunkFileInfoToDisk,
-- saveStorageNodeInfo and monitorNodes of controller.go.
pub mod Reports
pub mod Monitor
use mathlib.Core.Option
use hdfs_in_golang.Base.{
  ℕ, ◌+◌, ◌-◌, ◌*◌, Bool, true, false, Option, none, some, List, [], ◌∷◌, ◌++◌, ltb, nat_eq,
  list_eq, if◌then◌else◌,
}
use hdfs_in_golang.Base.Dict
use hdfs_in_golang.Base.Dict.{Dict}
use hdfs_in_golang.Base.Exec.{ok, err, pure, gets, modify, or_panic, handle_error, ◌>>=◌, ◌>>◌}
use hdfs_in_golang.Text.{Text, codes}
use hdfs_in_golang.Proto.{StorageNodesMetadata, ChunkFileInfo}
use hdfs_in_golang.Network.{address, heartbeat_per_sec}
use hdfs_in_golang.Controller.{
  chunk_entry, Controller, ChunkMap, ChunksInfo, StorageNodeInfo, Env, Action, lock_active_nodes,
}
use hdfs_in_golang.Controller.Placement.{chunks_of, nodes_of}

-- fileChunkMap[filename][chunkFileName][addr] = path, where the two inner maps are made if missing.
unfoldable pub record_chunk : Text → ChunkFileInfo → Dict Text ChunkMap → Dict Text ChunkMap
record_chunk addr info d =
    Dict.insert info.filename
      (Dict.insert info.chunk_filename
        (Dict.insert addr info.chunk_filepath (nodes_of info.filename info.chunk_filename d))
        (chunks_of info.filename d))
      d

-- The loop of getAndSaveChunkInfoToMemory.
unfoldable pub record_chunks : Text → List ChunkFileInfo → Dict Text ChunkMap → Dict Text ChunkMap
record_chunks addr [] d = d
record_chunks addr (info ∷ files) d = record_chunks addr files (record_chunk addr info d)

abbrev chunks_info : List ChunkFileInfo → List ChunksInfo
chunks_info [] = []
chunks_info (info ∷ files) =
    record {
      filename = info.filename;
      chunk_file_name = info.chunk_filename;
      chunk_file_path = info.chunk_filepath;
    }
    ∷ chunks_info files

-- fmt.Sprintf("%s:%s", hostname, port)
abbrev pub joined : Text → Text → Text
joined hostname port = hostname ++ b':' ∷ port

unfoldable pub get_and_save_chunk_info_to_memory : StorageNodesMetadata → Action (List ChunksInfo)
get_and_save_chunk_info_to_memory metadata = do
  (hostname, port) ← or_panic (address metadata.addr)
  modify (λ c. record c {
    file_chunk_map = record_chunks (joined hostname port) metadata.files c.file_chunk_map;
  })
  pure (chunks_info metadata.files)

-- One line for each node of a chunk; an address without a colon panics.
unfoldable pub node_lines : Text → Text → Dict Text Text → Option Text
node_lines filename chunk_filename [] = some []
node_lines filename chunk_filename ((addr, path) ∷ nodes) =
    let rest = node_lines filename chunk_filename nodes in
    elim (address addr) [
      | none ↦ none
      | some (host, port) ↦
          Option.map
            (λ text.
              filename
              ++ (codes ", "
                  ++ (chunk_filename
                      ++ (codes ", "
                          ++ (path
                              ++ (codes ", "
                                  ++ (host ++ (codes ", " ++ (port ++ b'\n' ∷ text)))))))))
            rest
    ]

unfoldable pub chunk_lines : Text → ChunkMap → Option Text
unfolding node_lines
chunk_lines filename [] = some []
chunk_lines filename ((chunk_filename, nodes) ∷ chunks) =
    Option.bind (node_lines filename chunk_filename nodes)
      λ text. Option.map (λ rest. text ++ rest) (chunk_lines filename chunks)

module _ (env : Env) where
  -- The loop of saveChunkFileInfoToDisk: a file of the folder ChunkStorageNodeMetadata for each
  -- file name.
  unfoldable pub write_chunk_files : Dict Text ChunkMap → Action Unit
  write_chunk_files [] = pure tt
  write_chunk_files ((filename, chunks) ∷ d) = do
    handle_error (env.creates filename)
    text ← or_panic (chunk_lines filename chunks)
    modify (λ c. record c {
      chunk_metadata_dir = Dict.insert (chunk_entry filename) text c.chunk_metadata_dir;
    })
    write_chunk_files d

  unfoldable pub save_chunk_file_info_to_disk : Action Unit
  unfolding write_chunk_files
  save_chunk_file_info_to_disk = do d ← gets (λ c. c.file_chunk_map); write_chunk_files d

  -- saveStorageNodeInfo, at the time `now`.
  unfoldable pub save_storage_node_info : ℕ → StorageNodesMetadata → Action Unit
  save_storage_node_info now metadata = do
    (hostname, port) ← or_panic (address metadata.addr)
    chunks ← get_and_save_chunk_info_to_memory metadata
    save_chunk_file_info_to_disk
    lock_active_nodes
    modify (λ c. record c {
      active_nodes_map =
          Dict.insert (joined hostname port)
            (record {
              available_space = metadata.available_space;
              total_number_of_storage_request = metadata.total_number_of_storage_requests;
              hostname = hostname;
              port = port;
              last_heartbeat_time = now;
              files = chunks;
            })
            c.active_nodes_map;
    })

-- timeDiff > 2*HEARTBEAT_PER_SEC, for times in nanoseconds.
unfoldable pub is_down : ℕ → StorageNodeInfo → Bool
is_down now node =
    ltb (2 * heartbeat_per_sec * 1_000_000_000)
      ((now - node.last_heartbeat_time) + (node.last_heartbeat_time - now))

-- The loop of monitorNodes: the nodes that stay, and deadNodes.
unfoldable pub part_nodes :
    ℕ → Dict Text StorageNodeInfo → Dict Text StorageNodeInfo × Dict Text StorageNodeInfo
part_nodes now [] = ([], [])
part_nodes now ((addr, node) ∷ nodes) =
    let rest = part_nodes now nodes in
    if is_down now node then (rest.0, (addr, node) ∷ rest.1) else ((addr, node) ∷ rest.0, rest.1)

-- monitorNodes up to the goroutine that handles the dead nodes, which it returns.
unfoldable pub monitor_nodes : ℕ → Action (Dict Text StorageNodeInfo)
monitor_nodes now = do
  lock_active_nodes
  parts ← gets (λ c. part_nodes now c.active_nodes_map)
  modify (λ c. record c { active_nodes_map = parts.0 })
  pure parts.1

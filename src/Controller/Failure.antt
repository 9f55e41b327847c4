-- ===== src/Controller/Failure.antt =====
-- Replacing the replicas of a node that failed: replaceFailedNode, sendReplicationMessage,
-- handleFailedNodes and handleDeadNodes of controller.go.
pub mod Replace
use hdfs_in_golang.Base.{
  ℕ, Bool, true, false, not, ◌&&◌, ◌||◌, Option, none, some, List, [], ◌∷◌, ◌++◌, ltb, ◌==◌, nat_eq,
  list_eq, contains, length, get_elem?, if◌then◌else◌,
}
use hdfs_in_golang.Base.Dict
use hdfs_in_golang.Base.Dict.{Dict}
use hdfs_in_golang.Base.Exec.{Outcome, ok, err, panicked, stalled, pure, gets, modify, ◌>>=◌, ◌>>◌}
use hdfs_in_golang.Text.{Text}
use hdfs_in_golang.Proto.{ChunkMetaData, ChunkStorageLocations, chunk_metadata, replica}
use hdfs_in_golang.Network.{max_replicas}
use hdfs_in_golang.Controller.{
  Controller, ChunkMap, ChunksInfo, StorageNodeInfo, Env, Action, send_to,
}
use hdfs_in_golang.Controller.Placement.{add, nodes_of}

-- delete(fileChunkMap[filename][chunkFilename], addr), on the map that is shared: a missing map
-- stays missing.
abbrev forget_in : Text → Text → ChunkMap → Option (Dict Text Text) → ChunkMap
forget_in chunk_filename addr chunks none = chunks
forget_in chunk_filename addr chunks (some nodes) =
    Dict.insert chunk_filename (Dict.erase addr nodes) chunks

abbrev forget_of : Text → Text → Text → Dict Text ChunkMap → Option ChunkMap → Dict Text ChunkMap
forget_of filename chunk_filename addr d none = d
forget_of filename chunk_filename addr d (some chunks) =
    Dict.insert filename (forget_in chunk_filename addr chunks (Dict.lookup chunk_filename chunks))
      d

unfoldable pub forget_node : Text → Text → Text → Dict Text ChunkMap → Dict Text ChunkMap
forget_node filename chunk_filename addr d =
    forget_of filename chunk_filename addr d (Dict.lookup filename d)

-- The loop that draws a new replication node, over `workingChunkNodes` and the node found so far
-- (the empty text at first). `holders` are the nodes in the shared map.
unfoldable pub draw_replacement :
    List ℕ → List Text → List Text → Text → List Text → Text → Outcome Text
draw_replacement [] keys holders failed working found = err stalled
draw_replacement (draw ∷ draws) keys holders failed working found = elim (get_elem? keys draw) [
  | none ↦ err panicked
  | some loc ↦
      let working' = add loc working in
      let found' = if contains holders loc then found else loc in
      let again = draw_replacement draws keys holders failed working found in
      let more = draw_replacement draws keys holders failed working' found' in
      if loc == failed
      then again
      else if length working' == max_replicas || ltb (length keys) max_replicas
      then ok found'
      else more
]

abbrev lift : {A : Type 0} → Outcome A → Action A
lift r c = (r, c)

module _ (env : Env) where
  -- sendReplicationMessage: every failure but an address without a colon is passed over.
  unfoldable pub send_replication_message : ChunkMetaData → Text → Action Unit
  send_replication_message metadata loc = do
    sent ← send_to env loc (chunk_metadata metadata)
    pure tt

  unfoldable pub replace_failed_node : List ℕ → Text → Text → Text → Action Unit
  unfolding send_replication_message
  replace_failed_node draws filename chunk_filename failed = do
    modify (λ c. record c {
      file_chunk_map = forget_node filename chunk_filename failed c.file_chunk_map;
    })
    holders ← gets (λ c. Dict.keys (nodes_of filename chunk_filename c.file_chunk_map))
    keys ← gets (λ c. Dict.keys c.active_nodes_map)
    found ← lift (draw_replacement draws keys holders failed holders [])
    send_replication_message
        (record {
          file_name = filename;
          locations = some (record { chunk_filename = chunk_filename; replicas = holders });
          chunk_size = 0;
          checksum = [];
          request_type = replica;
          sender_addr = env.net.self;
          receiver_addr = found;
          file_extension = [];
        })
        found

  -- The draws of each replacement, by the file, the chunk and the failed node.
  module _ (draws : Text → Text → Text → List ℕ) where
    unfoldable pub handle_failed_nodes : Text → List ChunksInfo → Action Unit
    handle_failed_nodes failed [] = pure tt
    handle_failed_nodes failed (file ∷ files) = do
      replace_failed_node (draws file.filename file.chunk_file_name failed) file.filename
          file.chunk_file_name failed
      handle_failed_nodes failed files

    unfoldable pub handle_dead_nodes : Dict Text StorageNodeInfo → Action Unit
    unfolding handle_failed_nodes
    handle_dead_nodes [] = pure tt
    handle_dead_nodes ((addr, node) ∷ nodes) = do
      handle_failed_nodes addr node.files
      handle_dead_nodes nodes

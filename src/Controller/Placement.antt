-- ===== src/Controller/Placement.antt =====
-- Where chunks are: getRandomStorageNodes, getStorageNodes, getStorageNodesForClient and
-- getReplicasForStorageNode of controller.go.
pub mod Draws
pub mod Locations
use mathlib.Core.Option
use hdfs_in_golang.Base.{
  ℕ, ◌+◌, Bool, true, false, not, ◌||◌, Option, none, some, List, [], ◌∷◌, ◌++◌, ltb, ◌==◌, nat_eq,
  list_eq, contains, length, get_elem?, set, replicate, if◌then◌else◌,
}
use hdfs_in_golang.Base.Dict
use hdfs_in_golang.Base.Dict.{Dict}
use hdfs_in_golang.Base.Exec.{Outcome, ok, err, panicked, stalled, gets, pure, or_panic, ◌>>=◌}
use hdfs_in_golang.Text.{Text}
use hdfs_in_golang.Proto.{FileMetaData, ChunkMetaData, ChunkStorageLocations, get_chunk_filename}
use hdfs_in_golang.Network.{max_replicas}
use hdfs_in_golang.Controller.{Controller, ChunkMap, StorageNodeInfo, Action}

-- A Go map without values: the keys, each once.
abbrev pub add : Text → List Text → List Text
add loc nodes = if contains nodes loc then nodes else nodes ++ loc ∷ []

-- The loop of getStorageNodes. Each round draws an index of `keys` by rand.Intn, which panics if
-- there is no key; a list of draws that is used up stands for a loop that goes on.
unfoldable pub draw_nodes : List ℕ → List Text → List Text → Outcome (List Text)
draw_nodes [] keys nodes = err stalled
draw_nodes (draw ∷ draws) keys nodes = elim (get_elem? keys draw) [
  | none ↦ err panicked
  | some loc ↦
      let nodes' = add loc nodes in
      let more = draw_nodes draws keys nodes' in
      if length nodes' == max_replicas || ltb (length keys) max_replicas then ok nodes' else more
]

-- getStorageNodes: every chunk is given the same nodes, and no chunk has a name yet.
abbrev pub placed : List Text → Option ChunkStorageLocations
placed nodes = some (record { chunk_filename = []; replicas = nodes })

unfoldable pub get_storage_nodes : List ℕ → ℕ → Action (List (Option ChunkStorageLocations))
get_storage_nodes draws total c = elim (draw_nodes draws (Dict.keys c.active_nodes_map) []) [
  | ok nodes ↦ (ok (replicate total (placed nodes)), c)
  | err e ↦ (err e, c)
]

-- One entry of fileChunkMap[filename] as a message.
abbrev pub located : Text → Dict Text Text → Option ChunkStorageLocations
located chunk_filename storage_info =
    some (record { chunk_filename = chunk_filename; replicas = Dict.keys storage_info })

-- The loop of getStorageNodesForClient: a write behind the end of the slice panics.
unfoldable pub fill_locations :
    ChunkMap
    → ℕ
    → List (Option ChunkStorageLocations)
    → Outcome (List (Option ChunkStorageLocations))
fill_locations [] i locations = ok locations
fill_locations ((chunk_filename, storage_info) ∷ chunks) i locations =
    let more =
      fill_locations chunks (i + 1) (set locations i (located chunk_filename storage_info)) in
    if ltb i (length locations) then more else err panicked

-- fileChunkMap[filename], where a missing key reads as an empty map.
unfoldable pub chunks_of : Text → Dict Text ChunkMap → ChunkMap
chunks_of filename d = Option.get_or (Dict.lookup filename d) []

-- fileChunkMap[filename][chunkFilename]
unfoldable pub nodes_of : Text → Text → Dict Text ChunkMap → Dict Text Text
unfolding chunks_of
nodes_of filename chunk_filename d =
    Option.get_or (Dict.lookup chunk_filename (chunks_of filename d)) []

unfoldable pub get_storage_nodes_for_client : FileMetaData → Action FileMetaData
get_storage_nodes_for_client msg c =
    elim (fill_locations (chunks_of msg.file_name c.file_chunk_map) 0
      (replicate msg.total_chunks none)) [
        | ok locations ↦ (ok (record msg { locations = locations }), c)
        | err e ↦ (err e, c)
      ]

-- The addresses but the sender's, in order.
unfoldable pub others : Text → List Text → List Text
others sender [] = []
others sender (addr ∷ addrs) =
    let rest = others sender addrs in if addr == sender then rest else addr ∷ rest

abbrev with_replicas :
    ChunkMetaData → List Text → Option ChunkStorageLocations → Option ChunkMetaData
with_replicas msg nodes none = none
with_replicas msg nodes (some l) =
    some (record msg { locations = some (record l { replicas = nodes }) })

-- getReplicasForStorageNode; a message with no locations is a nil dereference.
unfoldable pub get_replicas_for_storage_node : ChunkMetaData → Action ChunkMetaData
unfolding nodes_of others
get_replicas_for_storage_node msg = do
  nodes ← gets (λ c.
      others msg.sender_addr
        (Dict.keys (nodes_of msg.file_name (get_chunk_filename msg.locations) c.file_chunk_map)))
  or_panic (with_replicas msg nodes msg.locations)

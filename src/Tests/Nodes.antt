-- ===== src/Tests/Nodes.antt =====
-- Examples for the storage nodes that the controller knows.
use hdfs_in_golang.Base.{
  ◌≡◌, refl, true, false, not, ◌&&◌, none, some, List, [], ◌∷◌, arith, ◌==◌, nat_eq, list_eq,
  contains,
}
use hdfs_in_golang.Base.Dict
use hdfs_in_golang.Base.Dict.{Dict}
use hdfs_in_golang.Base.Exec.{ok, err, panicked, stalled}
use hdfs_in_golang.Text.{Text, codes, split}
use hdfs_in_golang.Network.{address}
use hdfs_in_golang.Proto.{ChunkMetaData, ChunkFileInfo, RequestType, read, file_metadata}
use hdfs_in_golang.Controller.Handler.{handle_client_request}
use hdfs_in_golang.Controller.{Controller, ChunkMap, StorageNodeInfo, FileInfo, start}
use hdfs_in_golang.Controller.Placement.{
  placed, get_storage_nodes, get_storage_nodes_for_client, get_replicas_for_storage_node, chunks_of,
  nodes_of,
}
use hdfs_in_golang.Controller.Placement.Draws.{IsChoice, picked, get_storage_nodes-IsChoice}
use hdfs_in_golang.Controller.Placement.Locations.{
  locations_of, get_storage_nodes_for_client-locations, get_storage_nodes_for_client-panics,
  get_replicas_for_storage_node_lem,
}
use hdfs_in_golang.Controller.Heartbeat.{record_chunks, monitor_nodes}
use hdfs_in_golang.Controller.Heartbeat.Reports.{path_on, reported, path_on-record_chunks}
use hdfs_in_golang.Controller.Heartbeat.Monitor.{
  kept, monitor_nodes_lem, monitor_nodes_after_lost_client, handle_client_request_after_lost_client,
}
use hdfs_in_golang.Controller.Failure.{draw_replacement, forget_node, replace_failed_node}
use hdfs_in_golang.Controller.Failure.Replace.{draw_replacement_lem, replace_failed_node_panics}
use hdfs_in_golang.Controller.Replies.{files_within, get_active_storage_node_info_for_client}
use hdfs_in_golang.Controller.Replies.Folders.{contains-files_within}
use hdfs_in_golang.Tests.{env, node, wanted, entry, idle, question}

-- Four nodes, the first of which was last heard of long ago.
abbrev nodes : Dict Text StorageNodeInfo
nodes =
    (codes "a:7", node 0 (codes "a"))
    ∷ (codes "b:7", node 90_000_000_000 (codes "b"))
    ∷ (codes "c:7", node 95_000_000_000 (codes "c"))
    ∷ (codes "d:7", node 99_000_000_000 (codes "d"))
    ∷ []

abbrev busy : Controller
busy = record idle { active_nodes_map = nodes }

abbrev names : List Text
names = codes "a:7" ∷ codes "b:7" ∷ codes "c:7" ∷ codes "d:7" ∷ []

get_storage_nodes-IsChoice_example :
    (chosen : List Text) × (get_storage_nodes (3 ∷ 3 ∷ 0 ∷ 3 ∷ 2 ∷ []) 2 busy
      ≡ (ok (placed chosen ∷ placed chosen ∷ []), busy))
    × IsChoice names 3 chosen
unfolding picked nat_eq list_eq Dict.keys
get_storage_nodes-IsChoice_example =
    get_storage_nodes-IsChoice busy (3 ∷ 3 ∷ 0 ∷ 3 ∷ 2 ∷ []) 2 (omega arith) (omega arith)

-- Two chunks of the file `logs`, the first of which stands on two nodes.
abbrev chunks : Dict Text ChunkMap
chunks =
    (
      codes "logs",
      (codes "logs_0", (codes "a:7", codes "/d/logs_0") ∷ (codes "b:7", codes "/e/logs_0") ∷ [])
          ∷ (codes "logs_1", (codes "c:7", codes "/d/logs_1") ∷ [])
          ∷ [],
    )
    ∷ []

abbrev stored : Controller
stored = record busy { file_chunk_map = chunks }

get_storage_nodes_for_client-locations_example :
    get_storage_nodes_for_client (record (wanted read) { total_chunks = 3 }) stored ≡ (
      ok (record (wanted read) {
        total_chunks = 3;
        locations =
            some (record {
              chunk_filename = codes "logs_0";
              replicas = codes "a:7" ∷ codes "b:7" ∷ [];
            })
            ∷ some (record { chunk_filename = codes "logs_1"; replicas = codes "c:7" ∷ [] })
            ∷ none
            ∷ [];
      }),
      stored,
    )
unfolding locations_of chunks_of Dict.lookup Dict.keys nat_eq list_eq
get_storage_nodes_for_client-locations_example =
    get_storage_nodes_for_client-locations (record (wanted read) { total_chunks = 3 }) stored
      (omega arith)

get_storage_nodes_for_client-panics_example :
    get_storage_nodes_for_client (record (wanted read) { total_chunks = 1 }) stored
    ≡ (err panicked, stored)
unfolding chunks_of Dict.lookup nat_eq list_eq
get_storage_nodes_for_client-panics_example =
    get_storage_nodes_for_client-panics (record (wanted read) { total_chunks = 1 }) stored
      (omega arith)

abbrev lost_chunk : ChunkMetaData
lost_chunk = record {
  file_name = codes "logs";
  locations = some (record { chunk_filename = codes "logs_0"; replicas = [] });
  chunk_size = 200;
  checksum = [];
  request_type = RequestType.read;
  sender_addr = codes "a:7";
  receiver_addr = [];
  file_extension = [];
}

get_replicas_for_storage_node_lem_example :
    (found : List Text) × (get_replicas_for_storage_node lost_chunk stored ≡ (
      ok (record lost_chunk {
        locations = some (record { chunk_filename = codes "logs_0"; replicas = found });
      }),
      stored,
    ))
    × ((x : Text)
        → contains found x ≡ (
            not (x == codes "a:7")
            && contains (Dict.keys (nodes_of (codes "logs") (codes "logs_0") chunks)) x))
get_replicas_for_storage_node_lem_example =
    get_replicas_for_storage_node_lem lost_chunk
      (record { chunk_filename = codes "logs_0"; replicas = [] }) stored refl

abbrev report : List ChunkFileInfo
report =
    record {
      filename = codes "logs";
      chunk_filename = codes "logs_1";
      chunk_filepath = codes "/x/logs_1";
    }
    ∷ record {
      filename = codes "logs";
      chunk_filename = codes "logs_2";
      chunk_filepath = codes "/x/logs_2";
    }
    ∷ []

path_on-record_chunks_example :
    path_on
      (codes "d:7")
      (codes "logs")
      (codes "logs_1")
      (record_chunks (codes "d:7") report chunks)
    ≡ some (codes "/x/logs_1")
unfolding reported nat_eq list_eq
path_on-record_chunks_example =
    path_on-record_chunks (codes "d:7") (codes "d:7") (codes "logs") (codes "logs_1") report chunks

monitor_nodes_lem_example :
    (alive : Dict Text StorageNodeInfo) × (dead : Dict Text StorageNodeInfo) × (monitor_nodes
        100_000_000_000 busy
      ≡ (ok dead, record busy { active_nodes_map = alive }))
    × ((addr : Text)
        → (Dict.lookup addr alive ≡ kept true 100_000_000_000 (Dict.lookup addr nodes))
          × (Dict.lookup addr dead ≡ kept false 100_000_000_000 (Dict.lookup addr nodes)))
unfolding start Dict.lookup nat_eq list_eq
monitor_nodes_lem_example =
    monitor_nodes_lem 100_000_000_000 busy refl (refl, (refl, (refl, (refl, tt))))

monitor_nodes_after_lost_client_example :
    (monitor_nodes 5
      (get_active_storage_node_info_for_client env (question (codes "gone:8000")) busy).1).0
    ≡ err stalled
unfolding address split nat_eq list_eq
monitor_nodes_after_lost_client_example =
    monitor_nodes_after_lost_client env (question (codes "gone:8000")) (codes "gone") (codes "8000")
      5 busy refl refl (λ p. cc)

handle_client_request_after_lost_client_example :
    (handle_client_request env 9 []
      (some (file_metadata (wanted read)) ∷ [])
      (monitor_nodes 5
        (get_active_storage_node_info_for_client env (question (codes "gone:8000")) busy).1).1).0
    ≡ err stalled
unfolding address split nat_eq list_eq
handle_client_request_after_lost_client_example =
    handle_client_request_after_lost_client env (question (codes "gone:8000")) (codes "gone")
      (codes "8000") 5 9 [] (file_metadata (wanted read)) [] busy refl refl (λ p. cc)

-- The node `a` failed; `d` is drawn after `a`, `b` and `c`.
draw_replacement_lem_example :
    draw_replacement
      (0 ∷ 1 ∷ 2 ∷ 3 ∷ [])
      names
      (codes "b:7" ∷ codes "c:7" ∷ [])
      (codes "a:7")
      (codes "b:7" ∷ codes "c:7" ∷ [])
      []
    ≡ ok (codes "d:7")
unfolding nat_eq list_eq
draw_replacement_lem_example =
    draw_replacement_lem (0 ∷ 1 ∷ 2 ∷ []) [] 3 names (codes "b:7" ∷ codes "c:7" ∷ []) (codes "a:7")
      (codes "d:7") refl (omega arith)
      ((codes "a:7", refl, refl), ((codes "b:7", refl, refl), ((codes "c:7", refl, refl), tt))) refl
      refl refl

-- Of three nodes, `a` failed; `b` and `c` have the chunk.
abbrev two_left : Controller
two_left = record idle {
  active_nodes_map = (codes "b:7", node 0 (codes "b")) ∷ (codes "c:7", node 0 (codes "c")) ∷ [];
  file_chunk_map =
      (
        codes "logs",
        (
          codes "logs_0",
          (codes "a:7", codes "/d") ∷ (codes "b:7", codes "/d") ∷ (codes "c:7", codes "/d") ∷ [],
        )
            ∷ [],
      )
      ∷ [];
}

replace_failed_node_panics_example :
    (replace_failed_node env (1 ∷ []) (codes "logs") (codes "logs_0") (codes "a:7") two_left).0
    ≡ err panicked
unfolding forget_node nodes_of chunks_of Dict.lookup Dict.insert Dict.erase Dict.keys nat_eq list_eq
replace_failed_node_panics_example =
    replace_failed_node_panics env 1 [] (codes "logs") (codes "logs_0") (codes "a:7") (codes "c:7")
      two_left (omega arith) refl refl refl

abbrev table : Dict Text FileInfo
table = (codes "logs", entry) ∷ (codes "photo", record entry { folder_name = codes "holiday" }) ∷ []

contains-files_within_example :
    contains (files_within (codes "holiday") table) (codes "photo") ≡ true
unfolding Dict.lookup nat_eq list_eq
contains-files_within_example =
    contains-files_within (codes "holiday") (codes "photo") table (refl, (refl, tt))

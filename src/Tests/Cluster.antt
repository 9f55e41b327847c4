-- ===== src/Tests/Cluster.antt =====
-- Examples for clients and storage nodes together.
use mathlib.Core.List.{Permᴰ}
use hdfs_in_golang.Base.{◌≡◌, refl, some, List, [], ◌∷◌, ◌++◌, arith, nat_eq, list_eq}
use hdfs_in_golang.Base.Dict.{Dict}
use hdfs_in_golang.Base.Exec.{ok}
use hdfs_in_golang.Text.{Text, codes, split}
use hdfs_in_golang.Text.Path.{stem}
use hdfs_in_golang.Transport.{Bytes}
use hdfs_in_golang.Network.{address}
use hdfs_in_golang.Proto.{FileMetaData, read, write, chunk_metadata}
use hdfs_in_golang.Storage.{Output, output_on, StorageNode}
use hdfs_in_golang.Storage.Chunks.{copy_n}
use hdfs_in_golang.Storage.Requests.{handle_chunk}
use hdfs_in_golang.Client.{find_file, start}
use hdfs_in_golang.Client.Sending.{
  chunk_name, chunk_message, chunk_output, push_output, send_chunks,
  send_file_data_to_storage_nodes,
}
use hdfs_in_golang.Client.Receiving.{
  chunk_request, ask_nodes, retrieve_chunk_data_from_storage_nodes,
}
use hdfs_in_golang.Client.Receiving.Arrivals.{receive_all}
use hdfs_in_golang.Cluster.Fetched.{fetched, handle_chunk-chunk_message}
use hdfs_in_golang.Cluster.Whole.{receive_all-send_file_data_to_storage_nodes}
use hdfs_in_golang.Tests.Sending.{client_env, told, told-Reached, told-Covers}
use hdfs_in_golang.Tests.Receiving.{waiting, swapped}
use hdfs_in_golang.Tests.Chunks.{node_env, bare, letters-IsField}

handle_chunk-chunk_message_example :
    (t : StorageNode) × ((handle_chunk node_env []
        (chunk_message client_env told 0
          (codes "b:7" ∷ [])
          (codes "a")
          (codes "7")
          (1 ∷ 2 ∷ 3 ∷ []))
        (1 ∷ 2 ∷ 3 ∷ [])
        write
        bare).1
      ≡ t)
    × (handle_chunk node_env []
          (chunk_request client_env told (chunk_name told.file_name 0) (codes "a:7"))
          []
          read
          t
        ≡ (
          ok tt,
          record t {
            sent =
                t.sent
                ++ output_on node_env.net
                    (codes "control")
                    (codes "9000")
                    (chunk_metadata (
                      fetched client_env node_env
                        (chunk_request client_env told (chunk_name told.file_name 0) (codes "a:7"))
                        (1 ∷ 2 ∷ 3 ∷ [])))
                    (1 ∷ 2 ∷ 3 ∷ [])
                  ∷ [];
          },
        ))
unfolding address split nat_eq list_eq chunk_name
handle_chunk-chunk_message_example =
    handle_chunk-chunk_message client_env node_env [] [] told told 0 (codes "b:7" ∷ []) (codes "a")
      (codes "7") (codes "a:7") (codes "control") (codes "9000") (1 ∷ 2 ∷ 3 ∷ []) [] bare
      (λ b. refl) letters-IsField refl refl (omega arith) refl refl

abbrev outs : List Output
outs =
    chunk_output client_env told 0 (codes "b:7" ∷ []) (codes "a") (codes "7") (1 ∷ 2 ∷ [])
    ∷ chunk_output client_env told 1 (codes "b:7" ∷ []) (codes "a") (codes "7") (3 ∷ [])
    ∷ []

-- What the controller has of the file.
abbrev known : FileMetaData
known = record told { file_size = 3; checksum = b'd' ∷ []; locations = [] }

receive_all-send_file_data_to_storage_nodes_example :
    (d : Dict Text (Dict Text Bytes)) × (receive_all client_env swapped waiting
      ≡ (ok tt, record waiting { folders = d; received_bytes = 3; chunks_received = 2 }))
    × (find_file (codes "root") (stem (codes "f")) d ≡ some (1 ∷ 2 ∷ 3 ∷ []))
unfolding send_file_data_to_storage_nodes send_chunks push_output chunk_output copy_n address split
    nat_eq list_eq start retrieve_chunk_data_from_storage_nodes ask_nodes
receive_all-send_file_data_to_storage_nodes_example =
    receive_all-send_file_data_to_storage_nodes client_env client_env told known (codes "f.txt")
      (1 ∷ 2 ∷ 3 ∷ []) (start []) (record (start []) { file_path = codes "f" }) waiting outs swapped
      refl (omega arith) (omega arith) told-Covers (omega arith) told-Reached refl refl refl refl
      refl (Permᴰ.swap refl refl) (λ name. refl) (omega arith) (omega arith)

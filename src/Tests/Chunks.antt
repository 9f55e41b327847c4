-- ===== src/Tests/Chunks.antt =====
-- Examples for storage nodes.
use hdfs_in_golang.Base.{
  ◌+◌, ◌≡◌, refl, not, some, [], ◌∷◌, ◌++◌, arith, ◌==◌, length, nat_eq, list_eq,
}
use hdfs_in_golang.Base.Dict
use hdfs_in_golang.Base.Dict.{Dict}
use hdfs_in_golang.Base.Exec.{ok}
use hdfs_in_golang.Text.{codes, split, is_space, trim_left, trim_right, trim_space}
use hdfs_in_golang.Text.Lines.{scan_lines}
use hdfs_in_golang.Network.{address}
use hdfs_in_golang.Proto.{ChunkMetaData, RequestType, write, read, delete}
use hdfs_in_golang.Controller.Metadata.Format.{IsField}
use hdfs_in_golang.Storage.{StorageNode, NodeEnv, send_on}
use hdfs_in_golang.Storage.Chunks.{
  chunk_line, read_chunks, get_chunk_info_from_disk, last_part, delete_chunk, remove_metadata,
  remove_data, decrement_received_chunks,
}
use hdfs_in_golang.Storage.Chunks.Listed.{read_chunks-chunk_line}
use hdfs_in_golang.Storage.Requests.{
  handle_chunk, send_chunk_data_to_client, delete_chunk_info_from_disk, handle_corrupted_chunk,
  validate_file, send_delete_request_to_replicas, forward_delete,
}
use hdfs_in_golang.Storage.Requests.Served.{handle_chunk-write_read}
use hdfs_in_golang.Storage.Requests.Removed.{IsRemoved, delete_chunk_info_from_disk-IsRemoved}
use hdfs_in_golang.Storage.Requests.Replicated.{Dialled, copies, replicated, handle_chunk-copies}
use hdfs_in_golang.Storage.Requests.Repair.{handle_corrupted_chunk_again, asking, changed}
use hdfs_in_golang.Tests.{env}

-- The digest is a letter, by the number of the bytes.
abbrev pub node_env : NodeEnv
node_env = record {
  net = env.net;
  creates = λ name. not (name == []);
  digest = λ bytes. (b'a' + length bytes) ∷ [];
  data_path = codes "/d/ChunkData";
  controller_hostname = codes "control";
  controller_port = codes "9000";
}

abbrev pub bare : StorageNode
bare = record {
  chunk_data = [];
  chunk_metadata = [];
  received_chunks = 0;
  received_bytes = 0;
  sent = [];
}

abbrev chunk : RequestType → ChunkMetaData
chunk t = record {
  file_name = codes "logs";
  locations = some (record { chunk_filename = codes "logs_0"; replicas = codes "b:7" ∷ [] });
  chunk_size = 3;
  checksum = codes "d";
  request_type = t;
  sender_addr = codes "client:8000";
  receiver_addr = codes "a:7";
  file_extension = codes ".txt";
}

pub letters-IsField : IsField (codes "d")
unfolding trim_left trim_right is_space nat_eq
letters-IsField = record {
  comma = omega arith;
  colon = omega arith;
  newline = omega arith;
  trimmed = record { left = refl; right = refl };
}

name-IsField : IsField (codes "logs_0")
unfolding trim_left trim_right is_space nat_eq
name-IsField = record {
  comma = omega arith;
  colon = omega arith;
  newline = omega arith;
  trimmed = record { left = refl; right = refl };
}

read_chunks-chunk_line_example :
    read_chunks
      (scan_lines (chunk_line (codes "d") (codes "logs_0") (codes "d") 3 (codes "d") ++ b'\n' ∷ []))
    ≡ some (
        record { filename = codes "d"; chunk_filename = codes "logs_0"; chunk_filepath = codes "d" }
        ∷ [])
read_chunks-chunk_line_example =
    read_chunks-chunk_line (codes "d") (codes "logs_0") (codes "d") 3 (codes "d") letters-IsField
      name-IsField letters-IsField letters-IsField

abbrev holding : StorageNode
holding = (handle_chunk node_env [] (chunk write) (1 ∷ 2 ∷ 3 ∷ []) write bare).1

handle_chunk-write_read_example :
    handle_chunk node_env [] (chunk read) [] read holding
    ≡ send_chunk_data_to_client node_env (codes "client:8000") (chunk read) (1 ∷ 2 ∷ 3 ∷ []) holding
unfolding nat_eq list_eq
handle_chunk-write_read_example =
    handle_chunk-write_read node_env [] [] (chunk write) (chunk read)
      (record { chunk_filename = codes "logs_0"; replicas = codes "b:7" ∷ [] })
      (record { chunk_filename = codes "logs_0"; replicas = codes "b:7" ∷ [] }) (1 ∷ 2 ∷ 3 ∷ []) []
      bare refl refl refl refl refl refl (omega arith) letters-IsField refl

abbrev kept : StorageNode
kept = record bare {
  chunk_data = (codes "logs_0", 1 ∷ 2 ∷ 3 ∷ []) ∷ [];
  chunk_metadata =
      (codes "logs_0_metadata", codes "logs, logs_0, /d/ChunkData/logs_0, 3, d\n") ∷ [];
}

ended : (delete_chunk_info_from_disk node_env (chunk delete) kept).0 ≡ ok tt
unfolding delete_chunk_info_from_disk delete_chunk remove_metadata remove_data
    send_delete_request_to_replicas forward_delete decrement_received_chunks send_on address split
    Dict.has Dict.lookup Dict.erase nat_eq list_eq
ended = refl

delete_chunk_info_from_disk-IsRemoved_example :
    IsRemoved (chunk delete) kept (delete_chunk_info_from_disk node_env (chunk delete) kept).1
delete_chunk_info_from_disk-IsRemoved_example =
    delete_chunk_info_from_disk-IsRemoved node_env (chunk delete) kept ended

-- A byte of the chunk is lost; the second round finds it whole.
abbrev damaged : StorageNode
damaged = record kept { chunk_data = (codes "logs_0", 1 ∷ 2 ∷ []) ∷ [] }

abbrev mended : StorageNode → StorageNode
mended s = record s { chunk_data = (codes "logs_0", 1 ∷ 2 ∷ 3 ∷ []) ∷ [] }

abbrev first_read : ChunkMetaData
first_read = record (asking node_env (chunk read)) { chunk_size = 2; checksum = codes "d" }

abbrev second_read : ChunkMetaData
second_read = record (asking node_env first_read) { chunk_size = 3; checksum = codes "d" }

handle_corrupted_chunk_again_example :
    handle_corrupted_chunk node_env ((λ s. s) ∷ mended ∷ []) (chunk read) damaged
    ≡ send_chunk_data_to_client node_env
        (codes "control:9000")
        second_read
        (1 ∷ 2 ∷ 3 ∷ [])
        (changed node_env first_read mended (changed node_env (chunk read) (λ s. s) damaged))
unfolding get_chunk_info_from_disk last_part validate_file send_on split trim_space trim_left
    trim_right is_space Dict.lookup nat_eq list_eq
handle_corrupted_chunk_again_example =
    handle_corrupted_chunk_again node_env [] (λ s. s) mended (chunk read) first_read second_read
      (1 ∷ 2 ∷ []) (1 ∷ 2 ∷ 3 ∷ []) damaged refl (refl, refl) (refl, refl)

replica-Dialled : Dialled node_env (codes "b:7")
unfolding address split nat_eq list_eq
replica-Dialled = record { host = codes "b"; port = codes "7"; addressed = refl; dialled = refl }

handle_chunk-copies_example : handle_chunk node_env [] (chunk write) (1 ∷ 2 ∷ 3 ∷ []) write bare ≡ (
  ok tt,
  replicated node_env
      (chunk write)
      (record { chunk_filename = codes "logs_0"; replicas = codes "b:7" ∷ [] })
      (1 ∷ 2 ∷ 3 ∷ [])
      (copies node_env
        (record (chunk write) {
          locations = some (record { chunk_filename = codes "logs_0"; replicas = [] });
          sender_addr = codes "control:9000";
        })
        (1 ∷ 2 ∷ 3 ∷ [])
        (codes "b:7" ∷ [])
        (replica-Dialled, tt))
      bare,
)
unfolding nat_eq list_eq
handle_chunk-copies_example =
    handle_chunk-copies node_env [] (chunk write)
      (record { chunk_filename = codes "logs_0"; replicas = codes "b:7" ∷ [] }) (1 ∷ 2 ∷ 3 ∷ [])
      bare refl refl refl (omega arith) letters-IsField (replica-Dialled, tt)

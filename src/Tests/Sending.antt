-- ===== src/Tests/Sending.antt =====
-- Examples for clients.
use hdfs_in_golang.Base.{
  ◌+◌, ◌≡◌, refl, some, none, true, ◌==◌, if◌then◌else◌, List, [], ◌∷◌, arith, length, nat_eq,
  list_eq,
}
use hdfs_in_golang.Base.Exec.{ok}
use hdfs_in_golang.Text.{codes, split}
use hdfs_in_golang.Network.{address}
use hdfs_in_golang.Proto.{FileMetaData, write}
use hdfs_in_golang.Storage.{Output}
use hdfs_in_golang.Client.{ClientEnv, start}
use hdfs_in_golang.Client.Sending.{send_file_data_to_storage_nodes}
use hdfs_in_golang.Client.Chunks.{
  AllReached, SentChunks, push_all, payloads, send_file_data_to_storage_nodes-payloads, Covers,
}
use hdfs_in_golang.Tests.{env, wanted}

-- The only file that can be opened is `f.txt`.
abbrev pub client_env : ClientEnv
client_env = record {
  net = env.net;
  digest = λ bytes. (b'a' + length bytes) ∷ [];
  opens = λ path. if path == codes "f.txt" then some (1 ∷ 2 ∷ 3 ∷ []) else none;
  creates = λ name. true;
  read_limit = 4096;
  out_of_range = λ file_size chunk_size. 0;
  controller_hostname = codes "a";
  controller_port = codes "7";
}

-- Three bytes in chunks of two.
abbrev pub told : FileMetaData
told = record (wanted write) {
  total_chunks = 2;
  chunk_size = 2;
  locations =
      some (record { chunk_filename = []; replicas = codes "a:7" ∷ codes "b:7" ∷ [] })
      ∷ some (record { chunk_filename = []; replicas = codes "a:7" ∷ codes "b:7" ∷ [] })
      ∷ [];
}

pub told-Reached : AllReached client_env told 2 0
unfolding address split nat_eq list_eq
told-Reached = (
  record {
    main = codes "a:7";
    replicas = codes "b:7" ∷ [];
    host = codes "a";
    port = codes "7";
    located = refl;
    addressed = refl;
    dialled = refl;
  },
  (
    record {
      main = codes "a:7";
      replicas = codes "b:7" ∷ [];
      host = codes "a";
      port = codes "7";
      located = refl;
      addressed = refl;
      dialled = refl;
    },
    tt,
  ),
)

pub told-Covers : Covers 2 2 3
told-Covers = record { enough = omega arith; needed = omega arith }

send_file_data_to_storage_nodes-payloads_example :
    (outs : List Output) × (send_file_data_to_storage_nodes client_env
        (codes "f.txt")
        told
        (start [])
      ≡ (ok tt, push_all outs (record (start []) { sent_bytes = 0; chunks_sent = 0 })))
    × (payloads outs ≡ 1 ∷ 2 ∷ 3 ∷ [])
    × (length outs ≡ 2)
    × SentChunks client_env told 0 outs
unfolding nat_eq list_eq
send_file_data_to_storage_nodes-payloads_example =
    send_file_data_to_storage_nodes-payloads client_env told (codes "f.txt") (1 ∷ 2 ∷ 3 ∷ [])
      (start []) refl (omega arith) (omega arith) refl told-Covers told-Reached

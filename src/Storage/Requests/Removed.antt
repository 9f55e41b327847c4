-- ===== src/Storage/Requests/Removed.antt =====
-- A chunk that was removed is gone, and counted out.
use hdfs_in_golang.Base.{◌+◌, ◌-◌, ◌%◌, ◌^◌, ◌≡◌, none, nat_eq, list_eq, Bool-cases, inl, inr}
use hdfs_in_golang.Base.Dict
use hdfs_in_golang.Base.Exec.{Outcome, continue, ok, err}
use hdfs_in_golang.Proto.{ChunkMetaData, get_chunk_filename, get_replicas}
use hdfs_in_golang.Storage.{StorageNode, NodeEnv}
use hdfs_in_golang.Storage.Chunks.{metadata_name, decrement_received_chunks, delete_chunk}
use hdfs_in_golang.Storage.Requests.{
  without_replicas, send_delete_request_to_replicas, delete_chunk_info_from_disk,
}
use hdfs_in_golang.Storage.Requests.Served.{SameDisk, Same-forward_delete}

-- What is left when a removal has ended.
pub record IsRemoved (msg : ChunkMetaData) (s s' : StorageNode) : Type 0 where
  pub data_gone : Dict.lookup (get_chunk_filename msg.locations) s'.chunk_data ≡ none
  pub metadata_gone :
      Dict.lookup (metadata_name (get_chunk_filename msg.locations)) s'.chunk_metadata ≡ none
  pub counted : s'.received_chunks ≡ (s.received_chunks + (2 ^ 64 - 1)) % 2 ^ 64

module _ (env : NodeEnv) where
  -- Both files are taken off the disk, in this order.
  abbrev erased : ChunkMetaData → StorageNode → StorageNode
  erased msg s = record s {
    chunk_metadata = Dict.erase (metadata_name (get_chunk_filename msg.locations)) s.chunk_metadata;
    chunk_data = Dict.erase (get_chunk_filename msg.locations) s.chunk_data;
  }

  IsRemoved-after :
      (msg : ChunkMetaData) (s s' : StorageNode) (r : Outcome (Unit {0}))
      → SameDisk (erased msg s) s'
      → (continue r (λ _. decrement_received_chunks) s').0 ≡ ok tt
      → IsRemoved msg s (continue r (λ _. decrement_received_chunks) s').1
  unfolding decrement_received_chunks
  IsRemoved-after msg s s' (ok a) q e = record {
    data_gone =
        rw q.data_same (Dict.lookup-erase_self (get_chunk_filename msg.locations) s.chunk_data);
    metadata_gone = rw q.metadata_same (
        Dict.lookup-erase_self (metadata_name (get_chunk_filename msg.locations)) s.chunk_metadata);
    counted = rw q.count_same;
  }
  IsRemoved-after msg s s' (err x) q e = cc

  -- A removal that ended has taken the chunk's data and its metadata off the disk and has counted
  -- one chunk less, modulo 2 ^ 64.
  pub delete_chunk_info_from_disk-IsRemoved :
      (msg : ChunkMetaData) (s : StorageNode)
      → (delete_chunk_info_from_disk env msg s).0 ≡ ok tt
      → IsRemoved msg s (delete_chunk_info_from_disk env msg s).1
  unfolding delete_chunk_info_from_disk delete_chunk send_delete_request_to_replicas
  delete_chunk_info_from_disk-IsRemoved msg s =
      let name = get_chunk_filename msg.locations in
      let q =
        (Same-forward_delete env
            (record msg { locations = without_replicas msg.locations; sender_addr = env.net.self })
            (get_replicas msg.locations)).at
          (erased msg s) in
      elim (Bool-cases (Dict.has (metadata_name name) s.chunk_metadata)) [
        | inr no_line ↦ rw no_line (λ e. cc)
        | inl line ↦ elim (Bool-cases (Dict.has name s.chunk_data)) [
          | inr no_data ↦ rw (line, no_data) (λ e. cc)
          | inl there ↦ rw (line, there) (λ e. IsRemoved-after msg s _ _ q e)
        ]
      ]

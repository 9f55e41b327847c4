-- ===== src/Storage/Requests/Served.antt =====
-- A chunk that a node was given is what it gives to a client.
use hdfs_in_golang.Base.{
  ◌^◌, ◌<◌, ◌≡◌, refl, ap, ◌∙◌, Bool, true, false, Option, none, some, List, [], ◌∷◌, ◌++◌, arith,
  nat_eq, list_eq, ◌==◌, length,
}
use hdfs_in_golang.Base.Dict
use hdfs_in_golang.Base.Exec.{Outcome, continue, ok, err, or_panic, pure, ◌>>=◌}
use hdfs_in_golang.Text.{Text}
use hdfs_in_golang.Transport.{Bytes}
use hdfs_in_golang.Proto.{
  Wrapper, ChunkMetaData, ChunkStorageLocations, write, read, delete, get_chunk_filename,
  get_replicas,
}
use hdfs_in_golang.Controller.Metadata.Format.{IsField}
use hdfs_in_golang.Storage.{StorageNode, NodeEnv, NodeAction, send_on, chunk_path}
use hdfs_in_golang.Storage.Chunks.{
  get_chunk_info_from_disk, metadata_name, save_chunk_data, save_chunk_metadata,
  increment_received_chunks, chunk_line,
}
use hdfs_in_golang.Storage.Chunks.Stored.{get_chunk_info_from_disk-lookup, copy_n_all}
use hdfs_in_golang.Storage.Requests.{
  forward_chunk, forward_delete, unless_lost, send_chunk_metadata_to_replicas, without_replicas,
  save_chunk_info_to_disk, validate_file, send_chunk_data_to_client,
  get_chunk_info_and_send_to_client, handle_chunk, delete_chunk_info_from_disk,
}

-- Nothing on the disk differs.
pub record SameDisk (s s' : StorageNode) : Type 0 where
  pub data_same : s'.chunk_data ≡ s.chunk_data
  pub metadata_same : s'.chunk_metadata ≡ s.chunk_metadata
  pub count_same : s'.received_chunks ≡ s.received_chunks

SameDisk-trans : (s s' s'' : StorageNode) → SameDisk s s' → SameDisk s' s'' → SameDisk s s''
SameDisk-trans s s' s'' p q = record {
  data_same = q.data_same ∙ p.data_same;
  metadata_same = q.metadata_same ∙ p.metadata_same;
  count_same = q.count_same ∙ p.count_same;
}

pub record Same {A : Type 0} (m : NodeAction A) : Type 0 where
  pub at : (s : StorageNode) → SameDisk s (m s).1

SameDisk-continue :
    {A B : Type 0} (r : Outcome A) (f : A → NodeAction B) (s s' : StorageNode)
    → SameDisk s s'
    → ((a : A) → Same (f a))
    → SameDisk s (continue r f s').1
SameDisk-continue (ok a) f s s' p q = SameDisk-trans s s' (f a s').1 p ((q a).at s')
SameDisk-continue (err e) f s s' p q = p

Same-bind :
    {A B : Type 0} (m : NodeAction A) (f : A → NodeAction B)
    → Same m
    → ((a : A) → Same (f a))
    → Same (m >>= f)
Same-bind m f p q = record { at = λ s. SameDisk-continue (m s).0 f s (m s).1 (p.at s) q }

same : (s : StorageNode) → SameDisk s s
same s = record { data_same = refl; metadata_same = refl; count_same = refl }

Same-pure : {A : Type 0} (a : A) → Same (pure a)
Same-pure a = record { at = same }

Same-or_panic : {A : Type 0} (o : Option A) → Same (or_panic o)
Same-or_panic none = record { at = same }
Same-or_panic (some a) = record { at = same }

Same-get_chunk_info_from_disk : (msg : ChunkMetaData) → Same (get_chunk_info_from_disk msg)
unfolding get_chunk_info_from_disk
Same-get_chunk_info_from_disk msg = record { at = same }

Same-unless_lost :
    (next : NodeAction Unit) (connected : Bool) → Same next → Same (unless_lost next connected)
Same-unless_lost next true h = h
Same-unless_lost next false h = Same-pure tt

ruleset same_rules =
    (Same-bind, Same-pure, Same-or_panic, Same-get_chunk_info_from_disk, Same-unless_lost)

module _ (env : NodeEnv) where
  Same-send_on :
      (host port : Text) (message : Wrapper) (payload : Bytes)
      → Same (send_on env host port message payload)
  unfolding send_on
  Same-send_on host port message payload = record {
    at = λ s. record {
      data_same = ground arith;
      metadata_same = ground arith;
      count_same = ground arith;
    };
  }

  pub Same-forward_chunk :
      (msg : ChunkMetaData) (replicas : List Text) → Same (forward_chunk env msg replicas)
  unfolding forward_chunk
  Same-forward_chunk msg [] = Same-pure tt
  Same-forward_chunk msg (loc ∷ replicas) =
      search (same_rules, Same-send_on, λ (m : ChunkMetaData). Same-forward_chunk m replicas)

  pub Same-forward_delete :
      (msg : ChunkMetaData) (replicas : List Text) → Same (forward_delete env msg replicas)
  unfolding forward_delete
  Same-forward_delete msg [] = Same-pure tt
  Same-forward_delete msg (loc ∷ replicas) =
      search (same_rules, Same-send_on, λ (m : ChunkMetaData). Same-forward_delete m replicas) depth
        9

  same_after :
      (r : Outcome (Unit {0})) (s : StorageNode)
      → ((continue r (λ _. increment_received_chunks) s).1.chunk_data ≡ s.chunk_data)
        × ((continue r (λ _. increment_received_chunks) s).1.chunk_metadata ≡ s.chunk_metadata)
  unfolding increment_received_chunks
  same_after (ok a) s = (refl, refl)
  same_after (err e) s = (refl, refl)

  -- The disk after a chunk was stored, whatever came of its forwarding.
  disk-save :
      (msg : ChunkMetaData) (incoming : Bytes) (s : StorageNode)
      → env.creates (get_chunk_filename msg.locations) ≡ true
      → env.creates (metadata_name (get_chunk_filename msg.locations)) ≡ true
      → length incoming ≡ msg.chunk_size
      → msg.chunk_size < 2 ^ 63
      → ((save_chunk_info_to_disk env msg incoming s).1.chunk_data
          ≡ Dict.insert (get_chunk_filename msg.locations) incoming s.chunk_data)
        × ((save_chunk_info_to_disk env msg incoming s).1.chunk_metadata
            ≡ Dict.insert
                (metadata_name (get_chunk_filename msg.locations))
                (chunk_line msg.file_name
                    (get_chunk_filename msg.locations)
                    (chunk_path env (get_chunk_filename msg.locations))
                    msg.chunk_size
                    msg.checksum
                  ++ b'\n' ∷ [])
                s.chunk_metadata)
  unfolding save_chunk_info_to_disk save_chunk_metadata save_chunk_data
      send_chunk_metadata_to_replicas
  disk-save msg incoming s creates creates' all small =
      rw (creates', creates, copy_n_all msg.chunk_size incoming all small)
        (let q =
            (Same-forward_chunk
                (record msg {
                  locations = without_replicas msg.locations;
                  sender_addr = env.net.self;
                })
                (get_replicas msg.locations)).at
              _ in
          ((same_after _ _).0 ∙ q.data_same, (same_after _ _).1 ∙ q.metadata_same))

  pub handle_chunk_located :
      (meanwhile : List (StorageNode → StorageNode)) (msg : ChunkMetaData)
      (l : ChunkStorageLocations) (incoming : Bytes) (s : StorageNode)
      → msg.locations ≡ some l
      → (handle_chunk env meanwhile msg incoming write s
          ≡ save_chunk_info_to_disk env msg incoming s)
        × (handle_chunk env meanwhile msg incoming read s
            ≡ get_chunk_info_and_send_to_client env meanwhile msg s)
        × (handle_chunk env meanwhile msg incoming delete s ≡ delete_chunk_info_from_disk env msg s)
  unfolding handle_chunk
  handle_chunk_located meanwhile msg l incoming s e =
      let there : or_panic {S = StorageNode} msg.locations ≡ pure l = rw e in
      (
        ap
            (λ (m : NodeAction ChunkStorageLocations).
              (m >>= λ _. save_chunk_info_to_disk env msg incoming) s)
            there,
        ap
            (λ (m : NodeAction ChunkStorageLocations).
              (m >>= λ _. get_chunk_info_and_send_to_client env meanwhile msg) s)
            there,
        ap
            (λ (m : NodeAction ChunkStorageLocations).
              (m >>= λ _. delete_chunk_info_from_disk env msg) s)
            there,
      )

  -- A chunk that is on the disk with the checksum of its bytes is sent to the client as it is.
  served :
      (meanwhile : List (StorageNode → StorageNode)) (asked : ChunkMetaData) (bytes : Bytes)
      (checksum : Text) (s : StorageNode)
      → get_chunk_info_from_disk asked s
        ≡ (ok (record asked { chunk_size = length bytes; checksum = checksum }, bytes), s)
      → Dict.lookup (get_chunk_filename asked.locations) s.chunk_data ≡ some bytes
      → env.digest bytes ≡ checksum
      → get_chunk_info_and_send_to_client env meanwhile asked s
        ≡ send_chunk_data_to_client env asked.sender_addr
            (record asked { chunk_size = length bytes; checksum = checksum })
            bytes
            s
  unfolding get_chunk_info_and_send_to_client validate_file
  served meanwhile asked bytes checksum s info there valid =
      let same_sum : (env.digest bytes == checksum) ≡ true = rw valid (ground arith) in
      rw (info, there, same_sum)

  -- What a node was given it serves. After a request to write a chunk that brought all its bytes
  -- with their checksum, a request to read that chunk sends these very bytes to the address of its
  -- sender, with their number and their checksum, even if forwarding the chunk to the replicas
  -- failed: the chunk counts as valid and no repair is begun.
  pub handle_chunk-write_read :
      (meanwhile later : List (StorageNode → StorageNode)) (msg asked : ChunkMetaData)
      (l l' : ChunkStorageLocations) (incoming behind : Bytes) (s : StorageNode)
      → msg.locations ≡ some l
      → asked.locations ≡ some l'
      → get_chunk_filename asked.locations ≡ get_chunk_filename msg.locations
      → env.creates (get_chunk_filename msg.locations) ≡ true
      → env.creates (metadata_name (get_chunk_filename msg.locations)) ≡ true
      → length incoming ≡ msg.chunk_size
      → msg.chunk_size < 2 ^ 63
      → IsField msg.checksum
      → env.digest incoming ≡ msg.checksum
      → handle_chunk env later asked behind read (handle_chunk env meanwhile msg incoming write s).1
        ≡ send_chunk_data_to_client env asked.sender_addr
            (record asked { chunk_size = length incoming; checksum = msg.checksum })
            incoming
            (handle_chunk env meanwhile msg incoming write s).1
  handle_chunk-write_read meanwhile later msg asked l l' incoming behind s e e' name creates
        creates' all small field valid =
      let s₁ = (handle_chunk env meanwhile msg incoming write s).1 in
      let stored =
        ap (λ (r : Outcome (Unit {0}) × StorageNode). r.1)
          ((handle_chunk_located meanwhile msg l incoming s e).0) in
      let (d, m) = disk-save msg incoming s creates creates' all small in
      let d' : Dict.lookup (get_chunk_filename asked.locations) s₁.chunk_data ≡ some incoming =
        rw (stored, d, name)
          (Dict.lookup-insert_self (get_chunk_filename msg.locations) incoming s.chunk_data) in
      let m' : Dict.lookup (metadata_name (get_chunk_filename asked.locations)) s₁.chunk_metadata
          ≡ some (
              chunk_line msg.file_name (get_chunk_filename asked.locations)
                (chunk_path env (get_chunk_filename asked.locations)) msg.chunk_size msg.checksum
              ++ b'\n' ∷ []) =
        rw (stored, m, name)
          (Dict.lookup-insert_self (metadata_name (get_chunk_filename msg.locations)) _
            s.chunk_metadata) in
      (handle_chunk_located later asked l' behind s₁ e').1
      ∙ served later asked incoming msg.checksum s₁
          (get_chunk_info_from_disk-lookup asked s₁ msg.file_name
            (chunk_path env (get_chunk_filename asked.locations)) msg.chunk_size msg.checksum
            incoming field d' m')
          d' valid

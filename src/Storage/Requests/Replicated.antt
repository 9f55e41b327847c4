-- ===== src/Storage/Requests/Replicated.antt =====
-- A chunk that a node was given goes to every replica.
use hdfs_in_golang.Base.{
  ◌+◌, ◌%◌, ◌^◌, ◌<◌, ◌≡◌, refl, ◌∙◌, true, some, List, [], ◌∷◌, ◌++◌, append-nil, append_assoc,
  All, nat_eq, list_eq, length,
}
use hdfs_in_golang.Base.Dict
use hdfs_in_golang.Base.Exec.{ok}
use hdfs_in_golang.Text.{Text}
use hdfs_in_golang.Transport.{Bytes}
use hdfs_in_golang.Proto.{
  Wrapper, ChunkMetaData, ChunkStorageLocations, write, chunk_metadata, get_chunk_filename,
}
use hdfs_in_golang.Network.{address}
use hdfs_in_golang.Controller.Metadata.Format.{IsField}
use hdfs_in_golang.Storage.{Output, output_on, StorageNode, NodeEnv, send_on, chunk_path}
use hdfs_in_golang.Storage.Chunks.{
  metadata_name, chunk_line, save_chunk_data, save_chunk_metadata, increment_received_chunks,
}
use hdfs_in_golang.Storage.Chunks.Stored.{get_chunk_info_from_disk-lookup, copy_n_all}
use hdfs_in_golang.Storage.Requests.{
  forward_chunk, send_chunk_metadata_to_replicas, save_chunk_info_to_disk, handle_chunk,
}
use hdfs_in_golang.Storage.Requests.Served.{handle_chunk_located}

module _ (env : NodeEnv) where
  -- A replica that can be reached.
  pub record Dialled (loc : Text) : Type 0 where
    pub host : Text
    pub port : Text
    pub addressed : address loc ≡ some (host, port)
    pub dialled : env.net.dials host port ≡ true

  -- What goes to the replicas: the message, with the address changed, and the bytes behind it.
  abbrev pub copies :
      ChunkMetaData → Bytes → (replicas : List Text) → All Dialled replicas → List Output
  copies msg bytes [] reached = []
  copies msg bytes (loc ∷ replicas) (d, reached) =
      output_on env.net d.host d.port (chunk_metadata (record msg { receiver_addr = loc })) bytes
      ∷ copies msg bytes replicas reached

  -- The chunk of the message, on the disk.
  record OnDisk (msg : ChunkMetaData) (filename path : Text) (bytes : Bytes) (s : StorageNode)
      : Type 0 where
    data_there : Dict.lookup (get_chunk_filename msg.locations) s.chunk_data ≡ some bytes
    line_there :
        Dict.lookup (metadata_name (get_chunk_filename msg.locations)) s.chunk_metadata
        ≡ some (
            chunk_line filename (get_chunk_filename msg.locations) path msg.chunk_size msg.checksum
            ++ b'\n' ∷ [])
    whole : length bytes ≡ msg.chunk_size
    field : IsField msg.checksum

  send_on_lem :
      (host port : Text) (message : Wrapper) (payload : Bytes) (s : StorageNode)
      → env.net.dials host port ≡ true
      → send_on env host port message payload s
        ≡ (ok true, record s { sent = s.sent ++ output_on env.net host port message payload ∷ [] })
  unfolding send_on
  send_on_lem host port message payload s dials = rw (send_on, dials)

  -- The loop over the replicas, on a message that was changed for the one before.
  forward_chunk-copies :
      (msg : ChunkMetaData) (filename path last : Text) (bytes : Bytes) (replicas : List Text)
      (reached : All Dialled replicas) (s : StorageNode)
      → OnDisk msg filename path bytes s
      → forward_chunk env (record msg { receiver_addr = last }) replicas s
        ≡ (ok tt, record s { sent = s.sent ++ copies msg bytes replicas reached })
  unfolding forward_chunk
  forward_chunk-copies msg filename path last bytes [] reached s disk = rw (append-nil s.sent)
  forward_chunk-copies msg filename path last bytes (loc ∷ replicas) (d, reached) s disk =
      let msg' = record msg { receiver_addr = loc } in
      let o = output_on env.net d.host d.port (chunk_metadata msg') bytes in
      let s' = record s { sent = s.sent ++ o ∷ [] } in
      rw (
        d.addressed,
        get_chunk_info_from_disk-lookup msg' s filename path msg.chunk_size msg.checksum bytes
            disk.field disk.data_there disk.line_there,
        disk.whole,
        send_on_lem d.host d.port (chunk_metadata msg') bytes s d.dialled,
        forward_chunk-copies msg filename path loc bytes replicas reached s' (record {
          data_there = disk.data_there;
          line_there = disk.line_there;
          whole = disk.whole;
          field = disk.field;
        }),
        append_assoc s.sent (o ∷ []) (copies msg bytes replicas reached),
      )

  -- The node after a chunk was stored and the copies were sent.
  abbrev pub replicated :
      ChunkMetaData → ChunkStorageLocations → Bytes → List Output → StorageNode → StorageNode
  replicated msg l incoming outs s = record s {
    chunk_data = Dict.insert l.chunk_filename incoming s.chunk_data;
    chunk_metadata =
        Dict.insert (metadata_name l.chunk_filename)
          (chunk_line msg.file_name l.chunk_filename (chunk_path env l.chunk_filename)
              msg.chunk_size msg.checksum
            ++ b'\n' ∷ [])
          s.chunk_metadata;
    received_chunks = (s.received_chunks + 1) % 2 ^ 64;
    received_bytes = (s.received_bytes + length incoming) % 2 ^ 64;
    sent = s.sent ++ outs;
  }

  -- What a node was given goes to every replica. A request to write a chunk that brings all its
  -- bytes (fewer than 2 ^ 63, with a checksum that can stand as a field) ends well, when the
  -- chunk's files can be made and every replica can be reached: the chunk and its line are on the
  -- disk, the counters (modulo 2 ^ 64) count it, and each replica is sent one message, in order,
  -- that is the request without replicas and with the node as its sender, and behind it the same
  -- bytes.
  pub handle_chunk-copies :
      (meanwhile : List (StorageNode → StorageNode)) (msg : ChunkMetaData)
      (l : ChunkStorageLocations) (incoming : Bytes) (s : StorageNode)
      → env.creates l.chunk_filename ≡ true
      → env.creates (metadata_name l.chunk_filename) ≡ true
      → length incoming ≡ msg.chunk_size
      → msg.chunk_size < 2 ^ 63
      → IsField msg.checksum
      → (reached : All Dialled l.replicas)
      → handle_chunk env meanwhile (record msg { locations = some l }) incoming write s ≡ (
        ok tt,
        replicated msg l incoming
            (copies
              (record msg {
                locations = some (record l { replicas = [] });
                sender_addr = env.net.self;
              })
              incoming
              l.replicas
              reached)
            s,
      )
  unfolding save_chunk_info_to_disk save_chunk_metadata save_chunk_data
      send_chunk_metadata_to_replicas increment_received_chunks
  handle_chunk-copies meanwhile msg l incoming s creates creates' all small field reached =
      let name = l.chunk_filename in
      let msg' = record msg {
        locations = some (record l { replicas = [] });
        sender_addr = env.net.self;
      } in
      let s₁ = record s {
        chunk_data = Dict.insert name incoming s.chunk_data;
        chunk_metadata =
            Dict.insert (metadata_name name)
              (chunk_line msg.file_name name (chunk_path env name) msg.chunk_size msg.checksum
                ++ b'\n' ∷ [])
              s.chunk_metadata;
        received_bytes = (s.received_bytes + length incoming) % 2 ^ 64;
      } in
      let disk : OnDisk msg' msg.file_name (chunk_path env name) incoming s₁ = record {
        data_there = Dict.lookup-insert_self name incoming s.chunk_data;
        line_there = Dict.lookup-insert_self (metadata_name name) _ s.chunk_metadata;
        whole = all;
        field = field;
      } in
      (handle_chunk_located env meanwhile (record msg { locations = some l }) l incoming s refl).0
      ∙ rw (
        creates',
        creates,
        copy_n_all msg.chunk_size incoming all small,
        forward_chunk-copies msg' msg.file_name (chunk_path env name) msg.receiver_addr incoming
            l.replicas reached s₁ disk,
      )

-- ===== src/Client/Sending.antt =====
-- How a client sends a file: sendFileDataToStorageNodes of client.go.
use hdfs_in_golang.Base.{
  ℕ, zero, suc, ◌+◌, ◌-◌, ◌/◌, ◌%◌, ◌^◌, ◌&&◌, Option, none, some, List, [], ◌∷◌, ◌++◌, get_elem?,
  length, drop, ltb, nat_eq, if◌then◌else◌,
}
use hdfs_in_golang.Base.Exec.{fatal, panicked, fail, pure, modify, or_panic, ◌>>=◌, ◌>>◌}
use hdfs_in_golang.Text.{Text, codes}
use hdfs_in_golang.Text.Decimal.{format_uint}
use hdfs_in_golang.Transport.{Bytes}
use hdfs_in_golang.Proto.{FileMetaData, ChunkMetaData, ChunkStorageLocations, write, chunk_metadata}
use hdfs_in_golang.Network.{address}
use hdfs_in_golang.Controller.Heartbeat.{joined}
use hdfs_in_golang.Storage.{Output, output_on}
use hdfs_in_golang.Storage.Chunks.{copy_n}
use hdfs_in_golang.Client.{Client, ClientEnv, ClientAction}

-- The quotient rounded up, for a positive chunk size.
unfoldable pub ceil_div : ℕ → ℕ → ℕ
ceil_div file_size chunk_size = (file_size + (chunk_size - 1)) / chunk_size

-- fmt.Sprintf("%s_chunk_%d", name, i)
unfoldable pub chunk_name : Text → ℕ → Text
chunk_name name i = name ++ (codes "_chunk_" ++ format_uint i)

-- locations[i].Replicas[0] and locations[i].Replicas[1:]: `none` is an index out of range or a nil
-- dereference.
abbrev pub main_node : Option (Option ChunkStorageLocations) → Option (Text × List Text)
main_node none = none
main_node (some none) = none
main_node (some (some l)) = elim l.replicas [ [] ↦ none | main ∷ replicas ↦ some (main, replicas) ]

-- The output of one round, with the counters sentBytes and chunksSent.
unfoldable pub push_output : Output → Client → Client
push_output o c = record c {
  sent = c.sent ++ o ∷ [];
  sent_bytes = c.sent_bytes + length o.payload;
  chunks_sent = (c.chunks_sent + 1) % 2 ^ 64;
}

-- openFile: a file that cannot be opened ends the process.
abbrev pub opened : Option Bytes → ClientAction Bytes
opened none = fail fatal
opened (some bytes) = pure bytes

module _ (env : ClientEnv) where
  -- What is said of chunk `i`.
  unfoldable pub chunk_message : FileMetaData → ℕ → List Text → Text → Text → Bytes → ChunkMetaData
  unfolding chunk_name
  chunk_message msg i replicas host port bytes = record {
    file_name = msg.file_name;
    locations = some (record { chunk_filename = chunk_name msg.file_name i; replicas = replicas });
    chunk_size = length bytes;
    checksum = env.digest bytes;
    request_type = write;
    sender_addr = env.net.self;
    receiver_addr = joined host port;
    file_extension = msg.file_extension;
  }

  -- What is written on the connection for chunk `i`.
  unfoldable pub chunk_output : FileMetaData → ℕ → List Text → Text → Text → Bytes → Output
  unfolding chunk_message
  chunk_output msg i replicas host port bytes =
      output_on env.net host port (chunk_metadata (chunk_message msg i replicas host port bytes))
        bytes

  -- The loop of sendFileDataToStorageNodes from chunk `i` on, with a number of rounds left and the
  -- bytes of the file that were not read yet. It ends early without a connection, and after a
  -- chunk that is shorter than the chunk size (io.EOF). make([]byte, 0, chunkSize) panics for a
  -- size that cannot be allocated.
  unfoldable pub send_chunks : FileMetaData → ℕ → ℕ → Bytes → ClientAction Unit
  send_chunks msg zero i file = pure tt
  send_chunks msg (suc rounds) i file =
      let bytes = copy_n msg.chunk_size file in
      let rest = send_chunks msg rounds (i + 1) (drop (length bytes) file) in
      or_panic (main_node (get_elem? msg.locations i)) >>= λ (main, replicas).
      or_panic (address main) >>= λ (host, port).
      if env.net.dials host port
      then (if env.net.codec.allocates msg.chunk_size
          then (modify (push_output (chunk_output msg i replicas host port bytes))
              >> (if ltb (length bytes) msg.chunk_size && ltb msg.chunk_size (2 ^ 63)
                  then pure tt
                  else rest))
          else fail panicked)
      else pure tt

  -- The file at the path is sent, as much as the loop reads.
  unfoldable pub send_file_data_to_storage_nodes : Text → FileMetaData → ClientAction Unit
  unfolding send_chunks
  send_file_data_to_storage_nodes path msg = do
    file ← opened (env.opens path)
    modify (λ c. record c { sent_bytes = 0; chunks_sent = 0 })
    send_chunks msg msg.total_chunks 0 file

-- ===== src/Cluster/Fetched.antt =====
-- A chunk on its way from a client to a node and back.
use hdfs_in_golang.Base.{
  ℕ, ◌^◌, ◌<◌, ◌≡◌, refl, ◌∙◌, true, some, List, [], ◌∷◌, ◌++◌, nat_eq, list_eq, length,
}
use hdfs_in_golang.Base.Exec.{ok}
use hdfs_in_golang.Text.{Text}
use hdfs_in_golang.Transport.{Bytes}
use hdfs_in_golang.Proto.{FileMetaData, ChunkMetaData, write, read, chunk_metadata}
use hdfs_in_golang.Network.{address}
use hdfs_in_golang.Controller.Metadata.Format.{IsField}
use hdfs_in_golang.Storage.{output_on, StorageNode, NodeEnv, send_on}
use hdfs_in_golang.Storage.Chunks.{metadata_name}
use hdfs_in_golang.Storage.Requests.{handle_chunk, send_chunk_data_to_client}
use hdfs_in_golang.Storage.Requests.Served.{handle_chunk-write_read}
use hdfs_in_golang.Client.{ClientEnv}
use hdfs_in_golang.Client.Sending.{chunk_name, chunk_message}
use hdfs_in_golang.Client.Receiving.{chunk_request}

module _ (client : ClientEnv) (node : NodeEnv) where
  -- What the node says of a chunk that the client `asked` for.
  abbrev pub fetched : ChunkMetaData → Bytes → ChunkMetaData
  fetched asked bytes = record asked {
    chunk_size = length bytes;
    checksum = client.digest bytes;
    request_type = write;
    receiver_addr = asked.sender_addr;
    sender_addr = node.net.self;
  }

  send_chunk_data_to_client-sent :
      (host port : Text) (asked : ChunkMetaData) (bytes : Bytes) (s : StorageNode)
      → address asked.sender_addr ≡ some (host, port)
      → node.net.dials host port ≡ true
      → send_chunk_data_to_client node asked.sender_addr
          (record asked { chunk_size = length bytes; checksum = client.digest bytes })
          bytes
          s
        ≡ (
          ok tt,
          record s {
            sent =
                s.sent
                ++ output_on node.net host port (chunk_metadata (fetched asked bytes)) bytes ∷ [];
          },
        )
  unfolding send_chunk_data_to_client send_on
  send_chunk_data_to_client-sent host port asked bytes s addressed dials =
      rw (addressed, send_on, dials)

  -- A chunk comes back as it was sent. A node is given chunk `i` of a file by a client, all its
  -- bytes and their checksum, and stores it; when the client then asks for the chunk on another
  -- connection, the node sends one message more, to the client, that names the chunk and its size,
  -- and behind it the very bytes. Client and node compute the same checksums, which can stand as a
  -- field of the chunk's line; the node can make the chunk's files and can reach the client, and
  -- the chunk has fewer than 2 ^ 63 bytes.
  pub handle_chunk-chunk_message :
      (meanwhile later : List (StorageNode → StorageNode)) (msg found : FileMetaData) (i : ℕ)
      (replicas : List Text) (host port addr client_host client_port : Text) (bytes behind : Bytes)
      (s : StorageNode)
      → ((b : Bytes) → node.digest b ≡ client.digest b)
      → IsField (client.digest bytes)
      → node.creates (chunk_name msg.file_name i) ≡ true
      → node.creates (metadata_name (chunk_name msg.file_name i)) ≡ true
      → length bytes < 2 ^ 63
      → address client.net.self ≡ some (client_host, client_port)
      → node.net.dials client_host client_port ≡ true
      → (t : StorageNode) × ((handle_chunk node meanwhile
            (chunk_message client msg i replicas host port bytes)
            bytes
            write
            s).1
          ≡ t)
        × (handle_chunk node later
              (chunk_request client found (chunk_name msg.file_name i) addr)
              behind
              read
              t
            ≡ (
              ok tt,
              record t {
                sent =
                    t.sent
                    ++ output_on node.net client_host client_port
                        (chunk_metadata (
                          fetched
                            (chunk_request client found (chunk_name msg.file_name i) addr)
                            bytes))
                        bytes
                      ∷ [];
              },
            ))
  unfolding chunk_message chunk_request
  handle_chunk-chunk_message meanwhile later msg found i replicas host port addr client_host
        client_port bytes behind s digests field creates creates' small addressed dials =
      (
        _,
        refl,
        handle_chunk-write_read node meanwhile later
              (chunk_message client msg i replicas host port bytes)
              (chunk_request client found (chunk_name msg.file_name i) addr) _ _ bytes behind s refl
              refl refl creates creates' refl small field (digests bytes)
            ∙ send_chunk_data_to_client-sent client_host client_port
                (chunk_request client found (chunk_name msg.file_name i) addr) bytes _ addressed
                dials,
      )

-- ===== src/Storage/Requests/Repair.antt =====
-- Whom a repaired chunk is sent to.
use hdfs_in_golang.Base.{
  ◌≡◌, sym, ap, ◌∙◌, Bool, true, false, List, [], ◌∷◌, arith, nat_eq, list_eq, if◌then◌else◌,
}
use hdfs_in_golang.Base.Exec.{Outcome, ok, err}
use hdfs_in_golang.Text.{Text}
use hdfs_in_golang.Transport.{Bytes}
use hdfs_in_golang.Proto.{ChunkMetaData, replica, chunk_metadata, get_chunk_filename}
use hdfs_in_golang.Controller.Heartbeat.{joined}
use hdfs_in_golang.Storage.{StorageNode, NodeEnv, send_on}
use hdfs_in_golang.Storage.Chunks.{get_chunk_info_from_disk}
use hdfs_in_golang.Storage.Requests.{
  request_replica_info_from_controller, validate_file, send_chunk_data_to_client,
  handle_corrupted_chunk,
}

module _ (env : NodeEnv) where
  -- The message after the controller was asked for replicas.
  abbrev pub asking : ChunkMetaData → ChunkMetaData
  asking msg = record msg {
    sender_addr = env.net.self;
    receiver_addr = joined env.controller_hostname env.controller_port;
    request_type = replica;
  }

  -- What the disk says in a round: the message with the chunk's size and checksum, and the data.
  abbrev pub Reads : ChunkMetaData → StorageNode → ChunkMetaData → Bytes → Bool → Type 0
  Reads msg s msg' bytes valid =
      (get_chunk_info_from_disk msg s ≡ (ok (msg', bytes), s))
      × (validate_file env msg'.checksum (get_chunk_filename msg'.locations) s ≡ (ok valid, s))

  -- The state in which a round begins to read, after the request to the controller and the change.
  abbrev pub changed : ChunkMetaData → (StorageNode → StorageNode) → StorageNode → StorageNode
  changed msg change s =
      change
        (send_on env env.controller_hostname env.controller_port (chunk_metadata (asking msg)) []
          s).1

  ask_lem :
      (msg : ChunkMetaData) (s : StorageNode)
      → env.net.dials env.controller_hostname env.controller_port ≡ true
      → request_replica_info_from_controller env msg s ≡ (
        ok (asking msg),
        (send_on env env.controller_hostname env.controller_port
            (chunk_metadata (asking msg))
            []
            s).1,
      )
  unfolding request_replica_info_from_controller send_on
  ask_lem msg s there = ground arith

  -- One round with a controller that can be reached.
  round :
      (meanwhile : List (StorageNode → StorageNode)) (change : StorageNode → StorageNode)
      (msg msg' : ChunkMetaData) (bytes : Bytes) (valid : Bool) (s : StorageNode)
      → env.net.dials env.controller_hostname env.controller_port ≡ true
      → Reads (asking msg) (changed msg change s) msg' bytes valid
      → handle_corrupted_chunk env (change ∷ meanwhile) msg s
        ≡ (if valid
              then send_chunk_data_to_client env msg.sender_addr msg' bytes
              else handle_corrupted_chunk env meanwhile msg')
            (changed msg change s)
  unfolding handle_corrupted_chunk
  round meanwhile change msg msg' bytes valid s there (e, v) = rw (ask_lem msg s there, e, v)

  -- Reading the disk leaves the sender of the message as it is.
  own_sender :
      (msg msg' : ChunkMetaData) (s : StorageNode) (bytes : Bytes)
      → get_chunk_info_from_disk msg s ≡ (ok (msg', bytes), s)
      → msg'.sender_addr ≡ msg.sender_addr
  unfolding get_chunk_info_from_disk
  own_sender msg msg' s bytes e = sym (ap sender e)
    where
      sender : Outcome (ChunkMetaData × Bytes) × StorageNode → Text
      sender (ok (m, _), _) = m.sender_addr
      sender (err _, _) = []

  -- A chunk that is whole again only in the second round of its repair is sent to the node's own
  -- address, not to the client that asked for it: the request to the controller in the first round
  -- has put the node's address in the place of the client's.
  pub handle_corrupted_chunk_again :
      (meanwhile : List (StorageNode → StorageNode)) (change change' : StorageNode → StorageNode)
      (msg msg₁ msg₂ : ChunkMetaData) (bytes bytes' : Bytes) (s : StorageNode)
      → env.net.dials env.controller_hostname env.controller_port ≡ true
      → Reads (asking msg) (changed msg change s) msg₁ bytes false
      → Reads (asking msg₁) (changed msg₁ change' (changed msg change s)) msg₂ bytes' true
      → handle_corrupted_chunk env (change ∷ change' ∷ meanwhile) msg s
        ≡ send_chunk_data_to_client env env.net.self msg₂ bytes'
            (changed msg₁ change' (changed msg change s))
  handle_corrupted_chunk_again meanwhile change change' msg msg₁ msg₂ bytes bytes' s there first
        second =
      round (change' ∷ meanwhile) change msg msg₁ bytes false s there first
      ∙ round meanwhile change' msg₁ msg₂ bytes' true (changed msg change s) there second
      ∙ ap
          (λ addr.
            send_chunk_data_to_client env addr msg₂ bytes'
              (changed msg₁ change' (changed msg change s)))
          (own_sender (asking msg) msg₁ (changed msg change s) bytes first.0)

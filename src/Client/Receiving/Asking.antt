-- ===== src/Client/Receiving/Asking.antt =====
-- What a client is waiting for when it has asked the nodes for the chunks of a file.
use hdfs_in_golang.Base.{
  ◌≡◌, refl, ap, ◌∙◌, Bool, true, false, Option, none, some, List, [], ◌∷◌, arith, nat_eq, list_eq,
}
use hdfs_in_golang.Base.Exec.{Outcome, ok, err, continue, or_panic, pure, ◌>>=◌}
use hdfs_in_golang.Text.{Text}
use hdfs_in_golang.Proto.{Wrapper, chunk_metadata, FileMetaData, ChunkStorageLocations}
use hdfs_in_golang.Client.{Client, ClientEnv, ClientAction, send_on}
use hdfs_in_golang.Network.{address}
use hdfs_in_golang.Client.Sending.{main_node}
use hdfs_in_golang.Client.Receiving.{
  ask_nodes, unless_lost, named, chunk_request, retrieve_chunk_data_from_storage_nodes,
}

abbrev OnlySends : Client → Client → Type 0
OnlySends c c' = c' ≡ record c { sent = c'.sent }

record Quiet {A : Type 0} (m : ClientAction A) : Type 0 where
  at : (c : Client) → OnlySends c (m c).1

continue-OnlySends :
    {A B : Type 0} (r : Outcome A) (f : A → ClientAction B) (c c' : Client)
    → OnlySends c c'
    → ((a : A) → Quiet (f a))
    → OnlySends c (continue r f c').1
continue-OnlySends (ok a) f c c' p q =
    (q a).at c' ∙ ap (λ (d : Client). record d { sent = (f a c').1.sent }) p
continue-OnlySends (err e) f c c' p q = p

Quiet-bind :
    {A B : Type 0} (m : ClientAction A) (f : A → ClientAction B)
    → Quiet m
    → ((a : A) → Quiet (f a))
    → Quiet (m >>= f)
Quiet-bind m f qm qf = record { at = λ c. continue-OnlySends (m c).0 f c (m c).1 (qm.at c) qf }

Quiet-pure : {A : Type 0} (a : A) → Quiet (pure a)
Quiet-pure a = record { at = λ c. refl }

Quiet-or_panic : {A : Type 0} (o : Option A) → Quiet (or_panic o)
Quiet-or_panic none = record { at = λ c. refl }
Quiet-or_panic (some a) = record { at = λ c. refl }

Quiet-unless_lost :
    (next : ClientAction Unit) (connected : Bool) → Quiet next → Quiet (unless_lost next connected)
Quiet-unless_lost next true h = h
Quiet-unless_lost next false h = Quiet-pure tt

module _ (env : ClientEnv) where
  Quiet-send_on : (host port : Text) (message : Wrapper) → Quiet (send_on env host port message)
  unfolding send_on
  Quiet-send_on host port message = record { at = λ c. ground arith }

  Quiet-ask_nodes :
      (msg : FileMetaData) (locations : List (Option ChunkStorageLocations))
      → Quiet (ask_nodes env msg locations)
  unfolding ask_nodes
  Quiet-ask_nodes msg [] = Quiet-pure tt
  Quiet-ask_nodes msg (location ∷ locations) =
      let rest = Quiet-ask_nodes msg locations in
      Quiet-bind (or_panic (main_node (some location))) _ (Quiet-or_panic _) λ (node, replicas).
        Quiet-bind (or_panic (address node)) _ (Quiet-or_panic _) λ (host, port).
          Quiet-bind (or_panic (named location)) _ (Quiet-or_panic _) λ name.
            Quiet-bind (send_on env host port (chunk_metadata (chunk_request env msg name node))) _
              (Quiet-send_on _ _ _) λ connected. Quiet-unless_lost _ connected rest

  -- The client as the metadata of a file sets it.
  abbrev pub awaiting : FileMetaData → Client → Client
  awaiting msg c = record c {
    total_number_of_chunks = msg.total_chunks;
    file_check_sum = msg.checksum;
    file_size = msg.file_size;
    folder_name = msg.folder_name;
    received_bytes = 0;
    chunks_received = 0;
  }

  -- Whatever comes of the connections to the nodes.
  pub retrieve_chunk_data_from_storage_nodes-awaiting :
      (msg : FileMetaData) (c : Client)
      → (retrieve_chunk_data_from_storage_nodes env msg c).1 ≡ record (awaiting msg c) {
        sent = (retrieve_chunk_data_from_storage_nodes env msg c).1.sent;
      }
  unfolding retrieve_chunk_data_from_storage_nodes
  retrieve_chunk_data_from_storage_nodes-awaiting msg c =
      (Quiet-ask_nodes msg msg.locations).at (awaiting msg c)

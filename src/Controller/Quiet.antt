-- ===== src/Controller/Quiet.antt =====
-- Actions that change nothing but the packets sent.
use hdfs_in_golang.Base.{
  ℕ, ◌≡◌, refl, ap, ◌∙◌, Bool, true, false, Option, none, some, List, [], ◌∷◌, arith, nat_eq,
  list_eq,
}
use hdfs_in_golang.Base.Exec.{
  Failure, Outcome, ok, err, pure, fail, gets, continue, handle_error, or_panic, ◌>>=◌,
}
use hdfs_in_golang.Text.{Text}
use hdfs_in_golang.Proto.{Wrapper, FileMetaData, ChunkMetaData, MsgType, Request}
use hdfs_in_golang.Controller.{Controller, ChunkMap, Env, Action, send_to}
use hdfs_in_golang.Controller.Metadata.{get_file_metadata}
use hdfs_in_golang.Controller.Placement.{
  get_storage_nodes, get_storage_nodes_for_client, get_replicas_for_storage_node,
}
use hdfs_in_golang.Controller.Replies.{
  checked, send_storage_nodes_to_client, send_file_metadata_to_client,
  send_replicas_to_storage_node, send_messages_to_client, get_and_send_files_within_folder,
  delete_request, send_storage_node_delete_request, delete_chunks, delete_from_storage_nodes,
}

abbrev pub OnlySends : Controller → Controller → Type 0
OnlySends c c' = c' ≡ record c { sent = c'.sent }

pub record Quiet {A : Type 0} (m : Action A) : Type 0 where
  pub at : (c : Controller) → OnlySends c (m c).1

OnlySends-trans : (c c' c'' : Controller) → OnlySends c c' → OnlySends c' c'' → OnlySends c c''
OnlySends-trans c c' c'' p q = q ∙ ap (λ (d : Controller). record d { sent = c''.sent }) p

continue-OnlySends :
    {A B : Type 0} (r : Outcome A) (f : A → Action B) (c c' : Controller)
    → OnlySends c c'
    → ((a : A) → Quiet (f a))
    → OnlySends c (continue r f c').1
continue-OnlySends (ok a) f c c' p q = OnlySends-trans c c' (f a c').1 p ((q a).at c')
continue-OnlySends (err e) f c c' p q = p

module _ {A B : Type 0} where
  pub Quiet-bind :
      (m : Action A) (f : A → Action B) → Quiet m → ((a : A) → Quiet (f a)) → Quiet (m >>= f)
  Quiet-bind m f qm qf = record { at = λ c. continue-OnlySends (m c).0 f c (m c).1 (qm.at c) qf }

module _ {A : Type 0} where
  pub Quiet-pure : (a : A) → Quiet (pure a)
  Quiet-pure a = record { at = λ c. refl }

  pub Quiet-fail : (e : Failure) → Quiet {A = A} (fail e)
  Quiet-fail e = record { at = λ c. refl }

  pub Quiet-gets : (f : Controller → A) → Quiet (gets f)
  Quiet-gets f = record { at = λ c. refl }

  pub Quiet-or_panic : (o : Option A) → Quiet (or_panic o)
  Quiet-or_panic none = record { at = λ c. refl }
  Quiet-or_panic (some a) = record { at = λ c. refl }

pub Quiet-handle_error : (b : Bool) → Quiet (handle_error b)
Quiet-handle_error true = record { at = λ c. refl }
Quiet-handle_error false = record { at = λ c. refl }

pub Quiet-checked : (o : Option Bool) → Quiet (checked o)
Quiet-checked none = record { at = λ c. refl }
Quiet-checked (some b) = Quiet-handle_error b

pub ruleset quiet_rules = (
  Quiet-bind, Quiet-pure, Quiet-fail, Quiet-gets, Quiet-or_panic, Quiet-handle_error, Quiet-checked,
)

pub Quiet-get_file_metadata : (msg : FileMetaData) → Quiet (get_file_metadata msg)
unfolding get_file_metadata
Quiet-get_file_metadata msg = search quiet_rules

Quiet-get_storage_nodes : (draws : List ℕ) (total : ℕ) → Quiet (get_storage_nodes draws total)
unfolding get_storage_nodes
Quiet-get_storage_nodes draws total = record { at = λ c. ground arith }

pub Quiet-get_storage_nodes_for_client :
    (msg : FileMetaData) → Quiet (get_storage_nodes_for_client msg)
unfolding get_storage_nodes_for_client
Quiet-get_storage_nodes_for_client msg = record { at = λ c. ground arith }

Quiet-get_replicas : (msg : ChunkMetaData) → Quiet (get_replicas_for_storage_node msg)
unfolding get_replicas_for_storage_node
Quiet-get_replicas msg = search quiet_rules

module _ (env : Env) where
  pub Quiet-send_to : (addr : Text) (message : Wrapper) → Quiet (send_to env addr message)
  unfolding send_to
  Quiet-send_to addr message = record { at = λ c. ground arith }

  pub Quiet-send_messages :
      (t : MsgType) (addr description : Text)
      → Quiet (send_messages_to_client env t addr description)
  unfolding send_messages_to_client
  Quiet-send_messages t addr description = search (quiet_rules, Quiet-send_to)

  pub Quiet-send_file_metadata : (msg : FileMetaData) → Quiet (send_file_metadata_to_client env msg)
  unfolding send_file_metadata_to_client
  Quiet-send_file_metadata msg = search (quiet_rules, Quiet-send_to)

  pub Quiet-send_storage_nodes :
      (draws : List ℕ) (msg : FileMetaData) → Quiet (send_storage_nodes_to_client env draws msg)
  unfolding send_storage_nodes_to_client
  Quiet-send_storage_nodes draws msg = search (quiet_rules, Quiet-send_to, Quiet-get_storage_nodes)

  pub Quiet-send_replicas : (msg : ChunkMetaData) → Quiet (send_replicas_to_storage_node env msg)
  unfolding send_replicas_to_storage_node
  Quiet-send_replicas msg = search (quiet_rules, Quiet-send_to, Quiet-get_replicas)

  pub Quiet-folders : (msg : Request) → Quiet (get_and_send_files_within_folder env msg)
  unfolding get_and_send_files_within_folder
  Quiet-folders msg = search (quiet_rules, Quiet-send_to)

  Quiet-delete_request :
      (name chunk : Text) (nodes : List Text) → Quiet (delete_request env name chunk nodes)
  unfolding delete_request
  Quiet-delete_request name chunk [] = search quiet_rules
  Quiet-delete_request name chunk (main ∷ replicas) = search (quiet_rules, Quiet-send_to)

  Quiet-send_delete : (name chunk : Text) → Quiet (send_storage_node_delete_request env name chunk)
  Quiet-send_delete name chunk =
      unfold send_storage_node_delete_request in search (quiet_rules, Quiet-delete_request)

  Quiet-delete_chunks : (name : Text) (chunks : ChunkMap) → Quiet (delete_chunks env name chunks)
  unfolding delete_chunks
  Quiet-delete_chunks name [] = Quiet-pure tt
  Quiet-delete_chunks name ((chunk, nodes) ∷ chunks) =
      Quiet-bind (send_storage_node_delete_request env name chunk)
        (λ _. delete_chunks env name chunks) (Quiet-send_delete name chunk)
        (λ _. Quiet-delete_chunks name chunks)

  pub Quiet-delete_from_storage_nodes :
      (msg : FileMetaData) → Quiet (delete_from_storage_nodes env msg)
  unfolding delete_from_storage_nodes
  Quiet-delete_from_storage_nodes msg = search (quiet_rules, Quiet-delete_chunks)

  -- The whole retrieval.
  pub Quiet-retrieval :
      (msg : FileMetaData)
      → Quiet (
          get_file_metadata msg >>= λ m.
          get_storage_nodes_for_client m >>= λ n. send_file_metadata_to_client env n)
  Quiet-retrieval msg = search (
    quiet_rules, Quiet-get_file_metadata, Quiet-get_storage_nodes_for_client,
    Quiet-send_file_metadata,
  )

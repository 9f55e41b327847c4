-- ===== src/Controller/Concurrent/Spared.antt =====
-- What heartbeats, requests for the nodes and the monitor leave as it is: the filter and the table.
use hdfs_in_golang.Base.{
  ℕ, ◌+◌, ◌≡◌, refl, ap, ◌∙◌, Bool, true, false, Option, none, some, [], ◌∷◌, arith, nat_eq,
  list_eq, if◌then◌else◌,
}
use hdfs_in_golang.Base.Dict.{Dict}
use hdfs_in_golang.Base.Exec.{
  Failure, Outcome, ok, err, pure, fail, gets, modify, continue, handle_error, or_panic, ◌>>=◌,
}
use hdfs_in_golang.Text.{Text}
use hdfs_in_golang.Proto.{StorageNodesMetadata, RequestType, write, storage_nodes_metadata}
use hdfs_in_golang.Controller.{
  Controller, ChunkMap, StorageNodeInfo, Env, Action, send_to, lock_active_nodes,
}
use hdfs_in_golang.Controller.Heartbeat.{
  get_and_save_chunk_info_to_memory, write_chunk_files, save_chunk_file_info_to_disk,
  save_storage_node_info, monitor_nodes,
}
use hdfs_in_golang.Controller.Replies.{
  node_message, or_leave, send_nodes, get_active_storage_node_info_for_client,
}
use hdfs_in_golang.Controller.Handler.{handle_storage_nodes_metadata}
use hdfs_in_golang.Controller.Quiet.{Quiet, Quiet-send_to}

pub record SameFiles (c c' : Controller) : Type 0 where
  pub filter_same : c'.bf ≡ c.bf
  pub table_same : c'.file_map ≡ c.file_map

pub record Spares {A : Type 0} (m : Action A) : Type 0 where
  pub at : (c : Controller) → SameFiles c (m c).1

same : (c : Controller) → SameFiles c c
same c = record { filter_same = refl; table_same = refl }

continue-SameFiles :
    {A B : Type 0} (r : Outcome A) (f : A → Action B) (c c' : Controller)
    → SameFiles c c'
    → ((a : A) → Spares (f a))
    → SameFiles c (continue r f c').1
continue-SameFiles (ok a) f c c' p q =
    let later = (q a).at c' in
    record {
      filter_same = later.filter_same ∙ p.filter_same;
      table_same = later.table_same ∙ p.table_same;
    }
continue-SameFiles (err e) f c c' p q = p

pub Spares-bind :
    {A B : Type 0} (m : Action A) (f : A → Action B)
    → Spares m
    → ((a : A) → Spares (f a))
    → Spares (m >>= f)
Spares-bind m f sm sf = record { at = λ c. continue-SameFiles (m c).0 f c (m c).1 (sm.at c) sf }

module _ {A : Type 0} where
  pub Spares-Quiet : (m : Action A) → Quiet m → Spares m
  Spares-Quiet m q = record {
    at = λ c. record {
      filter_same = ap (λ (d : Controller). d.bf) (q.at c);
      table_same = ap (λ (d : Controller). d.file_map) (q.at c);
    };
  }

  pub Spares-pure : (a : A) → Spares (pure a)
  Spares-pure a = record { at = same }

  pub Spares-fail : (e : Failure) → Spares {A = A} (fail e)
  Spares-fail e = record { at = same }

  Spares-gets : (f : Controller → A) → Spares (gets f)
  Spares-gets f = record { at = same }

  Spares-or_panic : (o : Option A) → Spares (or_panic o)
  Spares-or_panic none = record { at = same }
  Spares-or_panic (some a) = record { at = same }

  Spares-if : (b : Bool) (m n : Action A) → Spares m → Spares n → Spares (if b then m else n)
  Spares-if true m n sm sn = sm
  Spares-if false m n sm sn = sn

Spares-handle_error : (b : Bool) → Spares (handle_error b)
Spares-handle_error true = record { at = same }
Spares-handle_error false = record { at = same }

Spares-lock : Spares lock_active_nodes
unfolding lock_active_nodes
Spares-lock = record { at = λ c. record { filter_same = ground arith; table_same = ground arith } }

Spares-modify :
    (f : Controller → Controller) → ((c : Controller) → SameFiles c (f c)) → Spares (modify f)
Spares-modify f h = record { at = h }

Spares-chunk_metadata_dir :
    (g : Controller → Dict Text Text) → Spares (modify (λ c. record c { chunk_metadata_dir = g c }))
Spares-chunk_metadata_dir g =
    Spares-modify _ (λ c. record { filter_same = refl; table_same = refl })

Spares-file_chunk_map :
    (g : Controller → Dict Text ChunkMap) → Spares (modify (λ c. record c { file_chunk_map = g c }))
Spares-file_chunk_map g = Spares-modify _ (λ c. record { filter_same = refl; table_same = refl })

Spares-active_nodes_map :
    (g : Controller → Dict Text StorageNodeInfo)
    → Spares (modify (λ c. record c { active_nodes_map = g c }))
Spares-active_nodes_map g = Spares-modify _ (λ c. record { filter_same = refl; table_same = refl })

Spares-readers :
    (g : Controller → ℕ) → Spares (modify (λ c. record c { active_nodes_readers = g c }))
Spares-readers g = Spares-modify _ (λ c. record { filter_same = refl; table_same = refl })

ruleset spares_rules = (
  Spares-bind, Spares-pure, Spares-fail, Spares-gets, Spares-or_panic, Spares-handle_error,
  Spares-lock, Spares-if, Spares-chunk_metadata_dir, Spares-file_chunk_map, Spares-active_nodes_map,
  Spares-readers,
)

Spares-memory : (msg : StorageNodesMetadata) → Spares (get_and_save_chunk_info_to_memory msg)
unfolding get_and_save_chunk_info_to_memory
Spares-memory msg = search spares_rules depth 9

pub Spares-monitor_nodes : (now : ℕ) → Spares (monitor_nodes now)
unfolding monitor_nodes
Spares-monitor_nodes now = search spares_rules depth 9

module _ (env : Env) where
  write_chunk_file-Spares :
      (filename : Text) (chunks : ChunkMap) (d : Dict Text ChunkMap)
      → Spares (write_chunk_files env d)
      → Spares (write_chunk_files env ((filename, chunks) ∷ d))
  unfolding write_chunk_files
  write_chunk_file-Spares filename chunks d ih = search spares_rules depth 9

  Spares-write_chunk_files : (d : Dict Text ChunkMap) → Spares (write_chunk_files env d)
  unfolding write_chunk_files
  Spares-write_chunk_files [] = Spares-pure tt
  Spares-write_chunk_files ((filename, chunks) ∷ d) =
      write_chunk_file-Spares filename chunks d (Spares-write_chunk_files d)

  Spares-disk : Spares (save_chunk_file_info_to_disk env)
  unfolding save_chunk_file_info_to_disk
  Spares-disk = search (spares_rules, Spares-write_chunk_files)

  Spares-heartbeat :
      (now : ℕ) (msg : StorageNodesMetadata) → Spares (save_storage_node_info env now msg)
  unfolding save_storage_node_info
  Spares-heartbeat now msg = search (spares_rules, Spares-memory, Spares-disk) depth 9

  Spares-or_leave :
      (sent : Option Bool) (next : Action Unit) → Spares next → Spares (or_leave sent next)
  unfolding or_leave
  Spares-or_leave none next k = Spares-readers (λ c. c.active_nodes_readers + 1)
  Spares-or_leave (some b) next k = k

  Spares-send_nodes :
      (msg : StorageNodesMetadata) (nodes : Dict Text StorageNodeInfo)
      → Spares (send_nodes env msg nodes)
  unfolding send_nodes
  Spares-send_nodes msg [] = Spares-pure tt
  Spares-send_nodes msg ((addr, node) ∷ nodes) =
      let message = storage_nodes_metadata (node_message env msg node) in
      let rest = Spares-send_nodes msg nodes in
      Spares-bind (send_to env msg.sender_addr message)
        (λ sent. or_leave sent (send_nodes env msg nodes))
        (Spares-Quiet _ (Quiet-send_to env msg.sender_addr message))
        (λ sent. Spares-or_leave sent (send_nodes env msg nodes) rest)

  Spares-list :
      (msg : StorageNodesMetadata) → Spares (get_active_storage_node_info_for_client env msg)
  unfolding get_active_storage_node_info_for_client
  Spares-list msg = search (spares_rules, Spares-send_nodes)

  pub Spares-handle_storage_nodes_metadata :
      (now : ℕ) (msg : StorageNodesMetadata) (t : RequestType)
      → Spares (handle_storage_nodes_metadata env now msg t)
  unfolding handle_storage_nodes_metadata
  Spares-handle_storage_nodes_metadata now msg write = Spares-heartbeat now msg
  Spares-handle_storage_nodes_metadata now msg _ = Spares-list msg

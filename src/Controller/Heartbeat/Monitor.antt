-- ===== src/Controller/Heartbeat/Monitor.antt =====
-- monitorNodes takes out the nodes that are down, and no others.
use hdfs_in_golang.Base.{
  ℕ, ◌+◌, ◌≡◌, ◌≢◌, refl, ap, Bool, true, false, Option, none, some, List, [], ◌∷◌, leb, not, ◌&&◌,
  arith, nat_eq, list_eq, if◌then◌else◌,
}
use hdfs_in_golang.Base.Dict
use hdfs_in_golang.Base.Dict.{Dict, NodupKeys}
use hdfs_in_golang.Base.Exec.{Outcome, ok, err, stalled, ◌>>◌}
use hdfs_in_golang.Text.{Text}
use hdfs_in_golang.Proto.{
  StorageNodesMetadata, Wrapper, file_metadata, storage_nodes_metadata, chunk_metadata, request,
  response, empty,
}
use hdfs_in_golang.Network.{address, deliver}
use hdfs_in_golang.Controller.{
  Controller, StorageNodeInfo, Env, Action, lock_active_nodes, rlock_active_nodes, send_to,
}
use hdfs_in_golang.Controller.Handler.{handle_client_request}
use hdfs_in_golang.Controller.Heartbeat.{is_down, part_nodes, monitor_nodes}
use hdfs_in_golang.Controller.Replies.{
  or_leave, send_nodes, get_active_storage_node_info_for_client,
}

-- The last heartbeat is no more than ten seconds away, in nanoseconds.
abbrev pub is_recent : ℕ → StorageNodeInfo → Bool
is_recent now node =
    leb now (node.last_heartbeat_time + 10_000_000_000)
    && leb node.last_heartbeat_time (now + 10_000_000_000)

-- The node at a key, if it is one of the recent ones, or if it is one of the others.
abbrev pub kept : Bool → ℕ → Option StorageNodeInfo → Option StorageNodeInfo
kept recent now none = none
kept true now (some node) = if is_recent now node then some node else none
kept false now (some node) = if is_recent now node then none else some node

is_down-is_recent : (now : ℕ) (node : StorageNodeInfo) → is_down now node ≡ not (is_recent now node)
unfolding is_down
is_down-is_recent now node = ground arith

lookup-part_nodes :
    (now : ℕ) (d : Dict Text StorageNodeInfo) (addr : Text)
    → NodupKeys d
    → (Dict.lookup addr (part_nodes now d).0 ≡ kept true now (Dict.lookup addr d))
      × (Dict.lookup addr (part_nodes now d).1 ≡ kept false now (Dict.lookup addr d))
unfolding part_nodes Dict.lookup
lookup-part_nodes now [] addr u = (refl, refl)
lookup-part_nodes now ((a, node) ∷ d) addr (fresh, u) =
    let (alive, dead) = lookup-part_nodes now d addr u in
    let bound = is_down-is_recent now node in (ground arith, ground arith)

-- A round of monitorNodes, with no reader left behind and no address twice in the map: the active
-- nodes are then those that were active and whose last heartbeat is at most ten seconds away from
-- now, the others are returned as dead, and nothing else changes.
pub monitor_nodes_lem :
    (now : ℕ) (c : Controller)
    → c.active_nodes_readers ≡ 0
    → NodupKeys c.active_nodes_map
    → (alive : Dict Text StorageNodeInfo) × (dead : Dict Text StorageNodeInfo) × (monitor_nodes now
          c
        ≡ (ok dead, record c { active_nodes_map = alive }))
      × ((addr : Text)
          → (Dict.lookup addr alive ≡ kept true now (Dict.lookup addr c.active_nodes_map))
            × (Dict.lookup addr dead ≡ kept false now (Dict.lookup addr c.active_nodes_map)))
unfolding monitor_nodes lock_active_nodes
monitor_nodes_lem now c free u = (
  (part_nodes now c.active_nodes_map).0,
  (part_nodes now c.active_nodes_map).1,
  rw free (ground arith),
  λ addr. lookup-part_nodes now c.active_nodes_map addr u,
)

send_to_lost :
    (env : Env) (addr host port : Text) (message : Wrapper) (c : Controller)
    → address addr ≡ some (host, port)
    → env.net.dials host port ≡ false
    → send_to env addr message c ≡ (ok none, c)
unfolding send_to deliver
send_to_lost env addr host port message c a lost = ground arith

send_nodes_lost :
    (env : Env) (msg : StorageNodesMetadata) (host port : Text) (c : Controller)
    (d : Dict Text StorageNodeInfo)
    → address msg.sender_addr ≡ some (host, port)
    → env.net.dials host port ≡ false
    → d ≢ []
    → send_nodes env msg d c
      ≡ (ok tt, record c { active_nodes_readers = c.active_nodes_readers + 1 })
unfolding send_nodes or_leave
send_nodes_lost env msg host port c [] a lost some_node = absurd (some_node refl)
send_nodes_lost env msg host port c ((addr, node) ∷ d) a lost some_node =
    rw (send_to_lost env msg.sender_addr host port _ c a lost)

-- The state behind a lock that is not given: one writer more waits for it.
abbrev with_writer : Controller → Controller
with_writer c = record c { active_nodes_writers = c.active_nodes_writers + 1 }

monitor_nodes_locked :
    (later n : ℕ) (c : Controller)
    → monitor_nodes later (record c { active_nodes_readers = n + 1 })
      ≡ (err stalled, with_writer (record c { active_nodes_readers = n + 1 }))
unfolding monitor_nodes lock_active_nodes
monitor_nodes_locked later n c = ground arith

behind_writer :
    (m : Action Unit) (c : Controller) → ((rlock_active_nodes >> m) (with_writer c)).0 ≡ err stalled
unfolding rlock_active_nodes
behind_writer m c = ground arith

request_behind_writer :
    (env : Env) (now : ℕ) (draws : List ℕ) (w : Wrapper) (wrappers : List (Option Wrapper))
    (c : Controller)
    → (handle_client_request env now draws (some w ∷ wrappers) (with_writer c)).0 ≡ err stalled
unfolding handle_client_request
request_behind_writer env now draws (file_metadata msg) wrappers c = behind_writer _ c
request_behind_writer env now draws (storage_nodes_metadata msg) wrappers c = behind_writer _ c
request_behind_writer env now draws (chunk_metadata msg) wrappers c = behind_writer _ c
request_behind_writer env now draws (request msg) wrappers c = behind_writer _ c
request_behind_writer env now draws (response msg) wrappers c = behind_writer _ c
request_behind_writer env now draws empty wrappers c = unfold rlock_active_nodes in ground arith

-- A client that asks for the nodes and cannot be reached leaves the map of the nodes locked: if any
-- node is active, the next round of monitorNodes never ends.
pub monitor_nodes_after_lost_client :
    (env : Env) (msg : StorageNodesMetadata) (host port : Text) (later : ℕ) (c : Controller)
    → address msg.sender_addr ≡ some (host, port)
    → env.net.dials host port ≡ false
    → c.active_nodes_map ≢ []
    → (monitor_nodes later (get_active_storage_node_info_for_client env msg c).1).0 ≡ err stalled
unfolding get_active_storage_node_info_for_client
monitor_nodes_after_lost_client env msg host port later c a lost some_node =
    rw (send_nodes_lost env msg host port c c.active_nodes_map a lost some_node) (
      ap (λ (r : Outcome (Dict Text StorageNodeInfo) × Controller). r.0)
        (monitor_nodes_locked later c.active_nodes_readers c))

-- Once a client that asked for the nodes could not be reached while some node was active, and
-- monitorNodes has come to its next round, the controller answers nothing any more: whatever
-- message a connection begins with that comes then, it waits for ever at the lock that
-- handleClientRequest takes for its log, behind the waiting round.
pub handle_client_request_after_lost_client :
    (env : Env) (msg : StorageNodesMetadata) (host port : Text) (later now : ℕ) (draws : List ℕ)
    (w : Wrapper) (wrappers : List (Option Wrapper)) (c : Controller)
    → address msg.sender_addr ≡ some (host, port)
    → env.net.dials host port ≡ false
    → c.active_nodes_map ≢ []
    → (handle_client_request env now draws
        (some w ∷ wrappers)
        (monitor_nodes later (get_active_storage_node_info_for_client env msg c).1).1).0
      ≡ err stalled
unfolding get_active_storage_node_info_for_client
handle_client_request_after_lost_client env msg host port later now draws w wrappers c a lost
      some_node =
    rw
      (
        send_nodes_lost env msg host port c c.active_nodes_map a lost some_node,
        monitor_nodes_locked later c.active_nodes_readers c,
      )
      (request_behind_writer env now draws w wrappers
        (record c { active_nodes_readers = c.active_nodes_readers + 1 }))

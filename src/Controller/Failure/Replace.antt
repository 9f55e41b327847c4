-- ===== src/Controller/Failure/Replace.antt =====
-- Which node replaces one that failed.
use hdfs_in_golang.Base.{
  ℕ, ◌≤◌, ◌<◌, ◌≡◌, refl, ◌∙◌, true, false, ◌||◌, some, List, [], ◌∷◌, ◌++◌, arith, ltb, ◌==◌,
  nat_eq, list_eq, contains, length, get_elem?, All, length-append,
}
use hdfs_in_golang.Base.Dict
use hdfs_in_golang.Base.Dict.{Dict}
use hdfs_in_golang.Base.Exec.{ok, err, panicked}
use hdfs_in_golang.Text.{Text, split}
use hdfs_in_golang.Proto.{ChunkMetaData}
use hdfs_in_golang.Network.{address}
use hdfs_in_golang.Controller.{Controller, Env, send_to}
use hdfs_in_golang.Controller.Placement.{nodes_of}
use hdfs_in_golang.Controller.Failure.{
  draw_replacement, forget_node, replace_failed_node, send_replication_message,
}

-- A draw that names the failed node or one that has the chunk already.
abbrev pub IsStale : List Text → List Text → Text → ℕ → Type 0
IsStale keys holders failed draw =
    (loc : Text) × (get_elem? keys draw ≡ some loc)
    × ((loc == failed || contains holders loc) ≡ true)

-- With two nodes left that hold the chunk, and three active ones at least.
draw_replacement_stale :
    (draw : ℕ) (draws : List ℕ) (keys holders : List Text) (failed : Text)
    → length holders ≡ 2
    → 3 ≤ length keys
    → IsStale keys holders failed draw
    → draw_replacement (draw ∷ draws) keys holders failed holders []
      ≡ draw_replacement draws keys holders failed holders []
unfolding draw_replacement
draw_replacement_stale draw draws keys holders failed two many (loc, e, stale) =
    rw (e, draw_replacement) (ground arith)

draw_replacement_fresh :
    (draw : ℕ) (draws : List ℕ) (keys holders : List Text) (failed loc : Text)
    → length holders ≡ 2
    → get_elem? keys draw ≡ some loc
    → (loc == failed) ≡ false
    → contains holders loc ≡ false
    → draw_replacement (draw ∷ draws) keys holders failed holders [] ≡ ok loc
unfolding draw_replacement
draw_replacement_fresh draw draws keys holders failed loc two e alive new =
    let full : length (holders ++ loc ∷ []) ≡ 3 = omega (arith, length-append holders (loc ∷ [])) in
    rw (e, draw_replacement, alive, new, full) (ground arith)

-- When two nodes still hold the chunk and at least three are active, the loop of replaceFailedNode
-- passes over every draw of the failed node and of a node that has the chunk, and ends with the
-- first other node.
pub draw_replacement_lem :
    (stale draws : List ℕ) (draw : ℕ) (keys holders : List Text) (failed loc : Text)
    → length holders ≡ 2
    → 3 ≤ length keys
    → All (IsStale keys holders failed) stale
    → get_elem? keys draw ≡ some loc
    → (loc == failed) ≡ false
    → contains holders loc ≡ false
    → draw_replacement (stale ++ draw ∷ draws) keys holders failed holders [] ≡ ok loc
draw_replacement_lem [] draws draw keys holders failed loc two many old e alive new =
    draw_replacement_fresh draw draws keys holders failed loc two e alive new
draw_replacement_lem (s ∷ stale) draws draw keys holders failed loc two many (here, old) e alive
      new =
    draw_replacement_stale s (stale ++ draw ∷ draws) keys holders failed two many here
    ∙ draw_replacement_lem stale draws draw keys holders failed loc two many old e alive new

-- With fewer than three active nodes, a first draw of a node that has the chunk ends the loop with
-- no node found.
draw_replacement_few :
    (draw : ℕ) (draws : List ℕ) (keys holders : List Text) (failed loc : Text)
    → length keys < 3
    → get_elem? keys draw ≡ some loc
    → (loc == failed) ≡ false
    → contains holders loc ≡ true
    → draw_replacement (draw ∷ draws) keys holders failed holders [] ≡ ok []
unfolding draw_replacement
draw_replacement_few draw draws keys holders failed loc few e alive old =
    let narrow : ltb (length keys) 3 ≡ true = ground arith in
    rw (e, draw_replacement, alive, old, narrow) (ground arith)

module _ (env : Env) where
  send_to_nobody :
      (msg : ChunkMetaData) (c : Controller)
      → (send_replication_message env msg [] c).0 ≡ err panicked
  unfolding send_replication_message send_to address split
  send_to_nobody msg c = refl

  -- With fewer than three active nodes, if the node drawn has the chunk already, replaceFailedNode
  -- panics: it sends its message to the empty address, which has no port.
  pub replace_failed_node_panics :
      (draw : ℕ) (draws : List ℕ) (filename chunk_filename failed loc : Text) (c : Controller)
      → length (Dict.keys c.active_nodes_map) < 3
      → get_elem? (Dict.keys c.active_nodes_map) draw ≡ some loc
      → (loc == failed) ≡ false
      → contains
          (Dict.keys (
            nodes_of filename chunk_filename
              (forget_node filename chunk_filename failed c.file_chunk_map)))
          loc
        ≡ true
      → (replace_failed_node env (draw ∷ draws) filename chunk_filename failed c).0 ≡ err panicked
  unfolding replace_failed_node
  replace_failed_node_panics draw draws filename chunk_filename failed loc c few e alive old =
      rw
        (draw_replacement_few draw draws (Dict.keys c.active_nodes_map)
          (Dict.keys (
            nodes_of filename chunk_filename
              (forget_node filename chunk_filename failed c.file_chunk_map)))
          failed loc few e alive old)
        (send_to_nobody _ _)

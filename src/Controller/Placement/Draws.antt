-- ===== src/Controller/Placement/Draws.antt =====
-- What getStorageNodes chooses, and when its loop ends.
use hdfs_in_golang.Base.{
  ℕ, zero, suc, ◌+◌, ◌≤◌, ◌<◌, ◌≡◌, refl, ap, subst, ◌∙◌, true, false, ◌||◌, none, some, List, [],
  ◌∷◌, ◌++◌, arith, ltb, ◌==◌, nat_eq, list_eq, contains, length, length-append, get_elem?,
  replicate, All, All-append, Bool-cases, inl, inr, if◌then◌else◌,
}
use hdfs_in_golang.Base.Dict
use hdfs_in_golang.Base.Exec.{ok, err, panicked}
use hdfs_in_golang.Text.{Text}
use hdfs_in_golang.Network.{max_replicas}
use hdfs_in_golang.Controller.{Controller}
use hdfs_in_golang.Controller.Placement.{add, draw_nodes, placed, get_storage_nodes}

-- No address stands twice in the list.
abbrev pub Distinct : List Text → Type 0
Distinct [] = Unit
Distinct (x ∷ xs) = (contains xs x ≡ false) × Distinct xs

-- Every address is one of `keys`.
abbrev pub Among : List Text → List Text → Type 0
Among keys = All (λ x. contains keys x ≡ true)

-- All the addresses that the draws name, with those that were there before.
unfoldable pub picked : List ℕ → List Text → List Text → List Text
picked [] keys nodes = nodes
picked (draw ∷ draws) keys nodes = elim (get_elem? keys draw) [
  | none ↦ nodes
  | some loc ↦ picked draws keys (add loc nodes)
]

contains-append :
    (xs : List Text) (y x : Text) → contains (xs ++ y ∷ []) x ≡ (contains xs x || x == y)
contains-append [] y x = ground arith
contains-append (z ∷ xs) y x = ground (arith, contains-append xs y x)

Distinct-append :
    (xs : List Text) (y : Text) → Distinct xs → contains xs y ≡ false → Distinct (xs ++ y ∷ [])
Distinct-append [] y d h = (refl, tt)
Distinct-append (x ∷ xs) y (fresh, d) h =
    ground (arith, contains-append xs y x, Distinct-append xs y d)

add-Distinct : (loc : Text) (nodes : List Text) → Distinct nodes → Distinct (add loc nodes)
add-Distinct loc nodes d = elim (Bool-cases (contains nodes loc)) [
  | inl old ↦ rw old d
  | inr new ↦ rw new (Distinct-append nodes loc d new)
]

add-Among :
    (keys : List Text) (loc : Text) (nodes : List Text)
    → contains keys loc ≡ true
    → Among keys nodes
    → Among keys (add loc nodes)
add-Among keys loc nodes h a = elim (Bool-cases (contains nodes loc)) [
  | inl old ↦ rw old a
  | inr new ↦ rw new (All-append (λ x. contains keys x ≡ true) nodes (loc ∷ []) a (h, tt))
]

length-add : (loc : Text) (nodes : List Text) → length (add loc nodes) ≤ length nodes + 1
length-add loc nodes = elim (Bool-cases (contains nodes loc)) [
  | inl old ↦ rw old (omega arith)
  | inr new ↦ rw new (omega (arith, length-append nodes (loc ∷ [])))
]

contains-get_elem? :
    (keys : List Text) (i : ℕ) (x : Text) → get_elem? keys i ≡ some x → contains keys x ≡ true
contains-get_elem? [] i x h = cc
contains-get_elem? (k ∷ keys) zero x h = ground arith
contains-get_elem? (k ∷ keys) (suc i) x h = ground (arith, contains-get_elem? keys i x)

get_elem?-some :
    (keys : List Text) (i : ℕ) → i < length keys → (x : Text) × (get_elem? keys i ≡ some x)
get_elem?-some [] i h = elim h [ ]
get_elem?-some (k ∷ keys) zero h = (k, refl)
get_elem?-some (k ∷ keys) (suc i) h = get_elem?-some keys i (omega arith)

-- A choice of `n` different nodes among the active ones.
pub record IsChoice (keys : List Text) (n : ℕ) (nodes : List Text) : Type 0 where
  pub distinct : Distinct nodes
  pub among : Among keys nodes
  pub count : length nodes ≡ n

==_eq : (a b : ℕ) → (a == b) ≡ true → a ≡ b
==_eq a b h = ground arith

fewer : (n : ℕ) → (n == max_replicas) ≡ false → n ≤ max_replicas → n < max_replicas
fewer n h le = ground arith

picked_step :
    (draw : ℕ) (draws : List ℕ) (keys nodes : List Text) (loc : Text)
    → get_elem? keys draw ≡ some loc
    → picked (draw ∷ draws) keys nodes ≡ picked draws keys (add loc nodes)
unfolding picked
picked_step draw draws keys nodes loc e = rw (e, picked)

draw_nodes_next :
    (draw : ℕ) (draws : List ℕ) (keys nodes : List Text) (loc : Text)
    → get_elem? keys draw ≡ some loc
    → (length (add loc nodes) == max_replicas) ≡ false
    → max_replicas ≤ length keys
    → draw_nodes (draw ∷ draws) keys nodes ≡ draw_nodes draws keys (add loc nodes)
unfolding draw_nodes
draw_nodes_next draw draws keys nodes loc e short many =
    let wide : ltb (length keys) max_replicas ≡ false = ground arith in
    rw (e, draw_nodes, short, wide)

draw_nodes_end :
    (draw : ℕ) (draws : List ℕ) (keys nodes : List Text) (loc : Text)
    → get_elem? keys draw ≡ some loc
    → (length (add loc nodes) == max_replicas || ltb (length keys) max_replicas) ≡ true
    → draw_nodes (draw ∷ draws) keys nodes ≡ ok (add loc nodes)
unfolding draw_nodes
draw_nodes_end draw draws keys nodes loc e full = rw (e, draw_nodes, full)

-- The loop ends with `n` different active nodes.
abbrev Chooses : ℕ → List ℕ → List Text → List Text → Type 0
Chooses n draws keys nodes =
    (r : List Text) × (draw_nodes draws keys nodes ≡ ok r) × IsChoice keys n r

Chooses-end :
    (draw : ℕ) (draws : List ℕ) (keys nodes : List Text) (loc : Text)
    → get_elem? keys draw ≡ some loc
    → Distinct nodes
    → Among keys nodes
    → (length (add loc nodes) == max_replicas || ltb (length keys) max_replicas) ≡ true
    → Chooses (length (add loc nodes)) (draw ∷ draws) keys nodes
Chooses-end draw draws keys nodes loc e d a full = (
  add loc nodes,
  draw_nodes_end draw draws keys nodes loc e full,
  record {
    distinct = add-Distinct loc nodes d;
    among = add-Among keys loc nodes (contains-get_elem? keys draw loc e) a;
    count = refl;
  },
)

Chooses-next :
    (draw : ℕ) (draws : List ℕ) (keys nodes : List Text) (loc : Text)
    → get_elem? keys draw ≡ some loc
    → (length (add loc nodes) == max_replicas) ≡ false
    → max_replicas ≤ length keys
    → Chooses max_replicas draws keys (add loc nodes)
    → Chooses max_replicas (draw ∷ draws) keys nodes
Chooses-next draw draws keys nodes loc e short many (r, run, choice) =
    (r, draw_nodes_next draw draws keys nodes loc e short many ∙ run, choice)

-- With three active nodes at least, the loop ends as soon as the draws name three.
draw_nodes-Chooses :
    (draws : List ℕ) (keys nodes : List Text)
    → All (λ d. d < length keys) draws
    → max_replicas ≤ length keys
    → Distinct nodes
    → Among keys nodes
    → length nodes < max_replicas
    → max_replicas ≤ length (picked draws keys nodes)
    → Chooses max_replicas draws keys nodes
draw_nodes-Chooses [] keys nodes inside many d a few enough = absurd (unfold picked in omega arith)
draw_nodes-Chooses (draw ∷ draws) keys nodes (here, inside) many d a few enough =
    let (loc, e) = get_elem?-some keys draw here in
    let d' = add-Distinct loc nodes d in
    let a' = add-Among keys loc nodes (contains-get_elem? keys draw loc e) a in
    let rest = draw_nodes-Chooses draws keys (add loc nodes) inside many d' a' in
    let enough' : max_replicas ≤ length (picked draws keys (add loc nodes)) =
      omega (arith, ap length (picked_step draw draws keys nodes loc e)) in
    elim (Bool-cases (length (add loc nodes) == max_replicas)) [
      | inl full ↦
          subst (λ n. Chooses n (draw ∷ draws) keys nodes) (==_eq _ _ full)
            (Chooses-end draw draws keys nodes loc e d a (rw full))
      | inr short ↦ Chooses-next draw draws keys nodes loc e short many (
          rest (fewer (length (add loc nodes)) short (omega (arith, length-add loc nodes))) enough')
    ]

Chooses-few :
    (draws : List ℕ) (keys : List Text)
    → All (λ d. d < length keys) draws
    → length keys < max_replicas
    → 1 ≤ length (picked draws keys [])
    → Chooses 1 draws keys []
Chooses-few [] keys inside few enough = absurd (unfold picked in omega arith)
Chooses-few (draw ∷ draws) keys (here, inside) few enough =
    let (loc, e) = get_elem?-some keys draw here in
    Chooses-end draw draws keys [] loc e tt tt (ground arith)

-- The number of nodes that a chunk gets when `n` nodes are active.
abbrev pub replication : ℕ → ℕ
replication n = if ltb n max_replicas then 1 else max_replicas

Chooses-replication :
    (draws : List ℕ) (keys : List Text)
    → All (λ d. d < length keys) draws
    → replication (length keys) ≤ length (picked draws keys [])
    → Chooses (replication (length keys)) draws keys []
Chooses-replication draws keys inside enough = elim (Bool-cases (ltb (length keys) max_replicas)) [
  | inl few ↦ rw few (Chooses-few draws keys inside (ground arith) (ground arith))
  | inr many ↦
      rw many
        (draw_nodes-Chooses draws keys [] inside (ground arith) tt tt (omega arith) (ground arith))
]

-- The loop of getStorageNodes ends once the draws name enough different nodes: three, or one if
-- fewer than three nodes are active. Each chunk is then placed on the same nodes, which are active,
-- different, and three, or one if fewer than three are active. The controller does not change.
pub get_storage_nodes-IsChoice :
    (c : Controller) (draws : List ℕ) (total : ℕ)
    → All (λ d. d < length (Dict.keys c.active_nodes_map)) draws
    → replication (length (Dict.keys c.active_nodes_map))
      ≤ length (picked draws (Dict.keys c.active_nodes_map) [])
    → (nodes : List Text) × (get_storage_nodes draws total c
        ≡ (ok (replicate total (placed nodes)), c))
      × IsChoice
          (Dict.keys c.active_nodes_map)
          (replication (length (Dict.keys c.active_nodes_map)))
          nodes
unfolding get_storage_nodes
get_storage_nodes-IsChoice c draws total inside enough =
    let (nodes, run, choice) =
      Chooses-replication draws (Dict.keys c.active_nodes_map) inside enough in
    (nodes, rw (run, get_storage_nodes), choice)

-- With no active node, the first draw panics.
pub get_storage_nodes_none_active :
    (c : Controller) (draw : ℕ) (draws : List ℕ) (total : ℕ)
    → Dict.keys c.active_nodes_map ≡ []
    → get_storage_nodes (draw ∷ draws) total c ≡ (err panicked, c)
unfolding get_storage_nodes draw_nodes
get_storage_nodes_none_active c draw draws total e = rw (e, get_storage_nodes)

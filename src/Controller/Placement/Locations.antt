-- ===== src/Controller/Placement/Locations.antt =====
-- The locations that a client or a storage node is told.
use hdfs_in_golang.Base.{
  ℕ, zero, suc, ◌+◌, ◌-◌, ◌≤◌, ◌<◌, ◌≡◌, refl, sym, ap, ◌∙◌, true, not, ◌&&◌, Option, none, some,
  List, [], ◌∷◌, ◌++◌, append-nil, append_assoc, arith, ltb, ◌==◌, nat_eq, list_eq, contains,
  length, length-append, length-replicate, length-set, set, replicate,
}
use hdfs_in_golang.Base.Dict
use hdfs_in_golang.Base.Dict.{Dict}
use hdfs_in_golang.Base.Exec.{ok, err, panicked}
use hdfs_in_golang.Text.{Text}
use hdfs_in_golang.Proto.{FileMetaData, ChunkMetaData, ChunkStorageLocations}
use hdfs_in_golang.Controller.{Controller, ChunkMap}
use hdfs_in_golang.Controller.Placement.{
  located, fill_locations, chunks_of, get_storage_nodes_for_client, others, nodes_of,
  get_replicas_for_storage_node,
}

-- The entries of a file's chunks, in the order of the map.
unfoldable pub locations_of : ChunkMap → List (Option ChunkStorageLocations)
locations_of [] = []
locations_of ((chunk_filename, storage_info) ∷ chunks) =
    located chunk_filename storage_info ∷ locations_of chunks

set-append {ℓ} :
    {A : Type ℓ} (xs : List A) (y : A) (ys : List A) (v : A)
    → set (xs ++ y ∷ ys) (length xs) v ≡ xs ++ v ∷ ys
set-append [] y ys v = refl
set-append (x ∷ xs) y ys v = ap (◌∷◌ x) (set-append xs y ys v)

-- The loop after `i` entries: those filled in, and the nil pointers left.
fill_locations-replicate :
    (chunks : ChunkMap) (filled : List (Option ChunkStorageLocations)) (room : ℕ)
    → length chunks ≤ room
    → fill_locations chunks (length filled) (filled ++ replicate room none)
      ≡ ok ((filled ++ locations_of chunks) ++ replicate (room - length chunks) none)
unfolding fill_locations locations_of
fill_locations-replicate [] filled room fits =
    let e : room - 0 ≡ room = omega arith in rw (e, append-nil)
fill_locations-replicate ((name, info) ∷ chunks) filled zero fits = absurd (omega arith)
fill_locations-replicate ((name, info) ∷ chunks) filled (suc room) fits =
    let inside : ltb (length filled) (length (filled ++ none ∷ replicate room none)) ≡ true =
      ground (arith, length-append filled (none ∷ replicate room none)) in
    let here : length filled + 1 ≡ length (filled ++ located name info ∷ []) =
      omega (arith, length-append filled (located name info ∷ [])) in
    let e : suc room - suc (length chunks) ≡ room - length chunks = omega arith in
    let l = located name info in
    rw (inside, set-append filled none (replicate room none) l, here, e)
      (ap (fill_locations chunks (length (filled ++ l ∷ [])))
          (sym (append_assoc filled (l ∷ []) (replicate room none)))
        ∙ fill_locations-replicate chunks (filled ++ l ∷ []) room (omega arith)
        ∙ ap (λ locations. ok (locations ++ replicate (room - length chunks) none))
            (append_assoc filled (l ∷ []) (locations_of chunks)))

-- The loop when the map has more chunks than the slice has room for.
fill_locations-panics :
    (chunks : ChunkMap) (i : ℕ) (locations : List (Option ChunkStorageLocations))
    → i ≤ length locations
    → length locations < i + length chunks
    → fill_locations chunks i locations ≡ err panicked
unfolding fill_locations
fill_locations-panics [] i locations in_range over = absurd (omega arith)
fill_locations-panics ((name, info) ∷ chunks) i locations in_range over = ground (
  arith,
  length-set locations i (located name info),
  fill_locations-panics chunks (i + 1) (set locations i (located name info)),
)

-- A client that asks for a file is told of every chunk that heartbeats have reported, with all the
-- nodes that hold it, and the entries behind those are nil, when no more chunks of the file are
-- reported than its number of chunks.
pub get_storage_nodes_for_client-locations :
    (msg : FileMetaData) (c : Controller)
    → length (chunks_of msg.file_name c.file_chunk_map) ≤ msg.total_chunks
    → get_storage_nodes_for_client msg c ≡ (
      ok (record msg {
        locations =
            locations_of (chunks_of msg.file_name c.file_chunk_map)
            ++ replicate
                (msg.total_chunks - length (chunks_of msg.file_name c.file_chunk_map))
                none;
      }),
      c,
    )
unfolding get_storage_nodes_for_client
get_storage_nodes_for_client-locations msg c fits = rw (
  fill_locations-replicate (chunks_of msg.file_name c.file_chunk_map) [] msg.total_chunks fits,
  get_storage_nodes_for_client,
)

-- If heartbeats have reported more chunks of the file than the message counts, the request panics.
pub get_storage_nodes_for_client-panics :
    (msg : FileMetaData) (c : Controller)
    → msg.total_chunks < length (chunks_of msg.file_name c.file_chunk_map)
    → get_storage_nodes_for_client msg c ≡ (err panicked, c)
unfolding get_storage_nodes_for_client
get_storage_nodes_for_client-panics msg c over = rw (
  fill_locations-panics (chunks_of msg.file_name c.file_chunk_map) 0
      (replicate msg.total_chunks none) (omega arith)
      (omega (arith, length-replicate {A = Option ChunkStorageLocations} msg.total_chunks none)),
  get_storage_nodes_for_client,
)

-- `others` takes out the sender and nothing else.
contains-others :
    (sender : Text) (addrs : List Text) (x : Text)
    → contains (others sender addrs) x ≡ (not (x == sender) && contains addrs x)
unfolding others
contains-others sender [] x = ground arith
contains-others sender (addr ∷ addrs) x = ground (arith, contains-others sender addrs x)

-- A storage node that asks for the replicas of a chunk is told of exactly the nodes that have
-- reported the chunk, less itself.
pub get_replicas_for_storage_node_lem :
    (msg : ChunkMetaData) (l : ChunkStorageLocations) (c : Controller)
    → msg.locations ≡ some l
    → (nodes : List Text) × (get_replicas_for_storage_node msg c
        ≡ (ok (record msg { locations = some (record l { replicas = nodes }) }), c))
      × ((x : Text)
          → contains nodes x ≡ (
              not (x == msg.sender_addr)
              && contains (Dict.keys (nodes_of msg.file_name l.chunk_filename c.file_chunk_map)) x))
unfolding get_replicas_for_storage_node
get_replicas_for_storage_node_lem msg l c e =
    let holders = Dict.keys (nodes_of msg.file_name l.chunk_filename c.file_chunk_map) in
    (others msg.sender_addr holders, rw e, contains-others msg.sender_addr holders)

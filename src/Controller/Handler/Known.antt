-- ===== src/Controller/Handler/Known.antt =====
-- What one client reads of what another wrote or removed.
use hdfs_in_golang.Base.{
  sym, subst, ℕ, ◌≡◌, refl, ap, true, false, some, List, [], ◌∷◌, arith, nat_eq, list_eq,
}
use hdfs_in_golang.Base.Dict
use hdfs_in_golang.Base.Dict.{Dict}
use hdfs_in_golang.Base.Exec.{ok, err, panicked}
use hdfs_in_golang.Bloom.{BloomFilter}
use hdfs_in_golang.Proto.{FileMetaData, write, error}
use hdfs_in_golang.Controller.{Controller, Env, file_entry}
use hdfs_in_golang.Controller.Invariant.{IsIndexed}
use hdfs_in_golang.Controller.Metadata.{info_of, metadata_text, get_file_metadata}
use hdfs_in_golang.Controller.Placement.Draws.{get_storage_nodes_none_active}
use hdfs_in_golang.Controller.Quiet.{OnlySends, Quiet-send_storage_nodes}
use hdfs_in_golang.Controller.Replies.{send_messages_to_client, send_storage_nodes_to_client}
use hdfs_in_golang.Controller.Consistency.Files.{saved, accept_file-saved}
use hdfs_in_golang.Controller.Handler.{handle_file_metadata, already_present}
use hdfs_in_golang.Controller.Handler.Unknown.{handle_file_metadata-by_table, by_table}

-- The message with what the table has of the file, as the message that wrote it gave it.
abbrev pub described : FileMetaData → FileMetaData → FileMetaData
described wrote asked = record asked {
  file_size = wrote.file_size;
  chunk_size = wrote.chunk_size;
  total_chunks = wrote.total_chunks;
  checksum = wrote.checksum;
  folder_name = wrote.folder_name;
}

pub send-IsIndexed :
    (env : Env) (c c' : Controller) → OnlySends c c' → IsIndexed env c → IsIndexed env c'
send-IsIndexed env c c' p h =
    subst (IsIndexed env) (sym p)
      (record { inserted = h.inserted; filter = h.filter; known = h.known })

pub file_map_quiet : (c c' : Controller) → OnlySends c c' → c'.file_map ≡ c.file_map
file_map_quiet c c' p = ap (λ (d : Controller). d.file_map) p

pub get_file_metadata-lookup :
    (wrote asked : FileMetaData) (c : Controller)
    → Dict.lookup asked.file_name c.file_map ≡ some (info_of wrote)
    → get_file_metadata asked c ≡ (ok (described wrote asked), c)
unfolding get_file_metadata info_of
get_file_metadata-lookup wrote asked c e = rw e

module _ (env : Env) where
  -- The state after a write of a new name.
  pub written :
      (draws : List ℕ) (msg : FileMetaData) (c : Controller)
      → IsIndexed env c
      → Dict.has msg.file_name c.file_map ≡ false
      → env.creates msg.file_name ≡ true
      → (bf : BloomFilter) × OnlySends
          (saved msg bf c)
          (handle_file_metadata env draws msg write c).1
        × IsIndexed env (saved msg bf c)
  unfolding by_table
  written draws msg c h new creates =
      let (bf, e, h') = accept_file-saved env c draws msg creates h in
      (
        bf,
        rw (handle_file_metadata-by_table env draws msg write c h, new, e)
            ((Quiet-send_storage_nodes env draws msg).at (saved msg bf c)),
        h',
      )

  pub file_map_written :
      (draws : List ℕ) (msg : FileMetaData) (c : Controller)
      → IsIndexed env c
      → Dict.has msg.file_name c.file_map ≡ false
      → env.creates msg.file_name ≡ true
      → (handle_file_metadata env draws msg write c).1.file_map
        ≡ Dict.insert msg.file_name (info_of msg) c.file_map
  file_map_written draws msg c h new creates =
      let (bf, q, h') = written draws msg c h new creates in file_map_quiet (saved msg bf c) _ q

  pub has-written :
      (draws : List ℕ) (msg : FileMetaData) (c : Controller)
      → IsIndexed env c
      → Dict.has msg.file_name c.file_map ≡ false
      → env.creates msg.file_name ≡ true
      → Dict.has msg.file_name (handle_file_metadata env draws msg write c).1.file_map ≡ true
  has-written draws msg c h new creates =
      rw (file_map_written draws msg c h new creates)
        (ground (arith, Dict.has-insert msg.file_name msg.file_name (info_of msg) c.file_map))

  -- A second write of a name that is in the table is refused: it ends in the error message and
  -- leaves the table, the folders and the filter as the first write left them, whatever it asks for.
  -- The conditions are that the first name was new, its file could be made, and the filter knew
  -- every file of the table.
  pub handle_file_metadata-write_again :
      (draws draws' : List ℕ) (msg other : FileMetaData) (c : Controller)
      → IsIndexed env c
      → Dict.has msg.file_name c.file_map ≡ false
      → env.creates msg.file_name ≡ true
      → other.file_name ≡ msg.file_name
      → handle_file_metadata env draws' other write (handle_file_metadata env draws msg write c).1
        ≡ send_messages_to_client env error other.sender_addr
            (already_present other)
            (handle_file_metadata env draws msg write c).1
  unfolding by_table
  handle_file_metadata-write_again draws draws' msg other c h new creates same =
      let c' = (handle_file_metadata env draws msg write c).1 in
      let (bf, q, h') = written draws msg c h new creates in
      let present : Dict.has other.file_name c'.file_map ≡ true =
        rw same (has-written draws msg c h new creates) in
      rw (
        handle_file_metadata-by_table env draws' other write c'
            (send-IsIndexed env (saved msg bf c) c' q h'),
        present,
      )

  send_to_no_nodes :
      (draw : ℕ) (draws : List ℕ) (msg : FileMetaData) (c : Controller)
      → Dict.keys c.active_nodes_map ≡ []
      → send_storage_nodes_to_client env (draw ∷ draws) msg c ≡ (err panicked, c)
  unfolding send_storage_nodes_to_client
  send_to_no_nodes draw draws msg c none_active =
      rw (get_storage_nodes_none_active c draw draws msg.total_chunks none_active)

  -- A write of a new name while no storage node is active ends the controller by a panic, after it
  -- has entered the file, as the message describes it, into the table and into the folder
  -- FileMetaData. The conditions are that the filter knows every file of the table, and that the
  -- file can be made.
  pub handle_file_metadata-write_no_nodes :
      (draw : ℕ) (draws : List ℕ) (msg : FileMetaData) (c : Controller)
      → IsIndexed env c
      → Dict.has msg.file_name c.file_map ≡ false
      → env.creates msg.file_name ≡ true
      → Dict.keys c.active_nodes_map ≡ []
      → ((handle_file_metadata env (draw ∷ draws) msg write c).0 ≡ err panicked)
        × (Dict.lookup msg.file_name
              (handle_file_metadata env (draw ∷ draws) msg write c).1.file_map
            ≡ some (info_of msg))
        × (Dict.lookup
              (file_entry msg.file_name)
              (handle_file_metadata env (draw ∷ draws) msg write c).1.file_metadata_dir
            ≡ some (metadata_text msg.file_name (info_of msg)))
  unfolding by_table
  handle_file_metadata-write_no_nodes draw draws msg c h new creates none_active =
      let (bf, e, h') = accept_file-saved env c (draw ∷ draws) msg creates h in
      let run = send_to_no_nodes draw draws msg (saved msg bf c) none_active in
      let text = metadata_text msg.file_name (info_of msg) in
      rw (handle_file_metadata-by_table env (draw ∷ draws) msg write c h, new, e, run)
        (
          refl,
          Dict.lookup-insert_self msg.file_name (info_of msg) c.file_map,
          Dict.lookup-insert_self (file_entry msg.file_name) text c.file_metadata_dir,
        )

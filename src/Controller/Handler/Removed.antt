-- ===== src/Controller/Handler/Removed.antt =====
-- What becomes of a file that a client removes.
use hdfs_in_golang.Base.{
  ℕ, ◌≡◌, refl, ap, subst, ◌∙◌, Bool, true, false, List, [], arith, nat_eq, list_eq, Bool-cases,
  inl, inr,
}
use hdfs_in_golang.Base.Dict
use hdfs_in_golang.Base.Dict.{Dict}
use hdfs_in_golang.Base.Exec.{Outcome, ok, err, fatal, continue, ◌>>◌}
use hdfs_in_golang.Text.{Text}
use hdfs_in_golang.Proto.{FileMetaData, write, delete, success, error}
use hdfs_in_golang.Controller.{Controller, Env, Action, file_entry, chunk_entry}
use hdfs_in_golang.Controller.Invariant.{IsIndexed, erase-IsIndexed}
use hdfs_in_golang.Controller.Metadata.{delete_file_metadata}
use hdfs_in_golang.Controller.Placement.{chunks_of}
use hdfs_in_golang.Controller.Quiet.{
  OnlySends, Quiet-send_messages, Quiet-delete_from_storage_nodes,
}
use hdfs_in_golang.Controller.Replies.{
  send_messages_to_client, delete_chunks, delete_from_storage_nodes,
}
use hdfs_in_golang.Controller.Consistency.Files.{
  deleted, delete_of_present, delete_of_unreported, delete_of_unsaved, saved,
}
use hdfs_in_golang.Controller.Handler.{
  accept_file, remove_file, handle_file_metadata, not_found, removed,
}
use hdfs_in_golang.Controller.Handler.Unknown.{handle_file_metadata-by_table, by_table}
use hdfs_in_golang.Controller.Handler.Known.{send-IsIndexed, file_map_quiet, written, has-written}

module _ (env : Env) where
  -- The name is no longer in the table, and the filter knows the rest, unless the action failed.
  abbrev Gone : Text → Outcome (Unit {0}) × Controller → Type 0
  Gone name (ok a, c) = (Dict.has name c.file_map ≡ false) × IsIndexed env c
  Gone name (err e, c) = Unit

  Gone-quiet :
      (name : Text) (c c' : Controller) (r : Outcome Unit)
      → OnlySends c c'
      → Dict.has name c.file_map ≡ false
      → IsIndexed env c
      → Gone name (r, c')
  Gone-quiet name c c' (ok a) q e h = (rw (file_map_quiet c c' q) e, send-IsIndexed env c c' q h)
  Gone-quiet name c c' (err x) q e h = tt

  Gone-continue :
      (name : Text) (r : Outcome Unit) (f : Action Unit) (c : Controller)
      → IsIndexed env c
      → ((c : Controller) → IsIndexed env c → Gone name (f c))
      → Gone name (continue r (λ _. f) c)
  Gone-continue name (ok a) f c h g = g c h
  Gone-continue name (err x) f c h g = tt

  has-deleted : (name : Text) (c : Controller) → Dict.has name (deleted name c).file_map ≡ false
  has-deleted name c = ground (arith, Dict.has-erase name name c.file_map)

  deleted-IsIndexed :
      (name : Text) (c : Controller) → IsIndexed env c → IsIndexed env (deleted name c)
  deleted-IsIndexed name c h =
      let v = erase-IsIndexed env c name h in
      record { inserted = v.inserted; filter = v.filter; known = v.known }

  -- deleteFileMetadata and the reply behind it.
  abbrev removal : FileMetaData → Action Unit
  removal msg =
      delete_file_metadata msg >> send_messages_to_client env success msg.sender_addr (removed msg)

  Gone-removal :
      (msg : FileMetaData) (c : Controller) → IsIndexed env c → Gone msg.file_name (removal msg c)
  unfolding delete_file_metadata
  Gone-removal msg c h =
      elim (Bool-cases (Dict.has (chunk_entry msg.file_name) c.chunk_metadata_dir)) [
        | inr unreported ↦ rw (delete_of_unreported msg.file_name c unreported) tt
        | inl reported ↦
            elim (Bool-cases (Dict.has (file_entry msg.file_name) c.file_metadata_dir)) [
              | inr unsaved ↦ rw (delete_of_unsaved msg.file_name c reported unsaved) tt
              | inl present ↦ rw (delete_of_present msg.file_name c reported present) (
                  Gone-quiet msg.file_name (deleted msg.file_name c) _ _
                    ((Quiet-send_messages env success msg.sender_addr (removed msg)).at _)
                    (has-deleted msg.file_name c) (deleted-IsIndexed msg.file_name c h))
            ]
      ]

  Gone-remove :
      (msg : FileMetaData) (c : Controller)
      → IsIndexed env c
      → Gone msg.file_name (remove_file env msg c)
  unfolding remove_file
  Gone-remove msg c h =
      let deletes = delete_from_storage_nodes env msg c in
      Gone-continue msg.file_name deletes.0 (removal msg) deletes.1
        (send-IsIndexed env c deletes.1 ((Quiet-delete_from_storage_nodes env msg).at c) h)
        (Gone-removal msg)

  Gone-by_table :
      (draws : List ℕ) (msg : FileMetaData) (c : Controller) (b : Bool)
      → IsIndexed env c
      → Dict.has msg.file_name c.file_map ≡ b
      → Gone msg.file_name (by_table env draws msg delete b c)
  unfolding by_table
  Gone-by_table draws msg c true h e = Gone-remove msg c h
  Gone-by_table draws msg c false h e =
      Gone-quiet msg.file_name c _ _
        ((Quiet-send_messages env error msg.sender_addr (not_found msg)).at c) e h

  write_again_is_new :
      (draws : List ℕ) (name : Text) (other : FileMetaData) (c : Controller)
      → Gone name (ok tt, c)
      → other.file_name ≡ name
      → handle_file_metadata env draws other write c ≡ accept_file env draws other c
  unfolding by_table
  write_again_is_new draws name other c (absent, h) same =
      let new : Dict.has other.file_name c.file_map ≡ false = rw same absent in
      rw (handle_file_metadata-by_table env draws other write c h, new)

  -- After a removal that ended without an error the name is not in the table, whether it was there
  -- before or not, although the filter may still say yes to it; and a write of the name that comes
  -- next is taken as that of a new file. The condition is that the filter knew every file of the
  -- table.
  pub handle_file_metadata-delete :
      (draws draws' : List ℕ) (msg other : FileMetaData) (c : Controller)
      → IsIndexed env c
      → (handle_file_metadata env draws msg delete c).0 ≡ ok tt
      → other.file_name ≡ msg.file_name
      → (Dict.has msg.file_name (handle_file_metadata env draws msg delete c).1.file_map ≡ false)
        × (handle_file_metadata env draws' other write
              (handle_file_metadata env draws msg delete c).1
            ≡ accept_file env draws' other (handle_file_metadata env draws msg delete c).1)
  handle_file_metadata-delete draws draws' msg other c h e same =
      let b = Dict.has msg.file_name c.file_map in
      let c' = (handle_file_metadata env draws msg delete c).1 in
      let g : Gone msg.file_name (handle_file_metadata env draws msg delete c) =
        rw (handle_file_metadata-by_table env draws msg delete c h)
          (Gone-by_table draws msg c b h refl) in
      let gone : Gone msg.file_name (ok tt, c') = subst (λ r. Gone msg.file_name (r, c')) e g in
      (gone.0, write_again_is_new draws' msg.file_name other c' gone same)

  remove_unreported :
      (msg : FileMetaData) (c : Controller)
      → chunks_of msg.file_name c.file_chunk_map ≡ []
      → Dict.has (chunk_entry msg.file_name) c.chunk_metadata_dir ≡ false
      → (remove_file env msg c).0 ≡ err fatal
  unfolding remove_file delete_from_storage_nodes delete_chunks delete_file_metadata
  remove_unreported msg c none_known unreported =
      rw none_known (ground (arith, delete_of_unreported msg.file_name c unreported))

  remove_soon :
      (draws : List ℕ) (msg : FileMetaData) (c : Controller)
      → IsIndexed env c
      → Dict.has msg.file_name c.file_map ≡ true
      → chunks_of msg.file_name c.file_chunk_map ≡ []
      → Dict.has (chunk_entry msg.file_name) c.chunk_metadata_dir ≡ false
      → (handle_file_metadata env draws msg delete c).0 ≡ err fatal
  unfolding by_table
  remove_soon draws msg c h present none_known unreported =
      rw (handle_file_metadata-by_table env draws msg delete c h, present)
        (remove_unreported msg c none_known unreported)

  -- A client that writes a new file and removes it before a storage node has reported a chunk of
  -- it ends the controller: the folder ChunkStorageNodeMetadata has no file of the name, and the
  -- error of os.Remove is fatal. The conditions are that the filter knows every file of the table,
  -- and that the file could be made.
  pub handle_file_metadata-delete_soon :
      (draws draws' : List ℕ) (msg : FileMetaData) (c : Controller)
      → IsIndexed env c
      → Dict.has msg.file_name c.file_map ≡ false
      → env.creates msg.file_name ≡ true
      → chunks_of msg.file_name c.file_chunk_map ≡ []
      → Dict.has (chunk_entry msg.file_name) c.chunk_metadata_dir ≡ false
      → (handle_file_metadata env draws' msg delete
          (handle_file_metadata env draws msg write c).1).0
        ≡ err fatal
  handle_file_metadata-delete_soon draws draws' msg c h new creates none_known unreported =
      let c' = (handle_file_metadata env draws msg write c).1 in
      let (bf, q, h') = written env draws msg c h new creates in
      remove_soon draws' msg c' (send-IsIndexed env (saved msg bf c) c' q h')
        (has-written env draws msg c h new creates)
        (ap (λ (d : Controller). chunks_of msg.file_name d.file_chunk_map) q ∙ none_known)
        (ap (λ (d : Controller). Dict.has (chunk_entry msg.file_name) d.chunk_metadata_dir) q
          ∙ unreported)

-- ===== src/Tests/Files.antt =====
-- Examples for the files that the controller knows.
use hdfs_in_golang.Base.{
  length, ◌≡◌, refl, sym, ap, ◌∙◌, subst, false, some, List, [], ◌∷◌, arith, nat_eq, list_eq,
}
use hdfs_in_golang.Base.Dict
use hdfs_in_golang.Base.Dict.{Dict}
use hdfs_in_golang.Base.Exec.{Outcome, ok, err, fatal, panicked}
use hdfs_in_golang.Text.{codes, split, is_space, trim_left, trim_right, has_prefix}
use hdfs_in_golang.Proto.{FileMetaData, write, read, delete, error, file_metadata, empty}
use hdfs_in_golang.Bloom.{BloomFilter}
use hdfs_in_golang.Network.{address, deliver}
use hdfs_in_golang.Controller.{Controller, start, send_to, file_entry, rlock_active_nodes}
use hdfs_in_golang.Text.Entry.{IsElement, entry_of}
use hdfs_in_golang.Controller.Invariant.{IsConsistent, IsIndexed, IsMirrored, texts_of}
use hdfs_in_golang.Controller.Metadata.{
  info_of, metadata_line, metadata_text, parse_file, load_data, delete_file_metadata,
  delete_chunk_file_info_from_disk, remove_chunk_metadata, remove_file_metadata,
}
use hdfs_in_golang.Controller.Metadata.Format.{IsField, IsStorable, parse_file-metadata_line}
use hdfs_in_golang.Controller.Metadata.Restore.{load_data-restart, start-IsConsistent}
use hdfs_in_golang.Controller.Placement.{chunks_of, get_storage_nodes, draw_nodes}
use hdfs_in_golang.Controller.Replies.{
  send_messages_to_client, send_storage_nodes_to_client, delete_from_storage_nodes, delete_chunks,
}
use hdfs_in_golang.Controller.Quiet.{Quiet-send_storage_nodes}
use hdfs_in_golang.Controller.Consistency.Requests.{handle_client_request-IsConsistent}
use hdfs_in_golang.Controller.Consistency.Files.{accept_file-saved, saved}
use hdfs_in_golang.Controller.Handler.{
  handle_client_request, handle_file_metadata, already_present, not_found, remove_file, accept_file,
}
use hdfs_in_golang.Controller.Handler.Unknown.{by_table, handle_file_metadata-by_table}
use hdfs_in_golang.Controller.Handler.Removed.{
  handle_file_metadata-delete, handle_file_metadata-delete_soon,
}
use hdfs_in_golang.Controller.Handler.Aliased.{handle_file_metadata-write_same_entry}
use hdfs_in_golang.Controller.Handler.Found.{Connection}
use hdfs_in_golang.Controller.Handler.Known.{
  send-IsIndexed, handle_file_metadata-write_again, handle_file_metadata-write_no_nodes,
}
use hdfs_in_golang.Tests.{env, wanted, entry, idle, served}

logs-IsField : IsField (codes "logs")
unfolding trim_left trim_right is_space nat_eq
logs-IsField = record {
  comma = omega arith;
  colon = omega arith;
  newline = omega arith;
  trimmed = record { left = refl; right = refl };
}

sum-IsField : IsField (codes "c0ffee")
unfolding trim_left trim_right is_space nat_eq
sum-IsField = record {
  comma = omega arith;
  colon = omega arith;
  newline = omega arith;
  trimmed = record { left = refl; right = refl };
}

root-IsField : IsField (codes "root")
unfolding trim_left trim_right is_space nat_eq
root-IsField = record {
  comma = omega arith;
  colon = omega arith;
  newline = omega arith;
  trimmed = record { left = refl; right = refl };
}

entry-IsStorable : IsStorable (codes "logs") entry
entry-IsStorable = record {
  name_field = logs-IsField;
  checksum_field = sum-IsField;
  folder_field = root-IsField;
  chunks_fit = omega arith;
  chunk_fits = omega arith;
  size_fits = omega arith;
}

parse_file-metadata_line_example :
    parse_file (split b',' (metadata_line (codes "logs") entry)) ≡ some (codes "logs", entry)
parse_file-metadata_line_example = parse_file-metadata_line (codes "logs") entry entry-IsStorable

abbrev filled : Controller
filled = record idle {
  file_map = (codes "logs", entry) ∷ [];
  file_metadata_dir = (codes "logs", metadata_text (codes "logs") entry) ∷ [];
}

filled-IsMirrored : IsMirrored filled
unfolding texts_of Dict.lookup
filled-IsMirrored = record { mirror = refl; nodup = (refl, tt) }

load_data-restart_example :
    (c : Controller) × (load_data env
        (start ((codes "logs", metadata_text (codes "logs") entry) ∷ []) [])
      ≡ (ok tt, c))
    × (c.file_map ≡ (codes "logs", entry) ∷ [])
    × IsIndexed env c
    × IsMirrored c
unfolding start has_prefix nat_eq
load_data-restart_example =
    load_data-restart env filled filled-IsMirrored (entry-IsStorable, refl, tt)

pub served-IsConsistent : IsConsistent env served
unfolding start
served-IsConsistent =
    let h = start-IsConsistent env in
    record {
      indexed = record {
        inserted = h.indexed.inserted;
        filter = h.indexed.filter;
        known = h.indexed.known;
      };
      mirrored = record { mirror = h.mirrored.mirror; nodup = h.mirrored.nodup };
    }

served-IsIndexed : IsIndexed env served
served-IsIndexed = served-IsConsistent.indexed

logs-IsElement : IsElement (codes "logs")
logs-IsElement = record {
  slash = omega arith;
  some_text = ground arith;
  other_dot = ground arith;
  other_dots = ground arith;
}

handle_file_metadata-by_table_example :
    handle_file_metadata env (0 ∷ []) (wanted read) read served
    ≡ send_messages_to_client env error (codes "client:8000") (not_found (wanted read)) served
unfolding by_table start Dict.has Dict.lookup
handle_file_metadata-by_table_example =
    handle_file_metadata-by_table env (0 ∷ []) (wanted read) read served served-IsIndexed

handle_file_metadata-write_again_example :
    handle_file_metadata env []
      (wanted write)
      write
      (handle_file_metadata env (0 ∷ []) (wanted write) write served).1
    ≡ send_messages_to_client env error
        (codes "client:8000")
        (already_present (wanted write))
        (handle_file_metadata env (0 ∷ []) (wanted write) write served).1
unfolding start Dict.has Dict.lookup nat_eq list_eq
handle_file_metadata-write_again_example =
    handle_file_metadata-write_again env (0 ∷ []) [] (wanted write) (wanted write) served
      served-IsIndexed refl refl refl

handle_file_metadata-delete_soon_example :
    (handle_file_metadata env []
      (wanted write)
      delete
      (handle_file_metadata env (0 ∷ []) (wanted write) write served).1).0
    ≡ err fatal
unfolding start chunks_of Dict.has Dict.lookup nat_eq list_eq
handle_file_metadata-delete_soon_example =
    handle_file_metadata-delete_soon env (0 ∷ []) [] (wanted write) served served-IsIndexed refl
      refl refl refl

handle_file_metadata-write_no_nodes_example :
    ((handle_file_metadata env (0 ∷ []) (wanted write) write idle).0 ≡ err panicked)
    × (Dict.lookup
          (codes "logs")
          (handle_file_metadata env (0 ∷ []) (wanted write) write idle).1.file_map
        ≡ some entry)
    × (Dict.lookup
          (file_entry (codes "logs"))
          (handle_file_metadata env (0 ∷ []) (wanted write) write idle).1.file_metadata_dir
        ≡ some (metadata_text (codes "logs") entry))
unfolding start info_of Dict.has Dict.lookup Dict.keys nat_eq list_eq
handle_file_metadata-write_no_nodes_example =
    handle_file_metadata-write_no_nodes env 0 [] (wanted write) idle
      (start-IsConsistent env).indexed refl refl refl

-- A write of a new file that one node is to hold.
written : (handle_file_metadata env (0 ∷ []) (wanted write) write served).0 ≡ ok tt
unfolding start by_table send_storage_nodes_to_client get_storage_nodes draw_nodes send_to deliver
    address split Dict.has Dict.lookup Dict.keys nat_eq list_eq
written =
    let (bf, e, h) = accept_file-saved env served (0 ∷ []) (wanted write) refl served-IsIndexed in
    rw (handle_file_metadata-by_table env (0 ∷ []) (wanted write) write served served-IsIndexed, e)
      refl

handle_client_request-IsConsistent_example :
    IsConsistent env
      (handle_client_request env 7 (0 ∷ []) (some (file_metadata (wanted write)) ∷ []) served).1
unfolding handle_client_request rlock_active_nodes start nat_eq
handle_client_request-IsConsistent_example =
    handle_client_request-IsConsistent env 7 (0 ∷ []) (some (file_metadata (wanted write)) ∷ [])
      served (logs-IsElement, tt) served-IsConsistent written

-- The file stands in the folder of the chunks too.
abbrev reported : Controller
reported = record served { chunk_metadata_dir = (codes "logs", []) ∷ [] }

reported-IsIndexed : IsIndexed env reported
reported-IsIndexed =
    let h = served-IsIndexed in record { inserted = h.inserted; filter = h.filter; known = h.known }

-- The state after the write, whatever the filter holds.
abbrev held : BloomFilter → Controller
held bf =
    (send_storage_nodes_to_client env (0 ∷ []) (wanted write) (saved (wanted write) bf reported)).1

removed_held :
    (bf : BloomFilter)
    → IsIndexed env (held bf)
    → (handle_file_metadata env [] (wanted delete) delete (held bf)).0 ≡ ok tt
unfolding entry_of start by_table remove_file delete_from_storage_nodes delete_chunks
    delete_file_metadata delete_chunk_file_info_from_disk remove_chunk_metadata remove_file_metadata
    send_messages_to_client send_storage_nodes_to_client get_storage_nodes draw_nodes chunks_of
    send_to deliver address split Dict.has Dict.lookup Dict.insert Dict.erase Dict.keys nat_eq
    list_eq
removed_held bf h =
    rw (handle_file_metadata-by_table env [] (wanted delete) delete (held bf) h) refl

abbrev holding : Controller
holding = (handle_file_metadata env (0 ∷ []) (wanted write) write reported).1

holding_lem : (bf : BloomFilter) × (holding ≡ held bf) × IsIndexed env (held bf)
unfolding start by_table Dict.has Dict.lookup nat_eq list_eq
holding_lem =
    let (bf, e, h) =
      accept_file-saved env reported (0 ∷ []) (wanted write) refl reported-IsIndexed in
    let run : handle_file_metadata env (0 ∷ []) (wanted write) write reported
        ≡ send_storage_nodes_to_client env (0 ∷ []) (wanted write)
            (saved (wanted write) bf reported) =
      handle_file_metadata-by_table env (0 ∷ []) (wanted write) write reported reported-IsIndexed
      ∙ e in
    (
      bf,
      ap (λ (r : Outcome (Unit {0}) × Controller). r.1) run,
      send-IsIndexed env (saved (wanted write) bf reported) (held bf)
          ((Quiet-send_storage_nodes env (0 ∷ []) (wanted write)).at
            (saved (wanted write) bf reported))
          h,
    )

holding-IsIndexed : IsIndexed env holding
holding-IsIndexed = let (bf, e, h) = holding_lem in subst (IsIndexed env) (sym e) h

removed_holding : (handle_file_metadata env [] (wanted delete) delete holding).0 ≡ ok tt
removed_holding = let (bf, e, h) = holding_lem in rw e (removed_held bf h)

handle_file_metadata-delete_example :
    (Dict.has (codes "logs") (handle_file_metadata env [] (wanted delete) delete holding).1.file_map
      ≡ false)
    × (handle_file_metadata env
          (0 ∷ [])
          (wanted write)
          write
          (handle_file_metadata env [] (wanted delete) delete holding).1
        ≡ accept_file env
            (0 ∷ [])
            (wanted write)
            (handle_file_metadata env [] (wanted delete) delete holding).1)
handle_file_metadata-delete_example =
    handle_file_metadata-delete env [] (0 ∷ []) (wanted delete) (wanted write) holding
      holding-IsIndexed removed_holding refl

-- Two connections: one with an empty message, and one that is closed at once.
abbrev between : List Connection
between = (9, [], some empty ∷ []) ∷ (11, [], []) ∷ []

-- `./logs` is the same file as `logs`.
abbrev dotted : FileMetaData
dotted = record (wanted write) { file_name = codes "./logs" }

handle_file_metadata-write_same_entry_example :
    (c' : Controller) × (c'
      ≡ (handle_file_metadata env
          (0 ∷ [])
          dotted
          write
          (handle_file_metadata env (0 ∷ []) (wanted write) write served).1).1)
    × (Dict.lookup (codes "logs") c'.file_map ≡ some (info_of (wanted write)))
    × (Dict.lookup (codes "./logs") c'.file_map ≡ some (info_of dotted))
    × (Dict.lookup (file_entry (codes "logs")) c'.file_metadata_dir
        ≡ some (metadata_text (codes "./logs") (info_of dotted)))
unfolding entry_of split start Dict.has Dict.lookup nat_eq list_eq
handle_file_metadata-write_same_entry_example =
    handle_file_metadata-write_same_entry env (0 ∷ []) (0 ∷ []) (wanted write) dotted served
      served-IsIndexed (λ e. omega (arith, ap length e)) refl refl refl refl refl

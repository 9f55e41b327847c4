-- ===== src/Controller/Consistency/Files.antt =====
-- Entering a file and removing it, step by step.
use hdfs_in_golang.Base.{ℕ, ◌≡◌, ap, Bool, true, false, ◌&&◌, List, arith, nat_eq, list_eq}
use hdfs_in_golang.Base.Dict
use hdfs_in_golang.Base.Dict.{Dict}
use hdfs_in_golang.Base.Exec.{ok, err, fatal}
use hdfs_in_golang.Text.{Text, codes}
use hdfs_in_golang.Text.Entry.{IsElement, entry_of-IsElement}
use hdfs_in_golang.Bloom.{BloomFilter}
use hdfs_in_golang.Controller.{Controller, Env, file_entry, chunk_entry}
use hdfs_in_golang.Controller.Invariant.{
  IsIndexed, IsMirrored, bf_put-IsIndexed, bf_get-IsIndexed, insert-IsIndexed, insert-IsMirrored,
  erase-IsMirrored,
}
use hdfs_in_golang.Proto.{FileMetaData}
use hdfs_in_golang.Controller.Metadata.{
  info_of, metadata_text, save_file_metadata, delete_chunk_file_info_from_disk,
}
use hdfs_in_golang.Controller.Replies.{send_storage_nodes_to_client}
use hdfs_in_golang.Controller.Handler.{is_present, accept_file}

and_implied : (b p : Bool) → (p ≡ true → b ≡ true) → (b && p) ≡ p
and_implied b p h = ground arith

-- The state after a file was deleted.
abbrev pub deleted : Text → Controller → Controller
deleted name c = record c {
  file_chunk_map = Dict.erase name c.file_chunk_map;
  file_map = Dict.erase name c.file_map;
  file_metadata_dir = Dict.erase (file_entry name) c.file_metadata_dir;
  chunk_metadata_dir = Dict.erase (chunk_entry name) c.chunk_metadata_dir;
}

-- With a file of the name in either folder, both are removed, with the entries of both maps.
pub delete_of_present :
    (name : Text) (c : Controller)
    → Dict.has (chunk_entry name) c.chunk_metadata_dir ≡ true
    → Dict.has (file_entry name) c.file_metadata_dir ≡ true
    → delete_chunk_file_info_from_disk name c ≡ (ok tt, deleted name c)
unfolding delete_chunk_file_info_from_disk
delete_of_present name c e e' = rw (e, e')

-- With no file of the name in ChunkStorageNodeMetadata, the process ends.
pub delete_of_unreported :
    (name : Text) (c : Controller)
    → Dict.has (chunk_entry name) c.chunk_metadata_dir ≡ false
    → (delete_chunk_file_info_from_disk name c).0 ≡ err fatal
unfolding delete_chunk_file_info_from_disk
delete_of_unreported name c e = rw e

pub delete_of_unsaved :
    (name : Text) (c : Controller)
    → Dict.has (chunk_entry name) c.chunk_metadata_dir ≡ true
    → Dict.has (file_entry name) c.file_metadata_dir ≡ false
    → (delete_chunk_file_info_from_disk name c).0 ≡ err fatal
unfolding delete_chunk_file_info_from_disk
delete_of_unsaved name c e e' = rw (e, e')

-- The state after a new file was entered.
abbrev pub saved : FileMetaData → BloomFilter → Controller → Controller
saved msg bf c = record c {
  file_map = Dict.insert msg.file_name (info_of msg) c.file_map;
  bf = bf;
  file_metadata_dir =
      Dict.insert (file_entry msg.file_name) (metadata_text msg.file_name (info_of msg))
        c.file_metadata_dir;
}

-- For names that are one element of a path, the folder mirrors the table as before.
pub saved-IsMirrored :
    (c : Controller) (msg : FileMetaData) (bf : BloomFilter)
    → IsElement msg.file_name
    → IsMirrored c
    → IsMirrored (saved msg bf c)
saved-IsMirrored c msg bf one m =
    let m' = insert-IsMirrored c msg.file_name (info_of msg) m in
    record {
      mirror = rw (entry_of-IsElement (codes "FileMetaData") msg.file_name one) m'.mirror;
      nodup = m'.nodup;
    }

pub deleted-IsMirrored :
    (name : Text) (c : Controller) → IsElement name → IsMirrored c → IsMirrored (deleted name c)
deleted-IsMirrored name c one m =
    let m' = erase-IsMirrored c name m in
    record {
      mirror = rw (entry_of-IsElement (codes "FileMetaData") name one) m'.mirror;
      nodup = m'.nodup;
    }

module _ (env : Env) where
  -- `found && prs` is whether the table has the name: the filter knows every file.
  pub is_present-has :
      (c : Controller) (name : Text)
      → IsIndexed env c
      → is_present env name c ≡ (ok (Dict.has name c.file_map), c)
  unfolding is_present
  is_present-has c name h =
      let (found, e, known) = bf_get-IsIndexed env c name h in
      rw e (ap (λ (b : Bool). (ok b, c)) (and_implied found (Dict.has name c.file_map) known))

  -- The branch of a new file enters it into the table, the folder and the filter, and then sends.
  pub accept_file-saved :
      (c : Controller) (draws : List ℕ) (msg : FileMetaData)
      → env.creates msg.file_name ≡ true
      → IsIndexed env c
      → (bf : BloomFilter) × (accept_file env draws msg c
          ≡ send_storage_nodes_to_client env draws msg (saved msg bf c))
        × IsIndexed env (saved msg bf c)
  unfolding accept_file save_file_metadata
  accept_file-saved c draws msg creates h =
      let name = msg.file_name in
      let c₁ = record c {
        file_map = Dict.insert name (info_of msg) c.file_map;
        file_metadata_dir =
            Dict.insert (file_entry name) (metadata_text name (info_of msg)) c.file_metadata_dir;
      } in
      let (bf, put, r) = bf_put-IsIndexed env c₁ name h.inserted h.filter in
      let v = insert-IsIndexed env c name (info_of msg) bf h r in
      (bf, rw (creates, put), record { inserted = v.inserted; filter = v.filter; known = v.known })

  -- If the file cannot be made, the process ends.
  pub accept_file_fatal :
      (c : Controller) (draws : List ℕ) (msg : FileMetaData)
      → env.creates msg.file_name ≡ false
      → (accept_file env draws msg c).0 ≡ err fatal
  unfolding accept_file save_file_metadata
  accept_file_fatal c draws msg e = rw e

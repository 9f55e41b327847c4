-- ===== src/Controller/Metadata.antt =====
-- The metadata of files: getFileMetadata, saveFileMetadata, deleteChunkFileInfoFromDisk,
-- deleteFileMetadata, parseFile, readFile and loadData of controller.go.
pub mod Format
pub mod Restore
use hdfs_in_golang.Base.{
  ℕ, ◌≡◌, Bool, true, false, Option, none, some, List, [], ◌∷◌, ◌++◌, get_elem?, is_some, nat_eq,
  list_eq, if◌then◌else◌,
}
use mathlib.Core.Option
use hdfs_in_golang.Base.Dict
use hdfs_in_golang.Base.Dict.{Dict}
use hdfs_in_golang.Base.Exec.{
  ok, err, fatal, panicked, pure, fail, modify, gets, or_panic, handle_error, ◌>>=◌, ◌>>◌,
}
use hdfs_in_golang.Text.{Text, codes, split, trim_space, has_prefix}
use hdfs_in_golang.Text.Lines.{scan_lines}
use hdfs_in_golang.Text.Decimal.{format_uint, parse_uint}
use hdfs_in_golang.Proto.{FileMetaData}
use hdfs_in_golang.Controller.{Controller, FileInfo, Env, Action, bf_put, file_entry, chunk_entry}

-- getFileMetadata: a name that the map lacks is a nil dereference.
unfoldable pub get_file_metadata : FileMetaData → Action FileMetaData
get_file_metadata msg = do
  found ← gets (λ c. Dict.lookup msg.file_name c.file_map)
  info ← or_panic found
  pure (record msg {
    file_size = info.file_size;
    chunk_size = info.chunk_size;
    total_chunks = info.total_number_of_chunks;
    checksum = info.file_checksum;
    folder_name = info.folder_name;
  })

-- The entry that saveFileMetadata makes of a message.
unfoldable pub info_of : FileMetaData → FileInfo
info_of msg = record {
  total_number_of_chunks = msg.total_chunks;
  chunk_size = msg.chunk_size;
  file_size = msg.file_size;
  file_checksum = msg.checksum;
  folder_name = msg.folder_name;
}

-- The line that saveFileMetadata writes, without its newline.
unfoldable pub metadata_line : Text → FileInfo → Text
metadata_line name info =
    codes "FileName: "
    ++ (name
        ++ (codes ",ChunkSize: "
            ++ (format_uint info.chunk_size
                ++ (codes ", FileCheckSum: "
                    ++ (info.file_checksum
                        ++ (codes ", TotalNumberOfChunks: "
                            ++ (format_uint info.total_number_of_chunks
                                ++ (codes ", FileSize: "
                                    ++ (format_uint info.file_size
                                        ++ (codes ", FolderName: " ++ info.folder_name))))))))))

unfoldable pub metadata_text : Text → FileInfo → Text
metadata_text name info = metadata_line name info ++ b'\n' ∷ []

module _ (env : Env) where
  -- saveFileMetadata: the map first, then the file.
  unfoldable pub save_file_metadata : FileMetaData → Action Unit
  save_file_metadata msg = do
    let name = msg.file_name
    let info = info_of msg
    modify (λ c. record c { file_map = Dict.insert name info c.file_map })
    handle_error (env.creates name)
    modify (λ c. record c {
      file_metadata_dir =
          Dict.insert (file_entry name) (metadata_text name info) c.file_metadata_dir;
    })

-- os.Remove in either folder; the result is whether there was such a file.
unfoldable pub remove_chunk_metadata : Text → Action Bool
remove_chunk_metadata name c = (
  ok (Dict.has (chunk_entry name) c.chunk_metadata_dir),
  record c { chunk_metadata_dir = Dict.erase (chunk_entry name) c.chunk_metadata_dir },
)

unfoldable pub remove_file_metadata : Text → Action Bool
remove_file_metadata name c = (
  ok (Dict.has (file_entry name) c.file_metadata_dir),
  record c { file_metadata_dir = Dict.erase (file_entry name) c.file_metadata_dir },
)

-- deleteChunkFileInfoFromDisk: each map is changed before the error of os.Remove is handled.
unfoldable pub delete_chunk_file_info_from_disk : Text → Action Unit
unfolding remove_chunk_metadata remove_file_metadata
delete_chunk_file_info_from_disk name = do
  removed ← remove_chunk_metadata name
  modify (λ c. record c { file_chunk_map = Dict.erase name c.file_chunk_map })
  handle_error removed
  removed' ← remove_file_metadata name
  modify (λ c. record c { file_map = Dict.erase name c.file_map })
  handle_error removed'

unfoldable pub delete_file_metadata : FileMetaData → Action Unit
unfolding delete_chunk_file_info_from_disk
delete_file_metadata msg = delete_chunk_file_info_from_disk msg.file_name

-- strings.TrimSpace(strings.Split(strings.TrimSpace(content[i]), ":")[1]), the value of a field.
unfoldable pub field : List Text → ℕ → Option Text
field content i = elim (get_elem? content i) [
  | none ↦ none
  | some raw ↦ Option.map trim_space (get_elem? (split b':' (trim_space raw)) 1)
]

-- parseFile; `none` is an index out of range.
unfoldable pub parse_file : List Text → Option (Text × FileInfo)
unfolding field
parse_file content = Option.bind (field content 0) λ name.
    Option.bind (field content 1) λ chunk_size. Option.bind (field content 2) λ checksum.
      Option.bind (field content 3) λ total. Option.bind (field content 4) λ size.
        Option.bind (field content 5) λ folder. some (
          name,
          record {
            total_number_of_chunks = parse_uint total;
            chunk_size = parse_uint chunk_size;
            file_size = parse_uint size;
            file_checksum = checksum;
            folder_name = folder;
          },
        )

module _ (env : Env) where
  -- The loop of readFile over the lines of one file.
  unfoldable pub read_lines : List Text → Action Unit
  read_lines [] = pure tt
  read_lines (text ∷ lines) = do
    (name, info) ← or_panic (parse_file (split b',' text))
    modify (λ c. record c { file_map = Dict.insert name info c.file_map })
    bf_put env name
    read_lines lines

  unfoldable pub read_file : Text → Action Unit
  unfolding read_lines
  read_file content = read_lines (scan_lines content)

  -- The loop of loadData over the folder's entries; hidden files are passed over.
  unfoldable pub load_entries : Dict Text Text → Action Unit
  load_entries [] = pure tt
  load_entries ((name, content) ∷ entries) =
      let rest = load_entries entries in
      if has_prefix name (codes ".") then rest else (read_file content >> rest)

  unfoldable pub load_data : Action Unit
  load_data = do entries ← gets (λ c. c.file_metadata_dir); load_entries entries

-- ===== src/Storage/Chunks.antt =====
-- The chunks on the disk of a storage node: incrementReceivedChunks, decrementReceivedChunks,
-- saveChunkData, saveChunkMetadata, getChunkInfoFromDisk, deleteChunk, readFile and
-- getStoredFilesInfo of storagenode.go.
pub mod Stored
pub mod Listed
use mathlib.Core.Option
use hdfs_in_golang.Base.{
  ℕ, ◌+◌, ◌-◌, ◌%◌, ◌^◌, Bool, true, false, Option, none, some, List, [], ◌∷◌, ◌++◌, nat_eq,
  list_eq, length, take, get_elem?, ltb, if◌then◌else◌,
}
use hdfs_in_golang.Base.Dict
use hdfs_in_golang.Base.Dict.{Dict}
use hdfs_in_golang.Base.Exec.{ok, pure, gets, modify, or_panic, handle_error, ◌>>=◌, ◌>>◌}
use hdfs_in_golang.Text.{Text, codes, split, trim_space, has_prefix}
use hdfs_in_golang.Text.Lines.{scan_lines}
use hdfs_in_golang.Text.Decimal.{format_uint}
use hdfs_in_golang.Transport.{Bytes}
use hdfs_in_golang.Proto.{ChunkMetaData, ChunkFileInfo, get_chunk_filename}
use hdfs_in_golang.Storage.{StorageNode, NodeEnv, NodeAction, chunk_path}

-- The counters are uint64.
unfoldable pub increment_received_chunks : NodeAction Unit
increment_received_chunks =
    modify (λ s. record s { received_chunks = (s.received_chunks + 1) % 2 ^ 64 })

unfoldable pub decrement_received_chunks : NodeAction Unit
decrement_received_chunks =
    modify (λ s. record s { received_chunks = (s.received_chunks + (2 ^ 64 - 1)) % 2 ^ 64 })

-- io.CopyN(file, conn, int64(size)) of the bytes that arrive before the peer closes: a size above
-- the largest int64 is negative, and nothing is copied.
unfoldable pub copy_n : ℕ → Bytes → Bytes
copy_n size bytes = if ltb size (2 ^ 63) then take size bytes else []

abbrev pub metadata_name : Text → Text
metadata_name chunk_filename = chunk_filename ++ codes "_metadata"

-- The line of a chunk, without its newline.
unfoldable pub chunk_line : Text → Text → Text → ℕ → Text → Text
chunk_line filename chunk_filename path size checksum =
    filename
    ++ (codes ", "
        ++ (chunk_filename
            ++ (codes ", "
                ++ (path ++ (codes ", " ++ (format_uint size ++ (codes ", " ++ checksum)))))))

module _ (env : NodeEnv) where
  unfoldable pub save_chunk_data : ChunkMetaData → Bytes → NodeAction Unit
  save_chunk_data msg incoming = do
    let name = get_chunk_filename msg.locations
    let bytes = copy_n msg.chunk_size incoming
    handle_error (env.creates name)
    modify (λ s. record s {
      chunk_data = Dict.insert name bytes s.chunk_data;
      received_bytes = (s.received_bytes + length bytes) % 2 ^ 64;
    })

  unfoldable pub save_chunk_metadata : ChunkMetaData → NodeAction Unit
  save_chunk_metadata msg = do
    let name = get_chunk_filename msg.locations
    handle_error (env.creates (metadata_name name))
    modify (λ s. record s {
      chunk_metadata =
          Dict.insert (metadata_name name)
            (chunk_line msg.file_name name (chunk_path env name) msg.chunk_size msg.checksum
              ++ b'\n' ∷ [])
            s.chunk_metadata;
    })

-- content[len(content)-1]
unfoldable pub last_part : List Text → Text
last_part [] = []
last_part (p ∷ []) = p
last_part (p ∷ q ∷ ps) = last_part (q ∷ ps)

-- getChunkInfoFromDisk: a file that cannot be read counts as empty. The message is changed, and the
-- data returned.
unfoldable pub get_chunk_info_from_disk : ChunkMetaData → NodeAction (ChunkMetaData × Bytes)
unfolding last_part
get_chunk_info_from_disk msg = do
  let name = get_chunk_filename msg.locations
  data' ← gets (λ s. Option.get_or (Dict.lookup name s.chunk_data) [])
  metadata ← gets (λ s. Option.get_or (Dict.lookup (metadata_name name) s.chunk_metadata) [])
  pure (
    record msg {
      chunk_size = length data';
      checksum = trim_space (last_part (split b',' metadata));
    },
    data',
  )

-- os.Remove in either folder: whether there was such a file.
unfoldable pub remove_metadata : Text → NodeAction Bool
remove_metadata name s = (
  ok (Dict.has name s.chunk_metadata),
  record s { chunk_metadata = Dict.erase name s.chunk_metadata },
)

unfoldable pub remove_data : Text → NodeAction Bool
remove_data name s =
    (ok (Dict.has name s.chunk_data), record s { chunk_data = Dict.erase name s.chunk_data })

unfoldable pub delete_chunk : ChunkMetaData → NodeAction Unit
unfolding remove_metadata remove_data
delete_chunk msg = do
  let name = get_chunk_filename msg.locations
  removed ← remove_metadata (metadata_name name)
  handle_error removed
  removed' ← remove_data name
  handle_error removed'

-- One line of a metadata file, as readFile takes it apart; `none` is an index out of range.
unfoldable pub parse_chunk : List Text → Option ChunkFileInfo
parse_chunk (filename ∷ chunk_filename ∷ path ∷ rest) = some (record {
  filename = trim_space filename;
  chunk_filename = trim_space chunk_filename;
  chunk_filepath = trim_space path;
})
parse_chunk _ = none

-- readFile, over the lines of one file.
unfoldable pub read_chunks : List Text → Option (List ChunkFileInfo)
unfolding parse_chunk
read_chunks [] = some []
read_chunks (text ∷ lines) =
    Option.bind (parse_chunk (split b',' text))
      λ info. Option.map (λ chunks. info ∷ chunks) (read_chunks lines)

-- The loop of getStoredFilesInfo over the folder ChunkMetaData.
unfoldable pub list_chunks : Dict Text Text → Option (List ChunkFileInfo)
unfolding read_chunks
list_chunks [] = some []
list_chunks ((name, content) ∷ entries) =
    let rest = list_chunks entries in
    if has_prefix name (codes ".")
    then rest
    else Option.bind (read_chunks (scan_lines content))
        λ chunks. Option.map (λ more. chunks ++ more) rest

unfoldable pub get_stored_files_info : NodeAction (List ChunkFileInfo)
unfolding list_chunks
get_stored_files_info = do entries ← gets (λ s. s.chunk_metadata); or_panic (list_chunks entries)

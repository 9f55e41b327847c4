-- ===== src/Client/Commands/Asked.antt =====
-- What the controller is told of a file to store.
use hdfs_in_golang.Base.{
  ℕ, ◌^◌, leb, ◌<◌, ◌≡◌, refl, true, false, some, [], ◌∷◌, ◌++◌, arith, length, ◌==◌, nat_eq,
}
use hdfs_in_golang.Base.Exec.{ok}
use hdfs_in_golang.Text.{Text}
use hdfs_in_golang.Text.Path.{base, stem-append-ext}
use hdfs_in_golang.Text.Integer.{parse_int}
use hdfs_in_golang.Transport.{Bytes}
use hdfs_in_golang.Proto.{Wrapper, FileMetaData, file_metadata}
use hdfs_in_golang.Storage.{output_on}
use hdfs_in_golang.Client.{Client, ClientEnv, send_on}
use hdfs_in_golang.Client.Chunks.{Covers, ceil_div-Covers}
use hdfs_in_golang.Client.Commands.{
  get_number_of_chunks, metadata_of, get_file_metadata, send_file_metadata,
}

-- What a message says of the bytes at a path, in chunks of a size.
pub record Describes (env : ClientEnv) (path folder : Text) (size : ℕ) (file : Bytes)
    (meta : FileMetaData) : Type 0 where
  pub named : meta.file_name ++ meta.file_extension ≡ base path
  pub sized : meta.file_size ≡ length file
  pub cut : meta.chunk_size ≡ size
  pub covers : Covers meta.total_chunks size (length file)
  pub checked : meta.checksum ≡ env.digest file
  pub placed : meta.folder_name ≡ folder

module _ (env : ClientEnv) where
  metadata_of-Describes :
      (path hostname port folder : Text) (size : ℕ) (file : Bytes)
      → 0 < size
      → length file < 2 ^ 53
      → Describes env path folder size file (
          metadata_of env path
            (record { negative = false; magnitude = size })
            file
            hostname
            port
            folder)
  unfolding metadata_of get_number_of_chunks
  metadata_of-Describes path hostname port folder size file pos small =
      let some_size : (size == 0) ≡ false = ground arith in
      let exact : leb (2 ^ 53) (length file) ≡ false = ground arith in
      record {
        named = stem-append-ext path;
        sized = refl;
        cut = refl;
        covers = rw (some_size, exact) (ceil_div-Covers (length file) size pos);
        checked = refl;
        placed = refl;
      }

  send_on_lem :
      (hostname port : Text) (message : Wrapper) (c : Client)
      → env.net.dials hostname port ≡ true
      → send_on env hostname port message c
        ≡ (ok true, record c { sent = c.sent ++ output_on env.net hostname port message [] ∷ [] })
  unfolding send_on
  send_on_lem hostname port message c dials = rw (send_on, dials)

  -- A client that can reach the controller, with a file below 2 ^ 53 bytes that can be opened and a
  -- chunk size above 0, sends the controller one message: its name and extension in a row are the last element of
  -- the path, the number of chunks is just enough for the file, and the sizes, the checksum and
  -- the folder are the file's.
  pub send_file_metadata-Describes :
      (hostname port folder : Text) (size : ℕ) (file : Bytes) (c : Client)
      → env.net.dials hostname port ≡ true
      → env.opens c.file_path ≡ some file
      → parse_int c.chunk_size ≡ some (record { negative = false; magnitude = size })
      → 0 < size
      → length file < 2 ^ 53
      → (meta : FileMetaData) × (send_file_metadata env hostname port folder c ≡ (
        ok tt,
        record c { sent = c.sent ++ output_on env.net hostname port (file_metadata meta) [] ∷ [] },
      ))
        × Describes env c.file_path folder size file meta
  unfolding send_file_metadata get_file_metadata
  send_file_metadata-Describes hostname port folder size file c dials opens parses pos small =
      let meta =
        metadata_of env c.file_path (record { negative = false; magnitude = size }) file hostname
          port folder in
      (
        meta,
        rw (dials, opens, parses, send_on_lem hostname port (file_metadata meta) c dials),
        metadata_of-Describes c.file_path hostname port folder size file pos small,
      )

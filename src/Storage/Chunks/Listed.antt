-- ===== src/Storage/Chunks/Listed.antt =====
-- What a heartbeat tells of a chunk.
use mathlib.Core.Option
use hdfs_in_golang.Base.{ℕ, ◌≡◌, ◌≢◌, some, List, [], ◌∷◌, ◌++◌, arith, All-append, nat_eq, list_eq}
use hdfs_in_golang.Text.{Text, Lacks, codes, split}
use hdfs_in_golang.Text.Split.{split-join}
use hdfs_in_golang.Text.Trim.{trim_space-IsTrimmed, trim_space_blank}
use hdfs_in_golang.Text.Lines.{scan_lines, scan_lines_one, drop_cr, drop_cr-IsTrimmed, drop_cr_tail}
use hdfs_in_golang.Text.Decimal.{format_uint}
use hdfs_in_golang.Controller.Metadata.Format.{IsField, format_uint-IsField}
use hdfs_in_golang.Storage.Chunks.{chunk_line, parse_chunk, read_chunks}

-- The fields of the line.
abbrev fields : Text → Text → Text → ℕ → Text → List Text
fields chunk_filename path checksum size filename =
    (b' ' ∷ chunk_filename) ∷ (b' ' ∷ path) ∷ (b' ' ∷ format_uint size) ∷ (b' ' ∷ checksum) ∷ []

split-chunk_line :
    (filename chunk_filename path : Text) (size : ℕ) (checksum : Text)
    → IsField filename
    → IsField chunk_filename
    → IsField path
    → IsField checksum
    → split b',' (chunk_line filename chunk_filename path size checksum)
      ≡ filename ∷ fields chunk_filename path checksum size filename
unfolding chunk_line
split-chunk_line filename chunk_filename path size checksum f c p k =
    split-join b',' filename (fields chunk_filename path checksum size filename) (
      f.comma,
      (
        (omega arith, c.comma),
        (
          (omega arith, p.comma),
          ((omega arith, (format_uint-IsField size).comma), ((omega arith, k.comma), tt)),
        ),
      ),
    )

-- The text between two labels has no newline.
piece-Lacks : (v rest : Text) → IsField v → Lacks b'\n' rest → Lacks b'\n' (v ++ b',' ∷ b' ' ∷ rest)
piece-Lacks v rest f r =
    All-append (λ c. c ≢ b'\n') v (b',' ∷ b' ' ∷ rest) f.newline (omega arith, (omega arith, r))

chunk_line-Lacks :
    (filename chunk_filename path : Text) (size : ℕ) (checksum : Text)
    → IsField filename
    → IsField chunk_filename
    → IsField path
    → IsField checksum
    → Lacks b'\n' (chunk_line filename chunk_filename path size checksum)
unfolding chunk_line
chunk_line-Lacks filename chunk_filename path size checksum f c p k = piece-Lacks filename _ f (
    piece-Lacks chunk_filename _ c (
      piece-Lacks path _ p (piece-Lacks (format_uint size) _ (format_uint-IsField size) k.newline)))

drop_cr-chunk_line :
    (filename chunk_filename path : Text) (size : ℕ) (checksum : Text)
    → IsField checksum
    → drop_cr (chunk_line filename chunk_filename path size checksum)
      ≡ chunk_line filename chunk_filename path size checksum
unfolding chunk_line
drop_cr-chunk_line filename chunk_filename path size checksum k = drop_cr_tail filename b',' _ (
    drop_cr_tail (codes ", " ++ chunk_filename) b',' _ (
      drop_cr_tail (codes ", " ++ path) b',' _ (
        drop_cr_tail (codes ", " ++ format_uint size) b',' _
          (drop_cr-IsTrimmed (codes ",") checksum k.trimmed))))

-- The metadata file of a chunk, as saveChunkMetadata writes it, is read back for the heartbeat: its
-- one line gives the file, the chunk and the path, if all four texts can stand as fields.
pub read_chunks-chunk_line :
    (filename chunk_filename path : Text) (size : ℕ) (checksum : Text)
    → IsField filename
    → IsField chunk_filename
    → IsField path
    → IsField checksum
    → read_chunks (scan_lines (chunk_line filename chunk_filename path size checksum ++ b'\n' ∷ []))
      ≡ some (
          record { filename = filename; chunk_filename = chunk_filename; chunk_filepath = path }
          ∷ [])
unfolding read_chunks parse_chunk Option.bind
read_chunks-chunk_line filename chunk_filename path size checksum f c p k = rw (
  scan_lines_one (chunk_line filename chunk_filename path size checksum)
      (chunk_line-Lacks filename chunk_filename path size checksum f c p k)
      (drop_cr-chunk_line filename chunk_filename path size checksum k),
  split-chunk_line filename chunk_filename path size checksum f c p k,
  trim_space-IsTrimmed filename f.trimmed,
  trim_space_blank chunk_filename,
  trim_space-IsTrimmed chunk_filename c.trimmed,
  trim_space_blank path,
  trim_space-IsTrimmed path p.trimmed,
)

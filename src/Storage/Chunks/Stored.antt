-- ===== src/Storage/Chunks/Stored.antt =====
-- What was stored is read back from the disk.
use hdfs_in_golang.Base.{
  ℕ, ◌^◌, ◌≤◌, ◌<◌, ◌≡◌, ◌≢◌, refl, ap, ◌∙◌, true, false, some, List, [], ◌∷◌, ◌++◌, arith,
  append_assoc, nat_eq, list_eq, All-append, length, take_all, ltb, ◌==◌, Bool-cases, inl, inr,
}
use hdfs_in_golang.Base.Dict
use hdfs_in_golang.Base.Exec.{ok}
use hdfs_in_golang.Text.{
  Text, Lacks, codes, split, trim_space, trim_left, trim_right, keep_right, is_space,
}
use hdfs_in_golang.Text.Split.{split_one}
use hdfs_in_golang.Text.Trim.{IsTrimmed, trim_space_blank}
use hdfs_in_golang.Text.Decimal.{format_uint}
use hdfs_in_golang.Transport.{Bytes}
use hdfs_in_golang.Proto.{ChunkMetaData, get_chunk_filename}
use hdfs_in_golang.Controller.Metadata.Format.{IsField}
use hdfs_in_golang.Storage.{StorageNode}
use hdfs_in_golang.Storage.Chunks.{
  copy_n, chunk_line, metadata_name, last_part, get_chunk_info_from_disk,
}

last_part_cons : (p q : Text) (ps : List Text) → last_part (p ∷ q ∷ ps) ≡ last_part (q ∷ ps)
unfolding last_part
last_part_cons p q ps = refl

-- The cut behind which the last part stands.
abbrev Ends : Text → List Text → Type 0
Ends v parts = (p q : Text) × (ps : List Text) × (parts ≡ p ∷ q ∷ ps) × (last_part (q ∷ ps) ≡ v)

split-Ends : (sep : ℕ) (s v : Text) → Lacks sep v → Ends v (split sep (s ++ sep ∷ v))
unfolding split last_part
split-Ends sep [] v h = ([], v, [], rw (split_one sep v h) (ground arith), refl)
split-Ends sep (c ∷ s) v h =
    let (p, q, ps, e, l) = split-Ends sep s v h in
    elim (Bool-cases (c == sep)) [
      | inl cut ↦ ([], p, q ∷ ps, rw (cut, e), l)
      | inr kept ↦ (c ∷ p, q, ps, rw (kept, e), l)
    ]

-- Only what stands behind the last separator counts.
last_part-split : (sep : ℕ) (s v : Text) → Lacks sep v → last_part (split sep (s ++ sep ∷ v)) ≡ v
unfolding last_part
last_part-split sep s v h = let (p, q, ps, e, l) = split-Ends sep s v h in rw e l

-- A newline at the end goes, with the white space around a trimmed text.
trim_right_newline : (s : Text) → trim_right (s ++ b'\n' ∷ []) ≡ trim_right s
unfolding trim_right is_space nat_eq
trim_right_newline [] = refl
trim_right_newline (c ∷ s) = ap (keep_right c) (trim_right_newline s)

length-trim_left : (s : Text) → length (trim_left s) ≤ length s
unfolding trim_left
length-trim_left [] = omega arith
length-trim_left (c ∷ s) = ground (arith, length-trim_left s)

solid_head : (c : ℕ) (s : Text) → trim_left (c ∷ s) ≡ c ∷ s → is_space c ≡ false
unfolding trim_left
solid_head c s h = ground (arith, length-trim_left s, ap length h)

trim_space_newline : (v : Text) → IsTrimmed v → trim_space (v ++ b'\n' ∷ []) ≡ v
unfolding trim_space trim_left trim_right is_space nat_eq
trim_space_newline [] h = refl
trim_space_newline (c ∷ v) h = rw (solid_head c v h.left) (trim_right_newline (c ∷ v) ∙ h.right)

-- The checksum of a line is its last field.
checksum-chunk_line :
    (filename chunk_filename path : Text) (size : ℕ) (checksum : Text)
    → Lacks b',' checksum
    → IsTrimmed checksum
    → trim_space (
        last_part
          (split b',' (chunk_line filename chunk_filename path size checksum ++ b'\n' ∷ [])))
      ≡ checksum
unfolding chunk_line
checksum-chunk_line filename chunk_filename path size checksum comma trimmed =
    let before =
      filename
      ++ (codes ", "
          ++ (chunk_filename ++ (codes ", " ++ (path ++ (codes ", " ++ format_uint size))))) in
    let cut : chunk_line filename chunk_filename path size checksum ++ b'\n' ∷ []
        ≡ before ++ b',' ∷ b' ' ∷ (checksum ++ b'\n' ∷ []) =
      simp append_assoc in
    rw
      (
        cut,
        last_part-split b',' before (b' ' ∷ (checksum ++ b'\n' ∷ []))
            (omega arith, All-append (λ d. d ≢ b',') checksum (b'\n' ∷ []) comma (omega arith)),
      )
      (trim_space_blank (checksum ++ b'\n' ∷ []) ∙ trim_space_newline checksum trimmed)

-- A chunk whose data and whose line are on the disk.
pub get_chunk_info_from_disk-lookup :
    (asked : ChunkMetaData) (s : StorageNode) (filename path : Text) (size : ℕ) (checksum : Text)
    (bytes : Bytes)
    → IsField checksum
    → Dict.lookup (get_chunk_filename asked.locations) s.chunk_data ≡ some bytes
    → Dict.lookup (metadata_name (get_chunk_filename asked.locations)) s.chunk_metadata
      ≡ some (
          chunk_line filename (get_chunk_filename asked.locations) path size checksum ++ b'\n' ∷ [])
    → get_chunk_info_from_disk asked s
      ≡ (ok (record asked { chunk_size = length bytes; checksum = checksum }, bytes), s)
unfolding get_chunk_info_from_disk
get_chunk_info_from_disk-lookup asked s filename path size checksum bytes field data_there
      line_there =
    rw (
      data_there,
      line_there,
      checksum-chunk_line filename (get_chunk_filename asked.locations) path size checksum
          field.comma field.trimmed,
    )

-- All the bytes of a chunk are copied.
pub copy_n_all :
    (size : ℕ) (incoming : Bytes)
    → length incoming ≡ size
    → size < 2 ^ 63
    → copy_n size incoming ≡ incoming
unfolding copy_n
copy_n_all size incoming all small =
    let fits : ltb size (2 ^ 63) ≡ true = ground arith in
    rw fits (take_all size incoming (omega arith))

-- ===== src/Controller/Metadata/Format.antt =====
-- parseFile reads back the line that saveFileMetadata writes.
use mathlib.Core.Option
use hdfs_in_golang.Base.{
  ℕ, ◌≤◌, ◌≡◌, ◌≢◌, refl, ap, ◌∙◌, false, Option, some, List, [], ◌∷◌, ◌++◌, arith, get_elem?,
  All-append, nat_eq, inl, inr,
}
use hdfs_in_golang.Text.{Text, Lacks, codes, split, trim_space, trim_right, is_space}
use hdfs_in_golang.Text.Split.{split_one, split-append, split-join}
use hdfs_in_golang.Text.Trim.{
  IsTrimmed, trim_space-IsTrimmed, trim_right-append, trim_space-append, trim_space_blank,
}
use hdfs_in_golang.Text.Decimal.{
  format_uint, parse_uint-format_uint, format_uint-Lacks, format_uint-IsTrimmed, max_uint64,
}
use hdfs_in_golang.Controller.{FileInfo}
use hdfs_in_golang.Controller.Metadata.{metadata_line, parse_file}

-- A text that can stand as a field of the line: it has neither separator and is trimmed.
pub record IsField (v : Text) : Type 0 where
  pub comma : Lacks b',' v
  pub colon : Lacks b':' v
  pub newline : Lacks b'\n' v
  pub trimmed : IsTrimmed v

-- The numbers are uint64 and the texts can stand as fields.
pub record IsStorable (name : Text) (info : FileInfo) : Type 0 where
  pub name_field : IsField name
  pub checksum_field : IsField info.file_checksum
  pub folder_field : IsField info.folder_name
  pub chunks_fit : info.total_number_of_chunks ≤ max_uint64
  pub chunk_fits : info.chunk_size ≤ max_uint64
  pub size_fits : info.file_size ≤ max_uint64

-- strings.TrimSpace(strings.Split(strings.TrimSpace(raw), ":")[1])
abbrev value : Text → Option Text
value raw = Option.map trim_space (get_elem? (split b':' (trim_space raw)) 1)

abbrev keyed : Text → Text → Text
keyed key v = key ++ b':' ∷ b' ' ∷ v

trimmed_tail : (v : Text) → IsTrimmed v → trim_space (b' ' ∷ v) ≡ v
trimmed_tail v h = trim_space_blank v ∙ trim_space-IsTrimmed v h

value_behind :
    (raw key w : Text)
    → trim_space raw ≡ key ++ b':' ∷ w
    → Lacks b':' key
    → Lacks b':' w
    → value raw ≡ some (trim_space w)
value_behind raw key w e h h' = rw (e, split-append b':' key w h, split_one b':' w h')

-- The value behind a key is read back.
value-keyed :
    (k : ℕ) (key v : Text)
    → is_space k ≡ false
    → Lacks b':' (k ∷ key)
    → IsField v
    → value (keyed (k ∷ key) v) ≡ some v
unfolding trim_right is_space nat_eq
value-keyed k key [] solid h f =
    value_behind (keyed (k ∷ key) []) (k ∷ key) []
      (trim_space-append k key (b':' ∷ b' ' ∷ []) b':' [] solid refl) h tt
    ∙ ap some (trim_space-IsTrimmed [] f.trimmed)
value-keyed k key (x ∷ v) solid h f =
    value_behind (keyed (k ∷ key) (x ∷ v)) (k ∷ key) (b' ' ∷ x ∷ v)
      (trim_space-append k key (b':' ∷ b' ' ∷ x ∷ v) b':' (b' ' ∷ x ∷ v) solid
        (trim_right-append (b':' ∷ b' ' ∷ []) (x ∷ v) x v f.trimmed.right))
      h (omega arith, f.colon)
    ∙ ap some (trimmed_tail (x ∷ v) f.trimmed)

-- The same behind a blank.
value-blank_keyed :
    (k : ℕ) (key v : Text)
    → is_space k ≡ false
    → Lacks b':' (k ∷ key)
    → IsField v
    → value (b' ' ∷ keyed (k ∷ key) v) ≡ some v
value-blank_keyed k key v solid h f =
    rw (trim_space_blank (keyed (k ∷ key) v)) (value-keyed k key v solid h f)

pub format_uint-IsField : (n : ℕ) → IsField (format_uint n)
format_uint-IsField n = record {
  comma = format_uint-Lacks b',' n (inr (omega arith));
  colon = format_uint-Lacks b':' n (inl (omega arith));
  newline = format_uint-Lacks b'\n' n (inr (omega arith));
  trimmed = format_uint-IsTrimmed n;
}

-- The fields of the line behind the first.
abbrev labelled : FileInfo → List Text
labelled info =
    (codes "ChunkSize: " ++ format_uint info.chunk_size)
    ∷ (codes " FileCheckSum: " ++ info.file_checksum)
    ∷ (codes " TotalNumberOfChunks: " ++ format_uint info.total_number_of_chunks)
    ∷ (codes " FileSize: " ++ format_uint info.file_size)
    ∷ (codes " FolderName: " ++ info.folder_name)
    ∷ []

abbrev fields : Text → FileInfo → List Text
fields name info = (codes "FileName: " ++ name) ∷ labelled info

label-Lacks : (label v : Text) → Lacks b',' label → IsField v → Lacks b',' (label ++ v)
label-Lacks label v h f = All-append (λ c. c ≢ b',') label v h f.comma

split-metadata_line :
    (name : Text) (info : FileInfo)
    → IsStorable name info
    → split b',' (metadata_line name info) ≡ fields name info
unfolding metadata_line
split-metadata_line name info s = split-join b',' (codes "FileName: " ++ name) (labelled info) (
  label-Lacks (codes "FileName: ") name (omega arith) s.name_field,
  (
    label-Lacks (codes "ChunkSize: ") _ (omega arith) (format_uint-IsField info.chunk_size),
    (
      label-Lacks (codes " FileCheckSum: ") _ (omega arith) s.checksum_field,
      (
        label-Lacks (codes " TotalNumberOfChunks: ") _ (omega arith)
            (format_uint-IsField info.total_number_of_chunks),
        (
          label-Lacks (codes " FileSize: ") _ (omega arith) (format_uint-IsField info.file_size),
          (label-Lacks (codes " FolderName: ") _ (omega arith) s.folder_field, tt),
        ),
      ),
    ),
  ),
)

-- parseFile of the fields of a written line gives the name and the entry back, when the name, the
-- checksum and the folder have no comma, colon or newline and no space at either end, and the
-- numbers are uint64.
pub parse_file-metadata_line :
    (name : Text) (info : FileInfo)
    → IsStorable name info
    → parse_file (split b',' (metadata_line name info)) ≡ some (name, info)
unfolding parse_file Option.bind is_space nat_eq
parse_file-metadata_line name info s = rw (split-metadata_line name info s) (
    rw (
      value-keyed b'F' (codes "ileName") name refl (omega arith) s.name_field,
      value-keyed b'C' (codes "hunkSize") _ refl (omega arith)
          (format_uint-IsField info.chunk_size),
      value-blank_keyed b'F' (codes "ileCheckSum") _ refl (omega arith) s.checksum_field,
      value-blank_keyed b'T' (codes "otalNumberOfChunks") _ refl (omega arith)
          (format_uint-IsField info.total_number_of_chunks),
      value-blank_keyed b'F' (codes "ileSize") _ refl (omega arith)
          (format_uint-IsField info.file_size),
      value-blank_keyed b'F' (codes "olderName") _ refl (omega arith) s.folder_field,
      parse_uint-format_uint info.chunk_size s.chunk_fits,
      parse_uint-format_uint info.total_number_of_chunks s.chunks_fit,
      parse_uint-format_uint info.file_size s.size_fits,
    ))

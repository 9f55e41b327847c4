-- ===== src/Controller/Metadata/Restore.antt =====
-- loadData rebuilds the file table and the Bloom filter from the folder FileMetaData.
use hdfs_in_golang.Base.{
  ◌≡◌, ◌≢◌, refl, sym, ap, ◌∙◌, true, false, none, [], ◌∷◌, ◌++◌, append-nil, append_assoc, arith,
  All-append, nat_eq, list_eq,
}
use hdfs_in_golang.Base.Dict
use hdfs_in_golang.Base.Dict.{Dict, NodupKeys}
use hdfs_in_golang.Base.Exec.{ok}
use hdfs_in_golang.Bloom.Laws.{new-Represents}
use hdfs_in_golang.Text.{Text, Lacks, codes, has_prefix}
use hdfs_in_golang.Text.Lines.{scan_lines, drop_cr, drop_cr-IsTrimmed, drop_cr_tail, scan_lines_one}
use hdfs_in_golang.Text.Decimal.{format_uint}
use hdfs_in_golang.Controller.{Controller, FileInfo, Env, start, bf_hashes, bf_bits}
use hdfs_in_golang.Controller.Invariant.{
  texts_of, IsIndexed, bf_put-IsIndexed, insert-IsIndexed, IsMirrored, IsConsistent,
}
use hdfs_in_golang.Controller.Metadata.{
  metadata_line, metadata_text, read_lines, read_file, load_entries, load_data,
}
use hdfs_in_golang.Controller.Metadata.Format.{
  IsField, IsStorable, format_uint-IsField, parse_file-metadata_line,
}

-- A piece of the line: a label, a value and the rest.
piece-Lacks :
    (label v rest : Text)
    → Lacks b'\n' label
    → IsField v
    → Lacks b'\n' rest
    → Lacks b'\n' (label ++ (v ++ rest))
piece-Lacks label v rest h f r =
    All-append (λ c. c ≢ b'\n') label (v ++ rest) h (All-append (λ c. c ≢ b'\n') v rest f.newline r)

metadata_line-Lacks :
    (name : Text) (info : FileInfo) → IsStorable name info → Lacks b'\n' (metadata_line name info)
unfolding metadata_line
metadata_line-Lacks name info s =
    piece-Lacks (codes "FileName: ") name _ (omega arith) s.name_field (
      piece-Lacks (codes ",ChunkSize: ") _ _ (omega arith) (format_uint-IsField info.chunk_size) (
        piece-Lacks (codes ", FileCheckSum: ") _ _ (omega arith) s.checksum_field (
          piece-Lacks (codes ", TotalNumberOfChunks: ") _ _ (omega arith)
            (format_uint-IsField info.total_number_of_chunks)
            (piece-Lacks (codes ", FileSize: ") _ _ (omega arith)
              (format_uint-IsField info.file_size)
              (All-append (λ c. c ≢ b'\n') (codes ", FolderName: ") info.folder_name (omega arith)
                s.folder_field.newline)))))

drop_cr-metadata_line :
    (name : Text) (info : FileInfo)
    → IsStorable name info
    → drop_cr (metadata_line name info) ≡ metadata_line name info
unfolding metadata_line
drop_cr-metadata_line name info s = drop_cr_tail (codes "FileName: " ++ name) b',' _ (
    drop_cr_tail (codes ",ChunkSize: " ++ format_uint info.chunk_size) b',' _ (
      drop_cr_tail (codes ", FileCheckSum: " ++ info.file_checksum) b',' _ (
        drop_cr_tail (codes ", TotalNumberOfChunks: " ++ format_uint info.total_number_of_chunks)
          b',' _
          (drop_cr_tail (codes ", FileSize: " ++ format_uint info.file_size) b',' _
            (drop_cr-IsTrimmed (codes ", FolderName:") info.folder_name s.folder_field.trimmed)))))

-- A file that saveFileMetadata wrote is one line.
scan_lines-metadata_text :
    (name : Text) (info : FileInfo)
    → IsStorable name info
    → scan_lines (metadata_text name info) ≡ metadata_line name info ∷ []
unfolding metadata_text
scan_lines-metadata_text name info s =
    scan_lines_one (metadata_line name info) (metadata_line-Lacks name info s)
      (drop_cr-metadata_line name info s)

module _ (env : Env) where
  -- readFile on such a file enters it into the table and the filter.
  read_file-metadata_text :
      (name : Text) (info : FileInfo) (c : Controller)
      → IsStorable name info
      → IsIndexed env c
      → (c' : Controller) × (read_file env (metadata_text name info) c ≡ (ok tt, c'))
        × IsIndexed env c'
        × (c'.file_map ≡ Dict.insert name info c.file_map)
        × (c'.file_metadata_dir ≡ c.file_metadata_dir)
  unfolding read_file
  read_file-metadata_text name info c s v =
      let c₁ = record c { file_map = Dict.insert name info c.file_map } in
      let (bf, put, r) = bf_put-IsIndexed env c₁ name v.inserted v.filter in
      (
        record c₁ { bf = bf },
        rw (
          scan_lines-metadata_text name info s,
          read_lines,
          parse_file-metadata_line name info s,
          put,
        ),
        insert-IsIndexed env c name info bf v r,
        refl,
        refl,
      )

-- An entry that loadData reads: its file is not hidden, and its fields can be read back.
abbrev pub IsRestorable : Dict Text FileInfo → Type 0
IsRestorable [] = Unit
IsRestorable ((name, info) ∷ d) =
    IsStorable name info × (has_prefix name (codes ".") ≡ false) × IsRestorable d

-- No name of the second table is one of the first.
abbrev Disjoint : Dict Text FileInfo → Dict Text FileInfo → Type 0
Disjoint acc d = (name : Text) → Dict.has name d ≡ true → Dict.lookup name acc ≡ none

Disjoint-insert :
    (acc d : Dict Text FileInfo) (name : Text) (info : FileInfo)
    → Dict.lookup name d ≡ none
    → Disjoint acc ((name, info) ∷ d)
    → Disjoint (Dict.insert name info acc) d
unfolding Dict.has
Disjoint-insert acc d name info fresh apart j h =
    ground (arith, Dict.lookup-insert j name info acc, Dict.lookup-cons j name info d, apart j)

module _ (env : Env) where
  -- The folder of a table is read back entry by entry, behind what the table holds already.
  load_entries-texts_of :
      (d : Dict Text FileInfo) (c : Controller)
      → IsRestorable d
      → NodupKeys d
      → Disjoint c.file_map d
      → IsIndexed env c
      → (c' : Controller) × (load_entries env (texts_of d) c ≡ (ok tt, c'))
        × IsIndexed env c'
        × (c'.file_map ≡ c.file_map ++ d)
        × (c'.file_metadata_dir ≡ c.file_metadata_dir)
  unfolding load_entries texts_of
  load_entries-texts_of [] c s u apart v = (c, refl, v, sym (append-nil c.file_map), refl)
  load_entries-texts_of ((name, info) ∷ d) c (storable, visible, s) (fresh, u) apart v =
      let (c₁, run, v₁, table, dir) = read_file-metadata_text env name info c storable v in
      let absent : Dict.lookup name c.file_map ≡ none =
        apart name (unfold Dict.has in ground (arith, Dict.lookup-cons name name info d)) in
      let grown : c₁.file_map ≡ c.file_map ++ (name, info) ∷ [] =
        table ∙ Dict.insert_fresh name info c.file_map absent in
      let apart₁ : Disjoint c₁.file_map d =
        λ j h. rw table (Disjoint-insert c.file_map d name info fresh apart j h) in
      let (c₂, run₂, v₂, table₂, dir₂) = load_entries-texts_of d c₁ s u apart₁ v₁ in
      (c₂, rw (load_entries, visible, run, run₂), v₂, table₂ ∙ rw (grown, append_assoc), dir₂ ∙ dir)

  start-IsIndexed : (files chunks : Dict Text Text) → IsIndexed env (start files chunks)
  unfolding start Dict.has
  start-IsIndexed files chunks = record {
    inserted = [];
    filter = new-Represents env.murmur bf_hashes bf_bits (omega arith) (omega arith);
    known = λ name h. ground (arith, Dict.lookup-nil {V = FileInfo} name);
  }

  -- A restart restores the file table. If the folder FileMetaData mirrors the table, no file is
  -- hidden and every entry can be read back, then loadData over that folder ends without an error
  -- in the same table, entry for entry, in a state that is again mirrored and indexed.
  pub load_data-restart :
      (c : Controller)
      → IsMirrored c
      → IsRestorable c.file_map
      → (c' : Controller) × (load_data env (start c.file_metadata_dir c.chunk_metadata_dir)
          ≡ (ok tt, c'))
        × (c'.file_map ≡ c.file_map)
        × IsIndexed env c'
        × IsMirrored c'
  unfolding load_data start
  load_data-restart c m s =
      let c₀ = start c.file_metadata_dir c.chunk_metadata_dir in
      let (c', run, v, table, dir) =
        load_entries-texts_of c.file_map c₀ s m.nodup
          (λ name h. Dict.lookup-nil {V = FileInfo} name)
          (start-IsIndexed c.file_metadata_dir c.chunk_metadata_dir) in
      (
        c',
        ap (λ (entries : Dict Text Text). load_entries env entries c₀) m.mirror ∙ run,
        table,
        v,
        record { mirror = dir ∙ m.mirror ∙ ap texts_of (sym table); nodup = rw table m.nodup },
      )

  -- A controller that starts over two empty folders.
  pub start-IsConsistent : IsConsistent env (start [] [])
  unfolding start texts_of
  start-IsConsistent =
      let v = start-IsIndexed [] [] in
      record {
        indexed = record { inserted = v.inserted; filter = v.filter; known = v.known };
        mirrored = record { mirror = refl; nodup = tt };
      }

-- ===== src/Client/Receiving/Merged.antt =====
-- What mergeChunks makes of the chunks in the folder.
use hdfs_in_golang.Base.{
  ℕ, subst, ◌+◌, ◌-◌, ◌≤◌, ◌<◌, ◌≡◌, refl, sym, true, Option, none, some, List, [], ◌∷◌, ◌++◌,
  append-nil, append_assoc, arith, ◌==◌, contains, concat, length, take_all, nat_eq, list_eq,
  Bool-cases, inl, inr, if◌then◌else◌,
}
use hdfs_in_golang.Base.Dict.{Dict}
use hdfs_in_golang.Base.Exec.{ok}
use hdfs_in_golang.Text.{Text}
use hdfs_in_golang.Text.Path.{stem}
use hdfs_in_golang.Text.Decimal.{max_uint64}
use hdfs_in_golang.Transport.{Bytes}
use hdfs_in_golang.Client.{
  Client, ClientEnv, find_file, put_file, remove_file, find_file-put_file, find_file-remove_file,
}
use hdfs_in_golang.Client.Sending.{chunk_name}
use hdfs_in_golang.Client.Receiving.{
  read_once, written, append_chunk, merge_from, validate_merged, merge_chunks,
}
use hdfs_in_golang.Client.Receiving.Names.{chunk_name-ne, chunk_name-ne_self}

-- The names of the chunks from `i` on, one for each part.
abbrev pub chunk_names : Text → ℕ → List Bytes → List Text
chunk_names name i [] = []
chunk_names name i (p ∷ parts) = chunk_name name i ∷ chunk_names name (i + 1) parts

module _ (env : ClientEnv) where
  -- The folder has the parts as the chunks from `i` on, and each can be read at once.
  abbrev pub HoldsParts : Text → Text → ℕ → List Bytes → Dict Text (Dict Text Bytes) → Type 0
  HoldsParts folder name i [] d = Unit
  HoldsParts folder name i (p ∷ parts) d =
      (find_file folder (chunk_name name i) d ≡ some p)
      × (length p ≤ env.read_limit)
      × HoldsParts folder name (i + 1) parts d

  read_once_all : (p : Bytes) → length p ≤ env.read_limit → read_once env p ≡ p
  unfolding read_once
  read_once_all p h =
      let e : length p - env.read_limit ≡ 0 = omega arith in
      rw (e, take_all env.read_limit p h) (append-nil p)

  -- The folders after chunk `j` was appended.
  abbrev appended :
      Text → Text → ℕ → Bytes → Dict Text (Dict Text Bytes) → Dict Text (Dict Text Bytes)
  appended folder name j p d =
      remove_file folder (chunk_name name j)
        (put_file folder name (written (find_file folder name d) ++ p) d)

  find_file-appended :
      (folder name other : Text) (j : ℕ) (p : Bytes) (d : Dict Text (Dict Text Bytes))
      → find_file folder other (appended folder name j p d) ≡ (
          if other == name
          then some (written (find_file folder name d) ++ p)
          else if other == chunk_name name j
          then none
          else find_file folder other d)
  find_file-appended folder name other j p d =
      let x = written (find_file folder name d) ++ p in
      ground (
        arith,
        find_file-remove_file folder (chunk_name name j) other (put_file folder name x d),
        find_file-put_file folder name other x d,
        chunk_name-ne_self name j,
      )

  -- The chunks behind are as they were.
  HoldsParts-appended :
      (folder name : Text) (i j : ℕ) (p : Bytes) (parts : List Bytes)
      (d : Dict Text (Dict Text Bytes))
      → j < i
      → i + length parts ≤ max_uint64 + 1
      → HoldsParts folder name i parts d
      → HoldsParts folder name i parts (appended folder name j p d)
  HoldsParts-appended folder name i j p [] d behind bound h = tt
  HoldsParts-appended folder name i j p (q ∷ parts) d behind bound (here, fits, h) = (
    ground (
      arith,
      find_file-appended folder name (chunk_name name i) j p d,
      chunk_name-ne_self name i,
      chunk_name-ne name i j (omega arith) (omega arith) (omega arith),
    ),
    fits,
    HoldsParts-appended folder name (i + 1) j p parts d (omega arith) (omega arith) h,
  )

  -- The loop of mergeChunks over the parts, when the new file holds `so_far`.
  pub record Merges (name : Text) (so_far : Bytes) (j : ℕ) (parts : List Bytes) (c : Client)
      : Type 0 where
    pub result : Dict Text (Dict Text Bytes)
    pub run : merge_from env name (length parts) j c ≡ (ok tt, record c { folders = result })
    pub files :
        (other : Text)
        → find_file c.folder_name other result ≡ (
            if other == name
            then some (so_far ++ concat parts)
            else if contains (chunk_names name j parts) other
            then none
            else find_file c.folder_name other c.folders)

  Merges-done :
      (name : Text) (so_far : Bytes) (j : ℕ) (c : Client)
      → find_file c.folder_name name c.folders ≡ some so_far
      → Merges name so_far j [] c
  unfolding merge_from
  Merges-done name so_far j c e = record {
    result = c.folders;
    run = refl;
    files = λ other. ground (arith, append-nil so_far);
  }

  Merges-next :
      (name : Text) (so_far : Bytes) (j : ℕ) (p : Bytes) (parts : List Bytes) (c : Client)
      → find_file c.folder_name name c.folders ≡ some so_far
      → find_file c.folder_name (chunk_name name j) c.folders ≡ some p
      → length p ≤ env.read_limit
      → Merges name
          (so_far ++ p)
          (j + 1)
          parts
          (record c { folders = appended c.folder_name name j p c.folders })
      → Merges name so_far j (p ∷ parts) c
  unfolding merge_from append_chunk
  Merges-next name so_far j p parts c e here fits m = record {
    result = m.result;
    run = rw (here, read_once_all p fits) m.run;
    files = λ other. ground (
      arith,
      m.files other,
      find_file-appended c.folder_name name other j p c.folders,
      append_assoc so_far p (concat parts),
    );
  }

  merge_from-Merges :
      (name : Text) (so_far : Bytes) (j : ℕ) (parts : List Bytes) (c : Client)
      → find_file c.folder_name name c.folders ≡ some so_far
      → HoldsParts c.folder_name name j parts c.folders
      → j + length parts ≤ max_uint64 + 1
      → Merges name so_far j parts c
  merge_from-Merges name so_far j [] c e h bound = Merges-done name so_far j c e
  merge_from-Merges name so_far j (p ∷ parts) c e (here, fits, h) bound =
      Merges-next name so_far j p parts c e here fits (
        merge_from-Merges name (so_far ++ p) (j + 1) parts _
          (ground (arith, find_file-appended c.folder_name name name j p c.folders))
          (HoldsParts-appended c.folder_name name (j + 1) j p parts c.folders (omega arith)
            (omega arith) h)
          (omega arith))

  HoldsParts-put_file :
      (folder name : Text) (i : ℕ) (parts : List Bytes) (d : Dict Text (Dict Text Bytes))
      → HoldsParts folder name i parts d
      → HoldsParts folder name i parts (put_file folder name [] d)
  HoldsParts-put_file folder name i [] d h = tt
  HoldsParts-put_file folder name i (p ∷ parts) d (here, fits, h) = (
    ground
        (arith, find_file-put_file folder name (chunk_name name i) [] d, chunk_name-ne_self name i),
    fits,
    HoldsParts-put_file folder name (i + 1) parts d h,
  )

  -- The new file, if it is kept.
  abbrev pub kept : Text → Bytes → Option Bytes
  kept check whole = if env.digest whole == check then some whole else none

  validate_merged_lem :
      (name : Text) (whole : Bytes) (c : Client)
      → find_file c.folder_name name c.folders ≡ some whole
      → (d : Dict Text (Dict Text Bytes)) × (validate_merged env name c
          ≡ (ok tt, record c { folders = d }))
        × ((other : Text)
            → find_file c.folder_name other d ≡ (
                if other == name
                then kept c.file_check_sum whole
                else find_file c.folder_name other c.folders))
  unfolding validate_merged
  validate_merged_lem name whole c e = elim (Bool-cases (env.digest whole == c.file_check_sum)) [
    | inl valid ↦ (c.folders, rw (e, valid), λ other. rw valid (ground arith))
    | inr corrupt ↦ (
      remove_file c.folder_name name c.folders,
      rw (e, corrupt),
      λ other. rw corrupt (find_file-remove_file c.folder_name name other c.folders),
    )
  ]

  -- With every chunk of the file in the folder, at most 2 ^ 64 of them and none larger than one
  -- Read gives, mergeChunks ends, if it can make the file: the file is all chunks in a row, if
  -- that has the checksum of the file, and is taken away again if not. The chunks are gone, and
  -- every other file of the folder is as it was.
  pub merge_chunks-files :
      (parts : List Bytes) (c : Client)
      → env.creates (stem c.file_path) ≡ true
      → c.total_number_of_chunks ≡ length parts
      → length parts ≤ max_uint64 + 1
      → HoldsParts c.folder_name (stem c.file_path) 0 parts c.folders
      → (d : Dict Text (Dict Text Bytes)) × (merge_chunks env c ≡ (ok tt, record c { folders = d }))
        × ((other : Text)
            → find_file c.folder_name other d ≡ (
                if other == stem c.file_path
                then kept c.file_check_sum (concat parts)
                else if contains (chunk_names (stem c.file_path) 0 parts) other
                then none
                else find_file c.folder_name other c.folders))
  unfolding merge_chunks
  merge_chunks-files parts c creates total bound h =
      let name = stem c.file_path in
      let c₁ = record c { folders = put_file c.folder_name name [] c.folders } in
      let m =
        merge_from-Merges name [] 0 parts c₁
          (ground (arith, find_file-put_file c.folder_name name name [] c.folders))
          (HoldsParts-put_file c.folder_name name 0 parts c.folders h) (omega arith) in
      let (d, run, files) =
        validate_merged_lem name (concat parts) (record c₁ { folders = m.result })
          (ground (arith, m.files name)) in
      let all : merge_from env name c.total_number_of_chunks 0 c₁
          ≡ (ok tt, record c₁ { folders = m.result }) =
        subst (λ n. merge_from env name n 0 c₁ ≡ (ok tt, record c₁ { folders = m.result }))
          (sym total) m.run in
      (
        d,
        rw (creates, all, run),
        λ other. ground (
          arith,
          files other,
          m.files other,
          find_file-put_file c.folder_name name other [] c.folders,
        ),
      )

-- ===== src/Client/Receiving/Arrivals.antt =====
-- The chunks of a file reach a client on connections of their own, in any order.
use mathlib.Core.List.{Permᴰ}
use mathlib.Core.List.Permᴰ
use hdfs_in_golang.Base.{
  ℕ, ◌+◌, ◌%◌, ◌^◌, ◌≤◌, ◌<◌, ◌≡◌, sym, ◌∙◌, inl, inr, true, false, some, List, [], ◌∷◌, map, All,
  arith, ◌==◌, leb, ltb, concat, contains, length, length-map, none, take_all, nat_eq, list_eq,
  Bool-cases, if◌then◌else◌,
}
use hdfs_in_golang.Base.Dict.{Dict}
use hdfs_in_golang.Base.Exec.{ok, pure, ◌>>◌}
use hdfs_in_golang.Text.{Text}
use hdfs_in_golang.Text.Path.{stem}
use hdfs_in_golang.Text.Decimal.{max_uint64}
use hdfs_in_golang.Transport.{Bytes}
use hdfs_in_golang.Storage.Chunks.{copy_n}
use hdfs_in_golang.Client.{Client, ClientEnv, ClientAction, find_file, put_file}
use hdfs_in_golang.Client.Sending.{chunk_name}
use hdfs_in_golang.Client.Receiving.{save_chunk_info_to_disk, merge_chunks, receive_chunk}
use hdfs_in_golang.Client.Receiving.Numbered.{
  numbered, total_bytes, mem-Perm, length-Perm, total_bytes-Perm, length-numbered,
  total_bytes-numbered, numbered-Within, numbered-Agrees, All-of_mem, numbered-All,
}
use hdfs_in_golang.Client.Receiving.Delivered.{
  Arrival, chunk_of, stored, find_file-stored, find_file-stored_other, contains-chunk_names,
  HoldsParts-stored,
}
use hdfs_in_golang.Client.Receiving.Merged.{chunk_names, HoldsParts, merge_chunks-files}

copy_n_all : (p : Bytes) → length p < 2 ^ 63 → copy_n (length p) p ≡ p
unfolding copy_n
copy_n_all p small =
    let fits : ltb (length p) (2 ^ 63) ≡ true = ground arith in
    rw fits (take_all (length p) p (omega arith))

-- The connections one after the other, in the order in which they are served.
abbrev pub receive_all : ClientEnv → {name : Text} → List (Arrival name) → ClientAction Unit
receive_all env [] = pure tt
receive_all env (a ∷ arrivals) = receive_chunk env a.msg a.part >> receive_all env arrivals

module _ (env : ClientEnv) (creates : (name : Text) → env.creates name ≡ true)
    (limit : env.read_limit < 2 ^ 63) where
  -- The state after one chunk was written.
  abbrev saved : Text → ℕ → Bytes → Client → Client
  saved name i p c = record c {
    folders = put_file c.folder_name (chunk_name name i) p c.folders;
    received_bytes = c.received_bytes + length p;
    chunks_received = c.chunks_received + 1;
  }

  save_chunk_info_to_disk-saved :
      (name : Text) (a : Arrival name) (c : Client)
      → length a.part ≤ env.read_limit
      → c.chunks_received < max_uint64
      → save_chunk_info_to_disk env a.msg a.part c ≡ (ok tt, saved name a.index a.part c)
  unfolding save_chunk_info_to_disk
  save_chunk_info_to_disk-saved name a c fits small =
      let all : copy_n (length a.part) a.part ≡ a.part = copy_n_all a.part (omega arith) in
      let counted : (c.chunks_received + 1) % 2 ^ 64 ≡ c.chunks_received + 1 = omega arith in
      let enough : leb (length a.part) (length a.part) ≡ true = ground arith in
      rw (a.carried, a.sized, all, creates (chunk_name name a.index), enough, counted)

  -- A chunk before the last.
  receive_chunk-saved :
      (name : Text) (a : Arrival name) (c : Client)
      → length a.part ≤ env.read_limit
      → c.chunks_received + 1 < c.total_number_of_chunks
      → c.total_number_of_chunks ≤ max_uint64
      → receive_chunk env a.msg a.part c ≡ (ok tt, saved name a.index a.part c)
  unfolding receive_chunk
  receive_chunk-saved name a c fits early small =
      let others : (c.chunks_received + 1 == c.total_number_of_chunks) ≡ false = ground arith in
      rw (save_chunk_info_to_disk-saved name a c fits (omega arith), others)

  receive_chunk-merged :
      (name : Text) (a : Arrival name) (c : Client)
      → length a.part ≤ env.read_limit
      → c.chunks_received + 1 ≡ c.total_number_of_chunks
      → c.total_number_of_chunks ≤ max_uint64
      → c.received_bytes + length a.part ≡ c.file_size
      → receive_chunk env a.msg a.part c ≡ merge_chunks env (saved name a.index a.part c)
  unfolding receive_chunk
  receive_chunk-merged name a c fits last small whole =
      let counted : (c.chunks_received + 1 == c.total_number_of_chunks) ≡ true = ground arith in
      let sized : (c.file_size == c.received_bytes + length a.part) ≡ true = ground arith in
      rw (save_chunk_info_to_disk-saved name a c fits (omega arith), counted, sized)

  -- With all chunks of the file, what follows is the merge.
  receive_all-merge_chunks :
      {name : Text} (arrivals : List (Arrival name)) (c c' : Client)
      → 0 < length arrivals
      → All (λ (i, p). length p ≤ env.read_limit) (map chunk_of arrivals)
      → c.total_number_of_chunks ≤ max_uint64
      → c.chunks_received + length arrivals ≡ c.total_number_of_chunks
      → c.received_bytes + total_bytes (map chunk_of arrivals) ≡ c.file_size
      → merge_chunks env (record c {
        folders = stored c.folder_name arrivals c.folders;
        received_bytes = c.file_size;
        chunks_received = c.total_number_of_chunks;
      })
        ≡ (ok tt, c')
      → receive_all env arrivals c ≡ (ok tt, c')
  receive_all-merge_chunks [] c c' some_left fit small count size merged = absurd (omega arith)
  receive_all-merge_chunks {name} (a ∷ []) c c' some_left (fits, fit) small count size merged =
      let bytes : c.received_bytes + length a.part ≡ c.file_size = omega arith in
      let counted : c.chunks_received + 1 ≡ c.total_number_of_chunks = omega arith in
      rw (receive_chunk-merged name a c fits counted small bytes, bytes, counted, merged)
  receive_all-merge_chunks {name} (a ∷ b ∷ arrivals) c c' some_left (fits, fit) small count size
        merged =
      rw (receive_chunk-saved name a c fits (omega arith) small) (
        receive_all-merge_chunks (b ∷ arrivals) (saved name a.index a.part c) c' (omega arith) fit
          small (omega arith) (omega arith) merged)

  -- What is found when every chunk was written.
  HoldsParts-arrived :
      (name folder : Text) (parts : List Bytes) (arrivals : List (Arrival name))
      (d : Dict Text (Dict Text Bytes))
      → Permᴰ (map chunk_of arrivals) (numbered 0 parts)
      → length parts ≤ max_uint64
      → All (λ p. length p ≤ env.read_limit) parts
      → HoldsParts env folder name 0 parts (stored folder arrivals d)
  HoldsParts-arrived name folder parts arrivals d order small fit =
      HoldsParts-stored env folder name 0 parts (stored folder arrivals d) fit λ i p m.
        find_file-stored folder i p arrivals d
          (omega (arith, (numbered-Within i 0 p parts m).below))
          (λ j q m'. omega (arith, (numbered-Within j 0 q parts (mem-Perm order m')).below))
          (λ q m'. numbered-Agrees 0 parts i q p (mem-Perm order m') m)
          (inr (mem-Perm (Permᴰ.symm order) m))

  find_file-stored_none :
      (name folder other : Text) (parts : List Bytes) (arrivals : List (Arrival name))
      (d : Dict Text (Dict Text Bytes))
      → Permᴰ (map chunk_of arrivals) (numbered 0 parts)
      → contains (chunk_names name 0 parts) other ≡ false
      → find_file folder other (stored folder arrivals d) ≡ find_file folder other d
  find_file-stored_none name folder other parts arrivals d order none_of =
      find_file-stored_other folder other arrivals d λ j q m e.
        let w = numbered-Within j 0 q parts (mem-Perm order m) in
        let has = contains-chunk_names name j 0 parts w.above w.below in cc

  -- A client that waits for the chunks of a file (at least one, fewer than 2 ^ 64, none of them
  -- there yet) gets them, each whole and on a connection of its own, in any order. The last one
  -- that comes starts the merge, which leaves the chunks in the order of the file as one file,
  -- none of the chunks, and the other files of the folder as they were. It is assumed that files
  -- can be made, that a Read gives a whole chunk and less than 2 ^ 63 bytes, that the client was
  -- told the number of chunks and bytes, and that the checksum is that of the file.
  pub receive_all-files :
      (parts : List Bytes) (c : Client) (arrivals : List (Arrival (stem c.file_path)))
      → Permᴰ (map chunk_of arrivals) (numbered 0 parts)
      → 0 < length parts
      → length parts ≤ max_uint64
      → All (λ p. length p ≤ env.read_limit) parts
      → c.chunks_received ≡ 0
      → c.received_bytes ≡ 0
      → c.total_number_of_chunks ≡ length parts
      → c.file_size ≡ length (concat parts)
      → env.digest (concat parts) ≡ c.file_check_sum
      → (d : Dict Text (Dict Text Bytes)) × (receive_all env arrivals c ≡ (
        ok tt,
        record c {
          folders = d;
          received_bytes = c.file_size;
          chunks_received = c.total_number_of_chunks;
        },
      ))
        × ((other : Text)
            → find_file c.folder_name other d ≡ (
                if other == stem c.file_path
                then some (concat parts)
                else if contains (chunk_names (stem c.file_path) 0 parts) other
                then none
                else find_file c.folder_name other c.folders))
  receive_all-files parts c arrivals order some_part small fit no_chunk no_byte total size valid =
      let name = stem c.file_path in
      let before = record c {
        folders = stored c.folder_name arrivals c.folders;
        received_bytes = c.file_size;
        chunks_received = c.total_number_of_chunks;
      } in
      let (d, run, files) =
        merge_chunks-files env parts before (creates name) total (omega arith)
          (HoldsParts-arrived name c.folder_name parts arrivals c.folders order small fit) in
      let count =
        sym (length-map chunk_of arrivals) ∙ length-Perm order ∙ length-numbered 0 parts in
      let bytes = total_bytes-Perm order ∙ total_bytes-numbered 0 parts in
      (
        d,
        receive_all-merge_chunks arrivals c (record before { folders = d }) (omega arith)
            (All-of_mem (λ (i, p). length p ≤ env.read_limit) (map chunk_of arrivals)
              (λ (i, p) m. numbered-All _ i 0 p parts fit (mem-Perm order m)))
            (omega arith) (omega arith) (omega arith) run,
        λ other. elim (Bool-cases (contains (chunk_names name 0 parts) other)) [
          | inl chunk ↦ ground (arith, files other)
          | inr none_of ↦ ground (
            arith,
            files other,
            find_file-stored_none name c.folder_name other parts arrivals c.folders order none_of,
          )
        ],
      )

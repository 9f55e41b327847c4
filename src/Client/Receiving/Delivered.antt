-- ===== src/Client/Receiving/Delivered.antt =====
-- The chunks of a file in the folder of a client, written in any order.
use mathlib.Core.List.{Memᴰ}
use hdfs_in_golang.Base.{
  ℕ, ◌+◌, ◌≤◌, ◌<◌, ◌≡◌, ◌≢◌, refl, ap, ◌∙◌, ◌⊎◌, inl, inr, true, some, List, [], ◌∷◌, map, All,
  arith, ◌==◌, contains, length, nat_eq, list_eq, Bool-cases,
}
use hdfs_in_golang.Base.Dict.{Dict}
use hdfs_in_golang.Text.{Text}
use hdfs_in_golang.Text.Decimal.{max_uint64}
use hdfs_in_golang.Transport.{Bytes}
use hdfs_in_golang.Proto.{ChunkMetaData}
use hdfs_in_golang.Client.{ClientEnv, find_file, put_file, find_file-put_file}
use hdfs_in_golang.Client.Sending.{chunk_name}
use hdfs_in_golang.Client.Receiving.{named}
use hdfs_in_golang.Client.Receiving.Names.{chunk_name-ne}
use hdfs_in_golang.Client.Receiving.Numbered.{numbered}
use hdfs_in_golang.Client.Receiving.Merged.{chunk_names, HoldsParts}

-- A connection that brings a chunk of the file `name`, with its message.
pub record Arrival (name : Text) : Type 0 where
  pub index : ℕ
  pub part : Bytes
  pub msg : ChunkMetaData
  pub carried : named msg.locations ≡ some (chunk_name name index)
  pub sized : msg.chunk_size ≡ length part

pub contains-chunk_names :
    (name : Text) (i k : ℕ) (parts : List Bytes)
    → k ≤ i
    → i < k + length parts
    → contains (chunk_names name k parts) (chunk_name name i) ≡ true
contains-chunk_names name i k [] low high = absurd (omega arith)
contains-chunk_names name i k (p ∷ parts) low high = elim (Bool-cases (i == k)) [
  | inl same ↦ let e : i ≡ k = ground arith in ground (arith, ap (chunk_name name) e)
  | inr others ↦
      let later = contains-chunk_names name i (k + 1) parts (ground arith) (omega arith) in
      ground arith
]

pub HoldsParts-stored :
    (env : ClientEnv) (folder name : Text) (k : ℕ) (parts : List Bytes)
    (d : Dict Text (Dict Text Bytes))
    → All (λ p. length p ≤ env.read_limit) parts
    → ((i : ℕ) (p : Bytes)
        → Memᴰ (i, p) (numbered k parts)
        → find_file folder (chunk_name name i) d ≡ some p)
    → HoldsParts env folder name k parts d
HoldsParts-stored env folder name k [] d fit holds = tt
HoldsParts-stored env folder name k (p ∷ parts) d (fits, fit) holds = (
  holds k p (Memᴰ.head refl),
  fits,
  HoldsParts-stored env folder name (k + 1) parts d fit (λ i q m. holds i q (Memᴰ.tail m)),
)

module _ {name : Text} where
  abbrev pub chunk_of : Arrival name → ℕ × Bytes
  chunk_of a = (a.index, a.part)

  -- The folders with the chunks written.
  abbrev pub stored :
      Text → List (Arrival name) → Dict Text (Dict Text Bytes) → Dict Text (Dict Text Bytes)
  stored folder [] d = d
  stored folder (a ∷ arrivals) d =
      stored folder arrivals (put_file folder (chunk_name name a.index) a.part d)

  pub find_file-stored :
      (folder : Text) (i : ℕ) (p : Bytes) (arrivals : List (Arrival name))
      (d : Dict Text (Dict Text Bytes))
      → i ≤ max_uint64
      → ((j : ℕ) (q : Bytes) → Memᴰ (j, q) (map chunk_of arrivals) → j ≤ max_uint64)
      → ((q : Bytes) → Memᴰ (i, q) (map chunk_of arrivals) → q ≡ p)
      → (find_file folder (chunk_name name i) d ≡ some p) ⊎ Memᴰ (i, p) (map chunk_of arrivals)
      → find_file folder (chunk_name name i) (stored folder arrivals d) ≡ some p
  find_file-stored folder i p [] d small all_small agrees (inl e) = e
  find_file-stored folder i p [] d small all_small agrees (inr m) = elim m [ ]
  find_file-stored folder i p (a ∷ arrivals) d small all_small agrees h =
      let step = find_file-put_file folder (chunk_name name a.index) (chunk_name name i) a.part d in
      let a_small = all_small a.index a.part (Memᴰ.head refl) in
      find_file-stored folder i p arrivals (put_file folder (chunk_name name a.index) a.part d)
        small (λ j q m. all_small j q (Memᴰ.tail m)) (λ q m. agrees q (Memᴰ.tail m))
        (elim (Bool-cases (i == a.index)) [
          | inl same ↦
              let e : i ≡ a.index = ground arith in
              let e' : a.part ≡ p = agrees a.part (Memᴰ.head (ap (λ j. (j, a.part)) e)) in
              inl (ground (arith, step, ap (chunk_name name) e))
          | inr others ↦
              let ne : i ≢ a.index = ground arith in
              let apart = chunk_name-ne name i a.index small a_small ne in
              elim h [
                | inl e ↦ inl (ground (arith, step))
                | inr (Memᴰ.head e) ↦ absurd (ne (ap (λ c. c.0) e))
                | inr (Memᴰ.tail m) ↦ inr m
              ]
        ])

  -- A file of the folder that is none of the chunks.
  pub find_file-stored_other :
      (folder other : Text) (arrivals : List (Arrival name)) (d : Dict Text (Dict Text Bytes))
      → ((j : ℕ) (q : Bytes) → Memᴰ (j, q) (map chunk_of arrivals) → other ≢ chunk_name name j)
      → find_file folder other (stored folder arrivals d) ≡ find_file folder other d
  find_file-stored_other folder other [] d apart = refl
  find_file-stored_other folder other (a ∷ arrivals) d apart =
      let ne = apart a.index a.part (Memᴰ.head refl) in
      find_file-stored_other folder other arrivals _ (λ j q m. apart j q (Memᴰ.tail m))
      ∙ ground (arith, find_file-put_file folder (chunk_name name a.index) other a.part d)

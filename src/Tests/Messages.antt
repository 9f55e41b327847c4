-- ===== src/Tests/Messages.antt =====
-- Examples for messages and for the Bloom filter.
use hdfs_in_golang.Base.{◌≡◌, refl, true, some, [], ◌∷◌, ◌++◌, arith, concat, take, nat_eq, list_eq}
use hdfs_in_golang.Base.Exec.{ok, err, stalled}
use hdfs_in_golang.Text.{Text, codes}
use hdfs_in_golang.Proto.{Wrapper, response, success}
use hdfs_in_golang.Transport.{
  Bytes, Incoming, receive, send, put_uint64, little_endian, uint64, read_prefix,
}
use hdfs_in_golang.Transport.Frame.{receive-send}
use hdfs_in_golang.Transport.Stalls.{receive_closed_early, read_prefix_short}
use hdfs_in_golang.Bloom.{BloomFilter, new, get, positions}
use hdfs_in_golang.Bloom.Laws.{get-puts-new, get-puts_inserted, puts, within, after}
use hdfs_in_golang.Tests.{codec, murmur}

abbrev hello : Wrapper
hello = response (record { msg_type = success; description = codes "hi" })

-- The length and half of the message, and the rest with the next byte.
abbrev pieces : Incoming
pieces = (put_uint64 3 ++ 0 ∷ []) ∷ (codes "hi" ++ 9 ∷ []) ∷ []

receive-send_example :
    (rest : Incoming) × (receive codec 4 pieces ≡ (ok (some hello), rest)) × (concat rest ≡ 9 ∷ [])
unfolding send put_uint64 little_endian
receive-send_example =
    receive-send codec hello (0 ∷ codes "hi") (put_uint64 3 ++ 0 ∷ []) (9 ∷ [])
      ((codes "hi" ++ 9 ∷ []) ∷ []) 4 refl refl refl (omega arith) (omega arith) refl (omega arith)

receive_closed_early_example : (receive codec 50 ((put_uint64 3 ++ 0 ∷ []) ∷ [])).0 ≡ err stalled
unfolding put_uint64 little_endian
receive_closed_early_example =
    receive_closed_early codec 3 (put_uint64 3 ++ 0 ∷ []) (0 ∷ []) [] refl (omega arith)
      (omega arith) refl (omega arith) 50

-- A message of 300 bytes of whose length one byte has arrived counts as one of 44 bytes.
read_prefix_short_example :
    (prefix : Bytes) × (read_prefix (take 1 (put_uint64 300) ∷ []) ≡ (ok prefix, []))
    × (uint64 prefix ≡ 44)
read_prefix_short_example = read_prefix_short 1 300 [] (omega arith)

get-puts-new_example :
    (bf : BloomFilter) × (puts murmur (codes "a" ∷ codes "b" ∷ []) (new 100 3) ≡ some bf)
    × ((x : Text)
        → get murmur bf x
          ≡ some (
              within
                (positions murmur 3 100 x)
                (after murmur 3 100 (omega arith) (omega arith) (codes "a" ∷ codes "b" ∷ []) [])))
unfolding nat_eq
get-puts-new_example =
    get-puts-new murmur 3 100 (omega arith) (omega arith) (codes "a" ∷ codes "b" ∷ [])

get-puts_inserted_example :
    (bf : BloomFilter) × (puts murmur (codes "a" ∷ codes "b" ∷ []) (new 100 3) ≡ some bf)
    × (get murmur bf (codes "b") ≡ some true)
unfolding nat_eq list_eq
get-puts_inserted_example =
    get-puts_inserted murmur 3 100 (omega arith) (omega arith) (codes "a" ∷ codes "b" ∷ [])
      (codes "b") (omega arith) refl

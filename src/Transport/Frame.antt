-- ===== src/Transport/Frame.antt =====
-- A message that was sent is received, however the network cuts its bytes.
use native.Mathlib.Decide.{dec_lt}
use hdfs_in_golang.Base.{
  ℕ, ◌+◌, ◌-◌, ◌^◌, ◌≤◌, ◌<◌, ◌≡◌, refl, sym, ap, ◌∙◌, true, some, [], ◌∷◌, ◌++◌, append-nil,
  append_assoc, arith, length, take, drop, concat, length-take, length-append, take_prefix,
  drop_prefix,
}
use hdfs_in_golang.Base.Exec.{ok}
use hdfs_in_golang.Proto.{Wrapper}
use hdfs_in_golang.Transport.{
  Bytes, Codec, put_uint64, uint64, Incoming, conn_read, fill, read_prefix, send, receive,
}
use hdfs_in_golang.Transport.Filled.{
  length-little_endian, uint64-little_endian, take-concat_long, drop-concat_long, fill-Filled,
}

pub length-put_uint64 : (n : ℕ) → length (put_uint64 n) ≡ 8
unfolding put_uint64
length-put_uint64 n = length-little_endian 8 n

pub uint64-put_uint64 : (n : ℕ) → n < 2 ^ 64 → uint64 (put_uint64 n) ≡ n
unfolding put_uint64
uint64-put_uint64 n h = uint64-little_endian 8 n h

-- A first segment of 8 bytes at least fills the buffer of the length.
unfoldable pub Prefixed : Bytes → Incoming → Type 0
Prefixed first segments =
    (rest : Incoming) × (read_prefix (first ∷ segments)
      ≡ (ok (take 8 (concat (first ∷ segments))), rest))
    × (concat rest ≡ drop 8 (concat (first ∷ segments)))
    × (length rest ≤ length segments + 1)

read_prefix_lem :
    (incoming rest : Incoming) (bytes : Bytes)
    → conn_read 8 incoming ≡ (bytes, rest)
    → length bytes ≡ 8
    → read_prefix incoming ≡ (ok bytes, rest)
unfolding read_prefix
read_prefix_lem incoming rest bytes e full =
    let none_left : 8 - length bytes ≡ 0 = omega arith in rw (e, none_left, append-nil)

pub read_prefix-Prefixed :
    (first : Bytes) (segments : Incoming) → 8 ≤ length first → Prefixed first segments
unfolding conn_read Prefixed
read_prefix-Prefixed first segments h = elim (dec_lt 8 (length first)) [
  | yes long ↦ (
    drop 8 first ∷ segments,
    read_prefix_lem (first ∷ segments) (drop 8 first ∷ segments) (take 8 first) (ground arith)
          (length-take 8 first h)
        ∙ rw (take-concat_long 8 first segments h),
    sym (drop-concat_long 8 first segments h),
    omega arith,
  )
  | no exact ↦ (
    segments,
    read_prefix_lem (first ∷ segments) segments first (ground arith) (omega arith)
        ∙ rw (take_prefix 8 first (concat segments) (omega arith)),
    sym (drop_prefix 8 first (concat segments) (omega arith)),
    omega arith,
  )
]

-- The bytes that `send` writes.
concat-send :
    (codec : Codec) (wrapper : Wrapper) (bytes : Bytes)
    → codec.marshal wrapper ≡ some bytes
    → concat (send codec wrapper []).1 ≡ put_uint64 (length bytes) ++ bytes
unfolding send
concat-send codec wrapper bytes m = rw (m, send, append-nil)

receive_from :
    (codec : Codec) (fuel n : ℕ) (incoming middle rest : Incoming) (prefix payload : Bytes)
    → read_prefix incoming ≡ (ok prefix, middle)
    → uint64 prefix ≡ n
    → codec.allocates n ≡ true
    → fill fuel n [] middle ≡ (ok payload, rest)
    → receive codec fuel incoming ≡ (ok (codec.unmarshal payload), rest)
unfolding receive
receive_from codec fuel n incoming middle rest prefix payload p e a run = rw (p, e, a, run)

-- `Receive` from a connection on which a length and that many bytes arrive.
receive-put_uint64 :
    (codec : Codec) (bytes first later : Bytes) (segments : Incoming) (fuel : ℕ)
    → codec.allocates (length bytes) ≡ true
    → length bytes < 2 ^ 64
    → 8 ≤ length first
    → concat (first ∷ segments) ≡ put_uint64 (length bytes) ++ (bytes ++ later)
    → length segments + 2 < fuel
    → (rest : Incoming) × (receive codec fuel (first ∷ segments)
        ≡ (ok (codec.unmarshal bytes), rest))
      × (concat rest ≡ later)
unfolding Prefixed
receive-put_uint64 codec bytes first later segments fuel a small h cut enough =
    let n = length bytes in
    let size = length-put_uint64 n in
    let (middle, prefix, behind, few) = read_prefix-Prefixed first segments h in
    let arrived : concat middle ≡ bytes ++ later =
      behind ∙ ap (drop 8) cut ∙ drop_prefix 8 (put_uint64 n) (bytes ++ later) size in
    let announced : take 8 (concat (first ∷ segments)) ≡ put_uint64 n =
      ap (take 8) cut ∙ take_prefix 8 (put_uint64 n) (bytes ++ later) size in
    let (rest, run, left) =
      fill-Filled fuel n [] middle (omega arith)
        (omega (arith, length-append bytes later, ap length arrived)) (omega arith) in
    let whole : n - length {A = ℕ} [] ≡ n = omega arith in
    (
      rest,
      receive_from codec fuel n (first ∷ segments) middle rest _ _ prefix
            (ap uint64 announced ∙ uint64-put_uint64 n small) a run
          ∙ rw (whole, arrived, take_prefix n bytes later refl),
      left ∙ rw (whole, arrived) (drop_prefix n bytes later refl),
    )

-- A message that was sent is received, and nothing behind it is consumed: whatever the segments in
-- which its bytes arrive, if the first of them holds the 8 bytes of the length.
pub receive-send :
    (codec : Codec) (wrapper : Wrapper) (bytes first later : Bytes) (segments : Incoming) (fuel : ℕ)
    → codec.marshal wrapper ≡ some bytes
    → codec.unmarshal bytes ≡ some wrapper
    → codec.allocates (length bytes) ≡ true
    → length bytes < 2 ^ 64
    → 8 ≤ length first
    → concat (first ∷ segments) ≡ concat (send codec wrapper []).1 ++ later
    → length segments + 2 < fuel
    → (rest : Incoming) × (receive codec fuel (first ∷ segments) ≡ (ok (some wrapper), rest))
      × (concat rest ≡ later)
receive-send codec wrapper bytes first later segments fuel m u a small h cut enough = rw (← u) (
    receive-put_uint64 codec bytes first later segments fuel a small h
      (cut ∙ rw (concat-send codec wrapper bytes m, append_assoc)) enough)

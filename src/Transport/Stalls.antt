-- ===== src/Transport/Stalls.antt =====
-- `Receive` when the network gives it less than it waits for.
use native.Mathlib.Nat.{add-mul-mod_self_left, div-add-mod, mod-eq_of_lt, mod-lt}
use hdfs_in_golang.Base.{
  ℕ, zero, suc, ◌+◌, ◌-◌, ◌*◌, ◌/◌, ◌%◌, ◌^◌, ◌≤◌, ◌<◌, ◌≡◌, refl, ap, ◌∙◌, true, [], ◌∷◌, ◌++◌,
  arith, length, take, drop, replicate, concat, length-append, take_prefix, drop_prefix,
  length-take,
}
use hdfs_in_golang.Base.Exec.{ok, err, stalled}
use hdfs_in_golang.Transport.{
  Bytes, Codec, little_endian, put_uint64, uint64, Incoming, conn_read, fill, read_prefix, receive,
}
use hdfs_in_golang.Transport.Filled.{conn_read_lem, pow256, pow256}
use hdfs_in_golang.Transport.Frame.{
  length-put_uint64, uint64-put_uint64, read_prefix-Prefixed, Prefixed,
}

-- With fewer bytes on their way than are announced, the loop goes on through all its rounds.
fill_stalls :
    (fuel size : ℕ) (payload : Bytes) (incoming : Incoming)
    → length payload + length (concat incoming) < size
    → (fill fuel size payload incoming).0 ≡ err stalled
unfolding fill
fill_stalls zero size payload incoming h = refl
fill_stalls (suc fuel) size payload incoming h =
    let (bytes, rest) = conn_read (size - length payload) incoming in
    ground (
      arith,
      length-append payload bytes,
      length-append bytes (concat rest),
      ap length (conn_read_lem (size - length payload) incoming),
      fill_stalls fuel size (payload ++ bytes) rest,
    )

receive_stalls :
    (codec : Codec) (fuel n : ℕ) (incoming middle : Incoming) (prefix : Bytes)
    → read_prefix incoming ≡ (ok prefix, middle)
    → uint64 prefix ≡ n
    → codec.allocates n ≡ true
    → length (concat middle) < n
    → (receive codec fuel incoming).0 ≡ err stalled
unfolding receive
receive_stalls codec fuel n incoming middle prefix p e a short =
    rw (p, e, a) (ground (arith, fill_stalls fuel n [] middle))

-- If the peer closes the connection before all bytes that it announced have arrived, `Receive`
-- never returns: its loop makes any number of rounds. The conditions are that the first segment
-- holds the 8 bytes of the length, and that as many bytes as are announced can be allocated.
pub receive_closed_early :
    (codec : Codec) (n : ℕ) (first part : Bytes) (segments : Incoming)
    → codec.allocates n ≡ true
    → n < 2 ^ 64
    → 8 ≤ length first
    → concat (first ∷ segments) ≡ put_uint64 n ++ part
    → length part < n
    → (fuel : ℕ) → (receive codec fuel (first ∷ segments)).0 ≡ err stalled
unfolding Prefixed
receive_closed_early codec n first part segments a small h cut short fuel =
    let (middle, prefix, behind, few) = read_prefix-Prefixed first segments h in
    let size = length-put_uint64 n in
    receive_stalls codec fuel n (first ∷ segments) middle _ prefix
      (ap uint64 (ap (take 8) cut ∙ take_prefix 8 (put_uint64 n) part size)
        ∙ uint64-put_uint64 n small)
      a
      (omega (arith, ap length (behind ∙ ap (drop 8) cut ∙ drop_prefix 8 (put_uint64 n) part size)))

uint64-replicate : (k : ℕ) → uint64 (replicate k 0) ≡ 0
unfolding uint64
uint64-replicate zero = refl
uint64-replicate (suc k) = omega (arith, uint64-replicate k)

pow256_pos : (k : ℕ) → 0 < pow256 k
pow256_pos zero = omega arith
pow256_pos (suc k) = omega (arith, pow256_pos k)

-- The lowest digit of a number, and the digits above it.
mod_split : (n p : ℕ) → 0 < p → n % (256 * p) ≡ n % 256 + 256 * (n / 256 % p)
mod_split n p h =
    let q : ℕ = n / 256 in
    let low : ℕ = n % 256 + 256 * (q % p) in
    let whole : n ≡ low + 256 * p * (q / p) = grind (arith, div-add-mod q p) in
    let small : low < 256 * p = grind (arith, mod-lt q h) in
    ap (λ m. m % (256 * p)) whole ∙ add-mul-mod_self_left low (256 * p) (q / p) ∙ mod-eq_of_lt small

uint64-take :
    (k w n j : ℕ) → k ≤ w → uint64 (take k (little_endian w n) ++ replicate j 0) ≡ n % pow256 k
unfolding uint64 little_endian
uint64-take zero w n j h = omega (arith, uint64-replicate j)
uint64-take (suc k) zero n j h = absurd (omega arith)
uint64-take (suc k) (suc w) n j h =
    omega (arith, mod_split n (pow256 k) (pow256_pos k), uint64-take k w (n / 256) j (omega arith))

-- If the network delivers only `k` of the 8 bytes of a length first, `Receive` takes the length
-- modulo 256 ^ k for the length of the message, and leaves the other bytes in the stream.
pub read_prefix_short :
    (k n : ℕ) (rest : Incoming)
    → k ≤ 8
    → (prefix : Bytes) × (read_prefix (take k (put_uint64 n) ∷ rest) ≡ (ok prefix, rest))
      × (uint64 prefix ≡ n % pow256 k)
unfolding read_prefix conn_read put_uint64
read_prefix_short k n rest h = (
  take k (put_uint64 n) ++ replicate (8 - length (take k (put_uint64 n))) 0,
  ground (arith, length-take k (put_uint64 n), length-put_uint64 n),
  uint64-take k 8 n (8 - length (take k (put_uint64 n))) h,
)

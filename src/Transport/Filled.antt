-- ===== src/Transport/Filled.antt =====
-- The loop of Receive that reads the payload, over the bytes that arrive.
use native.Mathlib.Decide.{dec_lt}
use hdfs_in_golang.Base.{
  ℕ, zero, suc, ◌+◌, ◌-◌, ◌*◌, ◌/◌, ◌≤◌, ◌<◌, ◌≡◌, refl, sym, ap, ◌∙◌, [], ◌∷◌, ◌++◌, append-nil,
  append_assoc, arith, length, take, drop, concat, take-append, drop-append, take_all, drop_all,
  take_zero, drop_zero, length-take, length-append, take-append-drop, leb, Bool-cases, inl, inr,
}
use hdfs_in_golang.Base.Exec.{ok}
use hdfs_in_golang.Transport.{Bytes, little_endian, uint64, Incoming, conn_read, fill}

abbrev pub pow256 : ℕ → ℕ
pow256 zero = 1
pow256 (suc w) = 256 * pow256 w

-- A read gives the bytes in order, and loses none.
pub conn_read_lem :
    (n : ℕ) (incoming : Incoming)
    → (conn_read n incoming).0 ++ concat (conn_read n incoming).1 ≡ concat incoming
unfolding conn_read
conn_read_lem n [] = refl
conn_read_lem n (segment ∷ rest) = elim (Bool-cases (leb (length segment) n)) [
  | inl fits ↦ rw fits
  | inr long ↦ rw long (
      sym (append_assoc (take n segment) (drop n segment) (concat rest))
      ∙ rw (take-append-drop n segment))
]

pub length-little_endian : (w n : ℕ) → length (little_endian w n) ≡ w
unfolding little_endian
length-little_endian zero n = refl
length-little_endian (suc w) n = ap suc (length-little_endian w _)

pub uint64-little_endian : (w n : ℕ) → n < pow256 w → uint64 (little_endian w n) ≡ n
unfolding uint64 little_endian
uint64-little_endian zero n h = omega arith
uint64-little_endian (suc w) n h = omega (arith, uint64-little_endian w (n / 256) (omega arith))

fill_done :
    (fuel size : ℕ) (payload : Bytes) (incoming : Incoming)
    → length payload ≡ size
    → fill (suc fuel) size payload incoming ≡ (ok payload, incoming)
unfolding fill
fill_done fuel size payload incoming e = ground arith

fill_round :
    (fuel size : ℕ) (payload segment : Bytes) (rest : Incoming)
    → length payload < size
    → length segment ≤ size - length payload
    → fill (suc fuel) size payload (segment ∷ rest) ≡ fill fuel size (payload ++ segment) rest
unfolding fill conn_read
fill_round fuel size payload segment rest more fits = ground arith

fill_cut :
    (fuel size : ℕ) (payload segment : Bytes) (rest : Incoming)
    → length payload < size
    → size - length payload < length segment
    → fill (suc fuel) size payload (segment ∷ rest)
      ≡ fill fuel size
          (payload ++ take (size - length payload) segment)
          (drop (size - length payload) segment ∷ rest)
unfolding fill conn_read
fill_cut fuel size payload segment rest more long = ground arith

-- The first `k` bytes when the first segment holds no more than these.
take-concat :
    (k : ℕ) (segment : Bytes) (rest : Incoming)
    → length segment ≤ k
    → take k (concat (segment ∷ rest)) ≡ segment ++ take (k - length segment) (concat rest)
take-concat k segment rest h =
    take-append k segment (concat rest)
    ∙ ap (λ s. s ++ take (k - length segment) (concat rest)) (take_all k segment h)

drop-concat :
    (k : ℕ) (segment : Bytes) (rest : Incoming)
    → length segment ≤ k
    → drop k (concat (segment ∷ rest)) ≡ drop (k - length segment) (concat rest)
drop-concat k segment rest h = drop-append k segment (concat rest) ∙ rw (drop_all k segment h)

-- The first `k` bytes when the first segment holds more.
pub take-concat_long :
    (k : ℕ) (segment : Bytes) (rest : Incoming)
    → k ≤ length segment
    → take k (concat (segment ∷ rest)) ≡ take k segment
take-concat_long k segment rest h =
    take-append k segment (concat rest)
    ∙ rw (take_zero (k - length segment) (concat rest) (omega arith)) (append-nil _)

pub drop-concat_long :
    (k : ℕ) (segment : Bytes) (rest : Incoming)
    → k ≤ length segment
    → drop k (concat (segment ∷ rest)) ≡ drop k segment ++ concat rest
drop-concat_long k segment rest h =
    drop-append k segment (concat rest)
    ∙ rw (drop_zero (k - length segment) (concat rest) (omega arith))

-- What the loop of `Receive` is to leave: the payload read, the rest untouched.
abbrev Filled : ℕ → ℕ → Bytes → Incoming → Type 0
Filled fuel size payload incoming =
    (rest : Incoming) × (fill fuel size payload incoming
      ≡ (ok (payload ++ take (size - length payload) (concat incoming)), rest))
    × (concat rest ≡ drop (size - length payload) (concat incoming))

Filled-done :
    (fuel size : ℕ) (payload : Bytes) (incoming : Incoming)
    → length payload ≡ size
    → Filled (suc fuel) size payload incoming
Filled-done fuel size payload incoming e = (
  incoming,
  fill_done fuel size payload incoming e
      ∙ rw (take_zero (size - length payload) (concat incoming) (omega arith), append-nil),
  sym (drop_zero (size - length payload) (concat incoming) (omega arith)),
)

Filled-round :
    (fuel size : ℕ) (payload segment : Bytes) (rest : Incoming)
    → length payload < size
    → length segment ≤ size - length payload
    → Filled fuel size (payload ++ segment) rest
    → Filled (suc fuel) size payload (segment ∷ rest)
Filled-round fuel size payload segment rest more fits (after, run, left) =
    let e : size - length (payload ++ segment) ≡ size - length payload - length segment =
      omega (arith, length-append payload segment) in
    (
      after,
      fill_round fuel size payload segment rest more fits
          ∙ run
          ∙ rw (e, take-concat (size - length payload) segment rest fits, append_assoc),
      left ∙ rw (e, drop-concat (size - length payload) segment rest fits),
    )

Filled-cut :
    (fuel size : ℕ) (payload segment : Bytes) (rest : Incoming)
    → length payload < size
    → size - length payload < length segment
    → Filled (suc (suc fuel)) size payload (segment ∷ rest)
Filled-cut fuel size payload segment rest more long =
    let k = size - length payload in
    let full : length (payload ++ take k segment) ≡ size =
      omega (arith, length-append payload (take k segment), length-take k segment) in
    (
      drop k segment ∷ rest,
      fill_cut (suc fuel) size payload segment rest more long
          ∙ fill_done fuel size (payload ++ take k segment) (drop k segment ∷ rest) full
          ∙ rw (take-concat_long k segment rest (omega arith)),
      sym (drop-concat_long k segment rest (omega arith)),
    )

-- With all bytes of the payload on their way and a round for each segment, the loop ends and has
-- read the payload and no more.
pub fill-Filled :
    (fuel size : ℕ) (payload : Bytes) (incoming : Incoming)
    → length payload ≤ size
    → size ≤ length payload + length (concat incoming)
    → length incoming + 1 < fuel
    → Filled fuel size payload incoming
fill-Filled zero size payload incoming lo hi enough = absurd (omega arith)
fill-Filled (suc zero) size payload incoming lo hi enough = absurd (omega arith)
fill-Filled (suc (suc fuel)) size payload [] lo hi enough =
    Filled-done (suc fuel) size payload [] (omega arith)
fill-Filled (suc (suc fuel)) size payload (segment ∷ rest) lo hi enough =
    elim (dec_lt (length payload) size) [
      | no full ↦ Filled-done (suc fuel) size payload (segment ∷ rest) (omega arith)
      | yes more ↦ elim (dec_lt (size - length payload) (length segment)) [
        | yes long ↦ Filled-cut fuel size payload segment rest more long
        | no short ↦ Filled-round (suc fuel) size payload segment rest more (omega arith) (
            fill-Filled (suc fuel) size (payload ++ segment) rest
              (omega (arith, length-append payload segment))
              (omega (arith, length-append payload segment, length-append segment (concat rest)))
              (omega arith))
      ]
    ]

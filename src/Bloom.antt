-- ===== src/Bloom.antt =====
-- hdfs/filters/bloom_filter.go: the Bloom filter of file names that the controller keeps.
pub mod Laws
use mathlib.Core.Option
use hdfs_in_golang.Base.{
  ℕ, zero, suc, ◌+◌, ◌*◌, ◌%◌, ◌^◌, Bool, true, false, ◌&&◌, Option, none, some, List, [], ◌∷◌,
  ◌==◌, nat_eq, length, get_or, set, replicate, if◌then◌else◌,
}
use hdfs_in_golang.Text.{Text}

-- The package murmur3, over the bytes of a text: Sum32 and Sum32WithSeed.
pub record Murmur : Type 0 where
  pub sum32 : Text → ℕ
  pub sum32_with_seed : Text → ℕ → ℕ

pub record BloomFilter : Type 0 where
  pub num_hashes : ℕ
  pub elements : ℕ
  pub bits : List Bool

unfoldable pub new : ℕ → ℕ → BloomFilter
new num_bits num_hashes = record {
  num_hashes = num_hashes;
  elements = 0;
  bits = replicate num_bits false;
}

-- uint32 arithmetic wraps around.
abbrev u32 : ℕ → ℕ
u32 n = n % 2 ^ 32

-- The loop of `getBits` from `i` on, with `k` rounds left.
hashes : ℕ → ℕ → ℕ → ℕ → ℕ → List ℕ
hashes sum1 sum2 m zero i = []
hashes sum1 sum2 m (suc k) i = (u32 (sum1 + u32 (i * sum2)) % m) ∷ hashes sum1 sum2 m k (i + 1)

-- The loop of `Put` over the positions.
mark : List ℕ → List Bool → List Bool
mark [] bits = bits
mark (v ∷ vs) bits = mark vs (set bits v true)

-- The loop of `Get`.
test : List ℕ → List Bool → Bool → Bool
test [] bits result = result
test (v ∷ vs) bits result = test vs bits (result && get_or bits v false)

-- `Get` on the positions.
answer : List ℕ → List Bool → Bool
unfolding test
answer [] bits = false
answer (v ∷ vs) bits = test (v ∷ vs) bits true

module _ (h : Murmur) where
  -- The results of `getBits` for filters of `k` hash functions and of `m` bits, as a uint32.
  pub positions : ℕ → ℕ → Text → List ℕ
  unfolding hashes
  positions k m name =
      let sum1 = h.sum32 name in let sum2 = h.sum32_with_seed name sum1 in hashes sum1 sum2 m k 0

  -- A remainder by zero panics, if there is a hash function.
  get_bits : BloomFilter → Text → Option (List ℕ)
  get_bits bf name =
      let m = u32 (length bf.bits) in
      if m == 0
      then (if bf.num_hashes == 0 then some [] else none)
      else some (positions bf.num_hashes m name)

  unfoldable pub put : BloomFilter → Text → Option BloomFilter
  unfolding get_bits mark
  put bf name = Option.map (λ arr. record bf { bits = mark arr bf.bits }) (get_bits bf name)

  unfoldable pub get : BloomFilter → Text → Option Bool
  unfolding get_bits answer
  get bf name = Option.map (λ arr. answer arr bf.bits) (get_bits bf name)

-- ===== src/Bloom/Laws.antt =====
-- The Bloom filter against the set of positions that were inserted.
use hdfs_in_golang.Base.{
  ℕ, zero, suc, ◌+◌, ◌^◌, ◌<◌, ◌≡◌, refl, sym, ap, ◌∙◌, Bool, true, false, not, ◌&&◌, ◌||◌, Option,
  none, some, List, [], ◌∷◌, ◌++◌, arith, ◌==◌, nat_eq, list_eq, contains, length, get_or, set,
  replicate, All, length-set, length-replicate, get_or-set_self, get_or-set_ne,
}
use hdfs_in_golang.Text.{Text}
use hdfs_in_golang.Bloom.{
  Murmur, BloomFilter, new, u32, hashes, positions, get_bits, mark, put, test, answer, get,
}

-- The filter has bits, and a uint32 counts them.
abbrev pub HasBits : BloomFilter → Type 0
HasBits bf = (0 < length bf.bits) × (length bf.bits < 2 ^ 32)

-- Every listed position is set.
abbrev pub all_in : List ℕ → List Bool → Bool
all_in [] bits = true
all_in (v ∷ vs) bits = get_or bits v false && all_in vs bits

hashes-lt : (s t m k i : ℕ) → 0 < m → All (λ v. v < m) (hashes s t m k i)
unfolding hashes
hashes-lt s t m zero i p = tt
hashes-lt s t m (suc k) i p = (grind arith, hashes-lt s t m k (i + 1) p)

get_or-set :
    (bits : List Bool) (v j : ℕ)
    → v < length bits
    → get_or (set bits v true) j false ≡ (j == v || get_or bits j false)
get_or-set bits v j p =
    ground (arith, get_or-set_self bits v true false p, get_or-set_ne bits v j true false)

length-mark : (vs : List ℕ) (bits : List Bool) → length (mark vs bits) ≡ length bits
unfolding mark
length-mark [] bits = refl
length-mark (v ∷ vs) bits = omega (arith, length-mark vs (set bits v true), length-set bits v true)

-- After the writes of `Put` a bit is set if it was, or if its position is listed.
get_or-mark :
    (n : ℕ) (vs : List ℕ) (bits : List Bool) (j : ℕ)
    → length bits ≡ n
    → All (λ v. v < n) vs
    → get_or (mark vs bits) j false ≡ (contains vs j || get_or bits j false)
unfolding mark
get_or-mark n [] bits j e p = refl
get_or-mark n (v ∷ vs) bits j e p =
    ground
      (arith, length-set bits v true, get_or-mark n vs (set bits v true) j, get_or-set bits v j)

test-all_in : (vs : List ℕ) (bits : List Bool) (r : Bool) → test vs bits r ≡ (r && all_in vs bits)
unfolding test
test-all_in [] bits r = ground arith
test-all_in (v ∷ vs) bits r = ground (arith, test-all_in vs bits (r && get_or bits v false))

-- Every listed position is an inserted one.
abbrev pub within : List ℕ → List ℕ → Bool
within [] inserted = true
within (v ∷ vs) inserted = contains inserted v && within vs inserted

all_in-within :
    (vs inserted : List ℕ) (bits : List Bool)
    → ((j : ℕ) → get_or bits j false ≡ contains inserted j)
    → all_in vs bits ≡ within vs inserted
all_in-within [] s bits h = refl
all_in-within (v ∷ vs) s bits h = rw (h v, all_in-within vs s bits h)

contains-append :
    (xs ys : List ℕ) (j : ℕ) → contains (xs ++ ys) j ≡ (contains xs j || contains ys j)
contains-append [] ys j = refl
contains-append (x ∷ xs) ys j = ground (arith, contains-append xs ys j)

contains-replicate : (n j : ℕ) → get_or (replicate n false) j false ≡ false
contains-replicate zero j = refl
contains-replicate (suc n) zero = refl
contains-replicate (suc n) (suc j) = contains-replicate n j

-- The filter of `k` hash functions and `n` bits that stands for a set of positions.
pub record Represents (k n : ℕ) (inserted : List ℕ) (bf : BloomFilter) : Type 0 where
  pub hashes : bf.num_hashes ≡ k
  pub size : length bf.bits ≡ n
  pub marked : (j : ℕ) → get_or bf.bits j false ≡ contains inserted j

answer-hashes :
    (s t m k i : ℕ) (bits : List Bool)
    → answer (hashes s t m k i) bits ≡ (not (k == 0) && all_in (hashes s t m k i) bits)
unfolding answer hashes
answer-hashes s t m zero i bits = ground arith
answer-hashes s t m (suc k) i bits = ground (arith, test-all_in (hashes s t m (suc k) i) bits true)

-- A larger set of inserted positions.
pub within-append : (vs xs ys : List ℕ) → within vs ys ≡ true → within vs (xs ++ ys) ≡ true
within-append [] xs ys e = refl
within-append (v ∷ vs) xs ys e = ground (arith, contains-append xs ys v, within-append vs xs ys)

within_cons : (vs : List ℕ) (x : ℕ) (ys : List ℕ) → within vs ys ≡ true → within vs (x ∷ ys) ≡ true
within_cons vs x ys = within-append vs (x ∷ []) ys

contains_left : (xs ys : List ℕ) (j : ℕ) → contains xs j ≡ true → contains (xs ++ ys) j ≡ true
contains_left xs ys j e = ground (arith, contains-append xs ys j)

within_sub :
    (vs xs ys : List ℕ)
    → ((j : ℕ) → contains xs j ≡ true → contains ys j ≡ true)
    → within vs xs ≡ true
    → within vs ys ≡ true
within_sub [] xs ys h e = refl
within_sub (v ∷ vs) xs ys h e = ground (arith, h v, within_sub vs xs ys h)

within_self : (vs : List ℕ) → within vs vs ≡ true
within_self [] = refl
within_self (v ∷ vs) = ground (arith, within_cons vs v vs (within_self vs))

-- Several insertions in turn.
pub puts : Murmur → List Text → BloomFilter → Option BloomFilter
puts h [] bf = some bf
puts h (name ∷ names) bf = elim (put h bf name) [ none ↦ none | some bf' ↦ puts h names bf' ]

module _ (h : Murmur) (k n : ℕ) (pos : 0 < n) (fits : n < 2 ^ 32) where
  get_bits-positions :
      (bf : BloomFilter) (name : Text)
      → bf.num_hashes ≡ k
      → length bf.bits ≡ n
      → get_bits h bf name ≡ some (positions h k n name)
  unfolding get_bits
  get_bits-positions bf name eh en =
      let e : u32 (length bf.bits) ≡ n = omega arith in rw (e, eh) (ground arith)

  positions-lt : (name : Text) → All (λ v. v < n) (positions h k n name)
  unfolding positions
  positions-lt name = hashes-lt (h.sum32 name) (h.sum32_with_seed name (h.sum32 name)) n k 0 pos

  pub put-Represents :
      (bf : BloomFilter) (name : Text) (inserted : List ℕ)
      → Represents k n inserted bf
      → (bf' : BloomFilter) × (put h bf name ≡ some bf')
        × Represents k n (positions h k n name ++ inserted) bf'
  unfolding put
  put-Represents bf name inserted r = (
    record bf { bits = mark (positions h k n name) bf.bits },
    rw (get_bits-positions bf name r.hashes r.size),
    record {
      hashes = r.hashes;
      size = length-mark (positions h k n name) bf.bits ∙ r.size;
      marked = λ j.
          get_or-mark n (positions h k n name) bf.bits j r.size (positions-lt name)
          ∙ ap (λ b. contains (positions h k n name) j || b) (r.marked j)
          ∙ sym (contains-append (positions h k n name) inserted j);
    },
  )

  answer-positions :
      (name : Text) (bits : List Bool)
      → answer (positions h k n name) bits ≡ (not (k == 0) && all_in (positions h k n name) bits)
  unfolding positions
  answer-positions name bits =
      answer-hashes (h.sum32 name) (h.sum32_with_seed name (h.sum32 name)) n k 0 bits

  -- `Get` on a filter that stands for a set of positions.
  pub get-Represents :
      (bf : BloomFilter) (name : Text) (inserted : List ℕ)
      → Represents k n inserted bf
      → get h bf name ≡ some (not (k == 0) && within (positions h k n name) inserted)
  unfolding get
  get-Represents bf name inserted r = rw (get_bits-positions bf name r.hashes r.size) (
      ap some (
        answer-positions name bf.bits
        ∙ ap (λ b. not (k == 0) && b)
            (all_in-within (positions h k n name) inserted bf.bits r.marked)))

  -- What was put is found.
  pub within-positions :
      (name : Text) (inserted : List ℕ)
      → within (positions h k n name) (positions h k n name ++ inserted) ≡ true
  within-positions name inserted =
      within_sub (positions h k n name) (positions h k n name) _
        (contains_left (positions h k n name) inserted) (within_self (positions h k n name))

  -- The positions of all names, the last inserted first.
  pub after : List Text → List ℕ → List ℕ
  after [] inserted = inserted
  after (name ∷ names) inserted = after names (positions h k n name ++ inserted)

  puts-Represents :
      (names : List Text) (bf : BloomFilter) (inserted : List ℕ)
      → Represents k n inserted bf
      → (bf' : BloomFilter) × (puts h names bf ≡ some bf')
        × Represents k n (after names inserted) bf'
  unfolding puts after
  puts-Represents [] bf inserted r = (bf, refl, r)
  puts-Represents (name ∷ names) bf inserted r =
      let (bf', e, r') = put-Represents bf name inserted r in
      rw (e, puts) (puts-Represents names bf' (positions h k n name ++ inserted) r')

  pub new-Represents : Represents k n [] (new n k)
  unfolding new
  new-Represents = record {
    hashes = refl;
    size = length-replicate n false;
    marked = contains-replicate n;
  }

  after_keeps :
      (names : List Text) (vs inserted : List ℕ)
      → within vs inserted ≡ true
      → within vs (after names inserted) ≡ true
  unfolding after
  after_keeps [] vs inserted e = e
  after_keeps (name ∷ names) vs inserted e =
      after_keeps names vs _ (within-append vs (positions h k n name) inserted e)

  after_holds :
      (names : List Text) (inserted : List ℕ) (name : Text)
      → contains names name ≡ true
      → within (positions h k n name) (after names inserted) ≡ true
  unfolding after
  after_holds [] inserted name e = cc
  after_holds (other ∷ names) inserted name e = ground (
    arith,
    after_holds names (positions h k n other ++ inserted) name,
    after_keeps names (positions h k n other) _ (within-positions other inserted),
  )

  -- A new filter, after any insertions, says yes exactly to the names of which every position was
  -- set by an insertion (and to none if it has no hash function). No operation panics.
  pub get-puts-new :
      (names : List Text)
      → (bf : BloomFilter) × (puts h names (new n k) ≡ some bf)
        × ((x : Text)
            → get h bf x ≡ some (not (k == 0) && within (positions h k n x) (after names [])))
  get-puts-new names =
      let (bf, e, r) = puts-Represents names (new n k) [] new-Represents in
      (bf, e, λ x. get-Represents bf x (after names []) r)

  -- A filter with a hash function has no false negatives: after any insertions it says yes to each
  -- name that was inserted.
  pub get-puts_inserted :
      (names : List Text) (x : Text)
      → 0 < k
      → contains names x ≡ true
      → (bf : BloomFilter) × (puts h names (new n k) ≡ some bf) × (get h bf x ≡ some true)
  get-puts_inserted names x p e =
      let (bf, run, exact) = get-puts-new names in
      (bf, run, exact x ∙ rw (after_holds names [] x e) (ground arith))

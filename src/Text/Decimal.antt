-- ===== src/Text/Decimal.antt =====
-- %d of fmt.Sprintf and strconv.ParseUint(s, 10, 64).
use hdfs_in_golang.Base.{
  ℕ, zero, suc, ◌+◌, ◌-◌, ◌*◌, ◌/◌, ◌%◌, ◌^◌, ◌≤◌, ◌<◌, ◌≡◌, refl, ◌||◌, [], ◌∷◌, ◌++◌, append-nil,
  append_assoc, arith, sym, ap, ◌∙◌, ◌⊎◌, false, All, All-append, ltb, Bool-cases, inl, inr,
  if◌then◌else◌,
}
use hdfs_in_golang.Text.{Text, Lacks, is_space}
use hdfs_in_golang.Text.Trim.{IsTrimmed, IsTrimmed-solid}

abbrev pub max_uint64 : ℕ
max_uint64 = 2 ^ 64 - 1

-- The decimal digits of a number, the last of them split off first; a uint64 has at most 20.
digits : ℕ → ℕ → Text
digits zero n = []
digits (suc f) n =
    let rest = digits f (n / 10) ++ (b'0' + n % 10) ∷ [] in
    if ltb n 10 then (b'0' + n) ∷ [] else rest

unfoldable pub format_uint : ℕ → Text
unfolding digits
format_uint n = digits 20 n

-- The loop of ParseUint. The program ignores its error: a text that is no number counts as 0, and
-- one that is too large as the largest uint64.
scan : ℕ → Text → ℕ
scan n [] = n
scan n (c ∷ s) =
    let m = n * 10 + (c - b'0') in
    let rest = scan m s in
    if ltb c b'0' || ltb b'9' c then 0 else if ltb max_uint64 m then max_uint64 else rest

unfoldable pub parse_uint : Text → ℕ
unfolding scan
parse_uint [] = 0
parse_uint (c ∷ s) = scan 0 (c ∷ s)

abbrev pow10 : ℕ → ℕ
pow10 zero = 1
pow10 (suc f) = 10 * pow10 f

-- Reading the last digit of `n` after the digits before it gives `n`.
scan_last :
    (n : ℕ) (rest : Text) → n ≤ max_uint64 → scan (n / 10) ((b'0' + n % 10) ∷ rest) ≡ scan n rest
unfolding scan
scan_last n rest h = ground arith

scan_first : (n : ℕ) (rest : Text) → n < 10 → scan 0 ((b'0' + n) ∷ rest) ≡ scan n rest
unfolding scan
scan_first n rest h = ground arith

scan-digits :
    (f n : ℕ) (rest : Text)
    → n < pow10 f
    → n ≤ max_uint64
    → scan 0 (digits f n ++ rest) ≡ scan n rest
unfolding digits
scan-digits zero n rest small h = let e : n ≡ 0 = omega arith in rw e
scan-digits (suc f) n rest small h = elim (Bool-cases (ltb n 10)) [
  | inl less ↦ rw less (scan_first n rest (ground arith))
  | inr more ↦
      rw (more, append_assoc)
        (scan-digits f (n / 10) _ (omega arith) (omega arith) ∙ scan_last n rest h)
]

parse_uint-scan : (s : Text) → parse_uint s ≡ scan 0 s
unfolding parse_uint
parse_uint-scan [] = refl
parse_uint-scan (c ∷ s) = refl

-- A uint64 is read back from its decimal print.
pub parse_uint-format_uint : (n : ℕ) → n ≤ max_uint64 → parse_uint (format_uint n) ≡ n
unfolding format_uint scan
parse_uint-format_uint n h =
    parse_uint-scan (digits 20 n)
    ∙ ap (scan 0) (sym (append-nil (digits 20 n)))
    ∙ scan-digits 20 n [] (omega arith) h

abbrev pub IsDigit : ℕ → Type 0
IsDigit c = (b'0' ≤ c) × (c ≤ b'9')

digits-IsDigit : (f n : ℕ) → All IsDigit (digits f n)
unfolding digits
digits-IsDigit zero n = tt
digits-IsDigit (suc f) n = elim (Bool-cases (ltb n 10)) [
  | inl less ↦ rw less ((omega arith, ground arith), tt)
  | inr more ↦
      rw more (All-append IsDigit (digits f (n / 10)) _ (digits-IsDigit f (n / 10)) (omega arith))
]

pub format_uint-IsDigit : (n : ℕ) → All IsDigit (format_uint n)
unfolding format_uint
format_uint-IsDigit n = digits-IsDigit 20 n

Lacks-digits : (c : ℕ) (s : Text) → b'9' < c ⊎ c < b'0' → All IsDigit s → Lacks c s
Lacks-digits c [] h d = tt
Lacks-digits c (x ∷ s) h d = (ground arith, Lacks-digits c s h d.1)

-- A printed number holds nothing but digits.
pub format_uint-Lacks : (c n : ℕ) → b'9' < c ⊎ c < b'0' → Lacks c (format_uint n)
format_uint-Lacks c n h = Lacks-digits c (format_uint n) h (format_uint-IsDigit n)

solid_digits : (s : Text) → All IsDigit s → All (λ c. is_space c ≡ false) s
solid_digits [] d = tt
solid_digits (c ∷ s) d = (unfold is_space in ground arith, solid_digits s d.1)

pub format_uint-IsTrimmed : (n : ℕ) → IsTrimmed (format_uint n)
format_uint-IsTrimmed n = IsTrimmed-solid (format_uint n) (solid_digits _ (format_uint-IsDigit n))

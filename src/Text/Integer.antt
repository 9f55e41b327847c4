-- ===== src/Text/Integer.antt =====
-- strconv.ParseInt(s, 0, 64).
use hdfs_in_golang.Base.{
  ℕ, ◌+◌, ◌-◌, ◌*◌, ◌^◌, Bool, true, false, not, ◌&&◌, ◌||◌, Option, none, some, [], ◌∷◌, leb, ltb,
  ◌==◌, nat_eq, contains, if◌then◌else◌,
}
use hdfs_in_golang.Text.{Text}

-- A number of 64 bits with its sign: whether it is negative, and its absolute value.
pub record Int64 : Type 0 where
  pub negative : Bool
  pub magnitude : ℕ

-- The case bit of an ASCII letter is set.
abbrev lower : ℕ → ℕ
lower c = if leb b'A' c && leb c b'Z' then c + 32 else c

abbrev digit_of : ℕ → Option ℕ
digit_of c =
    if leb b'0' c && leb c b'9'
    then some (c - b'0')
    else if leb b'a' (lower c) && leb (lower c) b'z'
    then some (lower c - b'a' + 10)
    else none

-- What underscoreOK has seen: a digit or a base prefix, an underscore, or anything else.
pub data Seen : Type 0 where
  digit underscore other : Seen

-- The loop of underscoreOK: an underscore stands between digits, or behind the base prefix.
underscores : Bool → Seen → Text → Bool
underscores hex digit [] = true
underscores hex underscore [] = false
underscores hex other [] = true
underscores hex seen (c ∷ s) =
    let as_digit = underscores hex digit s in
    let as_underscore = underscores hex underscore s in
    let as_other = underscores hex other s in
    if (leb b'0' c && leb c b'9') || (hex && leb b'a' (lower c) && leb (lower c) b'f')
    then as_digit
    else if c == b'_'
    then elim seen [ digit ↦ as_underscore | _ ↦ false ]
    else elim seen [ underscore ↦ false | _ ↦ as_other ]

-- Base, whether there is a prefix that counts as a digit, and the digits behind the prefix.
abbrev prefixed : Text → ℕ × Bool × Text
prefixed (c ∷ d ∷ e ∷ s) =
    if c == b'0'
    then (if lower d == b'b'
        then (2, true, e ∷ s)
        else if lower d == b'o'
        then (8, true, e ∷ s)
        else if lower d == b'x'
        then (16, true, e ∷ s)
        else (8, false, d ∷ e ∷ s))
    else (10, false, c ∷ d ∷ e ∷ s)
prefixed (c ∷ s) = if c == b'0' then (8, false, s) else (10, false, c ∷ s)
prefixed [] = (10, false, [])

-- The loop of ParseUint; the result may be larger than a uint64, which ParseInt refuses as well.
digits : ℕ → ℕ → Text → Option ℕ
digits b n [] = some n
digits b n (c ∷ s) =
    let skip = digits b n s in
    elim (c == b'_') [
      | true ↦ skip
      | false ↦ elim (digit_of c) [
        | none ↦ none
        | some d ↦ let next = digits b (n * b + d) s in if ltb d b then next else none
      ]
    ]

-- ParseUint with base 0, on a text that is not empty.
abbrev parse_magnitude : Text → Option ℕ
parse_magnitude s =
    let (b, counts, rest) = prefixed s in
    if contains s b'_'
      && not (underscores (b == 16) (if counts then digit else other) (if counts then rest else s))
    then none
    else digits b 0 rest

abbrev in_range : Bool → Option ℕ → Option Int64
in_range negative none = none
in_range true (some n) =
    if leb n (2 ^ 63) then some (record { negative = true; magnitude = n }) else none
in_range false (some n) =
    if ltb n (2 ^ 63) then some (record { negative = false; magnitude = n }) else none

abbrev parse_unsigned : Bool → Text → Option Int64
parse_unsigned negative [] = none
parse_unsigned negative (c ∷ s) = in_range negative (parse_magnitude (c ∷ s))

-- `none` is a syntax error or a number out of range.
unfoldable pub parse_int : Text → Option Int64
unfolding underscores digits
parse_int [] = none
parse_int (c ∷ s) =
    if c == b'-'
    then parse_unsigned true s
    else if c == b'+'
    then parse_unsigned false s
    else parse_unsigned false (c ∷ s)

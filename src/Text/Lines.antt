-- ===== src/Text/Lines.antt =====
-- bufio.Scanner by lines.
use hdfs_in_golang.Base.{
  ℕ, ◌≡◌, refl, ap, ◌∙◌, List, [], ◌∷◌, ◌++◌, arith, ◌==◌, nat_eq, if◌then◌else◌,
}
use hdfs_in_golang.Text.{Text, Lacks, split, is_space, trim_right, keep_right}
use hdfs_in_golang.Text.Split.{split-append}
use hdfs_in_golang.Text.Trim.{IsTrimmed}

-- One carriage return at the end of a line goes.
unfoldable pub drop_cr : Text → Text
drop_cr [] = []
drop_cr (c ∷ []) = if c == b'\r' then [] else c ∷ []
drop_cr (c ∷ d ∷ s) = c ∷ drop_cr (d ∷ s)

-- The parts between newlines, the last only if it is not empty.
unfoldable pub line_parts : List Text → List Text
line_parts [] = []
line_parts ([] ∷ []) = []
line_parts ((c ∷ s) ∷ []) = drop_cr (c ∷ s) ∷ []
line_parts (s ∷ t ∷ rest) = drop_cr s ∷ line_parts (t ∷ rest)

unfoldable pub scan_lines : Text → List Text
unfolding line_parts drop_cr
scan_lines s = line_parts (split b'\n' s)

drop_cr-append : (s : Text) (c : ℕ) (v : Text) → drop_cr (s ++ c ∷ v) ≡ s ++ drop_cr (c ∷ v)
unfolding drop_cr
drop_cr-append [] c v = refl
drop_cr-append (d ∷ []) c v = refl
drop_cr-append (d ∷ e ∷ s) c v = ap (◌∷◌ d) (drop_cr-append (e ∷ s) c v)

keep_right_tail : (c d : ℕ) (s t : Text) → keep_right c t ≡ c ∷ d ∷ s → t ≡ d ∷ s
keep_right_tail c d s [] h = ground arith
keep_right_tail c d s (e ∷ t) h = cc

-- A text that ends in no white space ends in no carriage return.
drop_cr_solid : (v : Text) → trim_right v ≡ v → drop_cr v ≡ v
unfolding drop_cr trim_right
drop_cr_solid [] h = refl
drop_cr_solid (c ∷ []) h = unfold is_space in ground arith
drop_cr_solid (c ∷ d ∷ s) h =
    ap (◌∷◌ c) (drop_cr_solid (d ∷ s) (keep_right_tail c d s (trim_right (d ∷ s)) h))

-- Behind a blank.
pub drop_cr-IsTrimmed : (s v : Text) → IsTrimmed v → drop_cr (s ++ b' ' ∷ v) ≡ s ++ b' ' ∷ v
unfolding drop_cr nat_eq
drop_cr-IsTrimmed s [] h = drop_cr-append s b' ' []
drop_cr-IsTrimmed s (c ∷ v) h =
    drop_cr-append s b' ' (c ∷ v) ∙ ap (λ w. s ++ b' ' ∷ w) (drop_cr_solid (c ∷ v) h.right)

line_parts_one : (s : Text) → line_parts (s ∷ [] ∷ []) ≡ drop_cr s ∷ []
unfolding line_parts
line_parts_one [] = refl
line_parts_one (c ∷ s) = refl

-- A text of one line.
pub scan_lines_one :
    (s : Text) → Lacks b'\n' s → drop_cr s ≡ s → scan_lines (s ++ b'\n' ∷ []) ≡ s ∷ []
unfolding scan_lines split
scan_lines_one s h e =
    ap line_parts (split-append b'\n' s [] h) ∙ line_parts_one s ∙ ap (λ t. t ∷ []) e

pub drop_cr_tail :
    (s : Text) (c : ℕ) (v : Text) → drop_cr (c ∷ v) ≡ c ∷ v → drop_cr (s ++ c ∷ v) ≡ s ++ c ∷ v
drop_cr_tail s c v h = drop_cr-append s c v ∙ ap (λ w. s ++ w) h

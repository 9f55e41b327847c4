-- ===== src/Text/Trim.antt =====
-- What strings.TrimSpace leaves alone.
use hdfs_in_golang.Base.{nat_eq, ℕ, ◌≡◌, refl, ap, false, All, [], ◌∷◌, ◌++◌, arith}
use hdfs_in_golang.Text.{Text, is_space, trim_left, trim_right, trim_space, keep_right}

-- White space stands at neither end.
pub record IsTrimmed (s : Text) : Type 0 where
  pub left : trim_left s ≡ s
  pub right : trim_right s ≡ s

pub trim_space-IsTrimmed : (s : Text) → IsTrimmed s → trim_space s ≡ s
unfolding trim_space
trim_space-IsTrimmed s h = cc (h.right, ap trim_right h.left)

-- What is not all white space protects what stands before it.
pub trim_right-append :
    (s v : Text) (c : ℕ) (w : Text) → trim_right v ≡ c ∷ w → trim_right (s ++ v) ≡ s ++ c ∷ w
unfolding trim_right
trim_right-append [] v c w h = h
trim_right-append (d ∷ []) v c w h = ap (keep_right d) h
trim_right-append (d ∷ e ∷ s) v c w h = ap (keep_right d) (trim_right-append (e ∷ s) v c w h)

-- Trimming a text that begins with no white space.
pub trim_space-append :
    (k : ℕ) (s v : Text) (c : ℕ) (w : Text)
    → is_space k ≡ false
    → trim_right v ≡ c ∷ w
    → trim_space (k ∷ s ++ v) ≡ k ∷ s ++ c ∷ w
unfolding trim_space trim_left
trim_space-append k s v c w solid h = rw solid (trim_right-append (k ∷ s) v c w h)

-- One blank in front of a trimmed text goes.
pub trim_space_blank : (s : Text) → trim_space (32 ∷ s) ≡ trim_space s
unfolding trim_space trim_left is_space nat_eq
trim_space_blank s = refl

abbrev NotSpace : ℕ → Type 0
NotSpace c = is_space c ≡ false

-- A text with no white space in it is trimmed.
pub IsTrimmed-solid : (s : Text) → All NotSpace s → IsTrimmed s
unfolding trim_left trim_right
IsTrimmed-solid [] h = record { left = refl; right = refl }
IsTrimmed-solid (c ∷ s) h = record {
  left = ground arith;
  right = ground (arith, IsTrimmed-solid s h.1);
}

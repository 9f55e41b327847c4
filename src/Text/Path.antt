-- ===== src/Text/Path.antt =====
-- filepath.Base, filepath.Ext and strings.TrimSuffix, as they are on Unix.
use hdfs_in_golang.Base.{
  ℕ, ◌≤◌, ◌≡◌, ◌≢◌, refl, ap, [], ◌∷◌, ◌++◌, append-nil, arith, ◌==◌, contains, length, nat_eq,
  list_eq, Bool-cases, inl, inr, if◌then◌else◌,
}
use hdfs_in_golang.Text.{Text, codes}

-- The slashes at the end go.
abbrev keep_slash : ℕ → Text → Text
keep_slash c [] = if c == b'/' then [] else c ∷ []
keep_slash c (d ∷ s) = c ∷ d ∷ s

unfoldable pub strip_slashes : Text → Text
strip_slashes [] = []
strip_slashes (c ∷ s) = keep_slash c (strip_slashes s)

-- What stands behind the last slash.
unfoldable pub last_element : Text → Text
last_element [] = []
last_element (c ∷ s) =
    let rest = last_element s in if contains s b'/' then rest else if c == b'/' then s else c ∷ s

-- filepath.Base
abbrev base_of : Text → Text
base_of [] = codes "/"
base_of (c ∷ s) = last_element (c ∷ s)

unfoldable pub base : Text → Text
unfolding strip_slashes last_element
base [] = codes "."
base (c ∷ s) = base_of (strip_slashes (c ∷ s))

-- filepath.Ext: from the last dot behind the last slash on, or nothing.
unfoldable pub ext : Text → Text
ext [] = []
ext (c ∷ s) =
    let rest = ext s in
    if contains s b'/'
    then rest
    else if contains s b'.'
    then rest
    else if c == b'.'
    then c ∷ s
    else []

-- strings.TrimSuffix
unfoldable pub trim_suffix : Text → Text → Text
trim_suffix [] suffix = []
trim_suffix (c ∷ s) suffix =
    let rest = c ∷ trim_suffix s suffix in if (c ∷ s) == suffix then [] else rest

-- The name of the file at a path, without its extension.
unfoldable pub stem : Text → Text
stem path = trim_suffix (base path) (ext (base path))

length-ext : (s : Text) → length (ext s) ≤ length s
unfolding ext
length-ext [] = omega arith
length-ext (c ∷ s) = ground (arith, length-ext s)

trim_suffix-nil : (s : Text) → trim_suffix s [] ≡ s
unfolding trim_suffix list_eq
trim_suffix-nil [] = refl
trim_suffix-nil (c ∷ s) = ground (arith, trim_suffix-nil s)

longer_ne : (c : ℕ) (s t : Text) → length t ≤ length s → (c ∷ s) ≢ t
longer_ne c s t h e = omega (arith, ap length e)

-- A suffix that is no longer than the rest is looked for in the rest.
trim_suffix-cons :
    (c : ℕ) (s t : Text) → length t ≤ length s → trim_suffix (c ∷ s) t ≡ c ∷ trim_suffix s t
unfolding trim_suffix
trim_suffix-cons c s t h = ground (arith, longer_ne c s t h)

trim_suffix_self : (c : ℕ) (s : Text) → trim_suffix (c ∷ s) (c ∷ s) ≡ []
unfolding trim_suffix
trim_suffix_self c s = ground arith

trim_suffix-ext : (s : Text) → trim_suffix s (ext s) ++ ext s ≡ s
unfolding ext
trim_suffix-ext [] = unfold trim_suffix in refl
trim_suffix-ext (c ∷ s) =
    let later : trim_suffix (c ∷ s) (ext s) ++ ext s ≡ c ∷ s =
      rw (trim_suffix-cons c s (ext s) (length-ext s)) (ap (◌∷◌ c) (trim_suffix-ext s)) in
    elim (Bool-cases (contains s b'/')) [
      | inl slash ↦ rw slash later
      | inr no_slash ↦ elim (Bool-cases (contains s b'.')) [
        | inl dot ↦ rw (no_slash, dot) later
        | inr no_dot ↦ elim (Bool-cases (c == b'.')) [
          | inl here ↦ rw (no_slash, no_dot, here) (rw (trim_suffix_self c s))
          | inr none_left ↦
              rw (no_slash, no_dot, none_left) (rw (trim_suffix-nil (c ∷ s)) (append-nil (c ∷ s)))
        ]
      ]
    ]

-- The parts of a file's name.
pub stem-append-ext : (path : Text) → stem path ++ ext (base path) ≡ base path
unfolding stem
stem-append-ext path = trim_suffix-ext (base path)

-- ===== src/Client/Receiving/Names.antt =====
-- The names of chunks differ from one another and from the name of the file.
use hdfs_in_golang.Base.{
  ℕ, ◌≤◌, ◌≡◌, ◌≢◌, sym, ap, ◌∙◌, [], ◌∷◌, ◌++◌, arith, length, length-append, nat_eq, list_eq,
}
use hdfs_in_golang.Text.{Text, codes}
use hdfs_in_golang.Text.Decimal.{format_uint, parse_uint, parse_uint-format_uint, max_uint64}
use hdfs_in_golang.Client.Sending.{chunk_name}

append_cancel : (s t u : Text) → s ++ t ≡ s ++ u → t ≡ u
append_cancel [] t u e = e
append_cancel (c ∷ s) t u e = append_cancel s t u (cc)

format_uint_inj :
    (i j : ℕ) → i ≤ max_uint64 → j ≤ max_uint64 → format_uint i ≡ format_uint j → i ≡ j
format_uint_inj i j hi hj e =
    sym (parse_uint-format_uint i hi) ∙ ap parse_uint e ∙ parse_uint-format_uint j hj

pub chunk_name-ne :
    (name : Text) (i j : ℕ)
    → i ≤ max_uint64
    → j ≤ max_uint64
    → i ≢ j
    → chunk_name name i ≢ chunk_name name j
unfolding chunk_name
chunk_name-ne name i j hi hj ne e = ne (
    format_uint_inj i j hi hj
      (append_cancel (codes "_chunk_") (format_uint i) (format_uint j) (append_cancel name _ _ e)))

pub chunk_name-ne_self : (name : Text) (i : ℕ) → chunk_name name i ≢ name
unfolding chunk_name
chunk_name-ne_self name i e =
    omega (arith, ap length e, length-append name (codes "_chunk_" ++ format_uint i))

-- ===== src/Client/Receiving/Numbered.antt =====
-- Chunks with their numbers, in the order of the file or in another.
use mathlib.Core.List.{Permᴰ, Memᴰ}
use hdfs_in_golang.Base.{
  ℕ, suc, ◌+◌, ◌≤◌, ◌<◌, ◌≡◌, refl, sym, ap, ◌∙◌, List, [], ◌∷◌, arith, All, subst, concat, length,
  length-append,
}
use hdfs_in_golang.Transport.{Bytes}

-- The parts of a file with their numbers, from `i` on.
abbrev pub numbered : ℕ → List Bytes → List (ℕ × Bytes)
numbered i [] = []
numbered i (p ∷ parts) = (i, p) ∷ numbered (i + 1) parts

-- How many bytes these are.
abbrev pub total_bytes : List (ℕ × Bytes) → ℕ
total_bytes [] = 0
total_bytes ((i, p) ∷ chunks) = length p + total_bytes chunks

-- No number has two chunks.
abbrev pub Agrees : List (ℕ × Bytes) → Type 0
Agrees chunks = (i : ℕ) (p q : Bytes) → Memᴰ (i, p) chunks → Memᴰ (i, q) chunks → p ≡ q

pub mem-Perm {ℓ} : {A : Type ℓ} {a : A} {xs ys : List A} → Permᴰ xs ys → Memᴰ a xs → Memᴰ a ys
mem-Perm Permᴰ.nil m = elim m [ ]
mem-Perm (Permᴰ.cons e d) (Memᴰ.head h) = Memᴰ.head (h ∙ e)
mem-Perm (Permᴰ.cons e d) (Memᴰ.tail m) = Memᴰ.tail (mem-Perm d m)
mem-Perm (Permᴰ.swap e₁ e₂) (Memᴰ.head h) = Memᴰ.tail (Memᴰ.head (h ∙ e₁))
mem-Perm (Permᴰ.swap e₁ e₂) (Memᴰ.tail (Memᴰ.head h)) = Memᴰ.head (h ∙ e₂)
mem-Perm (Permᴰ.swap e₁ e₂) (Memᴰ.tail (Memᴰ.tail m)) = Memᴰ.tail (Memᴰ.tail m)
mem-Perm (Permᴰ.trans d₁ d₂) m = mem-Perm d₂ (mem-Perm d₁ m)

pub length-Perm {ℓ} : {A : Type ℓ} {xs ys : List A} → Permᴰ xs ys → length xs ≡ length ys
length-Perm Permᴰ.nil = refl
length-Perm (Permᴰ.cons e d) = ap suc (length-Perm d)
length-Perm (Permᴰ.swap e₁ e₂) = refl
length-Perm (Permᴰ.trans d₁ d₂) = length-Perm d₁ ∙ length-Perm d₂

size_of : ℕ × Bytes → ℕ
size_of c = length c.1

pub total_bytes-Perm : {xs ys : List (ℕ × Bytes)} → Permᴰ xs ys → total_bytes xs ≡ total_bytes ys
unfolding size_of
total_bytes-Perm Permᴰ.nil = refl
total_bytes-Perm (Permᴰ.cons e d) = omega (arith, ap size_of e, total_bytes-Perm d)
total_bytes-Perm (Permᴰ.swap e₁ e₂) = omega (arith, ap size_of e₁, ap size_of e₂)
total_bytes-Perm (Permᴰ.trans d₁ d₂) = total_bytes-Perm d₁ ∙ total_bytes-Perm d₂

pub length-numbered : (i : ℕ) (parts : List Bytes) → length (numbered i parts) ≡ length parts
length-numbered i [] = refl
length-numbered i (p ∷ parts) = ap suc (length-numbered (i + 1) parts)

pub total_bytes-numbered :
    (i : ℕ) (parts : List Bytes) → total_bytes (numbered i parts) ≡ length (concat parts)
total_bytes-numbered i [] = refl
total_bytes-numbered i (p ∷ parts) =
    omega (arith, total_bytes-numbered (i + 1) parts, length-append p (concat parts))

pub record Within (i low high : ℕ) : Type 0 where
  pub above : low ≤ i
  pub below : i < high

pub numbered-Within :
    (i k : ℕ) (p : Bytes) (parts : List Bytes)
    → Memᴰ (i, p) (numbered k parts)
    → Within i k (k + length parts)
numbered-Within i k p [] m = elim m [ ]
numbered-Within i k p (q ∷ parts) (Memᴰ.head e) = record {
  above = omega (arith, ap (λ c. c.0) e);
  below = omega (arith, ap (λ c. c.0) e);
}
numbered-Within i k p (q ∷ parts) (Memᴰ.tail m) =
    let w = numbered-Within i (k + 1) p parts m in
    record { above = omega (arith, w.above); below = omega (arith, w.below) }

pub numbered-Agrees : (k : ℕ) (parts : List Bytes) → Agrees (numbered k parts)
numbered-Agrees k [] i p q m m' = elim m [ ]
numbered-Agrees k (r ∷ parts) i p q (Memᴰ.head e) (Memᴰ.head e') = ap (λ c. c.1) (e ∙ sym e')
numbered-Agrees k (r ∷ parts) i p q (Memᴰ.head e) (Memᴰ.tail m) =
    absurd (omega (arith, ap (λ c. c.0) e, (numbered-Within i (k + 1) q parts m).above))
numbered-Agrees k (r ∷ parts) i p q (Memᴰ.tail m) (Memᴰ.head e) =
    absurd (omega (arith, ap (λ c. c.0) e, (numbered-Within i (k + 1) p parts m).above))
numbered-Agrees k (r ∷ parts) i p q (Memᴰ.tail m) (Memᴰ.tail m') =
    numbered-Agrees (k + 1) parts i p q m m'

pub All-of_mem {ℓ κ} :
    {A : Type ℓ} (P : A → Type κ) (xs : List A) → ((a : A) → Memᴰ a xs → P a) → All P xs
All-of_mem P [] h = tt
All-of_mem P (x ∷ xs) h = (h x (Memᴰ.head refl), All-of_mem P xs (λ a m. h a (Memᴰ.tail m)))

pub numbered-All {κ} :
    (P : Bytes → Type κ) (i k : ℕ) (p : Bytes) (parts : List Bytes)
    → All P parts
    → Memᴰ (i, p) (numbered k parts)
    → P p
numbered-All P i k p [] h m = elim m [ ]
numbered-All P i k p (q ∷ parts) (hq, h) (Memᴰ.head e) = subst P (sym (ap (λ c. c.1) e)) hq
numbered-All P i k p (q ∷ parts) (hq, h) (Memᴰ.tail m) = numbered-All P i (k + 1) p parts h m

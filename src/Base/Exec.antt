-- ===== src/Base/Exec.antt =====
-- Handlers that change a state and may end the process. The state comes back beside the failure
-- too, since what was written to disk stays written.
use hdfs_in_golang.Base.{Bool, Option, none, some, true, false}

-- `fatal` is `log.Fatalln`, `panicked` a run-time panic (either ends the process), and `stalled`
-- a loop that goes on past the rounds that it was given.
pub data Failure : Type 0 where
  fatal panicked stalled : Failure

pub data Outcome {ℓ} (A : Type ℓ) : Type ℓ where
  ok : A → Outcome A
  err : Failure → Outcome A

abbrev pub Exec {ℓ} : Type ℓ → Type ℓ → Type ℓ
Exec S A = S → Outcome A × S

module _ {ℓ} {S A : Type ℓ} where
  abbrev pub pure : A → Exec S A
  pure a s = (ok a, s)

  abbrev pub fail : Failure → Exec S A
  fail e s = (err e, s)

  abbrev pub gets : (S → A) → Exec S A
  gets f s = (ok (f s), s)

  -- A result that is missing is a panic: an index out of range, or a nil dereference.
  abbrev pub or_panic : Option A → Exec S A
  or_panic none = fail panicked
  or_panic (some a) = pure a

module _ {ℓ} {S A B : Type ℓ} where
  abbrev pub continue : Outcome A → (A → Exec S B) → Exec S B
  continue (ok a) f s = f a s
  continue (err e) f s = (err e, s)

  infixl 10 ◌>>=◌ ◌>>◌
  abbrev pub ◌>>=◌ : Exec S A → (A → Exec S B) → Exec S B
  ◌>>=◌ m f s = continue (m s).0 f (m s).1

  abbrev pub ◌>>◌ : Exec S A → Exec S B → Exec S B
  m >> n = m >>= λ _. n

abbrev pub modify : {S : Type 0} → (S → S) → Exec S Unit
modify f s = (ok tt, f s)

-- `messages.HandleError`: a call that failed ends the process.
abbrev pub handle_error : {S : Type 0} → Bool → Exec S Unit
handle_error true = pure tt
handle_error false = fail fatal

-- ===== src/Controller/Consistency.antt =====
-- Actions that keep the controller consistent, and rules for them.
pub mod Files
pub mod Requests
use hdfs_in_golang.Base.{
  ℕ, ◌≡◌, refl, sym, subst, ap, ◌∙◌, Bool, true, false, Option, none, some, List, [], ◌∷◌, arith,
  ◌==◌, nat_eq, list_eq, Bool-cases, inl, inr, if◌then◌else◌,
}
use hdfs_in_golang.Base.Dict
use hdfs_in_golang.Base.Dict.{Dict}
use hdfs_in_golang.Base.Exec.{
  Failure, Outcome, ok, err, fatal, pure, fail, gets, modify, continue, handle_error, or_panic,
  ◌>>=◌, ◌>>◌,
}
use hdfs_in_golang.Text.{Text}
use hdfs_in_golang.Bloom.Laws.{Represents}
use hdfs_in_golang.Controller.{
  Controller, ChunkMap, StorageNodeInfo, Env, Action, bf_get, bf_put, lock_active_nodes,
  rlock_active_nodes,
}
use hdfs_in_golang.Controller.Invariant.{
  IsIndexed, IsMirrored, IsConsistent, bf_put-IsIndexed, bf_get-IsIndexed, insert-IsIndexed,
  erase-IsIndexed, insert-IsMirrored, erase-IsMirrored,
}
use hdfs_in_golang.Controller.Quiet.{OnlySends, Quiet}

module _ (env : Env) where
  -- The state that an action leaves is consistent, unless the action failed.
  abbrev pub Survives : {A : Type 0} → Outcome A → Controller → Type 0
  Survives (ok a) c = IsConsistent env c
  Survives (err e) c = Unit

  pub record Keeps {A : Type 0} (m : Action A) : Type 0 where
    pub at : (c : Controller) → IsConsistent env c → Survives (m c).0 (m c).1

  continue-Survives :
      {A B : Type 0} (r : Outcome A) (f : A → Action B) (c : Controller)
      → Survives r c
      → ((a : A) → Keeps (f a))
      → Survives (continue r f c).0 (continue r f c).1
  continue-Survives (ok a) f c s k = (k a).at c s
  continue-Survives (err e) f c s k = tt

  pub Keeps-bind :
      {A B : Type 0} (m : Action A) (f : A → Action B)
      → Keeps m
      → ((a : A) → Keeps (f a))
      → Keeps (m >>= f)
  Keeps-bind m f km kf = record { at = λ c h. continue-Survives (m c).0 f (m c).1 (km.at c h) kf }

  pub of_consistent :
      {A : Type 0} (r : Outcome A) (c : Controller) → IsConsistent env c → Survives r c
  of_consistent (ok a) c h = h
  of_consistent (err e) c h = tt

  pub send-IsConsistent :
      (c c' : Controller) → OnlySends c c' → IsConsistent env c → IsConsistent env c'
  send-IsConsistent c c' p h = subst (IsConsistent env) (sym p) (record {
    indexed = record {
      inserted = h.indexed.inserted;
      filter = h.indexed.filter;
      known = h.indexed.known;
    };
    mirrored = record { mirror = h.mirrored.mirror; nodup = h.mirrored.nodup };
  })

  pub Keeps-Quiet : {A : Type 0} (m : Action A) → Quiet m → Keeps m
  Keeps-Quiet m q = record {
    at = λ c h. of_consistent (m c).0 (m c).1 (send-IsConsistent c (m c).1 (q.at c) h);
  }

  pub Keeps-pure : {A : Type 0} (a : A) → Keeps (pure a)
  Keeps-pure a = record { at = λ c h. h }

  pub Keeps-fail : {A : Type 0} (e : Failure) → Keeps {A = A} (fail e)
  Keeps-fail e = record { at = λ c h. tt }

  pub Keeps-gets : {A : Type 0} (f : Controller → A) → Keeps (gets f)
  Keeps-gets f = record { at = λ c h. h }

  pub Keeps-or_panic : {A : Type 0} (o : Option A) → Keeps (or_panic o)
  Keeps-or_panic none = Keeps-fail _
  Keeps-or_panic (some a) = Keeps-pure a

  pub Keeps-handle_error : (b : Bool) → Keeps (handle_error b)
  Keeps-handle_error true = Keeps-pure tt
  Keeps-handle_error false = Keeps-fail fatal

  pub Keeps-lock : Keeps lock_active_nodes
  unfolding lock_active_nodes
  Keeps-lock = record {
    at = λ c h. elim (Bool-cases (c.active_nodes_readers == 0)) [
      | inl free ↦ rw free h
      | inr taken ↦ rw taken tt
    ];
  }

  pub Keeps-rlock : Keeps rlock_active_nodes
  unfolding rlock_active_nodes
  Keeps-rlock = record {
    at = λ c h. elim (Bool-cases (c.active_nodes_writers == 0)) [
      | inl free ↦ rw free h
      | inr taken ↦ rw taken tt
    ];
  }

  -- A change of what consistency does not speak of.
  same-IsConsistent :
      (c c' : Controller)
      → c'.bf ≡ c.bf
      → c'.file_map ≡ c.file_map
      → c'.file_metadata_dir ≡ c.file_metadata_dir
      → IsConsistent env c
      → IsConsistent env c'
  same-IsConsistent c c' eb em ed h = record {
    indexed = record {
      inserted = h.indexed.inserted;
      filter = rw eb h.indexed.filter;
      known = rw em h.indexed.known;
    };
    mirrored = record { mirror = rw (em, ed) h.mirrored.mirror; nodup = rw em h.mirrored.nodup };
  }

  pub Keeps-modify :
      (f : Controller → Controller)
      → ((c : Controller)
          → ((f c).bf ≡ c.bf)
            × ((f c).file_map ≡ c.file_map)
            × ((f c).file_metadata_dir ≡ c.file_metadata_dir))
      → Keeps (modify f)
  Keeps-modify f same = record {
    at = λ c h. let (eb, em, ed) = same c in same-IsConsistent c (f c) eb em ed h;
  }

  pub Keeps-if :
      {A : Type 0} (b : Bool) (m n : Action A) → Keeps m → Keeps n → Keeps (if b then m else n)
  Keeps-if true m n km kn = km
  Keeps-if false m n km kn = kn

  pub Keeps-chunk_metadata_dir :
      (g : Controller → Dict Text Text)
      → Keeps (modify (λ c. record c { chunk_metadata_dir = g c }))
  Keeps-chunk_metadata_dir g = Keeps-modify _ (λ c. (refl, refl, refl))

  pub Keeps-file_chunk_map :
      (g : Controller → Dict Text ChunkMap)
      → Keeps (modify (λ c. record c { file_chunk_map = g c }))
  Keeps-file_chunk_map g = Keeps-modify _ (λ c. (refl, refl, refl))

  pub Keeps-active_nodes_map :
      (g : Controller → Dict Text StorageNodeInfo)
      → Keeps (modify (λ c. record c { active_nodes_map = g c }))
  Keeps-active_nodes_map g = Keeps-modify _ (λ c. (refl, refl, refl))

  pub Keeps-readers :
      (g : Controller → ℕ) → Keeps (modify (λ c. record c { active_nodes_readers = g c }))
  Keeps-readers g = Keeps-modify _ (λ c. (refl, refl, refl))

pub ruleset keeps_rules = (
  Keeps-bind, Keeps-pure, Keeps-fail, Keeps-gets, Keeps-or_panic, Keeps-handle_error, Keeps-lock,
  Keeps-if, Keeps-chunk_metadata_dir, Keeps-file_chunk_map, Keeps-active_nodes_map, Keeps-readers,
)

-- ===== src/Controller/Concurrent/Twice.antt =====
-- Two connections that write a file of the same name at the same time.
use hdfs_in_golang.Base.{ℕ, ◌≡◌, refl, ap, ◌∙◌, Bool, true, false, ◌&&◌, List, nat_eq, list_eq}
use hdfs_in_golang.Base.Dict
use hdfs_in_golang.Base.Exec.{ok}
use hdfs_in_golang.Proto.{FileMetaData, write}
use hdfs_in_golang.Controller.{Controller, Env}
use hdfs_in_golang.Controller.Metadata.{info_of}
use hdfs_in_golang.Controller.Invariant.{IsIndexed, bf_get-IsIndexed}
use hdfs_in_golang.Controller.Concurrent.{
  Pc, idle, arrived, looked, tested, entered, choose, move, System, update, accept, pick, Reach,
  begin, later,
}

-- The table with the entry of a message.
abbrev pub with_entry : FileMetaData → Controller → Controller
with_entry msg c = record c { file_map = Dict.insert msg.file_name (info_of msg) c.file_map }

module _ (env : Env) where
  system : Controller → (ℕ → Pc) → System
  system c pcs = record { controller = c; at = pcs }

  look :
      (c : Controller) (draws : List ℕ) (msg : FileMetaData)
      → IsIndexed env c
      → (found : Bool) × (move env (arrived draws msg) c ≡ (ok (looked draws msg found), c))
  unfolding move
  look c draws msg h =
      let (found, e, known) = bf_get-IsIndexed env c msg.file_name h in (found, rw e)

  nothing_found : (found b : Bool) → b ≡ false → (found && b) ≡ false
  nothing_found true b e = e
  nothing_found false b e = refl

  test :
      (c : Controller) (draws : List ℕ) (msg : FileMetaData) (found : Bool)
      → Dict.has msg.file_name c.file_map ≡ false
      → move env (looked draws msg found) c ≡ (ok (tested draws msg false), c)
  unfolding move
  test c draws msg found absent = rw (nothing_found found _ absent)

  enter :
      (c : Controller) (draws : List ℕ) (msg : FileMetaData)
      → msg.request_type ≡ write
      → move env (tested draws msg false) c ≡ (ok (entered draws msg), with_entry msg c)
  unfolding move choose
  enter c draws msg e = ap (λ t. choose env draws msg t false c) e

  -- A step of a goroutine, by where it is.
  pick_at :
      {c₀ : Controller} (c c' : Controller) (pcs : ℕ → Pc) (i : ℕ) (p p' : Pc)
      → Reach env c₀ (system c pcs)
      → pcs i ≡ p
      → move env p c ≡ (ok p', c')
      → Reach env c₀ (system c' (update pcs i p'))
  unfolding system
  pick_at c c' pcs i p p' run here e = later run (pick i p' c' (ap (λ q. move env q c) here ∙ e))

  -- Two connections that bring the same new name can both be accepted. From a controller whose
  -- filter knows every file of the table and for whose lock no writer waits, there is an interleaving in which both writes pass the
  -- tests before either has entered the name, and both have then entered it, the second over the
  -- first.
  pub Reach-entered :
      (c : Controller) (draws draws' : List ℕ) (msg msg' : FileMetaData)
      → IsIndexed env c
      → c.active_nodes_writers ≡ 0
      → msg.request_type ≡ write
      → msg'.request_type ≡ write
      → msg'.file_name ≡ msg.file_name
      → Dict.has msg.file_name c.file_map ≡ false
      → (s : System) × Reach env c s
        × (s.at 0 ≡ entered draws msg)
        × (s.at 1 ≡ entered draws' msg')
        × (s.controller ≡ with_entry msg' (with_entry msg c))
  unfolding system nat_eq
  Reach-entered c draws draws' msg msg' h unlocked writes writes' name absent =
      let a₁ = update (λ i. idle) 0 (arrived draws msg) in
      let a₂ = update a₁ 1 (arrived draws' msg') in
      let run₂ : Reach env c (system c a₂) =
        later (later begin (accept 0 draws msg refl unlocked))
          (accept 1 draws' msg' refl unlocked) in
      let (f, e) = look c draws msg h in
      let (f', e') = look c draws' msg' h in
      let a₃ = update a₂ 0 (looked draws msg f) in
      let a₄ = update a₃ 1 (looked draws' msg' f') in
      let run₄ = pick_at c c a₃ 1 _ _ (pick_at c c a₂ 0 _ _ run₂ refl e) refl e' in
      let absent' = ap (λ n. Dict.has n c.file_map) name ∙ absent in
      let a₅ = update a₄ 0 (tested draws msg false) in
      let a₆ = update a₅ 1 (tested draws' msg' false) in
      let run₆ =
        pick_at c c a₅ 1 _ _ (pick_at c c a₄ 0 _ _ run₄ refl (test c draws msg f absent)) refl
          (test c draws' msg' f' absent') in
      let c₇ = with_entry msg c in
      let a₇ = update a₆ 0 (entered draws msg) in
      let run₈ =
        pick_at c₇ (with_entry msg' c₇) a₇ 1 _ _
          (pick_at c c₇ a₆ 0 _ _ run₆ refl (enter c draws msg writes)) refl
          (enter c₇ draws' msg' writes') in
      (system (with_entry msg' c₇) (update a₇ 1 (entered draws' msg')), run₈, refl, refl, refl)

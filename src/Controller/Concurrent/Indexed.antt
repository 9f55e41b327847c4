-- ===== src/Controller/Concurrent/Indexed.antt =====
-- The Bloom filter and the table of files, whatever the goroutines do in between.
use hdfs_in_golang.Base.{
  ℕ, ◌≡◌, sym, subst, ap, ◌∙◌, ◌⊎◌, inl, inr, true, false, List, nat_eq, list_eq, ◌==◌, arith,
  Bool-cases,
}
use hdfs_in_golang.Base.Dict
use hdfs_in_golang.Base.Dict.{Dict}
use hdfs_in_golang.Base.Exec.{Outcome, ok, err, stalled}
use hdfs_in_golang.Text.{Text}
use hdfs_in_golang.Bloom.Laws.{Represents, within}
use hdfs_in_golang.Proto.{FileMetaData, StorageNodesMetadata}
use hdfs_in_golang.Controller.Heartbeat.{monitor_nodes}
use hdfs_in_golang.Controller.Handler.{handle_storage_nodes_metadata}
use hdfs_in_golang.Controller.{Controller, StorageNodeInfo, Env, bf_hashes, bf_bits}
use hdfs_in_golang.Controller.Invariant.{spots, IsIndexed}
use hdfs_in_golang.Controller.Concurrent.Spared.{
  SameFiles, Spares-monitor_nodes, Spares-handle_storage_nodes_metadata,
}
use hdfs_in_golang.Controller.Concurrent.Effects.{Noting, Effect, Good, move-Good}
use hdfs_in_golang.Controller.Concurrent.{
  Pc, idle, arrived, System, update, Step, accept, pick, report, tick, wait_report, wait_tick,
  Reach, begin, later,
}

module _ (env : Env) where
  -- The filter has every name of the table, but those that a goroutine is noting.
  record NearlyIndexed (s : System) : Type 0 where
    inserted : List ℕ
    filter : Represents bf_hashes bf_bits inserted s.controller.bf
    known :
        (name : Text)
        → Dict.has name s.controller.file_map ≡ true
        → (within (spots env name) inserted ≡ true) ⊎ ((i : ℕ) × Noting name (s.at i))

  update_self : (pcs : ℕ → Pc) (i : ℕ) (p : Pc) → update pcs i p i ≡ p
  update_self pcs i p = ground arith

  update_other : (pcs : ℕ → Pc) (i j : ℕ) (p : Pc) → (j == i) ≡ false → update pcs i p j ≡ pcs j
  update_other pcs i j p others = rw others

  accept-NearlyIndexed :
      (s : System) (i : ℕ) (draws : List ℕ) (msg : FileMetaData)
      → s.at i ≡ idle
      → NearlyIndexed s
      → NearlyIndexed (record s { at = update s.at i (arrived draws msg) })
  accept-NearlyIndexed s i draws msg free v = record {
    inserted = v.inserted;
    filter = v.filter;
    known = λ name h. elim (v.known name h) [
      | inl found ↦ inl found
      | inr (j, noting) ↦ elim (Bool-cases (j == i)) [
        | inl same ↦
            let e : j ≡ i = ground arith in absurd (subst (Noting name) (ap s.at e ∙ free) noting)
        | inr others ↦
            inr (
              j,
              subst (Noting name) (sym (update_other s.at i j (arrived draws msg) others)) noting,
            )
      ]
    ];
  }

  pick-NearlyIndexed :
      (s : System) (i : ℕ) (p : Pc) (c : Controller) (v : NearlyIndexed s)
      → Effect env v.inserted s.controller (s.at i) p c
      → NearlyIndexed (record { controller = c; at = update s.at i p })
  pick-NearlyIndexed s i p c v f =
      let here : (name : Text) → Noting name p → Noting name (update s.at i p i) =
        λ name noting. subst (Noting name) (sym (update_self s.at i p)) noting in
      record {
        inserted = f.inserted;
        filter = f.filter;
        known = λ name h. elim (f.fresh name h) [
          | inl noting ↦ inr (i, here name noting)
          | inr old ↦ elim (v.known name old) [
            | inl found ↦ inl (f.kept name found)
            | inr (j, noting) ↦ elim (Bool-cases (j == i)) [
              | inl same ↦
                  let e : j ≡ i = ground arith in
                  elim (f.handed name (subst (Noting name) (ap s.at e) noting)) [
                    | inl still ↦ inr (i, here name still)
                    | inr found ↦ inl found
                  ]
              | inr others ↦
                  inr (j, subst (Noting name) (sym (update_other s.at i j p others)) noting)
            ]
          ]
        ];
      }

  same-NearlyIndexed :
      (s : System) (c : Controller)
      → SameFiles s.controller c
      → NearlyIndexed s
      → NearlyIndexed (record s { controller = c })
  same-NearlyIndexed s c e v = record {
    inserted = v.inserted;
    filter = rw e.filter_same v.filter;
    known = λ name h. v.known name (sym (ap (Dict.has name) e.table_same) ∙ h);
  }

  report-NearlyIndexed :
      (s : System) (now : ℕ) (msg : StorageNodesMetadata) (c : Controller) (r : Outcome Unit)
      → NearlyIndexed s
      → handle_storage_nodes_metadata env now msg msg.request_type s.controller ≡ (r, c)
      → NearlyIndexed (record s { controller = c })
  report-NearlyIndexed s now msg c r v e =
      same-NearlyIndexed s c
        (subst (SameFiles s.controller) (ap (λ (r : Outcome (Unit {0}) × Controller). r.1) e)
          ((Spares-handle_storage_nodes_metadata env now msg msg.request_type).at s.controller))
        v

  tick-NearlyIndexed :
      (s : System) (now : ℕ) (c : Controller) (r : Outcome (Dict Text StorageNodeInfo))
      → NearlyIndexed s
      → monitor_nodes now s.controller ≡ (r, c)
      → NearlyIndexed (record s { controller = c })
  tick-NearlyIndexed s now c r v e =
      same-NearlyIndexed s c
        (subst (SameFiles s.controller)
          (ap (λ (r : Outcome (Dict Text StorageNodeInfo) × Controller). r.1) e)
          ((Spares-monitor_nodes now).at s.controller))
        v

  Step-NearlyIndexed : {s t : System} → Step env s t → NearlyIndexed s → NearlyIndexed t
  Step-NearlyIndexed {s} (accept i draws msg free unlocked) v =
      accept-NearlyIndexed s i draws msg free v
  Step-NearlyIndexed {s} (pick i p c e) v = pick-NearlyIndexed s i p c v (
      subst (λ (r : Outcome Pc × Controller). Good env v.inserted s.controller (s.at i) r.0 r.1) e
        (move-Good env v.inserted s.controller v.filter (s.at i)))
  Step-NearlyIndexed {s} (report now msg c free e) v = report-NearlyIndexed s now msg c (ok tt) v e
  Step-NearlyIndexed {s} (tick now dead c e) v = tick-NearlyIndexed s now c (ok dead) v e
  Step-NearlyIndexed {s} (wait_report now msg c free e) v =
      report-NearlyIndexed s now msg c (err stalled) v e
  Step-NearlyIndexed {s} (wait_tick now c e) v = tick-NearlyIndexed s now c (err stalled) v e

  Reach-NearlyIndexed :
      (c : Controller) {s : System} → IsIndexed env c → Reach env c s → NearlyIndexed s
  Reach-NearlyIndexed c h begin = record {
    inserted = h.inserted;
    filter = h.filter;
    known = λ name there. inl (h.known name there);
  }
  Reach-NearlyIndexed c h (later run step) = Step-NearlyIndexed step (Reach-NearlyIndexed c h run)

  -- However the goroutines of the connections are interleaved, with heartbeats, requests for the
  -- nodes and rounds of the monitor between their steps, the Bloom filter knows every file of the
  -- table again as soon as no connection is in the middle of a request, if it did at the start:
  -- no file is hidden by the filter for good.
  pub Reach-IsIndexed :
      (c : Controller) (s : System)
      → IsIndexed env c
      → Reach env c s
      → ((i : ℕ) → s.at i ≡ idle)
      → IsIndexed env s.controller
  Reach-IsIndexed c s h run all_idle =
      let v = Reach-NearlyIndexed c h run in
      record {
        inserted = v.inserted;
        filter = v.filter;
        known = λ name there. elim (v.known name there) [
          | inl found ↦ found
          | inr (i, noting) ↦ absurd (subst (Noting name) (all_idle i) noting)
        ];
      }

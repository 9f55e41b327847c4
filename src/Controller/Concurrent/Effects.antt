-- ===== src/Controller/Concurrent/Effects.antt =====
-- What one step of a goroutine does to the Bloom filter and the table of files.
use hdfs_in_golang.Base.{
  ℕ, ◌≡◌, refl, sym, subst, ap, ◌∙◌, ◌⊎◌, inl, inr, Bool, true, false, List, ◌++◌, nat_eq, list_eq,
  ◌==◌, arith, Bool-cases,
}
use hdfs_in_golang.Base.Dict
use hdfs_in_golang.Base.Exec.{Outcome, ok, err, continue, pure, ◌>>=◌}
use hdfs_in_golang.Text.{Text}
use hdfs_in_golang.Bloom.Laws.{Represents, within, within-append, within-positions}
use hdfs_in_golang.Proto.{FileMetaData, RequestType, write, delete, read, replica, folder_info}
use hdfs_in_golang.Controller.{
  file_entry, chunk_entry, Controller, Env, Action, bf_hashes, bf_bits, bf_get,
}
use hdfs_in_golang.Controller.Metadata.{info_of, remove_chunk_metadata, remove_file_metadata}
use hdfs_in_golang.Controller.Invariant.{spots, bf_put-IsIndexed}
use hdfs_in_golang.Controller.Quiet.{
  Quiet, Quiet-send_messages, Quiet-delete_from_storage_nodes, Quiet-get_file_metadata,
  Quiet-send_storage_nodes, Quiet-get_storage_nodes_for_client, Quiet-send_file_metadata,
}
use hdfs_in_golang.Controller.Concurrent.{
  Pc, idle, arrived, looked, tested, entered, filed, noted, dismissed, unreported, forgotten,
  described, located, choose, move,
}

-- A goroutine that entered the name into the table, and will put it into the filter.
abbrev pub Noting : Text → Pc → Type 0
Noting name (entered draws msg) = msg.file_name ≡ name
Noting name (filed draws msg) = msg.file_name ≡ name
Noting name _ = ⊥

module _ (env : Env) where
  -- What a step does, to a filter that stands for some positions: it still has all of them, a
  -- name of the table is new only if the goroutine is noting it, and it is in the filter when the
  -- goroutine has noted it.
  pub record Effect (ins : List ℕ) (c : Controller) (p : Pc) (p' : Pc) (c' : Controller)
      : Type 0 where
    pub inserted : List ℕ
    pub filter : Represents bf_hashes bf_bits inserted c'.bf
    pub fresh :
        (name : Text)
        → Dict.has name c'.file_map ≡ true
        → Noting name p' ⊎ (Dict.has name c.file_map ≡ true)
    pub kept :
        (name : Text) → within (spots env name) ins ≡ true → within (spots env name) inserted ≡ true
    pub handed :
        (name : Text) → Noting name p → Noting name p' ⊎ (within (spots env name) inserted ≡ true)

  abbrev pub Good : List ℕ → Controller → Pc → Outcome Pc → Controller → Type 0
  Good ins c p (ok p') c' = Effect ins c p p' c'
  Good ins c p (err e) c' = Unit

  module _ (ins : List ℕ) (c : Controller) (r : Represents bf_hashes bf_bits ins c.bf) where
    pub quiet-Effect :
        (p p' : Pc) (c' : Controller)
        → c'.bf ≡ c.bf
        → c'.file_map ≡ c.file_map
        → ((name : Text) → Noting name p → Noting name p')
        → Effect ins c p p' c'
    quiet-Effect p p' c' same_bf same_map still = record {
      inserted = ins;
      filter = rw same_bf r;
      fresh = λ name h. inr (sym (ap (Dict.has name) same_map) ∙ h);
      kept = λ name h. h;
      handed = λ name h. inl (still name h);
    }

    quiet_outcome :
        {A : Type 0} (p : Pc) (p' : A → Pc) (o : Outcome A) (s : Controller)
        → s.bf ≡ c.bf
        → s.file_map ≡ c.file_map
        → ((name : Text) (a : A) → Noting name p → Noting name (p' a))
        → Good ins c p (continue o (λ a. pure (p' a)) s).0 (continue o (λ a. pure (p' a)) s).1
    quiet_outcome p p' (ok a) s same_bf same_map still =
        quiet-Effect p (p' a) s same_bf same_map (λ name h. still name a h)
    quiet_outcome p p' (err e) s same_bf same_map still = tt

    -- An action that only sends, or fails.
    Good-Quiet :
        {A : Type 0} (p : Pc) (p' : A → Pc) (m : Action A)
        → Quiet m
        → ((name : Text) (a : A) → Noting name p → Noting name (p' a))
        → Good ins c p ((m >>= λ a. pure (p' a)) c).0 ((m >>= λ a. pure (p' a)) c).1
    Good-Quiet p p' m q still =
        quiet_outcome p p' (m c).0 (m c).1 (ap (λ (d : Controller). d.bf) (q.at c))
          (ap (λ (d : Controller). d.file_map) (q.at c)) still

    Quiet-bf_get : (name : Text) → Quiet (bf_get env name)
    unfolding bf_get
    Quiet-bf_get name = record { at = λ d. ground arith }

    enter-Effect :
        (draws : List ℕ) (msg : FileMetaData) (p : Pc)
        → ((name : Text) → Noting name p → ⊥)
        → Effect ins c p
            (entered draws msg)
            (record c { file_map = Dict.insert msg.file_name (info_of msg) c.file_map })
    enter-Effect draws msg p none_noted = record {
      inserted = ins;
      filter = r;
      fresh = λ name h. elim (Bool-cases (name == msg.file_name)) [
        | inl same ↦ inl (ground arith)
        | inr others ↦
            inr (ground (arith, Dict.has-insert name msg.file_name (info_of msg) c.file_map))
      ];
      kept = λ name h. h;
      handed = λ name h. absurd (none_noted name h);
    }

    note-Good :
        (draws : List ℕ) (msg : FileMetaData)
        → Good ins c
            (filed draws msg)
            (move env (filed draws msg) c).0
            (move env (filed draws msg) c).1
    unfolding move
    note-Good draws msg =
        let name = msg.file_name in
        let (bf, put, r') = bf_put-IsIndexed env c name ins r in
        rw put (record {
          inserted = spots env name ++ ins;
          filter = r';
          fresh = λ other h. inr h;
          kept = λ other h. within-append (spots env other) (spots env name) ins h;
          handed = λ other e. inr (
              subst (λ n. within (spots env n) (spots env name ++ ins) ≡ true) e
                (within-positions env.murmur bf_hashes bf_bits (omega arith) (omega arith) name
                  ins));
        })

    file-Good :
        (draws : List ℕ) (msg : FileMetaData)
        → Good ins c
            (entered draws msg)
            (move env (entered draws msg) c).0
            (move env (entered draws msg) c).1
    unfolding move
    file-Good draws msg = elim (Bool-cases (env.creates msg.file_name)) [
      | inl made ↦
          rw made (quiet-Effect (entered draws msg) (filed draws msg) _ refl refl (λ name e. e))
      | inr refused ↦ rw refused tt
    ]

    unreport-Good :
        (msg : FileMetaData)
        → Good ins c (dismissed msg) (move env (dismissed msg) c).0 (move env (dismissed msg) c).1
    unfolding move remove_chunk_metadata
    unreport-Good msg =
        elim (Bool-cases (Dict.has (chunk_entry msg.file_name) c.chunk_metadata_dir)) [
          | inl there ↦
              rw there (quiet-Effect (dismissed msg) (unreported msg) _ refl refl (λ name e. e))
          | inr missing ↦ rw missing tt
        ]

    forget-Effect :
        (msg : FileMetaData) (c' : Controller)
        → c'.bf ≡ c.bf
        → c'.file_map ≡ Dict.erase msg.file_name c.file_map
        → Effect ins c (unreported msg) (forgotten msg) c'
    forget-Effect msg c' same_bf erased = record {
      inserted = ins;
      filter = rw same_bf r;
      fresh = λ name h.
          inr (
            ground
              (arith, Dict.has-erase name msg.file_name c.file_map, ap (Dict.has name) erased));
      kept = λ name h. h;
      handed = λ name h. absurd h;
    }

    forget-Good :
        (msg : FileMetaData)
        → Good ins c
            (unreported msg)
            (move env (unreported msg) c).0
            (move env (unreported msg) c).1
    unfolding move remove_file_metadata
    forget-Good msg = elim (Bool-cases (Dict.has (file_entry msg.file_name) c.file_metadata_dir)) [
      | inl there ↦ rw there (forget-Effect msg _ refl refl)
      | inr missing ↦ rw missing tt
    ]

    choose-Good :
        (draws : List ℕ) (msg : FileMetaData) (t : RequestType) (present : Bool)
        → Good ins c
            (tested draws msg present)
            (choose env draws msg t present c).0
            (choose env draws msg t present c).1
    unfolding choose
    choose-Good draws msg write true =
        Good-Quiet _ _ _ (Quiet-send_messages env _ _ _) (λ name a e. e)
    choose-Good draws msg write false =
        enter-Effect draws msg (tested draws msg false) (λ name h. h)
    choose-Good draws msg delete true =
        Good-Quiet _ _ _ (Quiet-delete_from_storage_nodes env msg) (λ name a e. e)
    choose-Good draws msg read true =
        Good-Quiet _ described _ (Quiet-get_file_metadata msg) (λ name a e. e)
    choose-Good draws msg replica true =
        Good-Quiet _ described _ (Quiet-get_file_metadata msg) (λ name a e. e)
    choose-Good draws msg folder_info true =
        Good-Quiet _ described _ (Quiet-get_file_metadata msg) (λ name a e. e)
    choose-Good draws msg delete false =
        Good-Quiet _ _ _ (Quiet-send_messages env _ _ _) (λ name a e. e)
    choose-Good draws msg read false =
        Good-Quiet _ _ _ (Quiet-send_messages env _ _ _) (λ name a e. e)
    choose-Good draws msg replica false =
        Good-Quiet _ _ _ (Quiet-send_messages env _ _ _) (λ name a e. e)
    choose-Good draws msg folder_info false =
        Good-Quiet _ _ _ (Quiet-send_messages env _ _ _) (λ name a e. e)

    pub move-Good : (p : Pc) → Good ins c p (move env p c).0 (move env p c).1
    unfolding move
    move-Good idle = quiet-Effect idle idle c refl refl (λ name e. e)
    move-Good (arrived draws msg) =
        Good-Quiet _ _ _ (Quiet-bf_get msg.file_name) (λ name a e. absurd e)
    move-Good (looked draws msg found) = quiet-Effect _ _ c refl refl (λ name e. absurd e)
    move-Good (tested draws msg present) = choose-Good draws msg msg.request_type present
    move-Good (entered draws msg) = file-Good draws msg
    move-Good (filed draws msg) = note-Good draws msg
    move-Good (noted draws msg) =
        Good-Quiet _ _ _ (Quiet-send_storage_nodes env draws msg) (λ name a e. absurd e)
    move-Good (dismissed msg) = unreport-Good msg
    move-Good (unreported msg) = forget-Good msg
    move-Good (forgotten msg) =
        Good-Quiet _ _ _ (Quiet-send_messages env _ _ _) (λ name a e. absurd e)
    move-Good (described msg) =
        Good-Quiet _ located _ (Quiet-get_storage_nodes_for_client msg) (λ name a e. absurd e)
    move-Good (located msg) =
        Good-Quiet _ _ _ (Quiet-send_file_metadata env msg) (λ name a e. absurd e)

-- ===== src/Controller/Handler/Aliased.antt =====
-- Two names that filepath.Join makes the same file of the folder FileMetaData.
use hdfs_in_golang.Base.{
  ℕ, ◌≡◌, ◌≢◌, refl, sym, ap, true, false, some, List, arith, nat_eq, list_eq,
}
use hdfs_in_golang.Base.Dict
use hdfs_in_golang.Base.Dict.{Dict}
use hdfs_in_golang.Proto.{FileMetaData, write}
use hdfs_in_golang.Controller.{Controller, Env, file_entry}
use hdfs_in_golang.Controller.Invariant.{IsIndexed}
use hdfs_in_golang.Controller.Metadata.{info_of, metadata_text}
use hdfs_in_golang.Controller.Consistency.Files.{saved}
use hdfs_in_golang.Controller.Handler.{handle_file_metadata}
use hdfs_in_golang.Controller.Handler.Known.{send-IsIndexed, file_map_written, written}

module _ (env : Env) where
  file_metadata_dir_written :
      (draws : List ℕ) (msg : FileMetaData) (c : Controller)
      → IsIndexed env c
      → Dict.has msg.file_name c.file_map ≡ false
      → env.creates msg.file_name ≡ true
      → Dict.lookup
          (file_entry msg.file_name)
          (handle_file_metadata env draws msg write c).1.file_metadata_dir
        ≡ some (metadata_text msg.file_name (info_of msg))
  file_metadata_dir_written draws msg c h new creates =
      let (bf, q, h') = written env draws msg c h new creates in
      rw (ap (λ (d : Controller). d.file_metadata_dir) q) (
        Dict.lookup-insert_self (file_entry msg.file_name)
          (metadata_text msg.file_name (info_of msg)) c.file_metadata_dir)

  -- Two names can be one file of the folder FileMetaData, such as `b` and `./b`. If both are new and
  -- both are written, one after the other, both writes are accepted: the table has an entry for
  -- each, and the one file in the folder has the second alone. The conditions are that the filter
  -- knows every file of the table, and that os.Create makes the file both times.
  pub handle_file_metadata-write_same_entry :
      (draws draws' : List ℕ) (msg other : FileMetaData) (c : Controller)
      → IsIndexed env c
      → msg.file_name ≢ other.file_name
      → file_entry other.file_name ≡ file_entry msg.file_name
      → Dict.has msg.file_name c.file_map ≡ false
      → Dict.has other.file_name c.file_map ≡ false
      → env.creates msg.file_name ≡ true
      → env.creates other.file_name ≡ true
      → (c' : Controller) × (c'
          ≡ (handle_file_metadata env draws' other write
              (handle_file_metadata env draws msg write c).1).1)
        × (Dict.lookup msg.file_name c'.file_map ≡ some (info_of msg))
        × (Dict.lookup other.file_name c'.file_map ≡ some (info_of other))
        × (Dict.lookup (file_entry msg.file_name) c'.file_metadata_dir
            ≡ some (metadata_text other.file_name (info_of other)))
  handle_file_metadata-write_same_entry draws draws' msg other c h differ one new new' creates
        creates' =
      let c₁ = (handle_file_metadata env draws msg write c).1 in
      let (bf, q, h') = written env draws msg c h new creates in
      let h₁ = send-IsIndexed env (saved msg bf c) c₁ q h' in
      let table₁ = file_map_written env draws msg c h new creates in
      let new₁ : Dict.has other.file_name c₁.file_map ≡ false =
        rw table₁ (
          ground (arith, Dict.has-insert other.file_name msg.file_name (info_of msg) c.file_map)) in
      let table₂ = file_map_written env draws' other c₁ h₁ new₁ creates' in
      let d = Dict.insert msg.file_name (info_of msg) c.file_map in
      (
        (handle_file_metadata env draws' other write c₁).1,
        refl,
        rw (table₂, table₁)
            (ground (
              arith,
              Dict.lookup-insert msg.file_name other.file_name (info_of other) d,
              Dict.lookup-insert_self msg.file_name (info_of msg) c.file_map,
            )),
        rw (table₂, table₁) (Dict.lookup-insert_self other.file_name (info_of other) d),
        rw (sym one) (file_metadata_dir_written draws' other c₁ h₁ new₁ creates'),
      )

-- ===== src/Controller/Replies/Folders.antt =====
-- The files of a folder.
use hdfs_in_golang.Base.{
  ◌≡◌, refl, Bool, false, Option, none, some, [], ◌∷◌, arith, ◌==◌, nat_eq, list_eq, contains,
}
use hdfs_in_golang.Base.Dict
use hdfs_in_golang.Base.Dict.{Dict, NodupKeys}
use hdfs_in_golang.Text.{Text}
use hdfs_in_golang.Controller.{FileInfo}
use hdfs_in_golang.Controller.Replies.{files_within}

abbrev pub in_folder : Text → Option FileInfo → Bool
in_folder folder none = false
in_folder folder (some info) = info.folder_name == folder

-- getFilesWithinFolder lists a name exactly if the table has it with that folder.
pub contains-files_within :
    (folder name : Text) (d : Dict Text FileInfo)
    → NodupKeys d
    → contains (files_within folder d) name ≡ in_folder folder (Dict.lookup name d)
unfolding files_within Dict.lookup
contains-files_within folder name [] u = refl
contains-files_within folder name ((j, info) ∷ d) (fresh, u) =
    ground (arith, contains-files_within folder name d u)

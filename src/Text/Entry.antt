-- ===== src/Text/Entry.antt =====
-- filepath.Join(directory, folder, name), as it is on Unix: which file of the folder a name is.
use hdfs_in_golang.Base.{◌≡◌, ◌≢◌, ◌||◌, List, [], ◌∷◌, arith, ◌==◌, nat_eq, list_eq, if◌then◌else◌}
use hdfs_in_golang.Text.{Text, Lacks, codes, split}
use hdfs_in_golang.Text.Split.{join, split_one}

-- One element more, on the elements before it, the last first: filepath.Clean drops what is empty
-- or a dot, and two dots take back the element before.
abbrev step_back : List Text → List Text
step_back [] = codes ".." ∷ []
step_back (e ∷ before) = if e == codes ".." then codes ".." ∷ e ∷ before else before

abbrev enter : Text → List Text → List Text
enter e before =
    if e == [] || e == codes "."
    then before
    else if e == codes ".."
    then step_back before
    else e ∷ before

enter_all : List Text → List Text → List Text
enter_all [] before = before
enter_all (e ∷ elements) before = enter_all elements (enter e before)

-- The elements from the first on, behind some.
put_back : List Text → List Text → List Text
put_back [] behind = behind
put_back (e ∷ before) behind = put_back before (e ∷ behind)

-- A path below `directory`, seen from the folder.
abbrev from_folder : Text → List Text → Text
from_folder folder [] = codes ".."
from_folder folder (e ∷ elements) =
    if e == folder then join b'/' elements else join b'/' (codes ".." ∷ e ∷ elements)

-- The entry of the folder that a name is; the empty text is the folder itself.
unfoldable pub entry_of : Text → Text → Text
unfolding enter_all put_back
entry_of folder name = from_folder folder (put_back (enter_all (split b'/' name) (folder ∷ [])) [])

-- A name that is one element of a path, and neither of the two links.
pub record IsElement (name : Text) : Type 0 where
  pub slash : Lacks b'/' name
  pub some_text : name ≢ []
  pub other_dot : name ≢ codes "."
  pub other_dots : name ≢ codes ".."

-- Such a name is the entry's own.
pub entry_of-IsElement : (folder name : Text) → IsElement name → entry_of folder name ≡ name
unfolding entry_of enter_all put_back
entry_of-IsElement folder name h =
    let some_text = h.some_text in
    let other_dot = h.other_dot in
    let other_dots = h.other_dots in rw (split_one b'/' name h.slash) (ground arith)

-- ===== src/Client.antt =====
-- hdfs/client/client.go: the state of a client, and how it sends.
pub mod Sending
pub mod Receiving
pub mod Commands
pub mod Chunks
use mathlib.Core.Option
use hdfs_in_golang.Base.{
  ℕ, ◌+◌, Bool, true, false, Option, none, some, List, [], ◌∷◌, ◌++◌, nat_eq, list_eq, ◌≡◌, refl,
  arith, ◌==◌, if◌then◌else◌,
}
use hdfs_in_golang.Base.Dict
use hdfs_in_golang.Base.Dict.{Dict}
use hdfs_in_golang.Base.Exec.{Exec, ok}
use hdfs_in_golang.Text.{Text, codes}
use hdfs_in_golang.Transport.{Bytes}
use hdfs_in_golang.Proto.{Wrapper}
use hdfs_in_golang.Network.{Net}
use hdfs_in_golang.Storage.{Output, output_on}

-- The package's variables (the counters of bytes are float64, exact below 2 ^ 53), the folders below
-- `directory` with their files, what was written on connections, and the lines printed.
pub record Client : Type 0 where
  pub file_path : Text
  pub chunk_size : Text
  pub folder_name : Text
  pub total_number_of_chunks : ℕ
  pub file_check_sum : Text
  pub chunks_received : ℕ
  pub chunks_sent : ℕ
  pub file_size : ℕ
  pub received_bytes : ℕ
  pub sent_bytes : ℕ
  pub folders : Dict Text (Dict Text Bytes)
  pub sent : List Output
  pub printed : List Text

-- The process at its start, over the folders that it finds.
unfoldable pub start : Dict Text (Dict Text Bytes) → Client
start folders = record {
  file_path = [];
  chunk_size = [];
  folder_name = codes "root";
  total_number_of_chunks = 0;
  file_check_sum = [];
  chunks_received = 0;
  chunks_sent = 0;
  file_size = 0;
  received_bytes = 0;
  sent_bytes = 0;
  folders = folders;
  sent = [];
  printed = [];
}

-- What a client depends on: the network, the hexadecimal SHA-256 of some bytes, the contents of the
-- file at a path (`none` if it cannot be opened), whether os.Create makes a file of a name in the
-- folder for downloads, the most bytes that one Read of a file gives, what the platform makes of a
-- float64 quotient rounded up that may not be exact or no uint64 (for a file of 2 ^ 53 bytes or
-- more, or a chunk size of 0 or below), and the controller.
pub record ClientEnv : Type 0 where
  pub net : Net
  pub digest : Bytes → Text
  pub opens : Text → Option Bytes
  pub creates : Text → Bool
  pub read_limit : ℕ
  pub out_of_range : ℕ → ℕ → ℕ
  pub controller_hostname : Text
  pub controller_port : Text

abbrev pub ClientAction : Type 0 → Type 0
ClientAction A = Exec Client A

-- The files of a folder below `directory`; one that is missing is made when it is first used.
unfoldable pub files_of : Text → Dict Text (Dict Text Bytes) → Dict Text Bytes
files_of folder d = Option.get_or (Dict.lookup folder d) []

unfoldable pub find_file : Text → Text → Dict Text (Dict Text Bytes) → Option Bytes
unfolding files_of
find_file folder name d = Dict.lookup name (files_of folder d)

unfoldable pub put_file :
    Text → Text → Bytes → Dict Text (Dict Text Bytes) → Dict Text (Dict Text Bytes)
unfolding files_of
put_file folder name bytes d = Dict.insert folder (Dict.insert name bytes (files_of folder d)) d

unfoldable pub remove_file : Text → Text → Dict Text (Dict Text Bytes) → Dict Text (Dict Text Bytes)
unfolding files_of
remove_file folder name d = Dict.insert folder (Dict.erase name (files_of folder d)) d

pub find_file-put_file :
    (folder name other : Text) (bytes : Bytes) (d : Dict Text (Dict Text Bytes))
    → find_file folder other (put_file folder name bytes d)
      ≡ (if other == name then some bytes else find_file folder other d)
unfolding find_file put_file
find_file-put_file folder name other bytes d =
    rw (Dict.lookup-insert_self folder (Dict.insert name bytes (files_of folder d)) d)
      (Dict.lookup-insert other name bytes (files_of folder d))

pub find_file-remove_file :
    (folder name other : Text) (d : Dict Text (Dict Text Bytes))
    → find_file folder other (remove_file folder name d)
      ≡ (if other == name then none else find_file folder other d)
unfolding find_file remove_file
find_file-remove_file folder name other d =
    rw (Dict.lookup-insert_self folder (Dict.erase name (files_of folder d)) d)
      (Dict.lookup-erase other name (files_of folder d))

module _ (env : ClientEnv) where
  -- GetConnection, Send with its error passed over, and Close.
  unfoldable pub send_on : Text → Text → Wrapper → ClientAction Bool
  send_on host port message c = elim (env.net.dials host port) [
    | false ↦ (ok false, c)
    | true ↦ (ok true, record c { sent = c.sent ++ output_on env.net host port message [] ∷ [] })
  ]

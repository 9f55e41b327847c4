-- ===== src/Tests/Receiving.antt =====
-- Examples for a client that receives a file.
use mathlib.Core.List.{Permᴰ}
use hdfs_in_golang.Base.{
  ℕ, ◌≡◌, refl, none, some, List, [], ◌∷◌, arith, contains, length, ◌==◌, nat_eq, list_eq,
  if◌then◌else◌,
}
use hdfs_in_golang.Base.Dict
use hdfs_in_golang.Base.Dict.{Dict}
use hdfs_in_golang.Text.Decimal.{format_uint}
use hdfs_in_golang.Base.Exec.{ok}
use hdfs_in_golang.Text.{Text, codes}
use hdfs_in_golang.Text.Path.{stem, trim_suffix, base, ext}
use hdfs_in_golang.Transport.{Bytes}
use hdfs_in_golang.Proto.{write}
use hdfs_in_golang.Client.{Client, start, find_file, put_file}
use hdfs_in_golang.Client.Sending.{chunk_name}
use hdfs_in_golang.Client.Receiving.{merge_chunks}
use hdfs_in_golang.Client.Receiving.Merged.{chunk_names, kept, merge_chunks-files}
use hdfs_in_golang.Client.Receiving.Delivered.{Arrival}
use hdfs_in_golang.Client.Receiving.Arrivals.{receive_all, receive_all-files}
use hdfs_in_golang.Tests.Sending.{client_env}

abbrev parts : List Bytes
parts = (1 ∷ 2 ∷ []) ∷ (3 ∷ []) ∷ []

-- A client that waits for three bytes in two chunks.
abbrev pub waiting : Client
waiting = record (start []) {
  file_path = codes "f";
  total_number_of_chunks = 2;
  file_check_sum = b'd' ∷ [];
  file_size = 3;
}

abbrev arrival : (name : Text) → ℕ → Bytes → Arrival name
arrival name i part = record {
  index = i;
  part = part;
  msg = record {
    file_name = name;
    locations = some (record { chunk_filename = chunk_name name i; replicas = [] });
    chunk_size = length part;
    checksum = [];
    request_type = write;
    sender_addr = codes "a:7";
    receiver_addr = [];
    file_extension = [];
  };
  carried = refl;
  sized = refl;
}

-- The second chunk comes first.
abbrev pub swapped : List (Arrival (stem (codes "f")))
swapped = arrival (stem (codes "f")) 1 (3 ∷ []) ∷ arrival (stem (codes "f")) 0 (1 ∷ 2 ∷ []) ∷ []

receive_all-files_example :
    (d : Dict Text (Dict Text Bytes)) × (receive_all client_env swapped waiting
      ≡ (ok tt, record waiting { folders = d; received_bytes = 3; chunks_received = 2 }))
    × ((other : Text)
        → find_file (codes "root") other d ≡ (
            if other == stem (codes "f")
            then some (1 ∷ 2 ∷ 3 ∷ [])
            else if contains (chunk_names (stem (codes "f")) 0 parts) other
            then none
            else find_file (codes "root") other []))
unfolding start
receive_all-files_example =
    receive_all-files client_env (λ name. refl) (omega arith) parts waiting swapped
      (Permᴰ.swap refl refl) (omega arith) (omega arith) (omega arith, (omega arith, tt)) refl refl
      refl refl refl

-- A client that has both chunks, of a file with another checksum.
abbrev complete : Client
complete = record waiting {
  folders =
      put_file (codes "root") (chunk_name (stem (codes "f")) 0) (1 ∷ 2 ∷ [])
        (put_file (codes "root") (chunk_name (stem (codes "f")) 1) (3 ∷ []) []);
  file_check_sum = b'x' ∷ [];
}

merge_chunks-files_example :
    (d : Dict Text (Dict Text Bytes)) × (merge_chunks client_env complete
      ≡ (ok tt, record complete { folders = d }))
    × ((other : Text)
        → find_file (codes "root") other d ≡ (
            if other == stem (codes "f")
            then kept client_env (b'x' ∷ []) (1 ∷ 2 ∷ 3 ∷ [])
            else if contains (chunk_names (stem (codes "f")) 0 parts) other
            then none
            else find_file (codes "root") other complete.folders))
unfolding start find_file put_file chunk_name nat_eq list_eq stem Dict.lookup Dict.insert
    trim_suffix base ext format_uint
merge_chunks-files_example =
    merge_chunks-files client_env parts complete refl refl (omega arith)
      (refl, omega arith, (refl, omega arith, tt))

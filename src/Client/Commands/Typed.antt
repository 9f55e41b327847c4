-- ===== src/Client/Commands/Typed.antt =====
-- What the lines do that a user types.
use hdfs_in_golang.Base.{
  ℕ, ◌^◌, length, ◌<◌, ◌≡◌, ◌≢◌, refl, true, false, some, [], ◌∷◌, ◌++◌, arith, nat_eq, list_eq,
}
use hdfs_in_golang.Base.Exec.{ok, err, panicked}
use hdfs_in_golang.Text.{Text, codes, Lacks}
use hdfs_in_golang.Text.Split.{join, split-join, split_one}
use hdfs_in_golang.Text.Integer.{parse_int}
use hdfs_in_golang.Transport.{Bytes}
use hdfs_in_golang.Proto.{FileMetaData, file_metadata}
use hdfs_in_golang.Storage.{output_on}
use hdfs_in_golang.Client.{Client, ClientEnv}
use hdfs_in_golang.Client.Commands.{to_lower, run_command, handle_line}
use hdfs_in_golang.Client.Commands.Asked.{Describes, send_file_metadata-Describes}

no_space : Lacks b' ' (codes "/write")
no_space =
    (omega arith, (omega arith, (omega arith, (omega arith, (omega arith, (omega arith, tt))))))

module _ (env : ClientEnv) where
  -- The line of a command with its three arguments.
  abbrev pub write_line : Text → Text → Text → Text
  write_line path size folder = join b' ' (codes "/write" ∷ path ∷ size ∷ folder ∷ [])

  -- A line `/write path size folder` sends the controller one message on the file at the path, when
  -- the controller can be reached, the file (below 2 ^ 53 bytes) opened and the size read as a number above 0: its
  -- name and extension in a row are the last element of the path, the number of chunks is just
  -- enough, the sizes, the checksum and the folder are the file's. The client goes on, with the
  -- path, the size and the folder as its own.
  pub handle_line-Describes :
      (path digits folder : Text) (size : ℕ) (file : Bytes) (c : Client)
      → Lacks b' ' path
      → Lacks b' ' digits
      → Lacks b' ' folder
      → env.net.dials env.controller_hostname env.controller_port ≡ true
      → env.opens path ≡ some file
      → parse_int digits ≡ some (record { negative = false; magnitude = size })
      → 0 < size
      → length file < 2 ^ 53
      → (meta : FileMetaData) × (handle_line env (write_line path digits folder) c ≡ (
        ok true,
        record c {
          file_path = path;
          chunk_size = digits;
          folder_name = folder;
          sent =
              c.sent
              ++ output_on env.net env.controller_hostname env.controller_port
                  (file_metadata meta)
                  []
                ∷ [];
        },
      ))
        × Describes env path folder size file meta
  unfolding handle_line run_command list_eq nat_eq
  handle_line-Describes path digits folder size file c one_path one_size one_folder dials opens
        parses pos small =
      let c₁ = record c { file_path = path; chunk_size = digits; folder_name = folder } in
      let (meta, run, said) =
        send_file_metadata-Describes env env.controller_hostname env.controller_port folder size
          file c₁ dials opens parses pos small in
      let tokens =
        split-join b' ' (codes "/write") (path ∷ digits ∷ folder ∷ [])
          (no_space, (one_path, (one_size, (one_folder, tt)))) in
      (meta, rw (tokens, run), said)

  -- A line of one word that is neither /list nor /quit nor /q (in any case) ends the client with a
  -- panic, an index out of range.
  pub handle_line-bare :
      (line : Text) (c : Client)
      → line ≢ []
      → Lacks b' ' line
      → line ≢ codes "/list"
      → to_lower line ≢ codes "/quit"
      → to_lower line ≢ codes "/q"
      → handle_line env line c ≡ (err panicked, c)
  unfolding handle_line run_command
  handle_line-bare [] c some_word one_word other_list other_quit other_q = absurd (some_word refl)
  handle_line-bare (d ∷ line) c some_word one_word other_list other_quit other_q =
      rw (split_one b' ' (d ∷ line) one_word) (ground arith)

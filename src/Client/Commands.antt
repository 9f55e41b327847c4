-- ===== src/Client/Commands.antt =====
-- What a client asks the controller for, and the lines its user types: getFileMetadata,
-- sendFileMetadata, retrieveFileMetadata, deleteFile, retrieveActiveStorageNodesInfoFromController,
-- retrieveFilesWithinGivenFolder and getUserInput of client.go.
pub mod Asked
pub mod Typed
use hdfs_in_golang.Base.{
  ℕ, ◌+◌, ◌-◌, ◌%◌, ◌^◌, Bool, true, false, ◌&&◌, ◌||◌, Option, none, some, List, [], ◌∷◌, ◌++◌,
  map, length, leb, ◌==◌, nat_eq, list_eq, get_elem?, if◌then◌else◌,
}
use hdfs_in_golang.Base.Exec.{ok, err, pure, gets, modify, or_panic, fail, fatal, ◌>>=◌, ◌>>◌}
use hdfs_in_golang.Text.{Text, codes, split}
use hdfs_in_golang.Text.Path.{base, ext, stem}
use hdfs_in_golang.Text.Integer.{Int64, parse_int}
use hdfs_in_golang.Transport.{Bytes}
use hdfs_in_golang.Proto.{
  Wrapper, FileMetaData, Request, StorageNodesMetadata, RequestType, read, write, delete,
  folder_info, file_metadata, storage_nodes_metadata, request,
}
use hdfs_in_golang.Controller.Heartbeat.{joined}
use hdfs_in_golang.Client.{Client, ClientEnv, ClientAction, send_on}
use hdfs_in_golang.Client.Sending.{ceil_div, opened}

-- uint64(n) of an int64.
abbrev pub as_uint64 : Int64 → ℕ
as_uint64 n = if n.negative then (2 ^ 64 - n.magnitude) % 2 ^ 64 else n.magnitude

-- strings.ToLower on one code point, as far as the result is ASCII.
abbrev lower_of : ℕ → ℕ
lower_of c =
    if leb b'A' c && leb c b'Z'
    then c + 32
    else if c == 0x130
    then b'i'
    else if c == 0x212a
    then b'k'
    else c

unfoldable pub to_lower : Text → Text
to_lower s = map lower_of s

-- The size that strconv.ParseInt read: HandleError ends the process with none.
abbrev pub parsed : Option Int64 → ClientAction Int64
parsed none = fail fatal
parsed (some n) = pure n

-- What tokens[3] makes of the folder, if it is there.
abbrev folder_or : Text → Option Text → Text
folder_or old none = old
folder_or old (some folder) = folder

module _ (env : ClientEnv) where
  -- getNumberOfChunks. For a file below 2 ^ 53 bytes and a chunk size above 0, float64 and math.Ceil
  -- give the quotient rounded up; for the rest it is a parameter what they give.
  unfoldable pub get_number_of_chunks : ℕ → Int64 → ℕ
  get_number_of_chunks file_size n =
      if n.negative || n.magnitude == 0 || leb (2 ^ 53) file_size
      then env.out_of_range file_size (as_uint64 n)
      else ceil_div file_size n.magnitude

  -- The message that getFileMetadata makes.
  unfoldable pub metadata_of : Text → Int64 → Bytes → Text → Text → Text → FileMetaData
  unfolding get_number_of_chunks
  metadata_of path size file receiver_host_name receiver_port folder_name = record {
    file_name = stem path;
    file_size = length file;
    total_chunks = get_number_of_chunks (length file) size;
    chunk_size = as_uint64 size;
    checksum = env.digest file;
    request_type = write;
    locations = [];
    sender_addr = env.net.self;
    receiver_addr = joined receiver_host_name receiver_port;
    file_extension = ext (base path);
    folder_name = folder_name;
  }

  -- getFileMetadata of the file at a path, that is open.
  unfoldable pub get_file_metadata : Text → Bytes → Text → Text → Text → ClientAction Wrapper
  unfolding metadata_of
  get_file_metadata path file receiver_host_name receiver_port folder_name = do
    text ← gets (λ c. c.chunk_size)
    size ← parsed (parse_int text)
    pure (file_metadata (metadata_of path size file receiver_host_name receiver_port folder_name))

  unfoldable pub send_file_metadata : Text → Text → Text → ClientAction Unit
  unfolding get_file_metadata
  send_file_metadata hostname port folder =
      if env.net.dials hostname port
      then (do
        path ← gets (λ c. c.file_path)
        file ← opened (env.opens path)
        wrapper ← get_file_metadata path file hostname port folder
        connected ← send_on env hostname port wrapper
        pure tt)
      else pure tt

  -- What is said of a file to retrieve or to delete.
  unfoldable pub file_request : RequestType → Text → Text → Text → FileMetaData
  file_request request_type path hostname port = record {
    file_name = stem path;
    file_size = 0;
    total_chunks = 0;
    chunk_size = 0;
    checksum = [];
    request_type = request_type;
    locations = [];
    sender_addr = env.net.self;
    receiver_addr = joined hostname port;
    file_extension = ext (base path);
    folder_name = [];
  }

  unfoldable pub retrieve_file_metadata : Text → Text → ClientAction Unit
  unfolding file_request
  retrieve_file_metadata hostname port = do
    path ← gets (λ c. c.file_path)
    connected ← send_on env hostname port (file_metadata (file_request read path hostname port))
    pure tt

  unfoldable pub delete_file : Text → Text → ClientAction Unit
  unfolding file_request
  delete_file hostname port = do
    path ← gets (λ c. c.file_path)
    connected ← send_on env hostname port (file_metadata (file_request delete path hostname port))
    pure tt

  unfoldable pub retrieve_active_storage_nodes_info_from_controller :
      Text → Text → ClientAction Unit
  retrieve_active_storage_nodes_info_from_controller hostname port = do
    connected ← send_on env hostname port (
        storage_nodes_metadata (record {
          available_space = 0;
          total_number_of_storage_requests = 0;
          addr = [];
          files = [];
          request_type = read;
          sender_addr = env.net.self;
          receiver_addr = joined hostname port;
        }))
    pure tt

  unfoldable pub retrieve_files_within_given_folder : Text → Text → Text → ClientAction Unit
  retrieve_files_within_given_folder hostname port folder_name = do
    connected ← send_on env hostname port (
        request (record {
          request_type = folder_info;
          description = folder_name;
          sender_addr = env.net.self;
          receiver_addr = joined hostname port;
        }))
    pure tt

  -- The command of a line that is not empty, by its tokens; tokens[i] panics out of range. The
  -- result is whether the client goes on.
  unfoldable pub run_command : List Text → ClientAction Bool
  unfolding send_file_metadata retrieve_file_metadata delete_file
      retrieve_active_storage_nodes_info_from_controller retrieve_files_within_given_folder to_lower
  run_command tokens = do
    command ← or_panic (get_elem? tokens 0)
    if command == codes "/write"
        then (do
          path ← or_panic (get_elem? tokens 1)
          modify (λ c. record c { file_path = path })
          size ← or_panic (get_elem? tokens 2)
          modify (λ c. record c {
            chunk_size = size;
            folder_name = folder_or c.folder_name (get_elem? tokens 3);
          })
          folder ← gets (λ c. c.folder_name)
          send_file_metadata env.controller_hostname env.controller_port folder
          pure true)
        else if command == codes "/list"
        then (do
          retrieve_active_storage_nodes_info_from_controller env.controller_hostname
              env.controller_port
          pure true)
        else if command == codes "/delete"
        then (do
          path ← or_panic (get_elem? tokens 1)
          modify (λ c. record c { file_path = path })
          delete_file env.controller_hostname env.controller_port
          pure true)
        else if command == codes "/ls"
        then (do
          folder ← or_panic (get_elem? tokens 1)
          modify (λ c. record c { folder_name = folder })
          retrieve_files_within_given_folder env.controller_hostname env.controller_port folder
          pure true)
        else if to_lower command == codes "/quit" || to_lower command == codes "/q"
        then pure false
        else (do
          path ← or_panic (get_elem? tokens 1)
          modify (λ c. record c { file_path = path })
          retrieve_file_metadata env.controller_hostname env.controller_port
          pure true)

  unfoldable pub handle_line : Text → ClientAction Bool
  unfolding run_command
  handle_line [] = pure true
  handle_line (c ∷ message) = run_command (split b' ' (c ∷ message))

  -- getUserInput over the lines that the scanner gives: `false` is os.Exit(0), `true` the end of the
  -- input.
  unfoldable pub get_user_input : List Text → ClientAction Bool
  unfolding handle_line
  get_user_input [] = pure true
  get_user_input (line ∷ lines) = do
    goes_on ← handle_line line
    if goes_on then get_user_input lines else pure false

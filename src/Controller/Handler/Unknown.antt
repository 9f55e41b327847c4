-- ===== src/Controller/Handler/Unknown.antt =====
-- The requests of clients for files, against the file table alone.
use hdfs_in_golang.Base.{ℕ, ◌≡◌, Bool, true, false, List, arith, nat_eq, list_eq}
use hdfs_in_golang.Base.Dict
use hdfs_in_golang.Proto.{FileMetaData, RequestType, write, delete, error}
use hdfs_in_golang.Controller.{Controller, Env, Action}
use hdfs_in_golang.Controller.Invariant.{IsIndexed}
use hdfs_in_golang.Controller.Consistency.Files.{is_present-has}
use hdfs_in_golang.Controller.Replies.{send_messages_to_client}
use hdfs_in_golang.Controller.Handler.{
  accept_file, remove_file, retrieve_file, handle_write, handle_delete, handle_read,
  handle_file_metadata, already_present, not_found,
}

-- What a request for a file comes to when the name is in the table, and when it is not.
unfoldable pub by_table : Env → List ℕ → FileMetaData → RequestType → Bool → Action Unit
by_table env draws msg write true =
    send_messages_to_client env error msg.sender_addr (already_present msg)
by_table env draws msg write false = accept_file env draws msg
by_table env draws msg delete true = remove_file env msg
by_table env draws msg delete false =
    send_messages_to_client env error msg.sender_addr (not_found msg)
by_table env draws msg _ true = retrieve_file env msg
by_table env draws msg _ false = send_messages_to_client env error msg.sender_addr (not_found msg)

module _ (env : Env) where
  -- A request for a file is answered by the file table alone: while the Bloom filter knows every name of
  -- the table, its answer never changes what is done, so a false positive or a name that was removed
  -- counts as not there, whatever the request. A write of a known name and a
  -- read or a removal of an unknown one are answered by an error message and nothing else.
  pub handle_file_metadata-by_table :
      (draws : List ℕ) (msg : FileMetaData) (t : RequestType) (c : Controller)
      → IsIndexed env c
      → handle_file_metadata env draws msg t c
        ≡ by_table env draws msg t (Dict.has msg.file_name c.file_map) c
  unfolding handle_file_metadata handle_write handle_delete handle_read by_table
  handle_file_metadata-by_table draws msg t c h =
      ground (arith, is_present-has env c msg.file_name h)

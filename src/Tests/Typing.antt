-- ===== src/Tests/Typing.antt =====
-- Examples for the lines a user types.
use hdfs_in_golang.Base.{
  ap, get_or, false, none, some, ◌≡◌, refl, true, [], ◌∷◌, ◌++◌, arith, length, nat_eq, list_eq,
}
use hdfs_in_golang.Base.Exec.{ok, err, panicked}
use hdfs_in_golang.Text.{codes}
use hdfs_in_golang.Text.Integer.{parse_int}
use hdfs_in_golang.Proto.{FileMetaData, file_metadata}
use hdfs_in_golang.Storage.{output_on}
use hdfs_in_golang.Client.{start}
use hdfs_in_golang.Client.Commands.{to_lower, handle_line}
use hdfs_in_golang.Client.Commands.Asked.{Describes}
use hdfs_in_golang.Client.Commands.Typed.{write_line, handle_line-Describes, handle_line-bare}
use hdfs_in_golang.Tests.Sending.{client_env}

handle_line-Describes_example :
    (meta : FileMetaData) × (handle_line client_env
        (write_line client_env (codes "f.txt") (codes "2") (codes "x"))
        (start [])
      ≡ (
        ok true,
        record (start []) {
          file_path = codes "f.txt";
          chunk_size = codes "2";
          folder_name = codes "x";
          sent =
              (start []).sent
              ++ output_on client_env.net (codes "a") (codes "7") (file_metadata meta) [] ∷ [];
        },
      ))
    × Describes client_env (codes "f.txt") (codes "x") 2 (1 ∷ 2 ∷ 3 ∷ []) meta
unfolding parse_int nat_eq list_eq
handle_line-Describes_example =
    handle_line-Describes client_env (codes "f.txt") (codes "2") (codes "x") 2 (1 ∷ 2 ∷ 3 ∷ [])
      (start []) (omega arith, (omega arith, (omega arith, (omega arith, (omega arith, tt)))))
      (omega arith, tt) (omega arith, tt) refl refl refl (omega arith) (omega arith)

handle_line-bare_example :
    handle_line client_env (codes "/write") (start []) ≡ (err panicked, start [])
unfolding to_lower nat_eq list_eq
handle_line-bare_example =
    handle_line-bare client_env (codes "/write") (start []) (λ e. omega (arith, ap length e))
      (omega arith, (omega arith, (omega arith, (omega arith, (omega arith, (omega arith, tt))))))
      (λ e. omega (arith, ap (λ t. get_or t 1 0) e)) (λ e. omega (arith, ap (λ t. get_or t 1 0) e))
      (λ e. omega (arith, ap (λ t. get_or t 1 0) e))

hex_size : parse_int (codes "0x1_0") ≡ some (record { negative = false; magnitude = 16 })
unfolding parse_int nat_eq
hex_size = refl

bad_underscore : parse_int (codes "1__0") ≡ none
unfolding parse_int nat_eq
bad_underscore = refl

octal_size : parse_int (codes "-017") ≡ some (record { negative = true; magnitude = 15 })
unfolding parse_int nat_eq
octal_size = refl

zero_size : parse_int (codes "0") ≡ some (record { negative = false; magnitude = 0 })
unfolding parse_int nat_eq
zero_size = refl

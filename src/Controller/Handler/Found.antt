-- ===== src/Controller/Handler/Found.antt =====
-- A file that was written, after whatever else the controller has answered but writes and removals.
use hdfs_in_golang.Base.{ℕ, Option, some, List, [], ◌∷◌, nat_eq, list_eq}
use hdfs_in_golang.Base.Dict
use hdfs_in_golang.Base.Exec.{pure, ◌>>◌}
use hdfs_in_golang.Proto.{Wrapper, RequestType, write, delete, file_metadata}
use hdfs_in_golang.Text.{Text}
use hdfs_in_golang.Controller.{Controller, Env, Action}
use hdfs_in_golang.Controller.Quiet.{Quiet}
use hdfs_in_golang.Controller.Handler.{handle_client_request}

-- A request that neither writes a file nor removes one.
abbrev pub IsReading : RequestType → Type 0
IsReading write = ⊥
IsReading delete = ⊥
IsReading _ = Unit

-- The messages of a connection write no file and remove none.
abbrev pub AreReading : List (Option Wrapper) → Type 0
AreReading [] = Unit
AreReading (some (file_metadata msg) ∷ wrappers) = IsReading msg.request_type × AreReading wrappers
AreReading (_ ∷ wrappers) = AreReading wrappers

-- A connection: when it comes, what it draws and what it brings.
abbrev pub Connection : Type 0
Connection = ℕ × List ℕ × List (Option Wrapper)

abbrev pub AllReading : List Connection → Type 0
AllReading [] = Unit
AllReading ((now, draws, wrappers) ∷ l) = AreReading wrappers × AllReading l

module _ (env : Env) where
  -- One connection after the other.
  unfoldable pub connections : List Connection → Action Unit
  connections [] = pure tt
  connections ((now, draws, wrappers) ∷ l) =
      handle_client_request env now draws wrappers >> connections l

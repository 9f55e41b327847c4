-- ===== src/Tests/Concurrent.antt =====
-- Examples for connections that are served at the same time.
use hdfs_in_golang.Base.{ℕ, ◌≡◌, refl, Bool, true, false, ◌&&◌, [], ◌∷◌, arith, nat_eq, list_eq}
use hdfs_in_golang.Base.Dict
use hdfs_in_golang.Base.Exec.{ok}
use hdfs_in_golang.Text.{codes, split}
use hdfs_in_golang.Network.{address, deliver}
use hdfs_in_golang.Proto.{write, read, error}
use hdfs_in_golang.Controller.{Controller, start, send_to}
use hdfs_in_golang.Controller.Invariant.{IsIndexed, bf_get-IsIndexed}
use hdfs_in_golang.Controller.Replies.{send_messages_to_client}
use hdfs_in_golang.Controller.Handler.{not_found}
use hdfs_in_golang.Controller.Concurrent.{
  Pc, idle, arrived, looked, tested, entered, choose, move, System, update, accept, pick, Reach,
  begin, later,
}
use hdfs_in_golang.Controller.Concurrent.Indexed.{Reach-IsIndexed}
use hdfs_in_golang.Controller.Concurrent.Twice.{with_entry, Reach-entered}
use hdfs_in_golang.Tests.{env, wanted, served}
use hdfs_in_golang.Tests.Files.{served-IsConsistent}

Reach-entered_example :
    (s : System) × Reach env served s
    × (s.at 0 ≡ entered [] (wanted write))
    × (s.at 1 ≡ entered (0 ∷ []) (record (wanted write) { file_size = 7 }))
    × (s.controller
        ≡ with_entry (record (wanted write) { file_size = 7 }) (with_entry (wanted write) served))
unfolding start Dict.has Dict.lookup
Reach-entered_example =
    Reach-entered env served [] (0 ∷ []) (wanted write) (record (wanted write) { file_size = 7 })
      served-IsConsistent.indexed refl refl refl refl refl

-- The controller once it has said that a file is unknown.
abbrev answered : Controller
answered =
    (send_messages_to_client env error (codes "client:8000") (not_found (wanted read)) served).1

-- The steps of a request for a file that is unknown.
abbrev places : Bool → ℕ → Pc
places found =
    update
      (update
        (update (update (λ i. idle) 0 (arrived [] (wanted read))) 0 (looked [] (wanted read) found))
        0 (tested [] (wanted read) (found && false)))
      0 idle

looks :
    (found : Bool) × (move env (arrived [] (wanted read)) served
      ≡ (ok (looked [] (wanted read) found), served))
unfolding move
looks =
    let (found, e, known) =
      bf_get-IsIndexed env served (codes "logs") served-IsConsistent.indexed in
    (found, rw e)

replies :
    (found : Bool)
    → move env (tested [] (wanted read) (found && false)) served ≡ (ok idle, answered)
unfolding move choose send_messages_to_client send_to deliver address split start nat_eq list_eq
replies true = refl
replies false = refl

unknown : Reach env served (record { controller = answered; at = places looks.0 })
unfolding move start Dict.has Dict.lookup nat_eq
unknown =
    later
      (later (later (later begin (accept 0 [] (wanted read) refl refl)) (pick 0 _ served looks.1))
        (pick 0 _ served refl))
      (pick 0 idle answered (replies looks.0))

all_idle : (found : Bool) (i : ℕ) → places found i ≡ idle
all_idle found i = ground arith

Reach-IsIndexed_example : IsIndexed env answered
Reach-IsIndexed_example =
    Reach-IsIndexed env served (record { controller = answered; at = places looks.0 })
      served-IsConsistent.indexed unknown (all_idle looks.0)

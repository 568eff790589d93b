-- ===== src/Database/Transaction.antt =====
-- database/transaction.go up to the queueing of commands, and the transaction state of
-- redis/connection/conn.go; Exec has EXEC. EXEC holds the locks of all its keys to its end: it is one step. A map that
-- is nil is an empty one, as `GetWatching` makes it.
pub mod Exec
pub mod Raised
pub mod Accesses
pub mod Watch
pub mod Queue
pub mod Errors
mod Tests
use godis.Base.{
  ℕ, zero, suc, ◌+◌, ◌-◌, Bool, true, false, Option, none, some, List, [], ◌∷◌, ◌++◌, reverse,
  Bytes, codes, bytes_eq, leb, ◌==◌, ◌||◌, not, length, if◌then◌else◌,
}
use godis.Base.Int.{ℤ, pos, negsuc}
use godis.Base.Outcome.{Outcome, returns, panics, ◌>>=◌}
use godis.Protocol.{
  Reply, ok, queued, empty_multi_bulk, multi_raw, int, standard_err, arg_num_err, Replies, nil,
  cons, is_error_reply, to_bytes,
}
use godis.Dict.{Dict, insert}
use godis.Database.{Db, CmdLine, Result, add_version, get_version}
use godis.Database.Router.{
  Keys, Command, Table, validate_arity, to_lower, unknown_command, run_prepare, exec_normal_command,
  exec_with_lock,
}

pub record Conn : Type 0 where
  pub in_multi : Bool
  pub queue : List CmdLine
  pub watching : Dict ℕ
  pub tx_errors : List Reply

-- `SetMultiState`
unfoldable pub set_multi_state : Bool → Conn → Conn
set_multi_state true conn = record conn { in_multi = true }
set_multi_state false conn = record conn { watching = []; queue = []; in_multi = false }

unfoldable pub clear_queued_cmds : Conn → Conn
clear_queued_cmds conn = record conn { queue = [] }

-- The method `EnqueueCmd` of the connection
unfoldable pub push_cmd : CmdLine → Conn → Conn
push_cmd line conn = record conn { queue = conn.queue ++ line ∷ [] }

unfoldable pub add_tx_error : Reply → Conn → Conn
add_tx_error err conn = record conn { tx_errors = conn.tx_errors ++ err ∷ [] }

unfoldable pub watch_keys : Db → List Bytes → Dict ℕ → Dict ℕ
unfolding insert get_version
watch_keys db [] watching = watching
watch_keys db (key ∷ keys) watching = watch_keys db keys (insert watching key (get_version key db))

unfoldable pub watch : Db → Conn → List Bytes → Reply × Conn
unfolding watch_keys
watch db conn args = (ok, record conn { watching = watch_keys db args conn.watching })

-- In the order of the list; the code's goes through the map in any.
unfoldable pub is_watching_changed : Db → Dict ℕ → Bool
unfolding get_version
is_watching_changed db [] = false
is_watching_changed db ((key, ver) ∷ watching) =
    let rest = is_watching_changed db watching in not (ver == get_version key db) || rest

unfoldable pub start_multi : Conn → Reply × Conn
unfolding set_multi_state
start_multi conn =
    if conn.in_multi
    then (standard_err (codes "ERR MULTI calls can not be nested"), conn)
    else (ok, set_multi_state true conn)

unfoldable pub refuse : Reply → Conn → Reply × Conn
unfolding add_tx_error
refuse err conn = (err, add_tx_error err conn)

unfoldable pub enqueue_prepared :
    Option (List Bytes → Outcome Keys) → ℤ → Bytes → CmdLine → Conn → Reply × Conn
unfolding refuse validate_arity push_cmd
enqueue_prepared none arity name line conn =
    refuse (standard_err (codes "ERR command '" ++ (name ++ codes "' cannot be used in MULTI")))
      conn
enqueue_prepared (some prepare) arity name line conn =
    if validate_arity arity (length line)
    then (queued, push_cmd line conn)
    else refuse (arg_num_err name) conn

unfoldable pub enqueue_found : Option Command → Bytes → CmdLine → Conn → Reply × Conn
unfolding refuse unknown_command enqueue_prepared
enqueue_found none name line conn = refuse (unknown_command name) conn
enqueue_found (some cmd) name line conn = enqueue_prepared cmd.prepare cmd.arity name line conn

unfoldable pub enqueue_cmd : Table → Conn → CmdLine → Outcome (Reply × Conn)
unfolding to_lower enqueue_found
enqueue_cmd cmd_table conn [] = panics
enqueue_cmd cmd_table conn (name ∷ args) =
    returns (enqueue_found (cmd_table (to_lower name)) (to_lower name) (name ∷ args) conn)

unfoldable pub found_keys : Option Command → List Bytes → Outcome Keys
unfolding run_prepare
found_keys none args = panics
found_keys (some cmd) args = run_prepare cmd.prepare args

unfoldable pub related_keys : Table → List CmdLine → Outcome Keys
unfolding found_keys to_lower
related_keys cmd_table [] = returns ([], [])
related_keys cmd_table ([] ∷ lines) = panics
related_keys cmd_table ((name ∷ args) ∷ lines) = do
  (write, read) ← found_keys (cmd_table (to_lower name)) args
  (writes, reads) ← related_keys cmd_table lines
  returns (write ++ writes, read ++ reads)

unfoldable pub run_undo :
    Option (ℤ → List Bytes → Db → Outcome (List CmdLine × Db))
    → ℤ
    → List Bytes
    → Db
    → Outcome (List CmdLine × Db)
run_undo none now args db = returns ([], db)
run_undo (some undo) now args db = undo now args db

unfoldable pub found_undo : Option Command → ℤ → List Bytes → Db → Outcome (List CmdLine × Db)
unfolding run_undo
found_undo none now args db = returns ([], db)
found_undo (some cmd) now args db = run_undo cmd.undo now args db

-- `GetUndoLogs`: it may remove a key that has expired.
unfoldable pub get_undo_logs : Table → ℤ → CmdLine → Db → Outcome (List CmdLine × Db)
unfolding found_undo to_lower
get_undo_logs cmd_table now [] db = panics
get_undo_logs cmd_table now (name ∷ args) db = found_undo (cmd_table (to_lower name)) now args db

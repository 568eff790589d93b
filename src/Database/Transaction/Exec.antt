-- ===== src/Database/Transaction/Exec.antt =====
-- database/transaction.go: EXEC and DISCARD, and `Exec` of database/database.go.
use godis.Base.{
  ℕ, Bool, true, false, List, [], ◌∷◌, ◌++◌, reverse, Bytes, codes, bytes_eq, not, if◌then◌else◌,
}
use godis.Base.Int.{ℤ}
use godis.Base.Outcome.{Outcome, returns, panics, ◌>>=◌}
use godis.Protocol.{
  Reply, ok, empty_multi_bulk, multi_raw, standard_err, arg_num_err, Replies, nil, cons,
  is_error_reply,
}
use godis.Dict.{Dict}
use godis.Database.{Db, CmdLine, Result, add_version}
use godis.Database.Router.{Table, to_lower, exec_normal_command, exec_with_lock}
use godis.Database.Transaction.{
  Conn, set_multi_state, clear_queued_cmds, watch, is_watching_changed, start_multi, enqueue_cmd,
  related_keys, get_undo_logs,
}

-- How the loop over the queue ends: with the replies, or with the undo logs of the commands that were done.
pub data Executed : Type 0 where
  completed : (results : Replies) → Db → Executed
  aborted : (undo_logs : List (List CmdLine)) → Db → Executed

unfoldable pub add_result : Reply → Executed → Executed
add_result result (completed results db) = completed (cons result results) db
add_result result (aborted undo_logs db) = aborted undo_logs db

unfoldable pub run_queue : Table → ℤ → List CmdLine → List (List CmdLine) → Db → Outcome Executed
unfolding get_undo_logs exec_with_lock is_error_reply add_result
run_queue cmd_table now [] undo_logs db = returns (completed nil db)
run_queue cmd_table now (line ∷ lines) undo_logs db = do
  (undo, db1) ← get_undo_logs cmd_table now line db
  (result, db2) ← exec_with_lock cmd_table now line db1
  if is_error_reply result then returns (aborted undo_logs db2) else do
    executed ← run_queue cmd_table now lines (undo_logs ++ undo ∷ []) db2
    returns (add_result result executed)

unfoldable pub run_lines : Table → ℤ → List CmdLine → Db → Outcome Db
unfolding exec_with_lock
run_lines cmd_table now [] db = returns db
run_lines cmd_table now (line ∷ lines) db = do
  (result, db1) ← exec_with_lock cmd_table now line db
  run_lines cmd_table now lines db1

unfoldable pub roll_back : Table → ℤ → List (List CmdLine) → Db → Outcome Db
unfolding run_lines
roll_back cmd_table now [] db = returns db
roll_back cmd_table now (lines ∷ undo_logs) db = do
  db1 ← run_lines cmd_table now lines db
  roll_back cmd_table now undo_logs db1

abbrev pub exec_abort : Reply
exec_abort = standard_err (codes "EXECABORT Transaction discarded because of previous errors.")

unfoldable pub finish : Table → ℤ → List Bytes → Executed → Result
unfolding roll_back add_version
finish cmd_table now write_keys (completed results db) =
    returns (multi_raw results, add_version write_keys db)
finish cmd_table now write_keys (aborted undo_logs db) = do
  db1 ← roll_back cmd_table now (reverse undo_logs) db
  returns (exec_abort, db1)

unfoldable pub run_unchanged : Table → ℤ → List CmdLine → List Bytes → Db → Bool → Result
unfolding run_queue finish
run_unchanged cmd_table now lines write_keys db true = returns (empty_multi_bulk, db)
run_unchanged cmd_table now lines write_keys db false = do
  executed ← run_queue cmd_table now lines [] db
  finish cmd_table now write_keys executed

-- `ExecMulti`
unfoldable pub exec_multi_lines : Table → ℤ → Dict ℕ → List CmdLine → Db → Result
unfolding related_keys run_unchanged is_watching_changed
exec_multi_lines cmd_table now watching lines db = do
  (write_keys, read_keys) ← related_keys cmd_table lines
  run_unchanged cmd_table now lines write_keys db (is_watching_changed db watching)

abbrev pub ConnResult : Type 0
ConnResult = Outcome (Reply × (Conn × Db))

unfoldable pub with_conn : Conn → Result → ConnResult
with_conn conn r = do (reply, db) ← r; returns (reply, (conn, db))

unfoldable pub has_errors : List Reply → Bool
has_errors [] = false
has_errors (err ∷ errs) = true

-- `execMulti`
unfoldable pub exec_multi : Table → ℤ → Conn → Db → ConnResult
unfolding exec_multi_lines with_conn has_errors set_multi_state
exec_multi cmd_table now conn db =
    if not conn.in_multi
    then returns (standard_err (codes "ERR EXEC without MULTI"), (conn, db))
    else with_conn (set_multi_state false conn) (
        if has_errors conn.tx_errors
        then returns (exec_abort, db)
        else exec_multi_lines cmd_table now conn.watching conn.queue db)

unfoldable pub discard_multi : Conn → Reply × Conn
unfolding set_multi_state clear_queued_cmds
discard_multi conn =
    if conn.in_multi
    then (ok, set_multi_state false (clear_queued_cmds conn))
    else (standard_err (codes "ERR DISCARD without MULTI"), conn)

-- A reply of a command that does not change the database
unfoldable pub with_db : Db → Outcome (Reply × Conn) → ConnResult
with_db db r = do (reply, conn) ← r; returns (reply, (conn, db))

unfoldable pub only_name : List Bytes → Bool
only_name [] = true
only_name (arg ∷ args) = false

unfoldable pub exec_named : Table → ℤ → Bytes → CmdLine → List Bytes → Conn → Db → ConnResult
unfolding only_name start_multi discard_multi exec_multi watch enqueue_cmd exec_normal_command
    with_db with_conn
exec_named cmd_table now name line args conn db =
    if bytes_eq name (codes "multi")
    then with_db db
        (returns (if only_name args then start_multi conn else (arg_num_err name, conn)))
    else if bytes_eq name (codes "discard")
    then with_db db
        (returns (if only_name args then discard_multi conn else (arg_num_err name, conn)))
    else if bytes_eq name (codes "exec")
    then (if only_name args
        then exec_multi cmd_table now conn db
        else returns (arg_num_err name, (conn, db)))
    else if bytes_eq name (codes "watch")
    then with_db db
        (returns (if only_name args then (arg_num_err name, conn) else watch db conn args))
    else if conn.in_multi
    then with_db db (enqueue_cmd cmd_table conn line)
    else with_conn conn (exec_normal_command cmd_table now line db)

-- `Exec`, on a connection that is not nil
unfoldable pub exec : Table → ℤ → Conn → CmdLine → Db → ConnResult
unfolding exec_named to_lower
exec cmd_table now conn [] db = panics
exec cmd_table now conn (name ∷ args) db =
    exec_named cmd_table now (to_lower name) (name ∷ args) args conn db

-- ===== src/Database/Transaction/Accesses.antt =====
-- database/transaction.go: EXEC is made of the accesses of Raised, so that it is one of the things which may
-- come between the WATCH and the EXEC of another connection.
use godis.Base.{
  ℕ, suc, ◌≡◌, refl, Bool, true, false, Option, none, some, List, [], ◌∷◌, ◌++◌, reverse, Bytes,
  length,
}
use godis.Base.Int.{ℤ}
use godis.Base.Outcome.{Outcome, returns, panics, IfReturns, IfReturns-bind}
use godis.Protocol.{Reply, is_error_reply}
use godis.Dict.{Dict}
use godis.Database.{Db, CmdLine}
use godis.Database.Router.{
  Command, Table, to_lower, validate_arity, run_executor, locked_found, exec_with_lock,
}
use godis.Database.Transaction.{related_keys, get_undo_logs, is_watching_changed}
use godis.Database.Transaction.Exec.{
  Executed, completed, aborted, add_result, run_queue, run_lines, roll_back, finish, run_unchanged,
  exec_multi_lines,
}
use godis.Database.Transaction.Queue.{pick}
use godis.Database.Transaction.Raised.{Ran, runs, undoes, commits}

-- The outcome, if there is one, by the equation that it gives
if_returns :
    {A : Type 0} {P : A → Type 0} (r : Outcome A) → ((a : A) → r ≡ returns a → P a) → IfReturns P r
if_returns panics h = tt
if_returns (returns a) h = h a refl

module _ (cmd_table : Table) (db : Db) where
  exec_with_lock-Ran :
      {raised : List Bytes} {db1 : Db} (now : ℤ) (line : CmdLine)
      → Ran cmd_table db raised db1
      → IfReturns (λ r. Ran cmd_table db raised r.1) (exec_with_lock cmd_table now line db1)
  unfolding exec_with_lock
  exec_with_lock-Ran now [] ran = tt
  exec_with_lock-Ran {raised} {db1} now (name ∷ args) ran =
      of_found (cmd_table (to_lower name)) refl
    where
      of_found :
          (o : Option Command)
          → cmd_table (to_lower name) ≡ o
          → IfReturns
              (λ r. Ran cmd_table db raised r.1)
              (locked_found o now (to_lower name) args db1)
      of_found none found = unfold locked_found in ran
      of_found (some cmd) found =
          unfold locked_found in
          pick (IfReturns (λ r. Ran cmd_table db raised r.1))
            (validate_arity cmd.arity (suc (length args))) _ _
            (if_returns (run_executor cmd.executor now args db1)
              (λ r e. runs now (to_lower name) args ran found e))
            ran

  run_lines-Ran :
      {raised : List Bytes} {db1 : Db} (now : ℤ) (lines : List CmdLine)
      → Ran cmd_table db raised db1
      → IfReturns (Ran cmd_table db raised) (run_lines cmd_table now lines db1)
  unfolding run_lines
  run_lines-Ran now [] ran = ran
  run_lines-Ran {raised} {db1} now (line ∷ lines) ran =
      IfReturns-bind (λ r. Ran cmd_table db raised r.1) _ (exec_with_lock cmd_table now line db1) _
        (exec_with_lock-Ran now line ran) (λ r ran'. run_lines-Ran now lines ran')

  roll_back-Ran :
      {raised : List Bytes} {db1 : Db} (now : ℤ) (undo_logs : List (List CmdLine))
      → Ran cmd_table db raised db1
      → IfReturns (Ran cmd_table db raised) (roll_back cmd_table now undo_logs db1)
  unfolding roll_back
  roll_back-Ran now [] ran = ran
  roll_back-Ran {raised} {db1} now (lines ∷ undo_logs) ran =
      IfReturns-bind (Ran cmd_table db raised) _ (run_lines cmd_table now lines db1) _
        (run_lines-Ran now lines ran) (λ db2 ran'. roll_back-Ran now undo_logs ran')

  abbrev Leaves : List Bytes → Executed → Type 0
  Leaves raised (completed results db') = Ran cmd_table db raised db'
  Leaves raised (aborted undo_logs db') = Ran cmd_table db raised db'

  add_result-Leaves :
      (raised : List Bytes) (result : Reply) (executed : Executed)
      → Leaves raised executed
      → Leaves raised (add_result result executed)
  unfolding add_result
  add_result-Leaves raised result (completed results db') ran = ran
  add_result-Leaves raised result (aborted undo_logs db') ran = ran

  run_queue-Leaves :
      {raised : List Bytes} {db1 : Db} (now : ℤ) (lines : List CmdLine)
      (undo_logs : List (List CmdLine))
      → Ran cmd_table db raised db1
      → IfReturns (Leaves raised) (run_queue cmd_table now lines undo_logs db1)
  unfolding run_queue
  run_queue-Leaves now [] undo_logs ran = ran
  run_queue-Leaves {raised} {db1} now (line ∷ lines) undo_logs ran =
      IfReturns-bind (λ r. Ran cmd_table db raised r.1) _ (get_undo_logs cmd_table now line db1) _
        (if_returns (get_undo_logs cmd_table now line db1) (λ r e. undoes now line ran e))
        (λ (undo, db2) ran2.
          IfReturns-bind (λ r. Ran cmd_table db raised r.1) _
            (exec_with_lock cmd_table now line db2) _ (exec_with_lock-Ran now line ran2)
            (λ (result, db3) ran3.
              pick (IfReturns (Leaves raised)) (is_error_reply result) _ _ ran3 (
                IfReturns-bind (Leaves raised) _
                  (run_queue cmd_table now lines (undo_logs ++ undo ∷ []) db3) _
                  (run_queue-Leaves now lines (undo_logs ++ undo ∷ []) ran3)
                  (λ executed left. add_result-Leaves raised result executed left))))

  -- After an EXEC, the keys that were raised before, and those that it has raised itself
  abbrev SomeRan : Db → Type 0
  SomeRan db' = (raised : List Bytes) × Ran cmd_table db raised db'

  finish-Ran :
      {read : List Bytes} (raised : List Bytes) (now : ℤ) (lines : List CmdLine)
      (write : List Bytes) (executed : Executed)
      → related_keys cmd_table lines ≡ returns (write, read)
      → Leaves raised executed
      → IfReturns (λ r. SomeRan r.1) (finish cmd_table now write executed)
  unfolding finish
  finish-Ran raised now lines write (completed results db1) keys ran =
      (raised ++ write, commits lines write ran keys)
  finish-Ran raised now lines write (aborted undo_logs db1) keys ran =
      IfReturns-bind (Ran cmd_table db raised) _ (roll_back cmd_table now (reverse undo_logs) db1) _
        (roll_back-Ran now (reverse undo_logs) ran) (λ db2 ran'. (raised, ran'))

  -- EXEC, with what it watches and its queue, is made of accesses.
  pub exec_multi_lines-Ran :
      {raised : List Bytes} {db1 : Db} (now : ℤ) (watching : Dict ℕ) (lines : List CmdLine)
      → Ran cmd_table db raised db1
      → IfReturns (λ r. SomeRan r.1) (exec_multi_lines cmd_table now watching lines db1)
  unfolding exec_multi_lines
  exec_multi_lines-Ran {raised} {db1} now watching lines ran =
      IfReturns-bind (λ keys. related_keys cmd_table lines ≡ returns keys) _
        (related_keys cmd_table lines) _ (if_returns (related_keys cmd_table lines) (λ keys e. e))
        (λ (write, read) keys. of_test write keys (is_watching_changed db1 watching))
    where
      of_test :
          {read : List Bytes} (write : List Bytes)
          → related_keys cmd_table lines ≡ returns (write, read)
          → (changed : Bool)
          → IfReturns (λ r. SomeRan r.1) (run_unchanged cmd_table now lines write db1 changed)
      of_test write keys true = unfold run_unchanged in (raised, ran)
      of_test write keys false =
          unfold run_unchanged in
          IfReturns-bind (Leaves raised) _ (run_queue cmd_table now lines [] db1) _
            (run_queue-Leaves now lines [] ran)
            (λ executed left. finish-Ran raised now lines write executed keys left)

-- ===== src/Database/Transaction/Errors.antt =====
-- database/transaction.go: the errors that `EnqueueCmd` remembers.
use godis.Base.{
  ℕ, suc, ◌≡◌, refl, subst, inl, inr, Bool, true, false, ◌||◌, Option, none, some, List, [], ◌∷◌,
  ◌++◌, Bytes, codes, bytes_eq, leb, ◌==◌, Bool-cases, if◌then◌else◌, length, arith,
}
use godis.Base.Int.{ℤ, pos, negsuc}
use godis.Base.Outcome.{Outcome, returns, panics}
use godis.Protocol.{Reply, queued, standard_err}
use godis.Database.{Db, CmdLine}
use godis.Database.Router.{Command, Table, Keys, to_lower, validate_arity}
use godis.Database.Transaction.{
  Conn, set_multi_state, push_cmd, add_tx_error, refuse, clear_queued_cmds, enqueue_prepared,
  enqueue_found, enqueue_cmd,
}
use godis.Database.Transaction.Exec.{
  exec_abort, exec_multi, with_conn, with_db, has_errors, exec, exec_named, ConnResult,
}
use godis.Database.Transaction.Queue.{Kept, pick, Sent, Sent-keeps}

HasErrors : Conn → Type 0
HasErrors conn = has_errors conn.tx_errors ≡ true

has_errors-append :
    (errs errs' : List Reply) → has_errors errs ≡ true → has_errors (errs ++ errs') ≡ true
unfolding has_errors
has_errors-append [] errs' h = ground arith
has_errors-append (err ∷ errs) errs' h = refl

has_errors-append_one : (errs : List Reply) (err : Reply) → has_errors (errs ++ err ∷ []) ≡ true
unfolding has_errors
has_errors-append_one [] err = refl
has_errors-append_one (e ∷ errs) err = refl

errors-Kept : (cmd_table : Table) → Kept HasErrors cmd_table
unfolding HasErrors set_multi_state clear_queued_cmds enqueue_found refuse add_tx_error
    enqueue_prepared push_cmd
errors-Kept cmd_table = record {
  starts = λ conn p. p;
  ends = λ conn p. p;
  clears = λ conn p. p;
  watches = λ conn watching p. p;
  queues = λ conn name args p. found conn name args p (cmd_table (to_lower name));
}
  where
    prepared :
        (conn : Conn) (name : Bytes) (args : List Bytes) (arity : ℤ)
        → HasErrors conn
        → (o : Option (List Bytes → Outcome Keys))
        → HasErrors ((enqueue_prepared o arity (to_lower name) (name ∷ args) conn).1)
    prepared conn name args arity p none = has_errors-append conn.tx_errors _ p
    prepared conn name args arity p (some prepare) =
        pick (λ (r : Reply × Conn). HasErrors r.1) (validate_arity arity (length (name ∷ args)))
          (queued, push_cmd (name ∷ args) conn) _ p (has_errors-append conn.tx_errors _ p)

    found :
        (conn : Conn) (name : Bytes) (args : List Bytes)
        → HasErrors conn
        → (o : Option Command) → HasErrors ((enqueue_found o (to_lower name) (name ∷ args) conn).1)
    found conn name args p none = has_errors-append conn.tx_errors _ p
    found conn name args p (some cmd) = prepared conn name args cmd.arity p cmd.prepare

-- The commands that MULTI does not keep for later
abbrev pub is_immediate : Bytes → Bool
is_immediate name =
    bytes_eq name (codes "multi")
    || (bytes_eq name (codes "discard")
        || (bytes_eq name (codes "exec") || bytes_eq name (codes "watch")))

-- Whether there is a command for a line of this length, and one that can be prepared.
abbrev pub fits : Option (List Bytes → Outcome Keys) → ℤ → ℕ → Bool
fits none arity arg_num = false
fits (some prepare) (pos n) arg_num = arg_num == n
fits (some prepare) (negsuc n) arg_num = leb (suc n) arg_num

abbrev pub can_queue : Option Command → ℕ → Bool
can_queue none arg_num = false
can_queue (some cmd) arg_num = fits cmd.prepare cmd.arity arg_num

-- A line inside MULTI that cannot be queued: the command is unknown, or it cannot be prepared, or it has
-- the wrong number of arguments.
abbrev pub CannotQueue : Table → Bytes → List Bytes → Type 0
CannotQueue cmd_table name args =
    (is_immediate (to_lower name) ≡ false)
    × (can_queue (cmd_table (to_lower name)) (suc (length args)) ≡ false)

-- The connection behind a result has errors.
abbrev Marked : ConnResult → Type 0
Marked panics = Unit
Marked (returns (reply, (conn, db))) = HasErrors conn

enqueue_found-Marked :
    (conn : Conn) (name : Bytes) (line : CmdLine) (db : Db) (found : Option Command)
    → can_queue found (length line) ≡ false
    → Marked (with_db db (returns (enqueue_found found name line conn)))
unfolding with_db enqueue_found refuse add_tx_error HasErrors
enqueue_found-Marked conn name line db none h = has_errors-append_one conn.tx_errors _
enqueue_found-Marked conn name line db (some cmd) h = prepared cmd.prepare cmd.arity h
  where
    prepared :
        (o : Option (List Bytes → Outcome Keys)) (arity : ℤ)
        → fits o arity (length line) ≡ false
        → HasErrors ((enqueue_prepared o arity name line conn).1)
    prepared none arity h =
        unfold enqueue_prepared refuse add_tx_error HasErrors in
        has_errors-append_one conn.tx_errors _
    prepared (some prepare) (pos n) h =
        unfold enqueue_prepared validate_arity refuse add_tx_error HasErrors in
        rw h (has_errors-append_one conn.tx_errors _)
    prepared (some prepare) (negsuc n) h =
        unfold enqueue_prepared validate_arity refuse add_tx_error HasErrors in
        rw h (has_errors-append_one conn.tx_errors _)

exec-Marked :
    (cmd_table : Table) (now : ℤ) (conn : Conn) (name : Bytes) (args : List Bytes) (db : Db)
    → conn.in_multi ≡ true
    → CannotQueue cmd_table name args
    → Marked (exec cmd_table now conn (name ∷ args) db)
unfolding exec exec_named enqueue_cmd
exec-Marked cmd_table now conn name args db multi (later, h) =
    let not_multi : bytes_eq (to_lower name) (codes "multi") ≡ false = ground arith in
    let not_discard : bytes_eq (to_lower name) (codes "discard") ≡ false = ground arith in
    let not_exec : bytes_eq (to_lower name) (codes "exec") ≡ false = ground arith in
    let not_watch : bytes_eq (to_lower name) (codes "watch") ≡ false = ground arith in
    simp (not_multi, not_discard, not_exec, not_watch, multi)
      (enqueue_found-Marked conn (to_lower name) (name ∷ args) db (cmd_table (to_lower name)) h)

-- A connection in MULTI sends a line whose command is not MULTI, DISCARD, EXEC or WATCH and that cannot be
-- queued: the command is unknown, or it cannot be prepared, or it has the wrong number of arguments. Then no
-- later EXEC of that connection runs anything, whatever it sends in between, DISCARD and a new MULTI
-- included: inside MULTI it replies with EXECABORT, outside with an error, and the database stays as it is.
pub exec_multi-refused :
    {cmd_table : Table} {conn1 conn' : Conn} {reply : Reply} {db2 : Db} (sent_at : ℤ) (conn : Conn)
    (name : Bytes) (args : List Bytes) (db1 : Db)
    → conn.in_multi ≡ true
    → CannotQueue cmd_table name args
    → exec cmd_table sent_at conn (name ∷ args) db1 ≡ returns (reply, (conn1, db2))
    → Sent cmd_table conn1 conn'
    → (now : ℤ) (db : Db)
    → exec_multi cmd_table now conn' db ≡ (
        if conn'.in_multi
        then returns (exec_abort, (set_multi_state false conn', db))
        else returns (standard_err (codes "ERR EXEC without MULTI"), (conn', db)))
unfolding exec_multi HasErrors with_conn
exec_multi-refused {cmd_table} {conn'} sent_at conn name args db1 multi h e sent now db =
    let marked = subst Marked e (exec-Marked cmd_table sent_at conn name args db1 multi h) in
    let errors = Sent-keeps HasErrors (errors-Kept cmd_table) marked sent in
    elim (Bool-cases conn'.in_multi) [
      | inl multi ↦ simp (multi, errors) refl
      | inr free ↦ simp free refl
    ]

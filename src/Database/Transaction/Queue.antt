-- ===== src/Database/Transaction/Queue.antt =====
-- database/transaction.go: what a connection can have in its queue and among its errors.
use godis.Base.{
  ℕ, suc, ◌≡◌, refl, subst, inl, inr, Bool, true, false, Option, none, some, List, [], ◌∷◌, ◌++◌,
  Bytes, codes, bytes_eq, Bool-cases, if◌then◌else◌, not, length,
}
use godis.Base.Int.{ℤ}
use godis.Base.Outcome.{Outcome, returns, panics, Ends, Ends-bind, IfReturns}
use godis.Protocol.{Reply, arg_num_err}
use godis.Dict.{Dict}
use godis.Database.{Db, CmdLine, Result}
use godis.Database.Router.{Command, Table, Keys, to_lower, validate_arity, run_prepare}
use godis.Database.Transaction.{
  Conn, set_multi_state, push_cmd, add_tx_error, refuse, watch, start_multi, clear_queued_cmds,
  enqueue_prepared, enqueue_found, enqueue_cmd, found_keys, related_keys,
}
use godis.Database.Transaction.Exec.{
  ConnResult, discard_multi, exec_multi, with_conn, with_db, only_name, exec_named, exec,
}

-- A property of a connection that every command line keeps, if each kind of command does.
pub record Kept (P : Conn → Type 0) (cmd_table : Table) : Type 0 where
  pub starts : (conn : Conn) → P conn → P (set_multi_state true conn)
  pub ends : (conn : Conn) → P conn → P (set_multi_state false conn)
  pub clears : (conn : Conn) → P conn → P (set_multi_state false (clear_queued_cmds conn))
  pub watches : (conn : Conn) (watching : Dict ℕ) → P conn → P (record conn { watching = watching })
  pub queues :
      (conn : Conn) (name : Bytes) (args : List Bytes)
      → P conn
      → P ((enqueue_found (cmd_table (to_lower name)) (to_lower name) (name ∷ args) conn).1)

pub pick {ℓ} :
    {A : Type ℓ} (Q : A → Type 0) (b : Bool) (x y : A) → Q x → Q y → Q (if b then x else y)
pick Q true x y h h' = h
pick Q false x y h h' = h'

abbrev Sends : (Conn → Type 0) → ConnResult → Type 0
Sends P = IfReturns (λ r. P r.1.0)

module _ (P : Conn → Type 0) (cmd_table : Table) (kept : Kept P cmd_table) where
  with_conn-Sends : (conn : Conn) (r : Result) → P conn → Sends P (with_conn conn r)
  unfolding with_conn
  with_conn-Sends conn panics p = tt
  with_conn-Sends conn (returns a) p = p

  abbrev Leaves : Reply × Conn → Type 0
  Leaves r = P r.1

  exec_multi-Sends :
      (now : ℤ) (conn : Conn) (db : Db) → P conn → Sends P (exec_multi cmd_table now conn db)
  unfolding exec_multi
  exec_multi-Sends now conn db p =
      pick (Sends P) (not conn.in_multi) _ _ p
        (with_conn-Sends (set_multi_state false conn) _ (kept.ends conn p))

  start_multi-Leaves : (conn : Conn) → P conn → Leaves (start_multi conn)
  unfolding start_multi
  start_multi-Leaves conn p = pick Leaves conn.in_multi _ _ p (kept.starts conn p)

  discard_multi-Leaves : (conn : Conn) → P conn → Leaves (discard_multi conn)
  unfolding discard_multi
  discard_multi-Leaves conn p = pick Leaves conn.in_multi _ _ (kept.clears conn p) p

  exec_named-Sends :
      (now : ℤ) (name : Bytes) (args : List Bytes) (conn : Conn) (db : Db)
      → P conn
      → Sends P (exec_named cmd_table now (to_lower name) (name ∷ args) args conn db)
  unfolding exec_named with_db
  exec_named-Sends now name args conn db p =
      pick (Sends P) (bytes_eq (to_lower name) (codes "multi")) _ _
        (pick Leaves (only_name args) (start_multi conn) (arg_num_err (to_lower name), conn)
          (start_multi-Leaves conn p) p)
        (pick (Sends P) (bytes_eq (to_lower name) (codes "discard")) _ _
          (pick Leaves (only_name args) (discard_multi conn) (arg_num_err (to_lower name), conn)
            (discard_multi-Leaves conn p) p)
          (pick (Sends P) (bytes_eq (to_lower name) (codes "exec")) _ _
            (pick (Sends P) (only_name args) _ _ (exec_multi-Sends now conn db p) p)
            (pick (Sends P) (bytes_eq (to_lower name) (codes "watch")) _ _
              (pick Leaves (only_name args) (arg_num_err (to_lower name), conn) (watch db conn args)
                p (unfold watch in kept.watches conn _ p))
              (pick (Sends P) conn.in_multi (with_db db (enqueue_cmd cmd_table conn (name ∷ args)))
                _ (unfold enqueue_cmd in kept.queues conn name args p)
                (with_conn-Sends conn _ p)))))

  exec-Sends :
      (now : ℤ) (conn : Conn) (line : CmdLine) (db : Db)
      → P conn
      → Sends P (exec cmd_table now conn line db)
  unfolding exec
  exec-Sends now conn [] db p = tt
  exec-Sends now conn (name ∷ args) db p = exec_named-Sends now name args conn db p

-- The connection, after any command lines on any databases
pub data Sent (cmd_table : Table) (conn : Conn) : Conn → Type 0 where
  nothing : Sent cmd_table conn conn
  line :
      {conn1 conn2 : Conn} {reply : Reply} (now : ℤ) (cmd_line : CmdLine) (db : Db) {db' : Db}
      → Sent cmd_table conn conn1
      → exec cmd_table now conn1 cmd_line db ≡ returns (reply, (conn2, db'))
      → Sent cmd_table conn conn2

pub Sent-keeps :
    {cmd_table : Table} {conn conn' : Conn} (P : Conn → Type 0)
    → Kept P cmd_table
    → P conn
    → Sent cmd_table conn conn'
    → P conn'
Sent-keeps P kept p nothing = p
Sent-keeps {cmd_table} P kept p (line {conn1} now cmd_line db sent e) =
    subst (Sends P) e (exec-Sends P cmd_table kept now conn1 cmd_line db (Sent-keeps P kept p sent))

abbrev pub new_conn : Conn
new_conn = record { in_multi = false; queue = []; watching = []; tx_errors = [] }

-- The command of a queued line can be prepared, and has the number of arguments that it wants.
abbrev FoundQueueable : Option Command → ℕ → Type 0
FoundQueueable none arg_num = ⊥
FoundQueueable (some cmd) arg_num =
    ((prepare : List Bytes → Outcome Keys) × (cmd.prepare ≡ some prepare))
    × (validate_arity cmd.arity arg_num ≡ true)

abbrev Queueable : Table → List CmdLine → Type 0
Queueable cmd_table [] = Unit
Queueable cmd_table ([] ∷ lines) = ⊥
Queueable cmd_table ((name ∷ args) ∷ lines) =
    FoundQueueable (cmd_table (to_lower name)) (length (name ∷ args)) × Queueable cmd_table lines

Queueable-append :
    (cmd_table : Table) (lines lines' : List CmdLine)
    → Queueable cmd_table lines
    → Queueable cmd_table lines'
    → Queueable cmd_table (lines ++ lines')
Queueable-append cmd_table [] lines' h h' = h'
Queueable-append cmd_table ((name ∷ args) ∷ lines) lines' (h, hs) h' =
    (h, Queueable-append cmd_table lines lines' hs h')
Queueable-append cmd_table ([] ∷ lines) lines' h h' = absurd h

queue-Kept : (cmd_table : Table) → Kept (λ conn. Queueable cmd_table conn.queue) cmd_table
unfolding set_multi_state clear_queued_cmds
queue-Kept cmd_table = record {
  starts = λ conn p. p;
  ends = λ conn p. tt;
  clears = λ conn p. tt;
  watches = λ conn watching p. p;
  queues = λ conn name args p. found conn name args p (cmd_table (to_lower name)) refl;
}
  where
    prepared :
        (conn : Conn) (name : Bytes) (args : List Bytes) (cmd : Command)
        (o : Option (List Bytes → Outcome Keys))
        → Queueable cmd_table conn.queue
        → cmd_table (to_lower name) ≡ some cmd
        → cmd.prepare ≡ o
        → Queueable cmd_table
            ((enqueue_prepared o cmd.arity (to_lower name) (name ∷ args) conn).1).queue
    prepared conn name args cmd none p e e' = unfold enqueue_prepared refuse add_tx_error in p
    prepared conn name args cmd (some prepare) p e e' =
        elim (Bool-cases (validate_arity cmd.arity (length (name ∷ args)))) [
          | inr bad ↦ unfold enqueue_prepared refuse add_tx_error in rw bad p
          | inl good ↦
              unfold enqueue_prepared push_cmd in
              rw good (
                Queueable-append cmd_table conn.queue ((name ∷ args) ∷ []) p
                  (rw e (((prepare, e'), good)), tt))
        ]

    found :
        (conn : Conn) (name : Bytes) (args : List Bytes)
        → Queueable cmd_table conn.queue
        → (o : Option Command) → cmd_table (to_lower name) ≡ o
        → Queueable cmd_table ((enqueue_found o (to_lower name) (name ∷ args) conn).1).queue
    found conn name args p none e = unfold enqueue_found refuse add_tx_error in p
    found conn name args p (some cmd) e =
        unfold enqueue_found in prepared conn name args cmd cmd.prepare p e refl

-- `prepare` returns on as many arguments as the command wants.
abbrev PrepareReturns : ℤ → Option (List Bytes → Outcome Keys) → Type 0
PrepareReturns arity none = Unit
PrepareReturns arity (some prepare) =
    (args : List Bytes)
    → validate_arity arity (suc (length args)) ≡ true
    → Ends (λ keys. Unit) (prepare args)

abbrev FoundReturns : Option Command → Type 0
FoundReturns none = Unit
FoundReturns (some cmd) = PrepareReturns cmd.arity cmd.prepare

abbrev pub PreparesReturn : Table → Type 0
PreparesReturn cmd_table = (name : Bytes) → FoundReturns (cmd_table name)

Queueable-related_keys :
    (cmd_table : Table) (lines : List CmdLine)
    → PreparesReturn cmd_table
    → Queueable cmd_table lines
    → Ends (λ keys. Unit) (related_keys cmd_table lines)
unfolding related_keys found_keys run_prepare
Queueable-related_keys cmd_table [] returns_keys q = tt
Queueable-related_keys cmd_table ([] ∷ lines) returns_keys q = absurd q
Queueable-related_keys cmd_table ((name ∷ args) ∷ lines) returns_keys (h, hs) =
    Ends-bind (λ keys. Unit) (λ keys. Unit) (found_keys (cmd_table (to_lower name)) args) _
      (found (cmd_table (to_lower name)) (returns_keys (to_lower name)) h)
      (λ keys u.
        Ends-bind (λ keys. Unit) (λ keys. Unit) (related_keys cmd_table lines) _
          (Queueable-related_keys cmd_table lines returns_keys hs) (λ keys u. tt))
  where
    found :
        (o : Option Command)
        → FoundReturns o
        → FoundQueueable o (length (name ∷ args))
        → Ends (λ keys. Unit) (found_keys o args)
    found none r q = absurd q
    found (some cmd) r ((prepare, e), good) =
        rw e ((subst (PrepareReturns cmd.arity) e r) args good)

-- Whatever lines a client sends, on whatever databases they run: the commands that are in its queue when
-- it sends EXEC are in the table, can be prepared and have the arguments that they want, so that the keys
-- that EXEC locks are found without a panic. The `prepare` functions return on as many arguments as
-- their commands want.
pub Sent-related_keys :
    {cmd_table : Table} {conn : Conn}
    → PreparesReturn cmd_table
    → Sent cmd_table new_conn conn
    → Ends (λ keys. Unit) (related_keys cmd_table conn.queue)
Sent-related_keys {cmd_table} {conn} returns_keys sent =
    Queueable-related_keys cmd_table conn.queue returns_keys
      (Sent-keeps (λ c. Queueable cmd_table c.queue) (queue-Kept cmd_table) tt sent)

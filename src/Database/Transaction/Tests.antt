-- ===== src/Database/Transaction/Tests.antt =====
-- database/transaction.go: a transaction, watched and not, with the command SETNX.
use godis.Base.{
  ◌≡◌, refl, true, false, none, some, List, [], ◌∷◌, ◌++◌, Bytes, codes, bytes_eq, Bool-cases, inl,
  inr, if◌then◌else◌, arith, suc, length,
}
use godis.Base.Int.{pos}
use godis.Base.Outcome.{returns, panics, Ends}
use godis.Protocol.{standard_err}
use godis.Database.{Db, Result, add_version, make_db, CmdLine}
use godis.Database.TxUtils.{write_first_key}
use godis.Database.Router.{Command, Table, validate_arity}
use godis.Database.String.{exec_set_nx}
use godis.Database.Transaction.{Conn, set_multi_state, watch_keys, related_keys, set_multi_state}
use godis.Database.Transaction.Exec.{exec_multi, exec_abort, exec, has_errors}
use godis.Database.Transaction.Watch.{touched}
use godis.Database.Transaction.Queue.{
  new_conn, Sent, PreparesReturn, Sent-related_keys, nothing, line,
}
use godis.Database.Transaction.Errors.{exec_multi-refused}

abbrev set_nx : Command
set_nx = record {
  executor = some exec_set_nx;
  prepare = some write_first_key;
  undo = none;
  arity = pos 3;
}

abbrev table : Table
table name = if bytes_eq name (codes "setnx") then some set_nx else none

write_first_key-Ends :
    (args : List Bytes)
    → validate_arity (pos 3) (suc (length args)) ≡ true
    → Ends (λ keys. Unit) (write_first_key args)
unfolding validate_arity write_first_key
write_first_key-Ends [] h = ground arith
write_first_key-Ends (key ∷ args) h = tt

table-PreparesReturn : PreparesReturn table
table-PreparesReturn name = elim (Bool-cases (bytes_eq name (codes "setnx"))) [
  | inl e ↦ rw e write_first_key-Ends
  | inr e ↦ rw e tt
]

abbrev k : Bytes
k = codes "k"

abbrev set_k : Bytes → CmdLine
set_k value = codes "SETNX" ∷ k ∷ value ∷ []

-- The database after the two accesses of another connection's SETNX k a
abbrev raised_k : Db
raised_k = add_version (k ∷ []) make_db

abbrev db_of : Result → Db
db_of (returns (reply, db)) = db
db_of panics = make_db

abbrev db_after : Db
db_after = db_of (exec_set_nx (pos 1) (k ∷ codes "a" ∷ []) raised_k)

-- WATCH k, MULTI, SETNX k b
abbrev watching_k : Conn
watching_k = record {
  in_multi = true;
  queue = set_k (codes "b") ∷ [];
  watching = watch_keys make_db (k ∷ []) [];
  tx_errors = [];
}

was_touched : touched (k ∷ []) (k ∷ []) ≡ true
unfolding touched bytes_eq
was_touched = refl

abbrev in_multi : Conn
in_multi = record new_conn { in_multi = true }

abbrev with_queue : Conn
with_queue = record in_multi { queue = set_k (codes "a") ∷ [] }

queued_set_nx : Sent table new_conn with_queue
unfolding exec bytes_eq write_first_key
queued_set_nx =
    line (pos 2) (set_k (codes "a")) make_db
      (line (pos 1) (codes "MULTI" ∷ []) make_db nothing refl) refl

Sent-related_keys_example : Ends (λ keys. Unit) (related_keys table with_queue.queue)
Sent-related_keys_example = Sent-related_keys table-PreparesReturn queued_set_nx

-- The connection after MULTI and the command `foo`, which is unknown
abbrev refused : Conn
refused = record in_multi {
  tx_errors = standard_err (codes "ERR unknown command '" ++ (codes "foo" ++ codes "'")) ∷ [];
}

abbrev again : Conn
again = record refused { in_multi = true }

-- DISCARD, and MULTI again
multi_again : Sent table refused again
unfolding exec bytes_eq
multi_again =
    line (pos 3) (codes "MULTI" ∷ []) make_db
      (line (pos 2) (codes "DISCARD" ∷ []) make_db nothing refl) refl

exec_multi-refused_example :
    exec_multi table (pos 4) again make_db
    ≡ returns (exec_abort, (set_multi_state false again, make_db))
unfolding has_errors exec bytes_eq
exec_multi-refused_example =
    exec_multi-refused (pos 1) in_multi (codes "foo") [] make_db refl (refl, refl) refl multi_again
      (pos 4) make_db

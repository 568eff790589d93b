-- ===== src/Database/HashCommands/Tests.antt =====
-- database/hash.go: HSET and its undo log on a small hash.
use godis.Base.{refl, some, none, [], ◌∷◌, Bytes, codes, bytes_eq, arith, if◌then◌else◌}
use godis.Base.Int.{pos}
use godis.Base.Outcome.{Ends}
use godis.Dict.{get}
use godis.Database.{Db, make_db, hash_table, after}
use godis.Database.Expiry.{visible}
use godis.Database.Router.{Table, exec_with_lock}
use godis.Database.Transaction.{get_undo_logs}
use godis.Database.Transaction.Exec.{run_lines}
use godis.Database.HashCommands.{Hash}
use godis.Database.HashCommands.Laws.{
  h_set_command, h_del_command, SameHash, h_set_line, undo_h_set-SameHash,
}

abbrev key : Bytes
key = codes "h"

abbrev fields : Hash
fields = (codes "f", codes "1") ∷ []

abbrev a_hash : Db
a_hash = record make_db { data_map = (key, hash_table fields) ∷ [] }

abbrev table : Table
table name =
    if bytes_eq name (codes "hset")
    then some h_set_command
    else if bytes_eq name (codes "hdel")
    then some h_del_command
    else none

undo_h_set-SameHash_example :
    Ends
      (λ taken.
        Ends
          (λ done. Ends (SameHash (pos 3) key fields) (run_lines table (pos 3) taken.0 done.1))
          (exec_with_lock table (pos 3) (h_set_line key (codes "g") (codes "2")) taken.1))
      (get_undo_logs table (pos 3) (h_set_line key (codes "g") (codes "2")) a_hash)
unfolding visible get bytes_eq after make_db
undo_h_set-SameHash_example =
    undo_h_set-SameHash table (pos 3) key (codes "g") (codes "2") fields a_hash refl refl refl
      (omega arith)

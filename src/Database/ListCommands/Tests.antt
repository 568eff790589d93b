-- ===== src/Database/ListCommands/Tests.antt =====
-- database/list.go: the commands on a small list.
use godis.Base.{refl, some, Option, List, [], ◌∷◌, Bytes, codes, bytes_eq, arith}
use godis.Base.Int.{pos, negsuc}
use godis.Strconv.{parse_int}
use godis.Dict.{get}
use godis.QuickList.View.{Represents}
use godis.Database.{Db, make_db, quick_list, after}
use godis.Database.Expiry.{visible}
use godis.Database.ListCommands.{Items}
use godis.Database.ListCommands.Laws.{ListAnswers, end_commands-ListAnswers}
use godis.Database.ListCommands.{exec_l_range}
use godis.Database.ListCommands.Range.{Replies, exec_l_range-Replies}

abbrev key : Bytes
key = codes "l"

abbrev elements : List (Option Bytes)
elements = some (codes "x") ∷ some (codes "y") ∷ []

abbrev items : Items
items = record { pages = record { items = elements; cap = 4 } ∷ []; size = 2 }

abbrev a_list : Db
a_list = record make_db { data_map = (key, quick_list items) ∷ [] }

items-Represents : Represents items elements
items-Represents = record {
  elements = refl;
  pages_ok = ((omega arith, omega arith), tt);
  counted = refl;
}

end_commands-ListAnswers_example :
    ListAnswers (λ old needed. needed) (pos 3) key (codes "z" ∷ []) elements a_list
unfolding visible get bytes_eq after make_db
end_commands-ListAnswers_example =
    end_commands-ListAnswers (λ old needed. needed) (pos 3) key (codes "z" ∷ []) items elements
      a_list (λ old needed. omega arith) refl items-Represents

exec_l_range-Replies_example :
    Replies
      (some (codes "y") ∷ [])
      a_list
      (exec_l_range (pos 3) (key ∷ codes "-1" ∷ codes "5" ∷ []) a_list)
unfolding visible get bytes_eq after make_db parse_int
exec_l_range-Replies_example =
    exec_l_range-Replies (pos 3) key (codes "-1") (codes "5") [] (negsuc 0) (pos 5) items elements
      a_list refl refl refl items-Represents (omega arith)

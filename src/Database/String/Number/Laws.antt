-- ===== src/Database/String/Number/Laws.antt =====
-- database/string.go: INCRBY and DECRBY on a number: the reply and what every reader sees afterwards.
use godis.Base.{◌≡◌, refl, some, List, ◌∷◌, Bytes}
use godis.Base.Int.{ℤ, pos, ◌+ℤ◌, ◌-ℤ◌}
use godis.Strconv.{parse_int, format_int, wrap64}
use godis.Strconv.RoundTrip.{parse_int-format_int, wrap64-IsInt64}
use godis.Protocol.{int}
use godis.Database.{text, CmdLine, Db, Result}
use godis.Database.Expiry.{visible}
use godis.Database.Writes.{updated, over, add_aof-visible, store-over}
use godis.Database.String.{get_as_string, with_string, store}
use godis.Database.String.Laws.{Answers, get_as_string-text}
use godis.Database.String.Number.{
  update_number, put_number, add_parsed, exec_incr, exec_decr, exec_incr_by, exec_decr_by,
}

-- The reply is the number `z`; the key shows its digits, which are read back as `z`, for as long as it
-- would have shown its old value; and the other keys are as before.
abbrev pub SetsNumber : ℤ → Bytes → Db → ℤ → Result → Type 0
SetsNumber now key db z result =
    Answers (int z) now
      (λ t j. updated key (over (text (some (format_int z))) (visible t db key)) (visible t db j) j)
      result
    × (parse_int (format_int z) ≡ some z)

update_number-SetsNumber :
    (now : ℤ) (key b value : Bytes) (line : CmdLine) (f : ℤ → ℤ) (val z : ℤ) (db : Db)
    → visible now db key ≡ some (text (some b))
    → parse_int b ≡ some val
    → SetsNumber now key db (wrap64 (f val)) (
        with_string (get_as_string now key db) (update_number key line (λ v. wrap64 (f v)) value z))
unfolding update_number add_parsed put_number
update_number-SetsNumber now key b value line f val z db h e =
    rw (get_as_string-text now key db (some b) h, e)
      (
        (
          refl,
          λ t j le.
              rw (add_aof-visible t line (store key (some (format_int (wrap64 (f val)))) db) j)
                (store-over now t key j (some (format_int (wrap64 (f val)))) db (text (some b)) h),
        ),
        parse_int-format_int _ (wrap64-IsInt64 (f val)),
      )

-- INCRBY on a key that shows a number, by a number, replies their sum, wrapped around to an int64. The
-- key shows its digits, which are read back as it, for as long as it would have shown its old value, and
-- the other keys are as before.
pub exec_incr_by-SetsNumber :
    (now : ℤ) (key b raw_delta : Bytes) (args : List Bytes) (val delta : ℤ) (db : Db)
    → visible now db key ≡ some (text (some b))
    → parse_int b ≡ some val
    → parse_int raw_delta ≡ some delta
    → SetsNumber now key db (wrap64 (val +ℤ delta)) (exec_incr_by now (key ∷ raw_delta ∷ args) db)
unfolding exec_incr_by
exec_incr_by-SetsNumber now key b raw_delta args val delta db h e e' =
    rw (e', exec_incr_by)
      (update_number-SetsNumber now key b raw_delta _ (λ v. v +ℤ delta) val delta db h e)

-- DECRBY on a key that shows a number, by a number, replies their difference, wrapped around to an
-- int64. The key shows its digits, which are read back as it, for as long as it would have shown its
-- old value, and the other keys are as before.
pub exec_decr_by-SetsNumber :
    (now : ℤ) (key b raw_delta : Bytes) (args : List Bytes) (val delta : ℤ) (db : Db)
    → visible now db key ≡ some (text (some b))
    → parse_int b ≡ some val
    → parse_int raw_delta ≡ some delta
    → SetsNumber now key db (wrap64 (val -ℤ delta)) (exec_decr_by now (key ∷ raw_delta ∷ args) db)
unfolding exec_decr_by
exec_decr_by-SetsNumber now key b raw_delta args val delta db h e e' =
    rw (e', exec_decr_by) (update_number-SetsNumber now key b _ _ (λ v. v -ℤ delta) val _ db h e)

-- INCR and DECR on a key that shows a number set the next number and the one before, wrapped around to
-- an int64: the reply, the digits that the key shows for as long as its old value, and the other keys as
-- before.
pub exec_incr-SetsNumber :
    (now : ℤ) (key b : Bytes) (args : List Bytes) (val : ℤ) (db : Db)
    → visible now db key ≡ some (text (some b))
    → parse_int b ≡ some val
    → SetsNumber now key db (wrap64 (val +ℤ pos 1)) (exec_incr now (key ∷ args) db)
      × SetsNumber now key db (wrap64 (val -ℤ pos 1)) (exec_decr now (key ∷ args) db)
unfolding exec_incr exec_decr
exec_incr-SetsNumber now key b args val db h e = (
  update_number-SetsNumber now key b _ _ (λ v. v +ℤ pos 1) val _ db h e,
  update_number-SetsNumber now key b _ _ (λ v. v -ℤ pos 1) val _ db h e,
)

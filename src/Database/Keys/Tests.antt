-- ===== src/Database/Keys/Tests.antt =====
-- database/keys.go: the commands on keys, on a small database.
use godis.Base.{◌≡◌, ◌^◌, ◌-◌, ◌+◌, ◌*◌, refl, some, [], ◌∷◌, Bytes, codes, bytes_eq}
use godis.Base.Int.{pos, negsuc, ◌+ℤ◌, ◌-ℤ◌, ◌*ℤ◌}
use godis.Strconv.{parse_int, wrap64}
use godis.Dict.{get}
use godis.Database.{Db, text, make_db, after}
use godis.Database.Expiry.{visible}
use godis.Database.Keys.{exec_rename}
use godis.Database.Keys.Expire.{
  exec_expire, exec_expire_at, exec_p_expire, exec_p_expire_at, unix_time, unix_to_internal,
}
use godis.Database.Keys.Laws.{
  ExpireAnswers, expire_commands-ExpireAnswers, RenameAnswers, exec_rename-RenameAnswers,
}

abbrev a : Bytes
a = codes "a"

abbrev b : Bytes
b = codes "b"

-- The key `b` expires at the time 9.
abbrev two_keys : Db
two_keys = record make_db {
  data_map = (a, text (some (codes "1"))) ∷ (b, text (some (codes "2"))) ∷ [];
  ttl_map = (b, pos 9) ∷ [];
}

-- EXPIREAT with the largest number gives a time in the past.
wrapped_time : unix_time (pos (2 ^ 63 - 1)) ≡ negsuc (2 ^ 63 * 1000000000 + 999999999)
unfolding unix_time unix_to_internal wrap64 ◌+ℤ◌ ◌-ℤ◌ ◌*ℤ◌
wrapped_time = refl

expire_commands-ExpireAnswers_example :
    ExpireAnswers
      (λ n. pos 5 +ℤ wrap64 (n *ℤ pos 1000000000))
      (pos 5)
      a
      (some (pos 3))
      (some (text (some (codes "1"))))
      two_keys
      (exec_expire (pos 5) (a ∷ codes "3" ∷ []) two_keys)
    × ExpireAnswers
        (λ n. (wrap64 (n +ℤ pos 62135596800) -ℤ pos 62135596800) *ℤ pos 1000000000)
        (pos 5)
        a
        (some (pos 3))
        (some (text (some (codes "1"))))
        two_keys
        (exec_expire_at (pos 5) (a ∷ codes "3" ∷ []) two_keys)
    × ExpireAnswers
        (λ n. pos 5 +ℤ wrap64 (n *ℤ pos 1000000))
        (pos 5)
        a
        (some (pos 3))
        (some (text (some (codes "1"))))
        two_keys
        (exec_p_expire (pos 5) (a ∷ codes "3" ∷ []) two_keys)
    × ExpireAnswers
        (λ n. wrap64 (n *ℤ pos 1000000))
        (pos 5)
        a
        (some (pos 3))
        (some (text (some (codes "1"))))
        two_keys
        (exec_p_expire_at (pos 5) (a ∷ codes "3" ∷ []) two_keys)
unfolding visible get bytes_eq after parse_int make_db
expire_commands-ExpireAnswers_example =
    expire_commands-ExpireAnswers (pos 5) a (codes "3") [] two_keys

exec_rename-RenameAnswers_example :
    RenameAnswers
      (pos 5)
      a
      b
      (some (text (some (codes "1"))))
      two_keys
      (exec_rename (pos 5) (a ∷ b ∷ []) two_keys)
unfolding visible get bytes_eq after make_db
exec_rename-RenameAnswers_example = exec_rename-RenameAnswers (pos 5) a b two_keys refl

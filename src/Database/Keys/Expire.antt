-- ===== src/Database/Keys/Expire.antt =====
-- database/keys.go: EXPIRE, EXPIREAT, EXPIRETIME, TTL, their forms in milliseconds, and PERSIST.
-- A `time.Duration` is an int64 of nanoseconds. What `math.Round` makes of a duration's `Seconds`, a
-- float, is a parameter of TTL; of the milliseconds of a duration it is the number itself.
use godis.Base.{Option, none, some, List, [], ◌∷◌, Bytes, codes, ◌/◌, ◌^◌, ◌-◌, ℕ, if◌then◌else◌}
use godis.Base.Int.{ℤ, pos, negsuc, ltb_ℤ, ◌+ℤ◌, ◌-ℤ◌, ◌*ℤ◌}
use godis.Base.Outcome.{Outcome, returns, panics}
use godis.Strconv.{parse_int, format_int, wrap64}
use godis.Protocol.{Reply, int}
use godis.Dict.{get}
use godis.Utils.{to_cmd_line3}
use godis.Database.{Data, CmdLine, Db, Result, get_entity, expire, persist, add_aof}
use godis.Database.String.{expire_cmd, millis}
use godis.Database.String.Number.{not_an_integer}

-- A key of a time: the reply 0 without the key, and else the expiry time is set and logged.
expire_found : Bytes → ℤ → Option Data × Db → Reply × Db
expire_found key expire_at (none, db) = (int (pos 0), db)
expire_found key expire_at (some entity, db) =
    (int (pos 1), add_aof (expire_cmd key expire_at) (expire key expire_at db))

-- What EXPIRE, EXPIREAT, PEXPIRE and PEXPIREAT do with the time that they compute from a number.
expire_parsed : (ℤ → ℤ) → ℤ → Bytes → Option ℤ → Db → Reply × Db
unfolding expire_found not_an_integer
expire_parsed expire_at now key none db = (not_an_integer, db)
expire_parsed expire_at now key (some n) db = expire_found key (expire_at n) (get_entity now key db)

unfoldable pub expire_by : (ℤ → ℤ) → ℤ → List Bytes → Db → Result
unfolding expire_parsed
expire_by expire_at now (key ∷ arg ∷ args) db =
    returns (expire_parsed expire_at now key (parse_int arg) db)
expire_by expire_at now _ db = panics

-- `time.Now().Add(time.Duration(ttlArg) * time.Second)`
unfoldable pub exec_expire : ℤ → List Bytes → Db → Result
exec_expire now = expire_by (λ n. now +ℤ wrap64 (n *ℤ pos 1000000000)) now

-- The seconds between the year 1 and the year 1970
unfoldable pub unix_to_internal : ℤ
unix_to_internal = pos 62135596800

-- `time.Unix(sec, 0)`: a `time.Time` counts its seconds from the year 1, in an int64.
unfoldable pub unix_time : ℤ → ℤ
unfolding unix_to_internal
unix_time sec = (wrap64 (sec +ℤ unix_to_internal) -ℤ unix_to_internal) *ℤ pos 1000000000

unfoldable pub exec_expire_at : ℤ → List Bytes → Db → Result
exec_expire_at now = expire_by unix_time now

unfoldable pub exec_p_expire : ℤ → List Bytes → Db → Result
exec_p_expire now = expire_by (λ n. now +ℤ wrap64 (n *ℤ pos 1000000)) now

-- `time.Unix(0, raw*int64(time.Millisecond))`
unfoldable pub exec_p_expire_at : ℤ → List Bytes → Db → Result
exec_p_expire_at now = expire_by (λ n. wrap64 (n *ℤ pos 1000000)) now

ttl_reply : (ℤ → ℤ) → Option ℤ → ℤ
ttl_reply f none = negsuc 0
ttl_reply f (some expire_time) = f expire_time

ttl_found : (ℤ → ℤ) → Bytes → Option Data × Db → Reply × Db
unfolding ttl_reply
ttl_found f key (none, db) = (int (negsuc 1), db)
ttl_found f key (some entity, db) = (int (ttl_reply f (get db.ttl_map key)), db)

-- What EXPIRETIME, TTL and their forms do: -2 without the key, -1 without an expiry time.
unfoldable pub ttl_by : (ℤ → ℤ) → ℤ → List Bytes → Db → Result
unfolding ttl_found
ttl_by f now [] db = panics
ttl_by f now (key ∷ args) db = returns (ttl_found f key (get_entity now key db))

-- Of an integer, rounded down
unfoldable pub floor_div : ℤ → ℕ → ℤ
floor_div (pos n) d = pos (n / d)
floor_div (negsuc n) d = negsuc (n / d)

unfoldable pub exec_expire_time : ℤ → List Bytes → Db → Result
unfolding floor_div
exec_expire_time now = ttl_by (λ t. wrap64 (floor_div t 1000000000)) now

unfoldable pub exec_p_expire_time : ℤ → List Bytes → Db → Result
unfolding floor_div
exec_p_expire_time now = ttl_by (λ t. wrap64 (floor_div t 1000000)) now

-- `expireTime.Sub(time.Now())`: the largest or smallest duration where the difference is none.
unfoldable pub sub_time : ℤ → ℤ → ℤ
sub_time t u =
    let d = t -ℤ u in
    if ltb_ℤ (pos (2 ^ 63 - 1)) d
    then pos (2 ^ 63 - 1)
    else if ltb_ℤ d (negsuc (2 ^ 63 - 1))
    then negsuc (2 ^ 63 - 1)
    else d

unfoldable pub exec_ttl : (ℤ → ℤ) → ℤ → List Bytes → Db → Result
unfolding sub_time
exec_ttl round_seconds now = ttl_by (λ t. round_seconds (sub_time t now)) now

unfoldable pub exec_p_ttl : ℤ → List Bytes → Db → Result
unfolding sub_time millis
exec_p_ttl now = ttl_by (λ t. millis (sub_time t now)) now

persist_ttl : Bytes → List Bytes → Option ℤ → Db → Reply × Db
persist_ttl key args none db = (int (pos 0), db)
persist_ttl key args (some t) db =
    (int (pos 1), add_aof (to_cmd_line3 (codes "persist") (key ∷ args)) (persist key db))

persist_found : Bytes → List Bytes → Option Data × Db → Reply × Db
unfolding persist_ttl
persist_found key args (none, db) = (int (pos 0), db)
persist_found key args (some entity, db) = persist_ttl key args (get db.ttl_map key) db

unfoldable pub exec_persist : ℤ → List Bytes → Db → Result
unfolding persist_found
exec_persist now [] db = panics
exec_persist now (key ∷ args) db = returns (persist_found key args (get_entity now key db))

ttl_cmd : Bytes → Option ℤ → CmdLine
unfolding millis
ttl_cmd key none = codes "PERSIST" ∷ key ∷ []
ttl_cmd key (some t) = codes "PEXPIREAT" ∷ key ∷ format_int (millis (wrap64 t)) ∷ []

-- `toTTLCmd(db, key).Args`
unfoldable pub to_ttl_cmd : Bytes → Db → CmdLine
unfolding ttl_cmd
to_ttl_cmd key db = ttl_cmd key (get db.ttl_map key)

unfoldable pub undo_expire : List Bytes → Db → Outcome (List CmdLine)
unfolding to_ttl_cmd
undo_expire [] db = panics
undo_expire (key ∷ args) db = returns (to_ttl_cmd key db ∷ [])

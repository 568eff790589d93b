-- ===== src/Database/String/Options.antt =====
-- database/string.go: `execSet` and `execGetEX` with the loops over their options.
pub mod Reading
pub mod Rounds
pub mod Loop
pub mod Laws
use godis.Base.{
  ℕ, zero, suc, ◌-◌, Bool, true, false, not, ◌&&◌, ◌⊎◌, inl, inr, Option, none, some, List, [], ◌∷◌,
  Bytes, codes, bytes_eq, leb, if◌then◌else◌,
}
use godis.Base.Int.{ℤ, pos, negsuc, ◌*ℤ◌}
use godis.Base.Outcome.{returns, panics}
use godis.Strconv.{parse_int, wrap64}
use godis.Protocol.{Reply, null_bulk, bulk, ok, standard_err, syntax_err}
use godis.Utils.{to_cmd_line3}
use godis.Database.{
  text, CmdLine, Db, Result, put_entity, put_entity_if_absent, put_entity_if_exists, expire,
  persist, add_aof,
}
use godis.Database.String.{get_as_string, with_string, deadline, expire_cmd, is_positive}

-- `strings.ToUpper` of an ASCII string
unfoldable pub to_upper : Bytes → Bytes
to_upper [] = []
to_upper (c ∷ s) = (if leb b'a' c && leb c b'z' then c - 32 else c) ∷ to_upper s

pub data Word : Type 0 where
  nx xx ex px persist_word unknown : Word

unfoldable pub word_of : Bytes → Word
word_of arg =
    if bytes_eq arg (codes "NX")
    then nx
    else if bytes_eq arg (codes "XX")
    then xx
    else if bytes_eq arg (codes "EX")
    then ex
    else if bytes_eq arg (codes "PX")
    then px
    else if bytes_eq arg (codes "PERSIST")
    then persist_word
    else unknown

unfoldable pub word : Bytes → Word
unfolding word_of to_upper
word arg = word_of (to_upper arg)

-- One round of a loop over options: it goes on, it has taken the next argument too, or the
-- command returns a reply.
pub data Round (S : Type 0) : Type 0 where
  next : S → Round S
  skip : S → Round S
  reject : Reply → S → Round S

-- The loop: `step` has the option and the argument behind it, if there is one.
unfoldable pub options :
    {S : Type 0} → (Word → Option Bytes → S → Round S) → List Bytes → S → (Reply × S) ⊎ S
options step [] s = inr s
options step (arg ∷ []) s = elim (step (word arg) none s) [
  | next s ↦ inr s
  | skip s ↦ inr s
  | reject r s ↦ inl (r, s)
]
options step (arg ∷ value ∷ args) s = elim (step (word arg) (some value) s) [
  | next s ↦ options step (value ∷ args) s
  | skip s ↦ options step args s
  | reject r s ↦ inl (r, s)
]

-- `ttl != unlimitedTTL`
abbrev pub is_limited : ℤ → Bool
is_limited (pos zero) = false
is_limited _ = true

-- The ttl in milliseconds that an EX or a PX reads.
unfoldable pub read_ttl : Reply → (ℤ → ℤ) → Option ℤ → Reply ⊎ ℤ
unfolding is_positive
read_ttl invalid scale none = inl syntax_err
read_ttl invalid scale (some ttl_arg) =
    if is_positive ttl_arg then inr (scale ttl_arg) else inl invalid

unfoldable pub next_ttl : Reply → (ℤ → ℤ) → ℤ → Option Bytes → Reply ⊎ ℤ
unfolding read_ttl
next_ttl invalid scale ttl none = inl syntax_err
next_ttl invalid scale ttl (some value) =
    if is_limited ttl then inl syntax_err else read_ttl invalid scale (parse_int value)

unfoldable pub seconds : ℤ → ℤ
seconds n = wrap64 (n *ℤ pos 1000)

unfoldable pub milliseconds : ℤ → ℤ
milliseconds n = n

pub data Policy : Type 0 where
  upsert insert update : Policy

unfoldable pub took : {S : Type 0} → S → (ℤ → S) → Reply ⊎ ℤ → Round S
took s with_ttl (inl r) = reject r s
took s with_ttl (inr ttl) = skip (with_ttl ttl)

unfoldable pub set_invalid : Reply
set_invalid = standard_err (codes "ERR invalid expire time in set")

unfoldable pub set_step : Word → Option Bytes → Policy × ℤ → Round (Policy × ℤ)
unfolding next_ttl took seconds milliseconds
set_step nx v (update, ttl) = reject syntax_err (update, ttl)
set_step nx v (_, ttl) = next (insert, ttl)
set_step xx v (insert, ttl) = reject syntax_err (insert, ttl)
set_step xx v (_, ttl) = next (update, ttl)
set_step ex v (p, ttl) = took (p, ttl) (λ t. (p, t)) (next_ttl set_invalid seconds ttl v)
set_step px v (p, ttl) = took (p, ttl) (λ t. (p, t)) (next_ttl set_invalid milliseconds ttl v)
set_step _ v s = reject syntax_err s

unfoldable pub put_with : Policy → Bytes → Bytes → Db → ℕ × Db
put_with upsert key value db = let (ret, db) = put_entity key (text (some value)) db in (1, db)
put_with insert key value db = put_entity_if_absent key (text (some value)) db
put_with update key value db = put_entity_if_exists key (text (some value)) db

unfoldable pub set_ttl : ℤ → Bytes → Bytes → List Bytes → ℤ → Db → Db
set_ttl now key value args ttl db =
    if is_limited ttl
    then (let expire_time = deadline now ttl in
        add_aof (expire_cmd key expire_time)
          (add_aof (codes "SET" ∷ key ∷ value ∷ []) (expire key expire_time db)))
    else add_aof (to_cmd_line3 (codes "set") (key ∷ value ∷ args)) (persist key db)

unfoldable pub set_result : ℤ → Bytes → Bytes → List Bytes → ℤ → ℕ × Db → Result
unfolding set_ttl
set_result now key value args ttl (zero, db) = returns (null_bulk, db)
set_result now key value args ttl (suc n, db) = returns (ok, set_ttl now key value args ttl db)

unfoldable pub set_with :
    ℤ → Bytes → Bytes → List Bytes → Db → (Reply × (Policy × ℤ)) ⊎ (Policy × ℤ) → Result
unfolding set_result put_with
set_with now key value args db (inl (r, s)) = returns (r, db)
set_with now key value args db (inr (policy, ttl)) =
    set_result now key value args ttl (put_with policy key value db)

unfoldable pub exec_set : ℤ → List Bytes → Db → Result
unfolding set_with options set_step word
exec_set now (key ∷ value ∷ args) db =
    set_with now key value args db (options set_step args (upsert, pos 0))
exec_set now _ db = panics

getex_invalid : Reply
getex_invalid = standard_err (codes "ERR invalid expire time in getex")

-- The state has the ttl and the database, on which PERSIST acts at once.
-- Its test `i+1 > len(args)` never holds inside the loop and is left out.
getex_step : Bytes → Word → Option Bytes → ℤ × Db → Round (ℤ × Db)
unfolding next_ttl took seconds milliseconds
getex_step key ex v (ttl, db) = took (ttl, db) (λ t. (t, db)) (next_ttl getex_invalid seconds ttl v)
getex_step key px v (ttl, db) =
    took (ttl, db) (λ t. (t, db)) (next_ttl getex_invalid milliseconds ttl v)
getex_step key persist_word v (ttl, db) =
    if is_limited ttl then reject syntax_err (ttl, db) else next (ttl, persist key db)
getex_step key _ v s = next s

getex_ttl : ℤ → Bytes → List Bytes → ℤ → Db → Db
getex_ttl now key [] ttl db = db
getex_ttl now key (arg ∷ args) ttl db =
    if is_limited ttl
    then (let expire_time = deadline now ttl in
        add_aof (expire_cmd key expire_time) (expire key expire_time db))
    else add_aof (to_cmd_line3 (codes "persist") (key ∷ [])) (persist key db)

getex_with : ℤ → Bytes → List Bytes → Bytes → (Reply × (ℤ × Db)) ⊎ (ℤ × Db) → Result
unfolding getex_ttl
getex_with now key args b (inl (r, (ttl, db))) = returns (r, db)
getex_with now key args b (inr (ttl, db)) = returns (bulk (some b), getex_ttl now key args ttl db)

getex_of : ℤ → Bytes → List Bytes → Option Bytes → Db → Result
unfolding getex_with options getex_step word getex_invalid
getex_of now key args none db = returns (null_bulk, db)
getex_of now key args (some b) db =
    getex_with now key args b (options (getex_step key) args (pos 0, db))

unfoldable pub exec_get_ex : ℤ → List Bytes → Db → Result
unfolding get_as_string getex_of
exec_get_ex now [] db = panics
exec_get_ex now (key ∷ args) db = with_string (get_as_string now key db) (getex_of now key args)

-- ===== src/Protocol.antt =====
-- redis/protocol/{reply,consts,errors}.go: the replies and their `ToBytes`.
-- A nil byte slice is `none`. A constructor stands for each reply type; a reply that holds replies,
-- `MultiRawReply`, has its list declared with it.
use godis.Base.{
  ℕ, suc, Bool, false, Option, none, some, List, [], ◌∷◌, ◌++◌, Bytes, codes, bytes_eq, ◌==◌,
  length,
}
use godis.Base.Int.{ℤ}
use godis.Strconv.{itoa, format_int}

mutual
  pub data Reply : Type 0 where
    pong : Reply
    ok : Reply
    null_bulk : Reply
    empty_multi_bulk : Reply
    no_reply : Reply
    queued : Reply
    bulk : Option Bytes → Reply
    multi_bulk : List (Option Bytes) → Reply
    multi_raw : Replies → Reply
    status : Bytes → Reply
    int : ℤ → Reply
    standard_err : Bytes → Reply
    unknown_err : Reply
    arg_num_err : Bytes → Reply
    syntax_err : Reply
    wrong_type_err : Reply
    protocol_err : Bytes → Reply

  pub data Replies : Type 0 where
    nil : Replies
    cons : Reply → Replies → Replies

abbrev pub crlf : Bytes
crlf = 13 ∷ 10 ∷ []

unfoldable pub bulk_bytes : Option Bytes → Bytes
bulk_bytes none = codes "$-1" ++ crlf
bulk_bytes (some arg) = b'$' ∷ (itoa (length arg) ++ (crlf ++ (arg ++ crlf)))

unfoldable pub args_bytes : List (Option Bytes) → Bytes
unfolding bulk_bytes
args_bytes [] = []
args_bytes (arg ∷ args) = bulk_bytes arg ++ args_bytes args

unfoldable pub count_replies : Replies → ℕ
count_replies nil = 0
count_replies (cons r rs) = suc (count_replies rs)

unfoldable mutual
  pub to_bytes : Reply → Bytes
  to_bytes pong = codes "+PONG" ++ crlf
  to_bytes ok = codes "+OK" ++ crlf
  to_bytes null_bulk = codes "$-1" ++ crlf
  to_bytes empty_multi_bulk = codes "*0" ++ crlf
  to_bytes no_reply = []
  to_bytes queued = codes "+QUEUED" ++ crlf
  to_bytes (bulk arg) = bulk_bytes arg
  to_bytes (multi_bulk args) = b'*' ∷ (itoa (length args) ++ (crlf ++ args_bytes args))
  to_bytes (multi_raw rs) = b'*' ∷ (itoa (count_replies rs) ++ (crlf ++ replies_bytes rs))
  to_bytes (status s) = b'+' ∷ (s ++ crlf)
  to_bytes (int z) = b':' ∷ (format_int z ++ crlf)
  to_bytes (standard_err s) = b'-' ∷ (s ++ crlf)
  to_bytes unknown_err = codes "-Err unknown" ++ crlf
  to_bytes (arg_num_err cmd) =
      codes "-ERR wrong number of arguments for '" ++ (cmd ++ (codes "' command" ++ crlf))
  to_bytes syntax_err = codes "-Err syntax error" ++ crlf
  to_bytes wrong_type_err =
      codes "-WRONGTYPE Operation against a key holding the wrong kind of value" ++ crlf
  to_bytes (protocol_err msg) = codes "-ERR Protocol error: '" ++ (msg ++ (codes "'" ++ crlf))

  pub replies_bytes : Replies → Bytes
  replies_bytes nil = []
  replies_bytes (cons r rs) = to_bytes r ++ replies_bytes rs

-- `IsErrorReply`; on a reply of no bytes its index panics, which the callers never reach.
unfoldable pub is_error_bytes : Bytes → Bool
is_error_bytes [] = false
is_error_bytes (c ∷ s) = c == b'-'

unfoldable pub is_error_reply : Reply → Bool
unfolding to_bytes is_error_bytes
is_error_reply r = is_error_bytes (to_bytes r)

unfoldable pub is_ok_reply : Reply → Bool
unfolding to_bytes
is_ok_reply r = bytes_eq (to_bytes r) (codes "+OK" ++ crlf)

-- ===== src/Parser/Tests.antt =====
-- redis/parser/parser.go: streams of replies, and one that ends in a panic.
use godis.Base.{
  ℕ, ◌≡◌, ◌≢◌, refl, Bool, List, some, arith, false, [], ◌∷◌, ◌++◌, codes, bytes_eq, leb, ◌<◌,
}
use godis.Base.Int.{pos, negsuc}
use godis.Protocol.{Reply, multi_bulk, bulk, status, int, to_bytes, crlf}
use godis.Strconv.{format_int, parse_int}
use godis.Parser.{
  has_prefix, reply, failure, eof, read_line, ends_in_cr, trim_crlf, parse_bulk_string,
}
use godis.Parser.Loop.{
  replies, parse_bytes, fullresync, parse0, loop, out_of_fuel, closed, left_open,
}
use godis.Parser.Lines.{NoNewline}
use godis.Parser.Stream.{AllSendable, stream, payloads, parse0-stream, parse_bytes-stream}
use godis.Parser.Progress.{parse0-Settles}

-- A runtime that grants a kilobyte at a time.
abbrev grants_1024 : ℕ → Bool
grants_1024 n = leb n 1024

int_then_end :
    parse0 grants_1024 (to_bytes (int (pos 7))) ≡ (reply (int (pos 7)) ∷ failure eof ∷ [], closed)
unfolding parse0 to_bytes format_int read_line ends_in_cr trim_crlf bytes_eq parse_int
int_then_end = refl

-- The runtime refuses the slice: nothing is sent and the channel stays open.
refused : parse0 grants_1024 (codes "$4294967296" ++ crlf) ≡ ([], left_open)
unfolding parse0 read_line ends_in_cr trim_crlf bytes_eq parse_bulk_string parse_int
refused = refl

parse0-Settles_example :
    ((parse0 grants_1024 (codes "$4294967296")).1 ≢ out_of_fuel)
    × ((larger : ℕ)
        → 11 < larger
        → loop grants_1024 larger (codes "$4294967296") ≡ parse0 grants_1024 (codes "$4294967296"))
parse0-Settles_example = parse0-Settles grants_1024 (codes "$4294967296")

-- GET k as a client sends it, and three replies.
abbrev four_replies : List Reply
four_replies =
    multi_bulk (some (codes "GET") ∷ some (codes "k") ∷ [])
    ∷ int (negsuc 6)
    ∷ status (codes "fine")
    ∷ bulk (some (codes "a b"))
    ∷ []

codes_fine : NoNewline (codes "fine")
codes_fine = (
  λ e. omega (arith, e),
  (λ e. omega (arith, e), (λ e. omega (arith, e), (λ e. omega (arith, e), tt))),
)

not_fullresync : has_prefix fullresync (codes "fine") ≡ false
unfolding has_prefix
not_fullresync = refl

four_replies-AllSendable : AllSendable grants_1024 four_replies
four_replies-AllSendable = (
  (
    codes "GET",
    codes "k" ∷ [],
    refl,
    (omega arith, refl, ((omega arith, refl), ((omega arith, refl), tt))),
  ),
  (omega arith, ((codes_fine, not_fullresync), ((omega arith, refl), tt))),
)

parse0-stream_example :
    parse0 grants_1024 (stream grants_1024 four_replies)
    ≡ (payloads grants_1024 four_replies, closed)
parse0-stream_example = parse0-stream grants_1024 four_replies four_replies-AllSendable

parse_bytes-stream_example :
    parse_bytes grants_1024 (stream grants_1024 four_replies) ≡ replies four_replies
parse_bytes-stream_example = parse_bytes-stream grants_1024 four_replies four_replies-AllSendable

-- ===== src/Parser/Loop.antt =====
-- redis/parser/parser.go: the loop of `parse0`, and `ParseBytes` and `ParseOne`, which read its channel.
use godis.Base.{
  ℕ, zero, suc, ◌+◌, Bool, ◌||◌, not, none, some, List, [], ◌∷◌, ◌++◌, Bytes, codes, leb, ◌==◌,
  if◌then◌else◌, length,
}
use godis.Strconv.{parse_int}
use godis.Protocol.{Reply, multi_bulk, status, int, standard_err}
use godis.Parser.{
  Error, eof, Payload, reply, failure, Read, got, failed, panicked, read_line, ends_in_cr,
  trim_crlf, has_prefix, split_spaces, complaint, parse_bulk_string, parse_rdb_bulk_string,
  parse_array,
}

-- The channel is closed, or it stays open: after a panic nobody closes it. `out_of_fuel` belongs to
-- the model only, and `Progress` proves that it does not occur.
pub data End : Type 0 where
  closed left_open out_of_fuel : End

-- One round of the loop: payloads are sent, and the reader goes on or the goroutine ends.
pub data Round : Type 0 where
  more : List Payload → Bytes → Round
  stop : List Payload → End → Round

abbrev pub fullresync : Bytes
fullresync = codes "FULLRESYNC"

-- A payload that a helper sends, or its error, behind payloads that were sent before.
abbrev pub send_one : List Payload → Read Payload → Round
send_one sent (got p rest) = more (sent ++ p ∷ []) rest
send_one sent (failed e) = stop (sent ++ failure e ∷ []) closed
send_one sent panicked = stop sent left_open

abbrev pub send_all : Read (List Payload) → Round
send_all (got ps rest) = more ps rest
send_all (failed e) = stop (failure e ∷ []) closed
send_all panicked = stop [] left_open

unfoldable pub int_payload : Bytes → Payload
int_payload content = elim (parse_int content) [
  | none ↦ complaint (codes "illegal number " ++ content)
  | some value ↦ reply (int value)
]

module _ (allocates : ℕ → Bool) where
  -- The `switch` on the first byte of a line.
  unfoldable pub dispatch : Bytes → Bytes → Round
  unfolding int_payload split_spaces
  dispatch [] s = more [] s
  dispatch (c ∷ content) s =
      if c == b'+'
      then (if has_prefix fullresync content
          then send_one (reply (status content) ∷ []) (parse_rdb_bulk_string allocates s)
          else more (reply (status content) ∷ []) s)
      else if c == b'-'
      then more (reply (standard_err content) ∷ []) s
      else if c == b':'
      then more (int_payload content ∷ []) s
      else if c == b'$'
      then send_one [] (parse_bulk_string allocates (c ∷ content) s)
      else if c == b'*'
      then send_all (parse_array allocates (c ∷ content) s)
      else more (reply (multi_bulk (split_spaces (c ∷ content))) ∷ []) s

  -- What is done with the line that was read.
  unfoldable pub round_of : Read Bytes → Round
  unfolding dispatch
  round_of (got line rest) =
      if leb (length line) 2 || not (ends_in_cr line)
      then more [] rest
      else dispatch (trim_crlf line) rest
  round_of (failed e) = stop (failure e ∷ []) closed
  round_of panicked = stop [] left_open

  unfoldable pub round : Bytes → Round
  unfolding round_of
  round s = round_of (read_line s)

  abbrev pub prefix : List Payload → List Payload × End → List Payload × End
  prefix ps (qs, e) = (ps ++ qs, e)

  -- `parse0`: what it sends, and how the channel ends.
  unfoldable pub loop : ℕ → Bytes → List Payload × End
  loop zero s = ([], out_of_fuel)
  loop (suc fuel) s = elim (round s) [
    | more ps rest ↦ prefix ps (loop fuel rest)
    | stop ps e ↦ (ps, e)
  ]

  unfoldable pub parse0 : Bytes → List Payload × End
  unfolding loop round
  parse0 s = loop (length s + 1) s

  -- What the caller of `ParseBytes` sees: replies up to io.EOF, an error, or no answer at all.
  pub data Answer : Type 0 where
    replies : List Reply → Answer
    error : Error → Answer
    waits : Answer

  unfoldable pub collect : List Reply → List Payload → End → Answer
  collect results [] closed = replies results
  collect results [] left_open = waits
  collect results [] out_of_fuel = waits
  collect results (reply r ∷ ps) end = collect (results ++ r ∷ []) ps end
  collect results (failure eof ∷ ps) end = replies results
  collect results (failure e ∷ ps) end = error e

  unfoldable pub parse_bytes : Bytes → Answer
  unfolding collect parse0
  parse_bytes s = let (ps, e) = parse0 s in collect [] ps e

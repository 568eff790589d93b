-- ===== src/Parser/Stream.antt =====
-- redis/parser/parser.go: a whole stream of replies is read back, and one reply as `ParseBytes` does.
use godis.Base.{
  ℕ, zero, suc, ◌+◌, ◌<◌, ◌≡◌, refl, sym, ap, ◌∙◌, Bool, false, none, some, List, [], ◌∷◌, ◌++◌,
  Bytes, arith, length, append_assoc, append-nil, codes,
}
use godis.Strconv.{format_int, parse_int}
use godis.Strconv.RoundTrip.{IsInt64}
use godis.Protocol.{
  Reply, pong, ok, null_bulk, empty_multi_bulk, no_reply, queued, bulk, multi_bulk, multi_raw,
  status, int, standard_err, unknown_err, arg_num_err, syntax_err, wrong_type_err, protocol_err,
  crlf, to_bytes,
}
use godis.Parser.{Payload, reply, failure, eof, has_prefix, parse_bulk_string, parse_array}
use godis.Parser.Loop.{
  more, closed, dispatch, round, loop, parse0, prefix, fullresync, replies, collect, parse_bytes,
}
use godis.Parser.Lines.{NoNewline, round-dispatch}
use godis.Parser.Progress.{loop-more, loop-stop, round_nil, parse0-Settles}
use godis.Parser.RoundTrip.{Granted, IsSmall, strings, round-bulk, round-int, round-multi_bulk}

module _ (allocates : ℕ → Bool) where
  -- The replies whose bytes stand for themselves: lines without a newline, int64s, and strings that the
  -- runtime can allocate. A status must not announce an RDB file, and an array has a string.
  abbrev pub Sendable : Reply → Type 0
  Sendable null_bulk = Unit
  Sendable empty_multi_bulk = Unit
  Sendable (bulk none) = ⊥
  Sendable (bulk (some b)) = Granted allocates (length b + 2)
  Sendable (multi_bulk args) =
      (b : Bytes) × (bs : List Bytes) × (args ≡ strings allocates (b ∷ bs))
      × IsSmall allocates (b ∷ bs)
  Sendable (status s) = NoNewline s × (has_prefix fullresync s ≡ false)
  Sendable (int z) = IsInt64 z
  Sendable (standard_err s) = NoNewline s
  Sendable pong = ⊥
  Sendable ok = ⊥
  Sendable no_reply = ⊥
  Sendable queued = ⊥
  Sendable (multi_raw rs) = ⊥
  Sendable unknown_err = ⊥
  Sendable (arg_num_err cmd) = ⊥
  Sendable syntax_err = ⊥
  Sendable wrong_type_err = ⊥
  Sendable (protocol_err msg) = ⊥

  round-line :
      (c : ℕ) (s rest : Bytes) (ps : List Payload)
      → NoNewline (c ∷ s)
      → dispatch allocates (c ∷ s) rest ≡ more ps rest
      → round allocates ((c ∷ (s ++ crlf)) ++ rest) ≡ more ps rest
  round-line c s rest ps h e =
      ap (round allocates) (ap (λ t. c ∷ t) (append_assoc s crlf rest))
      ∙ round-dispatch allocates c s rest h
      ∙ e

  -- One round of `parse0` reads a reply back from its bytes, whatever stands behind them, and leaves that.
  -- The reply is null, an empty array, a string or an array of strings that the runtime can allocate,
  -- an int64, or an error or status line without a newline, the latter no FULLRESYNC.
  pub round-to_bytes :
      (r : Reply) (rest : Bytes)
      → Sendable r
      → round allocates (to_bytes r ++ rest) ≡ more (reply r ∷ []) rest
  unfolding to_bytes dispatch
  round-to_bytes null_bulk rest h =
      round-line b'$' (codes "-1") rest _
        (λ e. omega (arith, e), (λ e. omega (arith, e), (λ e. omega (arith, e), tt)))
        (unfold parse_bulk_string parse_int in refl)
  round-to_bytes empty_multi_bulk rest h =
      round-line b'*' (codes "0") rest _ (λ e. omega (arith, e), (λ e. omega (arith, e), tt))
        (unfold parse_array parse_int in refl)
  round-to_bytes (bulk none) rest h = absurd h
  round-to_bytes (bulk (some b)) rest h = round-bulk allocates b rest h
  round-to_bytes (multi_bulk args) rest (b, bs, e, small) =
      rw e (round-multi_bulk allocates b bs rest small)
  round-to_bytes (status s) rest (h, plain) =
      round-line b'+' s rest _ (λ e. omega (arith, e), h) (rw plain refl)
  round-to_bytes (int z) rest h =
      ap (λ s. round allocates (b':' ∷ s)) (append_assoc (format_int z) crlf rest)
      ∙ round-int allocates z rest h
  round-to_bytes (standard_err s) rest h = round-line b'-' s rest _ (λ e. omega (arith, e), h) refl
  round-to_bytes pong rest h = absurd h
  round-to_bytes ok rest h = absurd h
  round-to_bytes no_reply rest h = absurd h
  round-to_bytes queued rest h = absurd h
  round-to_bytes (multi_raw rs) rest h = absurd h
  round-to_bytes unknown_err rest h = absurd h
  round-to_bytes (arg_num_err cmd) rest h = absurd h
  round-to_bytes syntax_err rest h = absurd h
  round-to_bytes wrong_type_err rest h = absurd h
  round-to_bytes (protocol_err msg) rest h = absurd h

  abbrev pub AllSendable : List Reply → Type 0
  AllSendable [] = Unit
  AllSendable (r ∷ rs) = Sendable r × AllSendable rs

  -- What a sender writes, and what is sent on the channel for it.
  abbrev pub stream : List Reply → Bytes
  stream [] = []
  stream (r ∷ rs) = to_bytes r ++ stream rs

  abbrev pub payloads : List Reply → List Payload
  payloads [] = failure eof ∷ []
  payloads (r ∷ rs) = reply r ∷ payloads rs

  loop-stream :
      (rs : List Reply) (fuel : ℕ)
      → AllSendable rs
      → length rs < fuel
      → loop allocates fuel (stream rs) ≡ (payloads rs, closed)
  loop-stream rs zero h lt = absurd (omega (arith, lt))
  loop-stream [] (suc fuel) h lt =
      loop-stop allocates fuel [] (failure eof ∷ []) closed (round_nil allocates)
  loop-stream (r ∷ rs) (suc fuel) (h, hs) lt =
      loop-more allocates fuel (stream (r ∷ rs)) (stream rs) (reply r ∷ [])
        (round-to_bytes r (stream rs) h)
      ∙ ap (prefix allocates (reply r ∷ [])) (loop-stream rs fuel hs (omega arith))

  -- A stream of the bytes of replies that are sendable (null and empty arrays, strings and arrays of
  -- strings that the runtime can allocate, int64s, error and status lines without a newline, the
  -- latter no FULLRESYNC) is read back: `parse0` sends each reply as one payload, in order, then io.EOF,
  -- and closes the channel.
  pub parse0-stream :
      (rs : List Reply) → AllSendable rs → parse0 allocates (stream rs) ≡ (payloads rs, closed)
  parse0-stream rs h =
      let fuel : ℕ = suc (length (stream rs) + length rs) in
      sym ((parse0-Settles allocates (stream rs)).1 fuel (omega arith))
      ∙ loop-stream rs fuel h (omega arith)

  collect-payloads :
      (rs done : List Reply) → collect allocates done (payloads rs) closed ≡ replies (done ++ rs)
  unfolding collect
  collect-payloads [] done = ap replies (sym (append-nil done))
  collect-payloads (r ∷ rs) done =
      collect-payloads rs (done ++ r ∷ []) ∙ ap replies (append_assoc done (r ∷ []) rs)

  -- `ParseBytes` returns the replies whose bytes it is given, for null and empty arrays, strings and
  -- arrays of strings that the runtime can allocate, int64s, and error and status lines without a
  -- newline, the latter no FULLRESYNC.
  pub parse_bytes-stream :
      (rs : List Reply) → AllSendable rs → parse_bytes allocates (stream rs) ≡ replies rs
  unfolding parse_bytes
  parse_bytes-stream rs h =
      ap (λ p. collect allocates [] p.0 p.1) (parse0-stream rs h) ∙ collect-payloads rs []

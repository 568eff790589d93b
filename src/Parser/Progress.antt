-- ===== src/Parser/Progress.antt =====
-- redis/parser/parser.go: every round of `parse0` consumes a line, so that its loop ends.
use godis.Base.{
  ℕ, zero, suc, ◌+◌, ◌<◌, ◌≤◌, ◌≡◌, ◌≢◌, refl, Bool, true, false, ◌||◌, not, List, [], ◌∷◌, Bytes,
  arith, leb, ◌==◌, length, if◌then◌else◌,
}
use godis.Strconv.{parse_int}
use godis.Protocol.{multi_bulk, status, standard_err}
use godis.Parser.{
  Payload, reply, eof, Read, got, failed, panicked, read_line, parse_bulk_string, bulk_of, array_of,
  parse_rdb_bulk_string, parse_array, trim_crlf, ends_in_cr, has_prefix, failure, split_spaces,
}
use godis.Parser.Loop.{
  Round, more, stop, End, out_of_fuel, closed, left_open, dispatch, round, round_of, loop, parse0,
  send_one, send_all, prefix, fullresync, int_payload,
}
use godis.Parser.Reads.{
  Leaves, read_line-Leaves, bulk_of-Reads, parse_rdb_bulk_string-Reads, array_of-Reads,
}

module _ (allocates : ℕ → Bool) where
  -- A round that goes on has at most `n` bytes left, and one that stops has used no fuel up.
  abbrev pub Goes : ℕ → Round → Type 0
  Goes n (more ps rest) = length rest ≤ n
  Goes n (stop ps e) = e ≢ out_of_fuel

  if-Goes : (n : ℕ) (b : Bool) (r q : Round) → Goes n r → Goes n q → Goes n (if b then r else q)
  if-Goes n true r q hr hq = hr
  if-Goes n false r q hr hq = hq

  closed_ne : closed ≢ out_of_fuel
  closed_ne = λ e. cc

  left_open_ne : left_open ≢ out_of_fuel
  left_open_ne = λ e. cc

  send_one-Goes :
      (n : ℕ) (sent : List Payload) (r : Read Payload) → Leaves n r → Goes n (send_one sent r)
  send_one-Goes n sent (got p rest) h = h
  send_one-Goes n sent (failed e) h = closed_ne
  send_one-Goes n sent panicked h = left_open_ne

  send_all-Goes : (n : ℕ) (r : Read (List Payload)) → Leaves n r → Goes n (send_all r)
  send_all-Goes n (got p rest) h = h
  send_all-Goes n (failed e) h = closed_ne
  send_all-Goes n panicked h = left_open_ne

  dispatch-Goes : (n : ℕ) (line s : Bytes) → length s ≤ n → Goes n (dispatch allocates line s)
  unfolding dispatch parse_array parse_bulk_string
  dispatch-Goes n [] s h = h
  dispatch-Goes n (c ∷ content) s h =
      if-Goes n (c == b'+') _ _
        (if-Goes n (has_prefix fullresync content)
          (send_one (reply (status content) ∷ []) (parse_rdb_bulk_string allocates s))
          (more (reply (status content) ∷ []) s)
          (send_one-Goes n (reply (status content) ∷ []) (parse_rdb_bulk_string allocates s)
            (parse_rdb_bulk_string-Reads allocates n s h))
          h)
        (if-Goes n (c == b'-') (more (reply (standard_err content) ∷ []) s) _ h (
          if-Goes n (c == b':') (more (int_payload content ∷ []) s) _ h (
            if-Goes n (c == b'$') _ _
              (send_one-Goes n [] (bulk_of allocates (c ∷ content) (parse_int content) s)
                (bulk_of-Reads allocates (c ∷ content) (parse_int content) n s h))
              (if-Goes n (c == b'*') _
                (more (reply (multi_bulk (split_spaces (c ∷ content))) ∷ []) s)
                (send_all-Goes n (array_of allocates (c ∷ content) (parse_int content) s)
                  (array_of-Reads allocates (c ∷ content) (parse_int content) n s h))
                h))))

  round_of-Goes : (n : ℕ) (r : Read Bytes) → Leaves n r → Goes n (round_of allocates r)
  unfolding round_of
  round_of-Goes n (got line rest) h =
      if-Goes n (leb (length line) 2 || not (ends_in_cr line)) (more [] rest)
        (dispatch allocates (trim_crlf line) rest) h (dispatch-Goes n (trim_crlf line) rest h)
  round_of-Goes n (failed e) h = closed_ne
  round_of-Goes n panicked h = left_open_ne

  round-Goes : (n : ℕ) (s : Bytes) → length s ≤ suc n → Goes n (round allocates s)
  unfolding round
  round-Goes n s h = round_of-Goes n (read_line s) (read_line-Leaves n s h)

  pub loop-more :
      (fuel : ℕ) (s rest : Bytes) (ps : List Payload)
      → round allocates s ≡ more ps rest
      → loop allocates (suc fuel) s ≡ prefix allocates ps (loop allocates fuel rest)
  unfolding loop
  loop-more fuel s rest ps e = rw (e, loop) refl

  pub loop-stop :
      (fuel : ℕ) (s : Bytes) (ps : List Payload) (end : End)
      → round allocates s ≡ stop ps end
      → loop allocates (suc fuel) s ≡ (ps, end)
  unfolding loop
  loop-stop fuel s ps end e = rw (e, loop) refl

  -- `fuel` rounds are enough for an input, and more of them change nothing.
  abbrev Settles : ℕ → Bytes → Type 0
  Settles fuel s =
      ((loop allocates fuel s).1 ≢ out_of_fuel)
      × ((larger : ℕ) → fuel ≤ larger → loop allocates larger s ≡ loop allocates fuel s)

  more-Settles :
      (fuel : ℕ) (s rest : Bytes) (ps : List Payload)
      → round allocates s ≡ more ps rest
      → Settles fuel rest
      → Settles (suc fuel) s
  more-Settles fuel s rest ps e (ends, same) = (rw (loop-more fuel s rest ps e) ends, larger_same)
    where
      larger_same :
          (larger : ℕ) → suc fuel ≤ larger → loop allocates larger s ≡ loop allocates (suc fuel) s
      larger_same zero le = absurd (omega (arith, le))
      larger_same (suc larger) le =
          rw (loop-more fuel s rest ps e, loop-more larger s rest ps e, same larger (omega arith))
            refl

  stop-Settles :
      (fuel : ℕ) (s : Bytes) (ps : List Payload) (end : End)
      → round allocates s ≡ stop ps end
      → end ≢ out_of_fuel
      → Settles (suc fuel) s
  stop-Settles fuel s ps end e ne = (rw (loop-stop fuel s ps end e) ne, larger_same)
    where
      larger_same :
          (larger : ℕ) → suc fuel ≤ larger → loop allocates larger s ≡ loop allocates (suc fuel) s
      larger_same zero le = absurd (omega (arith, le))
      larger_same (suc larger) le = rw (loop-stop fuel s ps end e, loop-stop larger s ps end e) refl

  pub round_nil : round allocates [] ≡ stop (failure eof ∷ []) closed
  unfolding round read_line
  round_nil = refl

  round-Settles :
      (fuel : ℕ) (s : Bytes) (n : ℕ) (r : Round)
      → round allocates s ≡ r
      → Goes n r
      → ((rest : Bytes) → length rest ≤ n → Settles fuel rest)
      → Settles (suc fuel) s
  round-Settles fuel s n (more ps rest) e h k = more-Settles fuel s rest ps e (k rest h)
  round-Settles fuel s n (stop ps end) e h k = stop-Settles fuel s ps end e h

  loop-Settles : (fuel : ℕ) (s : Bytes) → length s < fuel → Settles fuel s
  loop-Settles zero s lt = absurd (omega (arith, lt))
  loop-Settles (suc fuel) [] lt = stop-Settles fuel [] _ closed round_nil closed_ne
  loop-Settles (suc fuel) (c ∷ s) lt =
      round-Settles fuel (c ∷ s) (length s) (round allocates (c ∷ s)) refl
        (round-Goes (length s) (c ∷ s) (omega arith))
        λ rest le. loop-Settles fuel rest (omega arith)

  -- `parse0` ends on every input, whatever sizes the runtime can allocate: one round more than there
  -- are bytes is enough, so that the model's fuel does not run out, and more rounds change neither
  -- what is sent nor how the channel ends.
  pub parse0-Settles :
      (s : Bytes)
      → ((parse0 allocates s).1 ≢ out_of_fuel)
        × ((larger : ℕ) → length s < larger → loop allocates larger s ≡ parse0 allocates s)
  unfolding parse0
  parse0-Settles s =
      let (ends, same) = loop-Settles (length s + 1) s (omega arith) in
      (ends, λ larger lt. same larger (omega arith))

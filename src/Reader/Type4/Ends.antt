-- ===== src/Reader/Type4/Ends.antt =====
-- The reading loop of `read_type4` ends on every tag, whatever it answers.
use paper_name_plate.Base.{ℕ, zero, suc, ◌+◌, ◌≤◌, ◌≢◌, arith, List, ◌++◌}
use paper_name_plate.Base.{
  ltb, length, take, length-append, length-take, get_or, le→ltb, [], Bool-cases, inl, inr,
}
use native.Mathlib.Decide.{dec_lt}
use paper_name_plate.Base.Bytes.{u16_be}
use paper_name_plate.Base.Results.{Result, ok, err}
use paper_name_plate.Reader.Type4.{
  Apdus, Read, Step, read_ndef, read_nlen, read_cc, select_ndef, select_cc, select_app,
}
use paper_name_plate.Reader.Type4.{
  out_of_fuel, check, and_then, checked, command, chunk_len, keep_chunk,
}
use paper_name_plate.Reader.Type4.{
  read_from, read_message, with_cc, read_type4, read_binary, select_file, mle_of,
}

module _ (a : Apdus) where
  open a use {State, DepError, exchange}

  -- The result is one of the code.
  abbrev Ends : Read a → Type 0
  Ends r = r.1 ≢ err out_of_fuel

  check-Ends : (step : Step) (rsp : List ℕ) → check {E = DepError} step rsp ≢ err out_of_fuel
  unfolding check
  check-Ends step rsp = ground arith

  checked-Ends : (step : Step) (r : State × Result DepError (List ℕ)) → Ends (checked a step r)
  unfolding checked
  checked-Ends step (s, ok rsp) = check-Ends step rsp
  checked-Ends step (s, err e) = ground arith

  and_then-Ends :
      (r : Read a) (f : State → List ℕ → Read a)
      → Ends r
      → ((s : State) (rsp : List ℕ) → Ends (f s rsp))
      → Ends (and_then a r f)
  unfolding and_then
  and_then-Ends (s, ok rsp) f h k = k s rsp
  and_then-Ends (s, err e) f h k = h

  command-Ends :
      (s : State) (step : Step) (apdu : List ℕ) (f : State → List ℕ → Read a)
      → ((s : State) (rsp : List ℕ) → Ends (f s rsp))
      → Ends (and_then a (command a s step apdu) f)
  unfolding command
  command-Ends s step apdu f k = and_then-Ends _ f (checked-Ends step (exchange s apdu)) k

  keep_chunk-Ends :
      (c : ℕ) (msg rsp : List ℕ) (again : State → List ℕ → Read a) (s : State)
      → ((m : List ℕ) → length msg + c ≤ length m → Ends (again s m))
      → Ends (keep_chunk a c msg again s rsp)
  unfolding keep_chunk
  keep_chunk-Ends c msg rsp again s k = elim (dec_lt (length rsp) (2 + c)) [
    | yes e ↦ ground arith
    | no e ↦
        rw (le→ltb (length rsp) (2 + c) (omega arith))
          (k (msg ++ take c rsp) (omega (arith, length-append msg (take c rsp), length-take c rsp)))
  ]

  read_from-Ends :
      (fuel : ℕ) (s : State) (nlen mle offset : ℕ) (msg : List ℕ)
      → 1 ≤ mle
      → nlen ≤ length msg + fuel
      → Ends (read_from a fuel s nlen mle offset msg)
  unfolding read_from
  read_from-Ends zero s nlen mle offset msg m h = ground arith
  read_from-Ends (suc fuel) s nlen mle offset msg m h = elim (Bool-cases (ltb (length msg) nlen)) [
    | inr e ↦ ground arith
    | inl e ↦
        let c = chunk_len a nlen mle msg in
        rw e (
          command-Ends s read_ndef (read_binary offset c) _ (λ s1 rsp.
            keep_chunk-Ends c msg rsp _ s1
              (λ t g. read_from-Ends fuel s1 nlen mle (offset + c) t m (ground arith))))
  ]

  read_message-Ends : (s : State) (mle : ℕ) → 1 ≤ mle → Ends (read_message a s mle)
  unfolding read_message
  read_message-Ends s mle m = command-Ends s read_nlen _ _ (λ s1 rsp.
      let nlen = u16_be (get_or rsp 0 0) (get_or rsp 1 0) in
      ground (arith, read_from-Ends nlen s1 nlen mle 2 [] m))

  with_cc-Ends : (s : State) (bytes : List ℕ) → Ends (with_cc a s bytes)
  unfolding with_cc
  with_cc-Ends s bytes = ground (
    arith,
    command-Ends s select_ndef (select_file (get_or bytes 9 0) (get_or bytes 10 0))
        (λ s1 rsp. read_message a s1 (mle_of bytes))
        (λ s1 rsp. read_message-Ends s1 (mle_of bytes) (omega arith)),
  )

-- `read_type4` ends on every tag, whatever it answers: with the message or with an error of the code.
pub read_type4-ends : (a : Apdus) (s : a.State) → (read_type4 a s).1 ≢ err out_of_fuel
unfolding read_type4
read_type4-ends a s = command-Ends a s select_app _ _ (λ s1 r1.
    command-Ends a s1 select_cc _ _
      (λ s2 r2. command-Ends a s2 read_cc _ _ (λ s3 r3. with_cc-Ends a s3 r3)))

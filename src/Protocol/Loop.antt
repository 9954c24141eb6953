-- ===== src/Protocol/Loop.antt =====
-- The rounds of the loop of protocol.go, and what they take off the stream.
use proxy_rfc.Base.{
  ℕ, zero, suc, ◌+◌, ◌*◌, ◌<◌, ◌≡◌, ◌≢◌, ◌⊎◌, inl, inr, refl, false, ◌&&◌, some, [], Bytes, length,
  ltb, is_positive, Bool-cases, Option-cases, arith,
}
use proxy_rfc.Conn.{Stream}
use proxy_rfc.Protocol.{
  Line, LineEnd, ended, timed_out, conn_closed, Presets, ReadResult, command, failed, Step, again,
  done, take_skipped, after_timeout, after_command, after_line, read_step, read_loop,
  read_at_command, next_round, read_line, parse_at_command,
}
use proxy_rfc.Text.{trim_space}
use proxy_rfc.Protocol.Lines.{Consumes, read_line-Consumes}

-- A command is returned with less left to read.
abbrev pub Leaves : ℕ → ReadResult → Type 0
Leaves n (command c s) = length s < n
Leaves n (failed e s) = Unit

Leaves-mono : (r : ReadResult) (m n : ℕ) → m < n → Leaves m r → Leaves n r
Leaves-mono (command c s) m n h l = omega arith
Leaves-mono (failed e s) m n h l = tt

abbrev Shrinks : ℕ → Step → Type 0
Shrinks n (again p s) = length s < n
Shrinks n (done r) = Leaves n r

pub Step-cases :
    (st : Step)
    → ((p : Presets) × (s : Stream) × (st ≡ again p s)) ⊎ ((r : ReadResult) × (st ≡ done r))
Step-cases (again p s) = inl (p, s, refl)
Step-cases (done r) = inr (r, refl)

next_round-Shrinks : (st : Step) (n : ℕ) → Shrinks n st → Shrinks n (next_round st)
next_round-Shrinks (again p s) n h = h
next_round-Shrinks (done r) n h = h

Consumes-rest : (n : ℕ) (l : Line) → l.outcome ≢ conn_closed → Consumes n l → length l.rest < n
Consumes-rest n l ne (inl e) = absurd (ne e)
Consumes-rest n l ne (inr h) = h

module _ (timeout : ℕ) (since : ℕ → ℕ) where
  after_timeout-Shrinks :
      (p : Presets) (l : Line) (n : ℕ)
      → length l.rest < n
      → Shrinks n (after_timeout timeout since p l)
  unfolding after_timeout
  after_timeout-Shrinks p l n h = ground arith

  after_command-Shrinks :
      (p : Presets) (cmd_line : Bytes) (rest : Stream) (n : ℕ)
      → length rest < n
      → Shrinks n (after_command timeout since p cmd_line rest)
  unfolding after_command
  after_command-Shrinks p cmd_line rest n h = elim (Option-cases (parse_at_command cmd_line)) [
    | inl e ↦ rw (e, after_command) (ground arith)
    | inr (c, e) ↦ rw (e, after_command) (ground arith)
  ]

  after_line-Shrinks :
      (p : Presets) (l : Line) (o : LineEnd) (n : ℕ)
      → l.outcome ≡ o
      → Consumes n l
      → Shrinks n (after_line timeout since p l o)
  unfolding after_line
  after_line-Shrinks p l timed_out n e c =
      after_timeout-Shrinks p l n (Consumes-rest n l (ground arith) c)
  after_line-Shrinks p l conn_closed n e c = tt
  after_line-Shrinks p l ended n e c =
      after_command-Shrinks (take_skipped p l.skipped) (trim_space l.line) l.rest n
        (Consumes-rest n l (ground arith) c)

  read_step-Shrinks : (p : Presets) (s : Stream) → Shrinks (length s) (read_step timeout since p s)
  unfolding read_step
  read_step-Shrinks p s =
      elim (Bool-cases (is_positive timeout && ltb timeout (since (2 * p.round)))) [
        | inl late ↦ rw late tt
        | inr h ↦ rw h (
            next_round-Shrinks _ (length s) (
              after_line-Shrinks p (read_line false [] [] s) (read_line false [] [] s).outcome
                (length s) refl (read_line-Consumes false [] [] s)))
      ]

  -- With fuel above the length of the stream the loop ends by its own tests.
  read_loop_total :
      (fuel : ℕ) (p : Presets) (s : Stream)
      → length s < fuel
      → (r : ReadResult) × (read_loop timeout since fuel p s ≡ some r) × Leaves (length s) r
  unfolding read_loop
  read_loop_total zero p s h = absurd (omega arith)
  read_loop_total (suc fuel) p s h = elim (Step-cases (read_step timeout since p s)) [
    | inl (p', s', e) ↦
        let lt : length s' < length s = rw e at (read_step-Shrinks p s) in
        let (r, q, l) = read_loop_total fuel p' s' (omega arith) in
        (r, rw (e, read_loop) q, Leaves-mono r (length s') (length s) lt l)
    | inr (r, e) ↦ (r, rw (e, read_loop), rw e at (read_step-Shrinks p s))
  ]

  -- `ReadATCommandWithPresets` returns a command or an error for every input, however long, and a
  -- command leaves less to read than there was.
  pub read_at_command_total :
      (s : Stream)
      → (r : ReadResult) × (read_at_command timeout since s ≡ some r) × Leaves (length s) r
  unfolding read_at_command
  read_at_command_total s = read_loop_total (length s + 1) _ s (omega arith)

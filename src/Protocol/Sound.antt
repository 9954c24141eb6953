-- ===== src/Protocol/Sound.antt =====
-- What every command holds that protocol.go returns.
use proxy_rfc.Base.{
  ℕ, zero, suc, ◌+◌, ◌*◌, ◌≡◌, ◌⊎◌, inl, inr, refl, subst, false, ◌&&◌, some, [], Bytes, length,
  is_empty, IsBytes, ltb, is_positive, Bool-cases, arith,
}
use proxy_rfc.Conn.{Stream}
use proxy_rfc.Protocol.{
  Line, LineEnd, ended, timed_out, conn_closed, AtCommand, Presets, ReadResult, Step, again, done,
  take_skipped, after_timeout, after_command, after_line, read_step, read_loop, read_at_command,
  read_line, parse_at_command,
}
use proxy_rfc.Protocol.{next_round}
use proxy_rfc.Protocol.LineShape.{IsAtLine}
use proxy_rfc.Protocol.LineBytes.{stream_bytes}
use proxy_rfc.Protocol.Commands.{parse_at_command-IsParsed, parse_at_command-at}
use proxy_rfc.Protocol.Loop.{Step-cases, read_at_command_total}
use proxy_rfc.Protocol.Results.{
  Inv, IsSound, StepInv, LineInv, read_line-LineInv, take_unended-Inv, take_skipped-Inv,
}
use proxy_rfc.Text.{trim_space, trim_while}
use proxy_rfc.Text.Trim.{trim_space-at}

-- A line of a client, trimmed, is empty or a command.
IsCommandLine : Bytes → Type 0
IsCommandLine line = (line ≡ []) ⊎ ((c : AtCommand) × (parse_at_command line ≡ some c))

trim_space-IsCommandLine : (line : Bytes) → IsAtLine line → IsCommandLine (trim_space line)
unfolding IsCommandLine
trim_space-IsCommandLine line (inl e) = inl (rw e (unfold trim_space trim_while in refl))
trim_space-IsCommandLine line (inr (r, e)) =
    let (r', t) = trim_space-at r in let (c, q) = parse_at_command-at r' in inr (c, rw e (rw t q))

next_round-StepInv : (st : Step) → StepInv st → StepInv (next_round st)
next_round-StepInv (again p s) v = record {
  unread_bytes = v.unread_bytes;
  skipped_bytes = v.skipped_bytes;
  preset = v.preset;
}
next_round-StepInv (done r) v = v

move-Inv : (p : Presets) (s t : Stream) → Inv p s → IsBytes (stream_bytes t) → Inv p t
move-Inv p s t v b = record { unread_bytes = b; skipped_bytes = v.skipped_bytes; preset = v.preset }

module _ (timeout : ℕ) (since : ℕ → ℕ) where
  after_timeout-Inv :
      (p : Presets) (l : Line)
      → Inv p l.rest
      → IsBytes l.skipped
      → StepInv (after_timeout timeout since p l)
  unfolding after_timeout
  after_timeout-Inv p l v b = ground (arith, take_unended-Inv p l.skipped l.rest v b)

  after_command-Inv :
      (p : Presets) (line : Bytes) (rest : Stream)
      → Inv p rest
      → IsCommandLine line
      → StepInv (after_command timeout since p line rest)
  unfolding after_command IsCommandLine
  after_command-Inv p line rest v (inl e) = rw e v
  after_command-Inv p line rest v (inr (c, e)) = elim (Bool-cases (is_empty line)) [
    | inl empty ↦ rw empty v
    | inr full ↦ rw full (
        rw (e, after_command)
          ((parse_at_command-IsParsed line e).known, v.skipped_bytes, v.preset, v.unread_bytes))
  ]

  after_line-Inv :
      (p : Presets) (l : Line) (o : LineEnd)
      → Inv p l.rest
      → LineInv l
      → StepInv (after_line timeout since p l o)
  unfolding after_line
  after_line-Inv p l timed_out v w = after_timeout-Inv p l v w.line_skipped
  after_line-Inv p l conn_closed v w = tt
  after_line-Inv p l ended v w =
      after_command-Inv (take_skipped p l.skipped) (trim_space l.line) l.rest
        (take_skipped-Inv p l.skipped l.rest v w.line_skipped)
        (trim_space-IsCommandLine l.line w.line_shape)

  read_step-Inv : (p : Presets) (s : Stream) → Inv p s → StepInv (read_step timeout since p s)
  unfolding read_step
  read_step-Inv p s v =
      elim (Bool-cases (is_positive timeout && ltb timeout (since (2 * p.round)))) [
        | inl late ↦ rw late tt
        | inr h ↦
            let l = read_line false [] [] s in
            let w = read_line-LineInv s v.unread_bytes in
            rw h (
              next_round-StepInv _
                (after_line-Inv p l l.outcome (move-Inv p s l.rest v w.line_rest) w))
      ]

  read_loop-IsSound :
      (fuel : ℕ) (p : Presets) (s : Stream) {r : ReadResult}
      → Inv p s
      → read_loop timeout since fuel p s ≡ some r
      → IsSound r
  unfolding read_loop
  read_loop-IsSound zero p s v e = cc
  read_loop-IsSound (suc fuel) p s {r} v e = elim (Step-cases (read_step timeout since p s)) [
    | inl (p', s', q) ↦
        read_loop-IsSound fuel p' s' (rw q at (read_step-Inv p s v)) (rw (q, read_loop) at e)
    | inr (r', q) ↦
        let same : r' ≡ r = cc (rw (q, read_loop) at e) in
        subst IsSound same (rw q at (read_step-Inv p s v))
  ]

  pub read_at_command-IsSound :
      (s : Stream)
      → IsBytes (stream_bytes s)
      → (r : ReadResult) × (read_at_command timeout since s ≡ some r) × IsSound r
  unfolding read_at_command
  read_at_command-IsSound s b =
      let (r, e, _) = read_at_command_total timeout since s in
      (
        r,
        e,
        read_loop-IsSound (length s + 1) _ s
            (record { unread_bytes = b; skipped_bytes = tt; preset = tt }) e,
      )

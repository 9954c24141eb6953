-- ===== src/Protocol/Spins.antt =====
-- ReadATCommand of protocol.go behind a USR-VCOM packet, as handleDevice of handler.go calls it:
-- with one deadline, set before the call.
use proxy_rfc.Base.{
  ℕ, zero, suc, ◌+◌, ◌≡◌, ◌≢◌, inl, inr, refl, subst, ◌∙◌, true, false, none, some, [], ◌∷◌, ◌++◌,
  Bytes, All, length, Option-cases, arith,
}
use mathlib.Core.List.{append_assoc, append-nil}
use proxy_rfc.Conn.{Stream, pause, bytes}
use proxy_rfc.Protocol.{
  Line, LineEnd, ended, timed_out, conn_closed, Presets, ReadResult, net_timeout, read_failed,
  command, failed, Step, again, done, is_some, next_round, take_unended, take_skipped,
  after_timeout, after_command, after_line, in_command, is_line_end, read_line, read_step,
  read_loop, read_at_command, read_plain_at_command, parse_at_command,
}
use proxy_rfc.Protocol.Lines.{read_line-skip}
use proxy_rfc.Protocol.Loop.{Step-cases, read_at_command_total}
use proxy_rfc.Text.{trim_space}
use proxy_rfc.Usrvcom.{is_usrvcom, parse_usrvcom}

-- A command, or the end of the connection.
abbrev pub IsCommandOrEnd : ReadResult → Type 0
IsCommandOrEnd (command c rest) = Unit
IsCommandOrEnd (failed read_failed rest) = Unit
IsCommandOrEnd (failed _ rest) = ⊥

abbrev HasPacket : Presets → Type 0
HasPacket p = is_some p.usrvcom ≡ true

-- A round that goes on keeps the packet.
abbrev Spins : Step → Type 0
Spins (again p s) = HasPacket p
Spins (done r) = IsCommandOrEnd r

take_unended-HasPacket :
    (p : Presets) (skipped : Bytes) → HasPacket p → HasPacket (take_unended p skipped)
unfolding take_unended
take_unended-HasPacket p skipped h = ground arith

take_skipped-HasPacket :
    (p : Presets) (skipped : Bytes) → HasPacket p → HasPacket (take_skipped p skipped)
unfolding take_skipped
take_skipped-HasPacket p skipped h = ground arith

next_round-Spins : (st : Step) → Spins st → Spins (next_round st)
next_round-Spins (again p s) h = h
next_round-Spins (done r) h = h

module _ (since : ℕ → ℕ) where
  after_timeout-Spins : (p : Presets) (l : Line) → HasPacket p → Spins (after_timeout 0 since p l)
  unfolding after_timeout
  after_timeout-Spins p l h = ground (arith, take_unended-HasPacket p l.skipped h)

  after_command-Spins :
      (p : Presets) (line : Bytes) (rest : Stream)
      → HasPacket p
      → Spins (after_command 0 since p line rest)
  unfolding after_command
  after_command-Spins p line rest h = elim (Option-cases (parse_at_command line)) [
    | inl e ↦ rw (e, after_command) (ground arith)
    | inr (c, e) ↦ rw (e, after_command) (ground arith)
  ]

  after_line-Spins :
      (p : Presets) (l : Line) (o : LineEnd) → HasPacket p → Spins (after_line 0 since p l o)
  unfolding after_line
  after_line-Spins p l timed_out h = after_timeout-Spins p l h
  after_line-Spins p l conn_closed h = tt
  after_line-Spins p l ended h =
      after_command-Spins (take_skipped p l.skipped) (trim_space l.line) l.rest
        (take_skipped-HasPacket p l.skipped h)

  read_step-Spins : (p : Presets) (s : Stream) → HasPacket p → Spins (read_step 0 since p s)
  unfolding read_step
  read_step-Spins p s h =
      let l = read_line false [] [] s in next_round-Spins _ (after_line-Spins p l l.outcome h)

  read_loop-IsCommandOrEnd :
      (fuel : ℕ) (p : Presets) (s : Stream) {r : ReadResult}
      → HasPacket p
      → read_loop 0 since fuel p s ≡ some r
      → IsCommandOrEnd r
  unfolding read_loop
  read_loop-IsCommandOrEnd zero p s h e = absurd (cc)
  read_loop-IsCommandOrEnd (suc fuel) p s {r} h e = elim (Step-cases (read_step 0 since p s)) [
    | inl (p', s', q) ↦
        read_loop-IsCommandOrEnd fuel p' s' (rw q at (read_step-Spins p s h))
          (rw (q, read_loop) at e)
    | inr (r', q) ↦
        let same : r' ≡ r = cc (rw (q, read_loop) at e) in
        subst IsCommandOrEnd same (rw q at (read_step-Spins p s h))
  ]

-- Neither a line's end nor an "A", which may begin a command.
abbrev pub IsPlainByte : ℕ → Type 0
IsPlainByte b = (is_line_end b ≡ false) × (b ≢ b'A')

read_line-plain :
    (skipped packet : Bytes) (s : Stream)
    → All IsPlainByte packet
    → read_line false [] skipped (bytes packet ++ (pause ∷ s))
      ≡ record { line = []; skipped = skipped ++ packet; outcome = timed_out; rest = s }
unfolding read_line
read_line-plain skipped [] s h = rw (append-nil skipped) refl
read_line-plain skipped (b ∷ packet) s h =
    let (end, letter) = h.0 in
    let out : in_command false b (bytes packet ++ (pause ∷ s)) ≡ false =
      unfold in_command in ground (arith, letter) in
    read_line-skip false [] skipped b (bytes packet ++ (pause ∷ s)) end out
    ∙ read_line-plain (skipped ++ (b ∷ [])) packet s h.1
    ∙ rw (append_assoc skipped (b ∷ []) packet) refl

-- A USR-VCOM packet with these settings and this checksum.
abbrev pub packet_of : ℕ → ℕ → ℕ → ℕ → ℕ → Bytes
packet_of hi mid lo param sum = 0x55 ∷ 0xaa ∷ 0x55 ∷ hi ∷ mid ∷ lo ∷ param ∷ sum ∷ []

module _ (since : ℕ → ℕ) (hi mid lo param sum : ℕ) (s : Stream)
    (plain : All IsPlainByte (hi ∷ mid ∷ lo ∷ param ∷ sum ∷ [])) where
  abbrev packet : Bytes
  packet = packet_of hi mid lo param sum

  packet-plain : All IsPlainByte packet
  packet-plain =
      ((refl, λ q. omega arith), ((refl, λ q. omega arith), ((refl, λ q. omega arith), plain)))

  abbrev no_presets : Presets
  no_presets = record { usrvcom = none; all_skipped = []; round = 0 }

  -- The first round takes the packet.
  takes_packet :
      read_step 0 since no_presets (bytes packet ++ (pause ∷ s))
      ≡ again (record { usrvcom = parse_usrvcom packet; all_skipped = []; round = 1 }) s
  unfolding read_step after_line after_timeout take_unended is_usrvcom parse_usrvcom
  takes_packet = rw (read_line-plain [] packet s packet-plain) refl

  parses_packet : is_some (parse_usrvcom packet) ≡ true
  unfolding parse_usrvcom is_usrvcom
  parses_packet = refl

  packet_first :
      (fuel : ℕ) {r : ReadResult}
      → read_loop 0 since fuel no_presets (bytes packet ++ (pause ∷ s)) ≡ some r
      → IsCommandOrEnd r
  unfolding read_loop
  packet_first zero e = absurd (cc)
  packet_first (suc fuel) e =
      read_loop-IsCommandOrEnd since fuel _ s parses_packet (rw (takes_packet, read_loop) at e)

  pause_first :
      (fuel : ℕ) → read_loop 0 since (suc fuel) no_presets (pause ∷ s) ≡ some (failed net_timeout s)
  unfolding read_loop read_step read_line after_line after_timeout
  pause_first fuel = refl

  -- Where bytes begin with a USR-VCOM packet, with neither a line's end nor an "A" in it, and a
  -- read times out behind it, ReadATCommand returns only with a command or at the end of the
  -- connection, however many reads time out then; the deadline of its caller no longer ends it.
  -- Without the packet the first read that times out ends it.
  pub read_plain_at_command_spins :
      ((r : ReadResult) × (read_plain_at_command since (bytes packet ++ (pause ∷ s)) ≡ some r)
        × IsCommandOrEnd r)
      × (read_plain_at_command since (pause ∷ s) ≡ some (failed net_timeout s))
  unfolding read_plain_at_command read_at_command
  read_plain_at_command_spins =
      let (r, e, _) = read_at_command_total 0 since (bytes packet ++ (pause ∷ s)) in
      let fuel : length (pause ∷ s) + 1 ≡ suc (length s + 1) = omega arith in
      ((r, e, packet_first _ e), rw fuel (pause_first (length s + 1)))

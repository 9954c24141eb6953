-- ===== src/Protocol.antt =====
-- internal/connection/protocol.go: the reader of AT commands. Time enters as the readings of
-- `time.Since(startTime)`, two for each round of the loop.
pub mod Lines
pub mod LineBytes
pub mod LineShape
pub mod Commands
pub mod Loop
pub mod Results
pub mod Sound
pub mod Spins
use proxy_rfc.Base.{
  ℕ, zero, suc, ◌+◌, ◌*◌, ◌<◌, Bool, true, false, not, ◌&&◌, ◌||◌, Option, none, some, List, [],
  ◌∷◌, ◌++◌, Bytes, codes, length, drop, is_empty, bytes_eq, ◌==◌, ltb, is_positive, if◌then◌else◌,
}
use proxy_rfc.Conn.{Conn, Written, write, Item, byte, edge, pause, Stream, next_is}
use proxy_rfc.Text.{has_prefix, to_upper, trim_space}
use proxy_rfc.Usrvcom.{UsrVcomConfig, is_usrvcom, parse_usrvcom}

-- The values of `ATCommand.Cmd`: the constants, and any other string.
pub data Cmd : Type 0 where
  reg connect dt dp modem : Cmd
  other : Bytes → Cmd

abbrev pub cmd_reg : Bytes
cmd_reg = codes "AT+REG"

abbrev pub cmd_connect : Bytes
cmd_connect = codes "AT+CONNECT"

abbrev pub resp_ok : Bytes
resp_ok = codes "OK\r\n"

abbrev pub resp_error : Bytes
resp_error = codes "ERROR\r\n"

pub record AtCommand : Type 0 where
  pub cmd : Cmd
  pub param : Bytes
  pub skipped : Bytes
  pub usrvcom : Option UsrVcomConfig

abbrev pub at_command : Cmd → Bytes → AtCommand
at_command cmd param = record { cmd = cmd; param = param; skipped = []; usrvcom = none }

pub data LineEnd : Type 0 where
  ended timed_out conn_closed : LineEnd

pub record Line : Type 0 where
  pub line : Bytes
  pub skipped : Bytes
  pub outcome : LineEnd
  pub rest : Stream

-- Behind a CR: a peek at the next byte, and a LF taken off.
unfoldable pub skip_lf : Stream → Stream
skip_lf [] = []
skip_lf (byte b ∷ s) = if b == b'\n' then s else byte b ∷ s
skip_lf (edge ∷ s) = skip_lf s
skip_lf (pause ∷ s) = s

-- What is left of the stream behind the line end `b`.
unfoldable pub after_end : ℕ → Stream → Stream
unfolding skip_lf
after_end b s = if b == b'\r' then skip_lf s else s

-- Whether the byte `b` belongs to the command: it does inside one, and an 'A' begins one if a peek
-- finds 'T' behind it. A deadline that passes at this peek has still passed at the read that
-- follows, so the peek leaves it.
unfoldable pub in_command : Bool → ℕ → Stream → Bool
unfolding next_is
in_command in_at b s = in_at || (b == b'A' && next_is b'T' s)

abbrev pub is_line_end : ℕ → Bool
is_line_end b = b == b'\r' || b == b'\n'

-- The loop of `readLineWithSkipped`.
unfoldable pub read_line : Bool → Bytes → Bytes → Stream → Line
unfolding after_end in_command
read_line in_at line skipped [] = record {
  line = line;
  skipped = skipped;
  outcome = conn_closed;
  rest = [];
}
read_line in_at line skipped (edge ∷ s) = read_line in_at line skipped s
read_line in_at line skipped (pause ∷ s) = record {
  line = line;
  skipped = skipped;
  outcome = timed_out;
  rest = s;
}
read_line in_at line skipped (byte b ∷ s) =
    let takes = in_command in_at b s in
    let more =
      read_line takes (if takes then line ++ (b ∷ []) else line)
        (if takes then skipped else skipped ++ (b ∷ [])) s in
    if is_line_end b
    then record { line = line; skipped = skipped; outcome = ended; rest = after_end b s }
    else more

unfoldable pub parse_at_command : Bytes → Option AtCommand
parse_at_command cmd_line =
    if has_prefix cmd_line (cmd_reg ++ codes "=")
    then some (at_command reg (drop (length cmd_reg + 1) cmd_line))
    else if has_prefix cmd_line (cmd_connect ++ codes "=")
    then some (at_command connect (drop (length cmd_connect + 1) cmd_line))
    else if has_prefix (to_upper cmd_line) (codes "ATDT")
    then some (at_command dt (drop 4 cmd_line))
    else if has_prefix (to_upper cmd_line) (codes "ATDP")
    then some (at_command dp (drop 4 cmd_line))
    else if has_prefix (to_upper cmd_line) (codes "ATD") && ltb 3 (length cmd_line)
    then some (at_command dt (drop 3 cmd_line))
    else if has_prefix (to_upper cmd_line) (codes "AT")
    then some (at_command modem cmd_line)
    else none

unfoldable pub is_rfc2217_data : Bytes → Bool
is_rfc2217_data (a ∷ b ∷ _ ∷ _) = a == 0xff && (b == 0xfa || b == 0xfb || b == 0xfc || b == 0xfd)
is_rfc2217_data _ = false

-- The variables of the loop of `ReadATCommandWithPresets`; `round` counts its rounds.
pub record Presets : Type 0 where
  pub usrvcom : Option UsrVcomConfig
  pub all_skipped : Bytes
  pub round : ℕ

pub data ReadError : Type 0 where
  overall_timeout net_timeout read_failed : ReadError
  unknown_command : Bytes → ReadError

pub data ReadResult : Type 0 where
  command : AtCommand → Stream → ReadResult
  failed : ReadError → Stream → ReadResult

pub data Step : Type 0 where
  again : Presets → Stream → Step
  done : ReadResult → Step

abbrev pub collect : Presets → Bytes → Presets
collect p skipped = record p { all_skipped = p.all_skipped ++ skipped }

abbrev pub accepted : Option UsrVcomConfig → Option UsrVcomConfig
accepted none = none
accepted (some c) = if c.valid then some c else none

-- Data with no line end when the deadline passes: a packet is taken, all else is collected.
unfoldable pub take_unended : Presets → Bytes → Presets
take_unended p skipped =
    if is_usrvcom skipped
    then elim (accepted (parse_usrvcom skipped)) [
      | some c ↦ record p { usrvcom = some c }
      | none ↦ collect p skipped
    ]
    else collect p skipped

-- Data before the command of a line: a packet is taken, or dropped if it does not parse.
unfoldable pub take_skipped : Presets → Bytes → Presets
take_skipped p skipped =
    if is_empty skipped
    then p
    else if is_usrvcom skipped
    then elim (accepted (parse_usrvcom skipped)) [
      | some c ↦ record p { usrvcom = some c }
      | none ↦ p
    ]
    else if is_rfc2217_data skipped
    then collect p skipped
    else collect p skipped

abbrev pub is_some {ℓ} : {A : Type ℓ} → Option A → Bool
is_some none = false
is_some (some a) = true

abbrev pub next_round : Step → Step
next_round (again p s) = again (record p { round = p.round + 1 }) s
next_round (done r) = done r

module _ (timeout : ℕ) (since : ℕ → ℕ) where
  -- A read that timed out. `since` is read for the second time in this round.
  unfoldable pub after_timeout : Presets → Line → Step
  after_timeout p l =
      if not (is_empty l.skipped) && is_empty l.line
      then again (take_unended p l.skipped) l.rest
      else if is_some p.usrvcom
      then again p l.rest
      else if is_positive timeout && ltb (since (2 * p.round + 1)) timeout
      then again p l.rest
      else done (failed net_timeout l.rest)

  unfoldable pub after_command : Presets → Bytes → Stream → Step
  after_command p cmd_line rest =
      if is_empty cmd_line then again p rest else elim (parse_at_command cmd_line) [
        | some c ↦ done (command (record c { skipped = p.all_skipped; usrvcom = p.usrvcom }) rest)
        | none ↦
            if is_some p.usrvcom
            then again p rest
            else done (failed (unknown_command cmd_line) rest)
      ]

  unfoldable pub after_line : Presets → Line → LineEnd → Step
  after_line p l timed_out = after_timeout p l
  after_line p l conn_closed = done (failed read_failed l.rest)
  after_line p l ended = after_command (take_skipped p l.skipped) (trim_space l.line) l.rest

  -- One round of the loop.
  unfoldable pub read_step : Presets → Stream → Step
  read_step p s =
      let l = read_line false [] [] s in
      if is_positive timeout && ltb timeout (since (2 * p.round))
      then done (failed overall_timeout s)
      else next_round (after_line p l l.outcome)

  unfoldable pub read_loop : ℕ → Presets → Stream → Option ReadResult
  read_loop zero p s = none
  read_loop (suc fuel) p s = elim (read_step p s) [
    | again p' s' ↦ read_loop fuel p' s'
    | done r ↦ some r
  ]

  -- `ReadATCommandWithPresets`.
  unfoldable pub read_at_command : Stream → Option ReadResult
  read_at_command s =
      read_loop (length s + 1) (record { usrvcom = none; all_skipped = []; round = 0 }) s

-- `ReadATCommand`, which sets no deadline; that of its caller, once it has passed, ends every read.
unfoldable pub read_plain_at_command : (ℕ → ℕ) → Stream → Option ReadResult
unfolding read_at_command
read_plain_at_command since s = read_at_command 0 since s

unfoldable pub write_ok : Conn → Written
unfolding write
write_ok conn = write conn resp_ok

unfoldable pub write_error : Conn → Written
unfolding write
write_error conn = write conn resp_error

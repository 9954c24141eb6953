-- ===== src/Rfc2217/Replies.antt =====
-- internal/connection/rfc2217.go: the text of a command for the log, and the acknowledgements that
-- SendRFC2217Responses writes.
use proxy_rfc.Base.{
  ℕ, ◌+◌, ◌-◌, ◌/◌, ◌%◌, ◌≡◌, refl, ap, ◌∙◌, sym, Bool, true, false, Option, none, some, List, [],
  ◌∷◌, ◌++◌, Bytes, codes, ◌==◌, ltb, map, All, All-mono, ◌<◌, arith, if◌then◌else◌,
}
use mathlib.Core.List.{append_assoc, append-nil}
use proxy_rfc.Conn.{Conn, write}
use proxy_rfc.Conn.Open.{IsOpen, write_open_lem}
use proxy_rfc.Decimal.{decimal}
use proxy_rfc.Rfc2217.{
  Command, Buffer, build_response, set_baudrate, set_datasize, set_parity, set_stopsize,
  set_control, big_endian32, find_end, parse_from, parse_commands,
}
use proxy_rfc.Rfc2217.Framing.{IsPlain, find_end-cons}
use proxy_rfc.Rfc2217.Parser.{frames, parse_commands-FramedIn, parse_commands-frames}

-- `hex.EncodeToString`.
abbrev hex_digit : ℕ → ℕ
hex_digit d = if ltb d 10 then d + b'0' else d - 10 + b'a'

unfoldable pub encode_hex : Bytes → Bytes
encode_hex [] = []
encode_hex (b ∷ bs) = hex_digit (b / 16) ∷ hex_digit (b % 16) ∷ encode_hex bs

abbrev invalid : Bytes
invalid = codes "<invalid>"

abbrev baudrate_text : Bytes → Bytes
baudrate_text (a ∷ b ∷ c ∷ d ∷ _) = decimal (big_endian32 a b c d)
baudrate_text _ = invalid

abbrev datasize_text : Bytes → Bytes
datasize_text [] = invalid
datasize_text (v ∷ _) = decimal v ++ codes " bits"

-- An entry of a Go slice of names, counted from one; the number itself outside of it.
abbrev entry : ℕ → Bytes → List Bytes → Bytes
entry v other [] = other
entry v other (n ∷ names) = if v == 1 then n else entry (v - 1) other names

abbrev parity_text : Bytes → Bytes
parity_text [] = invalid
parity_text (v ∷ _) =
    if v == 0
    then decimal v
    else entry v (decimal v)
        (codes "NONE" ∷ codes "ODD" ∷ codes "EVEN" ∷ codes "MARK" ∷ codes "SPACE" ∷ [])

abbrev stopsize_text : Bytes → Bytes
stopsize_text [] = invalid
stopsize_text (v ∷ _) =
    if v == 0 then decimal v else entry v (decimal v) (codes "1" ∷ codes "2" ∷ codes "1.5" ∷ [])

abbrev control_text : Bytes → Bytes
control_text [] = invalid
control_text (v ∷ _) = decimal v

-- `String`.
unfoldable pub command_string : Command → Bytes
unfolding encode_hex
command_string c =
    if c.command == set_baudrate
    then codes "SET-BAUDRATE: " ++ baudrate_text c.payload
    else if c.command == set_datasize
    then codes "SET-DATASIZE: " ++ datasize_text c.payload
    else if c.command == set_parity
    then codes "SET-PARITY: " ++ parity_text c.payload
    else if c.command == set_stopsize
    then codes "SET-STOPSIZE: " ++ stopsize_text c.payload
    else if c.command == set_control
    then codes "SET-CONTROL: " ++ control_text c.payload
    else codes "UNKNOWN-" ++ decimal c.command ++ codes ": " ++ encode_hex c.payload

-- What the loop of `SendRFC2217Responses` leaves: the connection, and whether every write
-- succeeded.
pub record Answered : Type 0 where
  pub conn : Conn
  pub ok : Bool

unfoldable pub send_each : Conn → List Command → Answered
send_each conn [] = record { conn = conn; ok = true }
send_each conn (c ∷ cs) =
    let w = write conn (build_response c) in
    let rest = send_each w.conn cs in if w.ok then rest else record { conn = w.conn; ok = false }

-- `none` is a nil buffer.
unfoldable pub send_responses : Conn → Option Buffer → Answered
unfolding send_each
send_responses conn none = record { conn = conn; ok = true }
send_responses conn (some buffer) = send_each conn buffer.commands

abbrev pub responses : List Command → Bytes
responses [] = []
responses (c ∷ cs) = build_response c ++ responses cs

send_each-open :
    (conn : Conn) (cs : List Command)
    → IsOpen conn
    → send_each conn cs
      ≡ record { conn = record conn { sent = conn.sent ++ responses cs }; ok = true }
unfolding send_each
send_each-open conn [] h = rw (append-nil conn.sent) refl
send_each-open conn (c ∷ cs) h = rw (write_open_lem conn (build_response c) h) (
    rw
      (send_each-open (record conn { sent = conn.sent ++ build_response c }) cs
        (record { not_closed = h.not_closed; no_outcomes = h.no_outcomes }))
      (rw append_assoc refl))

-- The command that the client reads in an answer.
abbrev pub raised : Command → Command
raised c = record c { command = c.command + 100 }

find_end-tail : (x : ℕ) (xs : Bytes) → find_end (x ∷ xs) ≡ none → find_end xs ≡ none
unfolding find_end
find_end-tail x [] h = refl
find_end-tail x (y ∷ r) h = ground arith

responses-frames :
    (cs : List Command) → All (λ c. c.command < 155) cs → responses cs ≡ frames (map raised cs)
unfolding build_response
responses-frames [] h = refl
responses-frames (c ∷ cs) h =
    let code : (c.command + 100) % 256 ≡ c.command + 100 = omega arith in
    rw (code, responses-frames cs h.1) refl

raised-IsPlain :
    (cs : List Command)
    → All (λ c. c.command < 155) cs
    → All IsPlain cs
    → All IsPlain (map raised cs)
raised-IsPlain [] h p = tt
raised-IsPlain (c ∷ cs) h p = (
  find_end-cons (c.command + 100) c.payload (omega arith) (find_end-tail c.command c.payload p.0),
  raised-IsPlain cs h.1 p.1,
)

parse_commands-nil : (parse_commands []).commands ≡ []
unfolding parse_commands parse_from
parse_commands-nil = refl

-- On a connection that takes all writes, the acknowledgements of what was parsed from any data are
-- all written, and are read back as the same commands with their codes raised by 100, if these were
-- below 155.
pub send_responses_lem :
    (conn : Conn) (bytes : Bytes)
    → IsOpen conn
    → All (λ c. c.command < 155) (parse_commands bytes).commands
    → (more : Bytes) × (send_responses conn (some (parse_commands bytes))
        ≡ record { conn = record conn { sent = conn.sent ++ more }; ok = true })
      × ((parse_commands more).commands ≡ map raised (parse_commands bytes).commands)
unfolding send_responses
send_responses_lem conn bytes h small =
    let cs = (parse_commands bytes).commands in
    let plain = All-mono _ _ cs (λ c f. f.0) (parse_commands-FramedIn bytes) in
    (
      responses cs,
      send_each-open conn cs h,
      rw (responses-frames cs small) (
          ap (λ b. (parse_commands b).commands) (sym (append-nil (frames (map raised cs))))
          ∙ parse_commands-frames (map raised cs) [] (raised-IsPlain cs small plain)
          ∙ ap (λ rest. map raised cs ++ rest) parse_commands-nil
          ∙ append-nil (map raised cs)),
    )

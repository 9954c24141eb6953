-- ===== src/Handler/Forwarding.antt =====
-- The client's data around its command, on their way to the device.
use proxy_rfc.Forward.{
  preset_buffer, late_buffer, forward, forward_late, valid_buffer, has_commands, usrvcom_buffer,
}
use proxy_rfc.Base.{
  ℕ, ◌≡◌, ◌≢◌, inl, inr, refl, ap, ◌∙◌, true, false, Option, none, some, List, [], ◌∷◌, ◌++◌, Bytes,
  if◌then◌else◌, Bool-cases, Option-cases, arith,
}
use proxy_rfc.Conn.Open.{IsOpen, write_open_lem}
use proxy_rfc.Conn.{Conn, write, buffered}
use proxy_rfc.Protocol.{AtCommand, Cmd, is_some}
use proxy_rfc.Handler.{World, Client, write_connect, client_start}
use proxy_rfc.Usrvcom.{UsrVcomConfig, is_usrvcom, parse_usrvcom, to_commands, build_packet}
use proxy_rfc.Usrvcom.Settings.{parse_usrvcom-IsPortSetting}
use proxy_rfc.Base.{IsBytes}
use proxy_rfc.Rfc2217.{Buffer, Command, parse_commands}
use proxy_rfc.Handler.Clients.{after_start-conns, client_start-ok}
use mathlib.Core.List.{append-nil, append_assoc}

-- A USR-VCOM packet as the RFC 2217 packet for it; `b` where there is no whole packet.
abbrev pub packet_or : Bytes → Option UsrVcomConfig → Bytes
packet_or b none = b
packet_or b (some c) = build_packet c

-- What is sent of the data before a command, by its port setting and its skipped bytes.
abbrev pub preset_bytes : Option UsrVcomConfig → Bytes → Bytes
preset_bytes (some c) skipped = build_packet c
preset_bytes none skipped =
    if is_usrvcom skipped then packet_or [] (parse_usrvcom skipped) else skipped

-- What is sent of the data behind a command.
abbrev pub late_bytes : Bytes → Bytes
late_bytes b = if is_usrvcom b then packet_or b (parse_usrvcom b) else b

-- A port setting that the reader found is marked valid.
abbrev pub IsValidPreset : Option UsrVcomConfig → Type 0
IsValidPreset none = Unit
IsValidPreset (some c) = c.valid ≡ true

write_sent : (c : Conn) (b : Bytes) → IsOpen c → (write c b).conn ≡ record c { sent = c.sent ++ b }
write_sent c b h = ap (λ w. w.conn) (write_open_lem c b h)

abbrev pub raw : Option Buffer → Bytes
raw none = []
raw (some b) = b.raw_data

forward_raw :
    (cs : List Command) (r : Bytes) (c : Conn)
    → IsOpen c
    → forward (some (record { commands = cs; raw_data = r })) c ≡ record c { sent = c.sent ++ r }
forward_raw cs [] c h = rw (append-nil c.sent) refl
forward_raw cs (x ∷ xs) c h = write_sent c (x ∷ xs) h

pub forward_sent :
    (o : Option Buffer) (c : Conn) → IsOpen c → forward o c ≡ record c { sent = c.sent ++ raw o }
forward_sent none c h = rw (append-nil c.sent) refl
forward_sent (some b) c h = forward_raw b.commands b.raw_data c h

-- A port setting makes a buffer with commands.
valid_buffer-packet :
    (b : Bytes)
    → IsBytes b
    → (raw (valid_buffer (parse_usrvcom b)) ≡ packet_or [] (parse_usrvcom b))
      × (has_commands (valid_buffer (parse_usrvcom b)) ≡ is_some (parse_usrvcom b))
unfolding to_commands
valid_buffer-packet b hb = elim (Option-cases (parse_usrvcom b)) [
  | inl e ↦ rw e (refl, refl)
  | inr (c, e) ↦ simp (e, (parse_usrvcom-IsPortSetting b hb e).is_valid) (refl, refl)
]

preset_buffer-skipped :
    (cmd : Cmd) (param skipped : Bytes)
    → IsBytes skipped
    → raw (preset_buffer (record { cmd = cmd; param = param; skipped = skipped; usrvcom = none }))
      ≡ preset_bytes none skipped
unfolding preset_buffer parse_commands is_usrvcom
preset_buffer-skipped cmd param [] h = refl
preset_buffer-skipped cmd param (x ∷ xs) h = elim (Bool-cases (is_usrvcom (x ∷ xs))) [
  | inl yes_packet ↦ rw yes_packet (valid_buffer-packet (x ∷ xs) h).0
  | inr no_packet ↦ rw no_packet refl
]

valid_buffer-valid :
    (s : UsrVcomConfig) → s.valid ≡ true → valid_buffer (some s) ≡ some (usrvcom_buffer s)
valid_buffer-valid s v = rw v refl

preset_buffer-fields :
    (cmd : Cmd) (param skipped : Bytes) (u : Option UsrVcomConfig)
    → IsBytes skipped
    → IsValidPreset u
    → raw (preset_buffer (record { cmd = cmd; param = param; skipped = skipped; usrvcom = u }))
      ≡ preset_bytes u skipped
unfolding preset_buffer
preset_buffer-fields cmd param skipped none h v = preset_buffer-skipped cmd param skipped h
preset_buffer-fields cmd param skipped (some s) h v = rw (valid_buffer-valid s v, raw) refl

pub preset_buffer-raw :
    (c : AtCommand)
    → IsBytes c.skipped
    → IsValidPreset c.usrvcom
    → raw (preset_buffer c) ≡ preset_bytes c.usrvcom c.skipped
preset_buffer-raw c h v = preset_buffer-fields c.cmd c.param c.skipped c.usrvcom h v

late_buffer-raw :
    (b : Bytes)
    → IsBytes b
    → (has_commands (late_buffer b) ≡ true → raw (late_buffer b) ≡ late_bytes b)
      × (has_commands (late_buffer b) ≡ false → late_bytes b ≡ b)
unfolding late_buffer parse_commands
late_buffer-raw b hb = ground (arith, valid_buffer-packet b hb)

pub forward_late_sent :
    (b : Bytes) (c : Conn)
    → IsBytes b
    → IsOpen c
    → forward_late b c ≡ record c { sent = c.sent ++ late_bytes b }
unfolding forward_late is_usrvcom
forward_late_sent [] c hb h = rw (append-nil c.sent) refl
forward_late_sent (x ∷ xs) c hb h =
    let (has, none_there) = late_buffer-raw (x ∷ xs) hb in
    elim (Bool-cases (has_commands (late_buffer (x ∷ xs)))) [
      | inl yes_has ↦ rw yes_has (forward_sent (late_buffer (x ∷ xs)) c h ∙ rw (has yes_has) refl)
      | inr no_has ↦ rw no_has (write_sent c (x ∷ xs) h ∙ rw (none_there no_has) refl)
    ]

pub forwarded :
    (c : Client) (dev : Conn)
    → IsBytes c.at_command.skipped
    → IsBytes (buffered c.unread)
    → IsValidPreset c.at_command.usrvcom
    → IsOpen dev
    → forward_late (buffered c.unread) (forward (preset_buffer c.at_command) dev) ≡ record dev {
      sent =
          dev.sent
          ++ (preset_bytes c.at_command.usrvcom c.at_command.skipped
              ++ late_bytes (buffered c.unread));
    }
forwarded c dev hs hb v h =
    rw (forward_sent (preset_buffer c.at_command) dev h, preset_buffer-raw c.at_command hs v)
      (forward_late_sent (buffered c.unread) _ hb
          (record { not_closed = h.not_closed; no_outcomes = h.no_outcomes })
        ∙ ap (λ b. record dev { sent = b }) (append_assoc dev.sent _ _))

-- A client that is told of its connection has its data forwarded: a device connection other than
-- the client's, open and with no failing write ahead, is sent, behind what was sent before, the
-- port setting or the other data from before the command and then the data from behind it. A
-- USR-VCOM packet goes as RFC 2217 frames, in place of all the data it came with; all else goes as
-- it came.
pub client_start_forwards :
    (now : ℕ) (w : World) (c : Client) (id : Bytes) (ref : ℕ)
    → (write_connect c.modem (w.conns c.conn)).ok ≡ true
    → c.conn ≢ (w.devices ref).conn
    → IsOpen (w.conns (w.devices ref).conn)
    → IsBytes c.at_command.skipped
    → IsBytes (buffered c.unread)
    → IsValidPreset c.at_command.usrvcom
    → ((client_start now w c id ref).0.conns (w.devices ref).conn).sent
      ≡ (w.conns (w.devices ref).conn).sent
        ++ (preset_bytes c.at_command.usrvcom c.at_command.skipped
            ++ late_bytes (buffered c.unread))
client_start_forwards now w c id ref ok apart h hs hb v =
    rw (client_start-ok now w c id ref ok, after_start-conns now w c id ref apart)
      (ap (λ k. k.sent) (forwarded c (w.conns (w.devices ref).conn) hs hb v h))

-- ===== src/Dispatch.antt =====
-- internal/connection/handler.go: `Handle`, the loop of commands with which a connection begins. It
-- ends where the connection turns out to be a device's or a client's, or is given up.
pub mod Kept
pub mod Rounds
pub mod History
pub mod Clients
pub mod Said
use proxy_rfc.Base.{
  ℕ, zero, suc, ◌+◌, Bool, true, false, not, ◌&&◌, Option, none, some, List, [], ◌∷◌, ◌++◌, Bytes,
  is_empty, length, if◌then◌else◌,
}
use proxy_rfc.Conn.{Conn, Stream}
use proxy_rfc.Modem.{ModemState, new_modem_state, write_modem_ok, handle_command}
use proxy_rfc.Protocol.{
  AtCommand, Cmd, reg, connect, dt, dp, modem, other, ReadResult, command, failed, read_at_command,
  write_ok, write_error,
}
use proxy_rfc.Usrvcom.{UsrVcomConfig}

-- The variables of the loop.
pub record Talk : Type 0 where
  pub usrvcom : Option UsrVcomConfig
  pub presets : Bytes
  pub modem : Option ModemState
  pub timeout : ℕ

-- What comes after a command: the next round, a handler, or the end.
pub data Next : Type 0 where
  goes_on : Talk → Conn → Next
  to_device : Bytes → Conn → Next
  to_client : AtCommand → Option ModemState → Conn → Next
  gives_up : Conn → Next

-- The connection of what comes next.
abbrev pub conn_of : Next → Conn
conn_of (goes_on t conn) = conn
conn_of (to_device token conn) = conn
conn_of (to_client c m conn) = conn
conn_of (gives_up conn) = conn

abbrev pub or_else {ℓ} : {A : Type ℓ} → Option A → Option A → Option A
or_else none b = b
or_else (some a) b = some a

abbrev pub new_talk : ℕ → Talk
new_talk init_timeout = record {
  usrvcom = none;
  presets = [];
  modem = none;
  timeout = init_timeout;
}

-- A command's own port setting replaces the one that is kept.
abbrev pub keep_usrvcom : Talk → AtCommand → Talk
keep_usrvcom t c = record t { usrvcom = or_else c.usrvcom t.usrvcom }

abbrev pub with_usrvcom : Talk → AtCommand → AtCommand
with_usrvcom t c = record c { usrvcom = or_else c.usrvcom t.usrvcom }

abbrev pub with_presets : Talk → AtCommand → AtCommand
with_presets t c =
    if not (is_empty t.presets) && is_empty c.skipped then record c { skipped = t.presets } else c

abbrev pub keep_skipped : Bytes → Bytes → Bytes
keep_skipped presets skipped = if is_empty skipped then presets else presets ++ skipped

-- The first generic command switches the modem on.
abbrev pub modem_of : Option ModemState → ModemState
modem_of none = new_modem_state
modem_of (some m) = m

module _ (post_timeout : ℕ) where
  -- ATDT and ATDP without a modem.
  unfoldable pub on_plain_dial : Talk → Conn → Next
  on_plain_dial t conn =
      if (write_ok conn).ok
      then goes_on (record t { timeout = post_timeout }) (write_ok conn).conn
      else gives_up (write_ok conn).conn

  -- ATDT and ATDP with a modem: a number is a call.
  unfoldable pub on_modem_dial : Talk → ModemState → AtCommand → Conn → Next
  on_modem_dial t m c conn =
      if is_empty c.param
      then goes_on (record t { timeout = post_timeout }) (write_modem_ok m conn).conn
      else to_client (with_presets t (with_usrvcom t (record c { cmd = connect }))) (some m) conn

  unfoldable pub on_dial : Talk → Option ModemState → AtCommand → Conn → Next
  on_dial t none c conn = on_plain_dial t conn
  on_dial t (some m) c conn = on_modem_dial t m c conn

  unfoldable pub on_modem : Talk → AtCommand → Conn → Next
  on_modem t c conn =
      let h = handle_command (modem_of t.modem) conn c.param in
      goes_on
        (record t {
          modem = some h.state;
          presets = keep_skipped t.presets c.skipped;
          timeout = post_timeout;
        })
        h.conn

  abbrev pub by_command : Talk → Cmd → AtCommand → Conn → Next
  by_command t dt c conn = on_dial t t.modem c conn
  by_command t dp c conn = on_dial t t.modem c conn
  by_command t reg c conn = to_device c.param conn
  by_command t connect c conn = to_client (with_usrvcom t c) none conn
  by_command t modem c conn = on_modem t c conn
  by_command t (other name) c conn = gives_up (write_error conn).conn

  -- The body of the loop behind the read.
  unfoldable pub dispatch : Talk → AtCommand → Conn → Next
  dispatch t c conn = by_command (keep_usrvcom t c) c.cmd c conn

  -- What comes of a read.
  abbrev pub answer : Talk → Conn → Option ReadResult → Option (Next × Stream)
  answer t conn none = none
  answer t conn (some (failed e rest)) = some (gives_up (write_error conn).conn, rest)
  answer t conn (some (command c rest)) = some (dispatch t c conn, rest)

  -- The loop; `since` gives the clock's readings in each of its rounds.
  unfoldable pub talk : (ℕ → ℕ → ℕ) → ℕ → ℕ → Talk → Stream → Conn → Option (Next × Stream)
  talk since zero round t s conn = none
  talk since (suc fuel) round t s conn =
      elim (answer t conn (read_at_command t.timeout (since round) s)) [
        | none ↦ none
        | some n ↦ elim n.0 [
          | goes_on t' conn' ↦ talk since fuel (round + 1) t' n.1 conn'
          | to_device token conn' ↦ some (to_device token conn', n.1)
          | to_client c m conn' ↦ some (to_client c m conn', n.1)
          | gives_up conn' ↦ some (gives_up conn', n.1)
        ]
      ]

  -- `Handle` up to the call of a handler.
  unfoldable pub handle : ℕ → (ℕ → ℕ → ℕ) → Stream → Conn → Option (Next × Stream)
  handle init_timeout since s conn = talk since (length s + 1) 0 (new_talk init_timeout) s conn

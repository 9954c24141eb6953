-- ===== src/Tests/Devices.antt =====
-- A device that waits, one whose connection falls silent, and what it is sent of port settings.
use proxy_rfc.Base.{
  ◌+◌, ◌≡◌, refl, true, false, some, inl, List, [], ◌∷◌, ◌++◌, Bytes, codes, map, arith,
}
use proxy_rfc.Bridge
use proxy_rfc.Bridge.{Bridge, new_bridge, device_reads}
use proxy_rfc.Bridge.Silenced.{AddsNops, failure, run_silences}
use proxy_rfc.Conn.{Conn}
use proxy_rfc.Rfc2217.{Command, parse_commands, frame_at, find_end}
use proxy_rfc.Rfc2217.Replies.{raised, command_string, send_responses, send_responses_lem}
use proxy_rfc.Usrvcom.{UsrVcomConfig}
use proxy_rfc.Usrvcom.Texts.{config_string, parity_string}
use proxy_rfc.Sharing
use proxy_rfc.Sharing.{Sharing, nobody, reader_enters, bridge_enters, arrives, expires}
use proxy_rfc.Sharing.Split.{Splits, run-Splits}
use proxy_rfc.Sharing.Deaf.{run_deafens}
use proxy_rfc.Waiting
use proxy_rfc.Waiting.{
  Waiting, start, reader_looks, reading, read_returns, got, timed_out, failed, keeper_ticks,
  replaces, keeper_stops, gone, is_over,
}
use proxy_rfc.Waiting.Watch.{run_tells, run_strands}

abbrev open_conn : Conn
open_conn = record { sent = []; closed = false; outcomes = [] }

-- The device says something, is silent, gets a NOP, and leaves.
abbrev leaves : List Waiting.Event
leaves =
    reader_looks 0
    ∷ read_returns (got (codes "x"))
    ∷ reader_looks 1
    ∷ read_returns timed_out
    ∷ keeper_ticks
    ∷ reader_looks 2
    ∷ read_returns failed
    ∷ []

run_tells_example : is_over (Waiting.run (start 30 open_conn) leaves) ≡ true
unfolding Waiting.run Waiting.apply Waiting.device_reader_returns Waiting.device_reader_looks
    Waiting.device_keepalive start proxy_rfc.Conn.write
run_tells_example = run_tells 30 open_conn leaves (ground arith) (inl refl)

abbrev goes_on : List Waiting.Event
goes_on = read_returns failed ∷ keeper_ticks ∷ reader_looks 9 ∷ []

run_strands_example :
    is_over (Waiting.run (start 30 open_conn) (replaces ∷ reader_looks 1 ∷ keeper_stops ∷ goes_on))
    ≡ false
run_strands_example = run_strands 30 1 open_conn goes_on (ground arith)

abbrev talking : Bridge
talking = new_bridge 100 0 open_conn open_conn

-- What the device says after a deadline has passed does not reach the client.
run_silences_run :
    AddsNops open_conn.sent
      (Bridge.run talking (
        device_reads 105 failure
        ∷ device_reads 106 (record { payload = codes "lost"; fails = false })
        ∷ [])).client.sent
unfolding new_bridge
run_silences_run =
    run_silences talking 105
      (device_reads 106 (record { payload = codes "lost"; fails = false }) ∷ [])

abbrev baud_9600 : Command
baud_9600 = record { command = 1; payload = 0 ∷ 0 ∷ 0x25 ∷ 0x80 ∷ [] }

-- IAC SB COM-PORT-OPTION SET-BAUDRATE 9600 IAC SE.
abbrev wire : Bytes
wire = 0xff ∷ 0xfa ∷ 0x2c ∷ 1 ∷ 0 ∷ 0 ∷ 0x25 ∷ 0x80 ∷ 0xff ∷ 0xf0 ∷ []

prints_command : command_string baud_9600 ≡ codes "SET-BAUDRATE: 9600"
unfolding command_string proxy_rfc.Decimal.decimal
prints_command = refl

send_responses_lem_example :
    (more : Bytes) × (send_responses open_conn (some (parse_commands wire))
      ≡ record { conn = record open_conn { sent = open_conn.sent ++ more }; ok = true })
    × ((parse_commands more).commands ≡ map raised (parse_commands wire).commands)
unfolding parse_commands frame_at find_end
send_responses_lem_example =
    send_responses_lem open_conn wire (record { not_closed = refl; no_outcomes = refl })
      (omega arith, tt)

abbrev setting_9600 : UsrVcomConfig
setting_9600 = record {
  baud_rate = 9600;
  data_bits = 8;
  parity = 0;
  stop_bits = 1;
  valid = true;
  raw_data = [];
}

prints_setting : config_string setting_9600 ≡ codes "USR-VCOM: 9600 baud, 8N1"
unfolding config_string proxy_rfc.Decimal.decimal
prints_setting = refl

prints_parity : parity_string (record setting_9600 { parity = 9 }) ≡ codes "Unknown(9)"
unfolding parity_string proxy_rfc.Decimal.decimal
prints_parity = refl

-- In the bridge's Read, with a deadline that deviceReader has set.
abbrev shared : Sharing
shared = record {
  bridge = talking;
  reader = reading;
  holder = nobody;
  deadline = 5000000000;
  stopped = false;
  dropped = [];
}

abbrev speaks_late : List Sharing.Event
speaks_late =
    reader_enters
    ∷ arrives 6000000000 (codes "x")
    ∷ Sharing.reader_looks 6000000000
    ∷ bridge_enters
    ∷ arrives 6000000001 (codes "y")
    ∷ []

run_deafens_example :
    AddsNops
      (Sharing.run shared (bridge_enters ∷ [])).bridge.client.sent
      (Sharing.run shared
        ((bridge_enters ∷ []) ++ (expires (0 + 5000000000) ∷ speaks_late))).bridge.client.sent
unfolding Sharing.run Sharing.apply new_bridge
run_deafens_example =
    run_deafens 0 shared (bridge_enters ∷ []) speaks_late (omega arith) (omega arith) (ground arith)
      refl

-- deviceReader has taken the first bytes and nobody the others.
drops_bytes :
    (Sharing.run shared ((bridge_enters ∷ []) ++ (expires 5000000000 ∷ speaks_late))).dropped
    ≡ codes "x"
unfolding Sharing.run Sharing.apply new_bridge Bridge.apply Bridge.device_read Bridge.copy_reading
drops_bytes = refl

-- The reader is let in first, then the bridge.
abbrev in_turn : List Sharing.Event
in_turn =
    reader_enters
    ∷ arrives 1000000000 (codes "x")
    ∷ bridge_enters
    ∷ arrives 1000000001 (codes "y")
    ∷ bridge_enters
    ∷ arrives 1000000002 (codes "z")
    ∷ []

run-Splits_example : Splits shared (Sharing.run shared in_turn) (codes "xyz")
unfolding Sharing.apply new_bridge Bridge.apply Bridge.device_read Bridge.copy_reading
    proxy_rfc.Conn.write
run-Splits_example = run-Splits shared in_turn (record {
  no_keepalive = refl;
  client_loop = refl;
  not_ended = refl;
  client_open = refl;
  device_open = record { not_closed = refl; no_outcomes = refl };
})

-- ===== src/Sharing.antt =====
-- A session's device connection, which two loops read at once: deviceReader of
-- internal/connection/handler.go, which goes on while its device is in a session, and the device's
-- loop of internal/session/bridge.go. Go's net package lets one Read in at a time, and gives the
-- connection one read deadline, whoever has set it.
pub mod Deaf
pub mod Split
use proxy_rfc.Base.{
  ℕ, ◌+◌, Bool, true, false, not, ◌&&◌, List, [], ◌∷◌, ◌++◌, Bytes, ltb, leb, if◌then◌else◌,
}
use proxy_rfc.Bridge
use proxy_rfc.Bridge.{Bridge, Reading, client_reads, device_reads, ticks, wakes, returns}
use proxy_rfc.Waiting.{Reader, looking, reading, gone}

-- Whose Read has been let in.
pub data Holder : Type 0 where
  nobody the_reader the_bridge : Holder

pub record Sharing : Type 0 where
  pub bridge : Bridge
  pub reader : Reader
  pub holder : Holder
  -- The connection's read deadline, in nanoseconds; 0 is none.
  pub deadline : ℕ
  pub stopped : Bool
  -- What deviceReader has read and dropped.
  pub dropped : Bytes

-- The events of the bridge but for the reads of its device loop; a loop that asks for its Read and
-- is let in; bytes that arrive, and a deadline that passes, which the Read that was let in returns.
pub data Event : Type 0 where
  client_says : ℕ → Reading → Event
  bridge_ticks : ℕ → Event
  bridge_wakes bridge_returns : Event
  reader_looks : ℕ → Event
  reader_enters bridge_enters : Event
  arrives : ℕ → Bytes → Event
  expires : ℕ → Event

abbrev on_bridge : Bridge.Event → Sharing → Sharing
on_bridge e s = record s { bridge = Bridge.apply s.bridge e }

-- The top of the loop of deviceReader.
abbrev look : ℕ → Sharing → Sharing
look now s =
    if s.stopped
    then record s { reader = gone }
    else record s { reader = reading; deadline = now + 5000000000 }

abbrev reader_turn : ℕ → Reader → Sharing → Sharing
reader_turn now looking s = look now s
reader_turn now _ s = s

abbrev pub let_reader_in : Holder → Reader → Sharing → Sharing
let_reader_in nobody reading s = record s { holder = the_reader }
let_reader_in _ _ s = s

abbrev pub let_bridge_in : Holder → Sharing → Sharing
let_bridge_in nobody s = if s.bridge.outward.running then record s { holder = the_bridge } else s
let_bridge_in _ s = s

-- The Read that was let in returns bytes.
abbrev pub received : ℕ → Bytes → Holder → Sharing → Sharing
received now bytes nobody s = s
received now bytes the_reader s = record s {
  reader = looking;
  holder = nobody;
  dropped = s.dropped ++ bytes;
}
received now bytes the_bridge s =
    on_bridge (device_reads now (record { payload = bytes; fails = false }))
      (record s { holder = nobody })

-- It returns with its deadline passed: deviceReader goes on, and the bridge takes it for an error.
abbrev pub timed_out : ℕ → Holder → Sharing → Sharing
timed_out now nobody s = s
timed_out now the_reader s = record s { reader = looking; holder = nobody }
timed_out now the_bridge s =
    on_bridge (device_reads now (record { payload = []; fails = true }))
      (record s { holder = nobody })

-- An event that cannot happen in a state leaves it.
unfoldable pub apply : Sharing → Event → Sharing
apply s (client_says now r) = on_bridge (client_reads now r) s
apply s (bridge_ticks now) = on_bridge (ticks now) s
apply s bridge_wakes = on_bridge wakes s
apply s bridge_returns = on_bridge returns s
apply s (reader_looks now) = reader_turn now s.reader s
apply s reader_enters = let_reader_in s.holder s.reader s
apply s bridge_enters = let_bridge_in s.holder s
apply s (arrives now bytes) = received now bytes s.holder s
apply s (expires now) =
    if ltb 0 s.deadline && leb s.deadline now then timed_out now s.holder s else s

unfoldable pub run : Sharing → List Event → Sharing
run s [] = s
run s (e ∷ es) = run (apply s e) es

-- ===== src/Tests/Histories.antt =====
-- A world that the proxy comes to: a device registers, and a client is let through to it.
use proxy_rfc.Base.{ℕ, ◌+◌, ◌<◌, ◌≡◌, refl, true, false, none, some, [], ◌∷◌, Bytes, codes, map}
use proxy_rfc.Conn.{Conn}
use proxy_rfc.Device.{Device, is_in_session}
use proxy_rfc.Handler.{
  World, wrote, add_device, Client, parse_token, client_check, client_create, register_device,
  new_device,
}
use proxy_rfc.Protocol.{connect, write_ok}
use proxy_rfc.Bridge.{new_bridge, client_reads, apply}
use proxy_rfc.Session.{Session, list_session_info}
use proxy_rfc.Worlds.{bridge_at, bridged, first_world, Reachable, begins, continues, adds, answers}
use proxy_rfc.Worlds.Invariant.{IsWorld, Reachable-IsWorld, Reachable-client_check}

abbrev no_device : ℕ → Device
no_device ref = new_device [] 0 0

abbrev open_conns : ℕ → Conn
open_conns ref = record { sent = []; closed = false; outcomes = [] }

abbrev added : World
added =
    add_device (first_world false 0 no_device open_conns) (new_device (codes "meter") 7 1700000000)

abbrev one_device : World
one_device = wrote added 7 (write_ok (added.conns 7))

reaches_one : Reachable false 0 no_device open_conns one_device
reaches_one = continues (continues begins (adds 1700000000 7 (codes "meter"))) (answers 7)

-- The steps of a registration where none was before are those of `register_device`.
is_registration :
    one_device
    ≡ (register_device 1700000000 (first_world false 0 no_device open_conns) 7 (codes "meter")).0
unfolding register_device proxy_rfc.Handler.add_device proxy_rfc.Protocol.write_ok
    proxy_rfc.Device.get proxy_rfc.SyncMap.load proxy_rfc.Conn.write
is_registration = refl

Reachable-IsWorld_example : IsWorld one_device
Reachable-IsWorld_example = Reachable-IsWorld false 0 no_device open_conns reaches_one

abbrev asker : Client
asker = record {
  conn = 3;
  modem = none;
  at_command = record { cmd = connect; param = codes "meter"; skipped = []; usrvcom = none };
  unread = [];
}

lets_through : client_check [] one_device asker ≡ some 0
unfolding client_check parse_token proxy_rfc.Device.get proxy_rfc.SyncMap.load register_device
    proxy_rfc.Protocol.write_ok proxy_rfc.Handler.add_device proxy_rfc.Device.register
    proxy_rfc.SyncMap.store proxy_rfc.Base.bytes_eq is_in_session
lets_through = refl

Reachable-client_check_example :
    (parse_token [] (codes "meter") ≡ some (one_device.devices 0).id)
    × (0 < one_device.next_ref)
    × (is_in_session (one_device.devices 0) ≡ false)
Reachable-client_check_example =
    Reachable-client_check false 0 no_device open_conns [] asker 0 reaches_one lets_through

-- A session of the client with the device, and three bytes that its bridge passes on.
abbrev in_session : World
in_session = (client_create 1700000100 one_device asker (codes "meter") 0).0

abbrev session : Session
session = (client_create 1700000100 one_device asker (codes "meter") 0).1

abbrev passed_on : World
passed_on = bridged in_session session (
    apply (bridge_at in_session session (new_bridge 1700000100 0 (open_conns 3) (open_conns 7)))
      (client_reads 1700000101 (record { payload = codes "abc"; fails = false })))

counts_three :
    map (λ s. s.bytes_in) (list_session_info (λ _. []) (λ _. 0) passed_on.manager) ≡ 3 ∷ []
unfolding list_session_info proxy_rfc.Session.list_sessions bridged client_create
    proxy_rfc.Session.create proxy_rfc.SyncMap.store proxy_rfc.Base.bytes_eq apply
    proxy_rfc.Bridge.client_read proxy_rfc.Bridge.copy_reading proxy_rfc.Conn.write register_device
    proxy_rfc.Handler.add_device proxy_rfc.Protocol.write_ok proxy_rfc.Device.get
    proxy_rfc.SyncMap.load proxy_rfc.Session.set_callbacks proxy_rfc.Session.new_manager
    proxy_rfc.Session.session_id proxy_rfc.Decimal.decimal new_bridge
counts_three = refl

-- The device's connection was sent OK at its registration.
sends_three : (passed_on.conns 7).sent ≡ codes "OK\r\nabc"
unfolding bridged client_create proxy_rfc.Session.create apply proxy_rfc.Bridge.client_read
    proxy_rfc.Bridge.copy_reading proxy_rfc.Conn.write register_device proxy_rfc.Handler.add_device
    proxy_rfc.Protocol.write_ok proxy_rfc.Device.get proxy_rfc.SyncMap.load new_bridge
sends_three = refl

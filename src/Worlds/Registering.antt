-- ===== src/Worlds/Registering.antt =====
-- A registration as `handleDevice` makes it, in the single steps of the worlds.
use proxy_rfc.Base.{ℕ, ◌≡◌, false, Bool, inl, inr, Option, none, some, Bytes, Bool-cases}
use proxy_rfc.Conn.{close}
use proxy_rfc.Device.{Devices, get}
use proxy_rfc.Handler.{
  World, wrote, drop_existing, add_device, new_device, device_exit, register_device,
}
use proxy_rfc.Protocol.{write_ok}
use proxy_rfc.Session.{Conns}
use proxy_rfc.Worlds.Stops.{stopped, stop_keepalive-running}
use proxy_rfc.Worlds.{heard, stops, hangs_up, exits, adds, answers, Reachable, continues}

-- An old device object is not stopped yet.
abbrev pub IsRunning : World → Option ℕ → Type 0
IsRunning w none = Unit
IsRunning w (some old) = (w.devices old).stopped ≡ false

module _ {debug : Bool} {idle_timeout : ℕ} {devices : Devices} {conns : Conns} where
  dropped :
      (w : World) (id : Bytes) (old : ℕ)
      → let w1 = stopped w old in
        let conn = (w.devices old).conn in
        Reachable debug idle_timeout devices conns
          (device_exit (heard w1 conn (close (w1.conns conn))) id)
        → Reachable debug idle_timeout devices conns (drop_existing w id (some old))
  unfolding device_exit
  dropped w id old h = h

  drop_existing-Reachable :
      (w : World) (id : Bytes) (o : Option ℕ)
      → Reachable debug idle_timeout devices conns w
      → IsRunning w o
      → Reachable debug idle_timeout devices conns (drop_existing w id o)
  drop_existing-Reachable w id none h running = h
  drop_existing-Reachable w id (some old) h running =
      let w1 = stopped w old in
      let conn = (w.devices old).conn in
      let h1 =
        continues {w = w} {w' = w1} h (stops {w = w} old (stop_keepalive-running w old running)) in
      let h2 = continues h1 (hangs_up {w = w1} conn) in
      dropped w id old (continues h2 (exits {w = heard w1 conn (close (w1.conns conn))} id))

  -- What one handler makes of a registration without a step of another one between is reachable, by
  -- the single steps.
  register_device-Reachable :
      (now : ℕ) (w : World) (conn : ℕ) (id : Bytes)
      → Reachable debug idle_timeout devices conns w
      → IsRunning w (get id w.registry)
      → Reachable debug idle_timeout devices conns (register_device now w conn id).0
  unfolding register_device
  register_device-Reachable now w conn id h running =
      let w1 = drop_existing w id (get id w.registry) in
      let w2 = add_device w1 (new_device id conn now) in
      let w3 = wrote w2 conn (write_ok (w2.conns conn)) in
      let h1 = drop_existing-Reachable w id (get id w.registry) h running in
      let h3 = continues (continues h1 (adds {w = w1} now conn id)) (answers {w = w2} conn) in
      elim (Bool-cases (write_ok (w2.conns conn)).ok) [
        | inl ok ↦ rw ok h3
        | inr bad ↦ rw bad (continues h3 (exits {w = w3} id))
      ]

-- ===== src/Worlds/Invariant.antt =====
-- What holds in every reachable world.
use proxy_rfc.Base.{
  ℕ, ◌+◌, ◌<◌, ◌^◌, ◌≡◌, refl, sym, subst, inl, inr, Bool, false, none, some, Option, Bytes,
  Bool-cases,
}
use proxy_rfc.Api.{Request, Response}
use proxy_rfc.Api.Effects.{IsEffect, closed_both, serve-IsEffect_of}
use proxy_rfc.Bridge.{Bridge, apply}
use proxy_rfc.Config.{Config}
use proxy_rfc.Device.{Devices, get, is_in_session, set_session, clear_session}
use proxy_rfc.Modem.{ModemState}
use proxy_rfc.Protocol.{AtCommand}
use proxy_rfc.Session.{Session, get_session, new_manager, set_callbacks, Conns}
use proxy_rfc.Session.Lifecycle.{IsManaged, store-IsManaged, create_lem, end_session_lem}
use proxy_rfc.SyncMap.Laws.{load-All}
use proxy_rfc.Handler.{
  World, Client, parse_token, client_check, client_refuse, client_create, client_start,
  client_forward, session_cleanup, say_no_carrier, bridge_close, client_finish, device_exit,
  add_device, device_dialled, is_dial, write_connect,
}
use proxy_rfc.Handler.Clients.{client_check-some}
use proxy_rfc.Worlds.{
  bridge_at, bridged, first_world, Step, hears, waits, moves, hangs_up, stops, adds, answers, exits,
  dials, refuses, opens, closes, clears, serves, Reachable, begins, continues,
}
use proxy_rfc.Worlds.Stops.{stopped, stop_keepalive-some}
use proxy_rfc.Worlds.Slots.{
  SameIds, IsRegistry, move-IsRegistry, put_device-id, device_exit-IsRegistry,
  add_device-IsRegistry,
}

pub record IsWorld (w : World) : Type 0 where
  pub registered : IsRegistry w
  pub managed : IsManaged w.manager

-- A step that keeps the registry, the identifiers of the device objects and the manager.
keep-IsWorld :
    (w w' : World)
    → IsWorld w
    → w'.registry ≡ w.registry
    → w'.next_ref ≡ w.next_ref
    → SameIds w w'
    → IsManaged w'.manager
    → IsWorld w'
keep-IsWorld w w' v r n same m = record {
  registered = move-IsRegistry w w' v.registered r n same;
  managed = m;
}

device_dialled-IsWorld :
    (w : World) (conn : ℕ) (c : AtCommand) → IsWorld w → IsWorld (device_dialled w conn c)
unfolding device_dialled
device_dialled-IsWorld w conn c v = elim (Bool-cases (is_dial c.cmd)) [
  | inl dial ↦ rw dial (keep-IsWorld w _ v refl refl (λ _. refl) v.managed)
  | inr no_dial ↦ rw no_dial v
]

session_cleanup-IsWorld :
    (w : World) (s : Session) (ref : ℕ) → IsWorld w → IsWorld (session_cleanup w s ref)
unfolding session_cleanup clear_session
session_cleanup-IsWorld w s ref v =
    keep-IsWorld w _ v refl refl (λ r. put_device-id ref _ w.devices r refl)
      (end_session_lem w.manager s.id v.managed).0

say_no_carrier-IsWorld :
    (o : Option ModemState) (w : World) (conn : ℕ) → IsWorld w → IsWorld (say_no_carrier o w conn)
say_no_carrier-IsWorld none w conn v = v
say_no_carrier-IsWorld (some m) w conn v = keep-IsWorld w _ v refl refl (λ _. refl) v.managed

module _ (now : ℕ) (w : World) (c : Client) (id : Bytes) (ref : ℕ) where
  client_create-IsWorld :
      w.manager.counter + 1 < 2 ^ 64 → IsWorld w → IsWorld (client_create now w c id ref).0
  unfolding client_create set_session
  client_create-IsWorld room v =
      keep-IsWorld w _ v refl refl (λ r. put_device-id ref _ w.devices r refl)
        (create_lem w.manager now id c.conn (w.devices ref).conn v.managed room).0

  client_start-IsWorld :
      w.manager.counter + 1 < 2 ^ 64 → IsWorld w → IsWorld (client_start now w c id ref).0
  unfolding client_start client_forward
  client_start-IsWorld room v =
      let v1 = client_create-IsWorld room v in
      let made = client_create now w c id ref in
      let r = write_connect c.modem (made.0.conns c.conn) in
      elim (Bool-cases r.ok) [
        | inl ok ↦ rw ok (keep-IsWorld made.0 _ v1 refl refl (λ _. refl) v1.managed)
        | inr bad ↦ rw bad (
            session_cleanup-IsWorld _ made.1 ref
              (keep-IsWorld made.0 _ v1 refl refl (λ _. refl) v1.managed))
      ]

client_refuse-IsWorld : (w : World) (c : Client) → IsWorld w → IsWorld (client_refuse w c)
unfolding client_refuse
client_refuse-IsWorld w c v = keep-IsWorld w _ v refl refl (λ _. refl) v.managed

bridge_close-IsWorld : (w : World) (s : Session) → IsWorld w → IsWorld (bridge_close w s)
unfolding bridge_close
bridge_close-IsWorld w s v = keep-IsWorld w _ v refl refl (λ _. refl) v.managed

client_finish-IsWorld :
    (w : World) (c : Client) (s : Session) (ref : ℕ) → IsWorld w → IsWorld (client_finish w c s ref)
unfolding client_finish
client_finish-IsWorld w c s ref v =
    say_no_carrier-IsWorld c.modem (session_cleanup w s ref) c.conn
      (session_cleanup-IsWorld w s ref v)

device_exit-manager : (w : World) (id : Bytes) → (device_exit w id).manager ≡ w.manager
unfolding device_exit
device_exit-manager w id = refl

IsEffect-IsWorld :
    (config : Config) (w : World) (r : Request) (w' : World) (response : Response)
    → IsEffect config w r (w', response)
    → IsWorld w
    → IsWorld w'
IsEffect-IsWorld config w r w' response (inl same) v = subst IsWorld (sym same) v
IsEffect-IsWorld config w r w' response (inr (s, _, closed, _)) v =
    subst IsWorld (sym closed) (keep-IsWorld w (closed_both w s) v refl refl (λ _. refl) v.managed)

bridged-IsWorld :
    (w : World) (s : Session) (b : Bridge)
    → get_session w.manager s.id ≡ some s
    → IsWorld w
    → IsWorld (bridged w s b)
unfolding bridged
bridged-IsWorld w s b f v =
    keep-IsWorld w _ v refl refl (λ _. refl) (store-IsManaged w.manager s _ v.managed f refl refl)

Step-IsWorld : {w w' : World} → Step w w' → IsWorld w → IsWorld w'
Step-IsWorld {w} (hears post_timeout init_timeout since s conn n rest e) v =
    keep-IsWorld w _ v refl refl (λ _. refl) v.managed
Step-IsWorld {w} (waits x conn e) v = keep-IsWorld w _ v refl refl (λ _. refl) v.managed
Step-IsWorld {w} (moves s b e f) v = bridged-IsWorld w s (apply (bridge_at w s b) e) f v
Step-IsWorld {w} (hangs_up conn) v = keep-IsWorld w _ v refl refl (λ _. refl) v.managed
Step-IsWorld {w} {w'} (stops ref stopping) v =
    subst IsWorld (sym (stop_keepalive-some w ref stopping).1) (
      keep-IsWorld w (stopped w ref) v refl refl (λ r. put_device-id ref _ w.devices r refl)
        v.managed)
Step-IsWorld {w} (adds now conn id) v = record {
  registered = add_device-IsRegistry w id conn now v.registered;
  managed = unfold add_device in v.managed;
}
Step-IsWorld {w} (answers conn) v = keep-IsWorld w _ v refl refl (λ _. refl) v.managed
Step-IsWorld {w} (exits id) v = record {
  registered = device_exit-IsRegistry w id v.registered;
  managed = rw (device_exit-manager w id) v.managed;
}
Step-IsWorld {w} (dials conn c) v = device_dialled-IsWorld w conn c v
Step-IsWorld {w} (refuses c) v = client_refuse-IsWorld w c v
Step-IsWorld {w} (opens now c id ref room) v = client_start-IsWorld now w c id ref room v
Step-IsWorld {w} (closes s) v = bridge_close-IsWorld w s v
Step-IsWorld {w} (clears c s ref) v = client_finish-IsWorld w c s ref v
Step-IsWorld {w} {w'} (serves config host r response e) v =
    IsEffect-IsWorld config w r w' response (serve-IsEffect_of config w r host (w', response) e) v

module _ (debug : Bool) (idle_timeout : ℕ) (devices : Devices) (conns : Conns) where
  first-IsWorld : IsWorld (first_world debug idle_timeout devices conns)
  unfolding set_callbacks new_manager
  first-IsWorld = record {
    registered = record { unique = tt; slots = tt };
    managed = record { unique = tt; entries = tt; balanced = λ _. refl };
  }

  -- In every world reachable with a count left at each session's start, the registry has distinct
  -- keys and each entry names an existing device object with the entry's identifier; and the
  -- sessions are well formed: distinct identifiers, none ended, and as many announced starts
  -- without an end as there are sessions.
  pub Reachable-IsWorld : {w : World} → Reachable debug idle_timeout devices conns w → IsWorld w
  Reachable-IsWorld begins = first-IsWorld
  Reachable-IsWorld (continues before step) = Step-IsWorld step (Reachable-IsWorld before)

  -- In every world reachable with a count left at each session's start, a client that is let
  -- through is let through to a free device object that exists and has the identifier in the
  -- client's token.
  pub Reachable-client_check :
      {w : World} (auth : Bytes) (c : Client) (ref : ℕ)
      → Reachable debug idle_timeout devices conns w
      → client_check auth w c ≡ some ref
      → (parse_token auth c.at_command.param ≡ some (w.devices ref).id)
        × (ref < w.next_ref)
        × (is_in_session (w.devices ref) ≡ false)
  unfolding get
  Reachable-client_check {w} auth c ref r e =
      let (id, named, entry, free) = client_check-some auth w c ref e in
      let (exists_ref, same) =
        load-All _ id w.registry entry (Reachable-IsWorld r).registered.slots in
      (rw same named, exists_ref, free)

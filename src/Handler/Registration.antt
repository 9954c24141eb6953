-- ===== src/Handler/Registration.antt =====
-- A device's way into the registry and out of it.
use proxy_rfc.Base.{
  ℕ, All, ◌<◌, ◌≡◌, ◌≢◌, inl, inr, refl, ap, ◌∙◌, true, false, Option, none, some, Bytes, bytes_eq,
  bytes_eq_iff, if◌then◌else◌, Bool-cases, Option-cases, arith,
}
use proxy_rfc.Conn.{Conn, write}
use proxy_rfc.Device.{register, unregister, get}
use proxy_rfc.Protocol.{write_ok}
use proxy_rfc.SyncMap.Laws.{IsMap}
use proxy_rfc.Handler.{
  World, wrote, drop_existing, new_device, add_device, device_exit, register_device,
}
use proxy_rfc.Device.Laws.{get-register, get-unregister}
use proxy_rfc.SyncMap.Laws.{delete-IsMap, store-IsMap, load-All}

drop_existing-next_ref :
    (w : World) (id : Bytes) (o : Option ℕ) → (drop_existing w id o).next_ref ≡ w.next_ref
drop_existing-next_ref w id none = refl
drop_existing-next_ref w id (some old) = refl

-- A write that goes out finds the connection open and leaves it open.
pub write_ok-open :
    (c : Conn) → (write_ok c).ok ≡ true → (c.closed ≡ false) × ((write_ok c).conn.closed ≡ false)
unfolding write_ok write
write_ok-open c h = (ground arith, ground arith)

module _ (now : ℕ) (w : World) (conn : ℕ) (id : Bytes) where
  abbrev pub dropped : World
  dropped = drop_existing w id (get id w.registry)

  abbrev pub added : World
  added = add_device dropped (new_device id conn now)

  pub register_device-ok :
      (write_ok (added.conns conn)).ok ≡ true
      → register_device now w conn id
        ≡ (wrote added conn (write_ok (added.conns conn)), some w.next_ref)
  unfolding register_device
  register_device-ok ok = rw ok (rw (drop_existing-next_ref w id (get id w.registry)))

  pub register_device-failed :
      (write_ok (added.conns conn)).ok ≡ false
      → register_device now w conn id
        ≡ (device_exit (wrote added conn (write_ok (added.conns conn))) id, none)
  unfolding register_device
  register_device-failed bad = rw bad

  -- A registration stands only if its OK went out.
  pub register_device-some :
      {ref : ℕ}
      → (register_device now w conn id).1 ≡ some ref
      → (register_device now w conn id
          ≡ (wrote added conn (write_ok (added.conns conn)), some w.next_ref))
        × (ref ≡ w.next_ref)
        × ((write_ok (added.conns conn)).ok ≡ true)
  register_device-some {ref} e = elim (Bool-cases (write_ok (added.conns conn)).ok) [
    | inl ok ↦
        let q : (register_device now w conn id).1 ≡ some w.next_ref =
          ap (λ p. p.1) (register_device-ok ok) in
        (register_device-ok ok, cc, ok)
    | inr bad ↦
        let q : (register_device now w conn id).1 ≡ none =
          ap (λ p. p.1) (register_device-failed bad) in
        absurd (cc)
  ]

  dropped-get :
      (other : Bytes)
      → IsMap w.registry
      → get other dropped.registry ≡ (if bytes_eq id other then none else get other w.registry)
  dropped-get other h = elim (Option-cases (get id w.registry)) [
    | inl e ↦ rw e (ground (arith, e, bytes_eq_iff id other))
    | inr (old, e) ↦ rw e (get-unregister id other w.registry h)
  ]

  dropped-IsMap : IsMap w.registry → IsMap dropped.registry
  dropped-IsMap h = elim (Option-cases (get id w.registry)) [
    | inl e ↦ rw e h
    | inr (old, e) ↦ rw e (unfold unregister in delete-IsMap id w.registry h)
  ]

  pub same_ref : dropped.next_ref ≡ w.next_ref
  same_ref = drop_existing-next_ref w id (get id w.registry)

  pub added-get :
      (other : Bytes)
      → IsMap w.registry
      → get other added.registry
        ≡ (if bytes_eq id other then some w.next_ref else get other w.registry)
  unfolding add_device
  added-get other h =
      get-register (new_device id conn now) dropped.next_ref other dropped.registry
      ∙ ground (arith, dropped-get other h, same_ref)

  pub added-IsMap : IsMap w.registry → IsMap added.registry
  unfolding add_device register
  added-IsMap h = store-IsMap id dropped.next_ref dropped.registry (dropped-IsMap h)

  pub added-device : added.devices w.next_ref ≡ new_device id conn now
  unfolding add_device
  added-device = ground (arith, same_ref)

  old_dropped :
      (old : ℕ)
      → get id w.registry ≡ some old
      → ((dropped.devices old).stopped ≡ true)
        × ((dropped.conns (w.devices old).conn).closed ≡ true)
  old_dropped old found = rw found (ground arith, ground arith)

  pub old_stopped :
      (old : ℕ)
      → get id w.registry ≡ some old
      → old ≢ w.next_ref
      → (added.devices old).stopped ≡ true
  unfolding add_device
  old_stopped old found ne = ground (arith, same_ref, (old_dropped old found).0)

  old_closed :
      (old : ℕ)
      → get id w.registry ≡ some old
      → (write_ok (added.conns conn)).ok ≡ true
      → ((wrote added conn (write_ok (added.conns conn))).conns (w.devices old).conn).closed ≡ true
  unfolding add_device
  old_closed old found ok =
      ground (arith, (old_dropped old found).1, write_ok-open (dropped.conns conn) ok)

  pub register_device-IsMap :
      {ref : ℕ}
      → IsMap w.registry
      → (register_device now w conn id).1 ≡ some ref
      → IsMap (register_device now w conn id).0.registry
  unfolding add_device register
  register_device-IsMap {ref} h e = rw (register_device-some e).0 (added-IsMap h)

  pub register_device-live :
      {ref : ℕ}
      → (register_device now w conn id).1 ≡ some ref
      → let w' = (register_device now w conn id).0 in
        (w'.devices ref ≡ new_device id conn now) × ((w'.conns conn).closed ≡ false)
  register_device-live {ref} e =
      let (left, same, ok) = register_device-some e in
      rw (left, same) (added-device, ground (arith, write_ok-open (added.conns conn) ok))

  -- The device object that was registered before, if any, has been stopped, and its connection is
  -- closed.
  abbrev pub IsReplaced : World → Option ℕ → Type 0
  IsReplaced w' none = Unit
  IsReplaced w' (some old) =
      ((w'.devices old).stopped ≡ true) × ((w'.conns (w.devices old).conn).closed ≡ true)

  old-IsReplaced :
      (o : Option ℕ)
      → get id w.registry ≡ o
      → All (λ e. e.1 < w.next_ref) w.registry
      → (write_ok (added.conns conn)).ok ≡ true
      → IsReplaced (wrote added conn (write_ok (added.conns conn))) o
  unfolding get
  old-IsReplaced none found refs ok = tt
  old-IsReplaced (some old) found refs ok =
      let less = load-All (λ e. e.1 < w.next_ref) id w.registry found refs in
      (old_stopped old found (λ q. omega arith), old_closed old found ok)

  -- After a registration whose OK went out, in a registry with distinct keys that names device
  -- objects which exist, the identifier is the new device's and no other entry has changed; the
  -- device is as it was announced, free and not stopped, and its connection is open; and a device
  -- that was registered under the identifier has been stopped and its connection is closed.
  pub register_device_lem :
      {ref : ℕ}
      → IsMap w.registry
      → All (λ e. e.1 < w.next_ref) w.registry
      → (register_device now w conn id).1 ≡ some ref
      → let w' = (register_device now w conn id).0 in
        ((other : Bytes)
          → get other w'.registry ≡ (if bytes_eq id other then some ref else get other w.registry))
        × (w'.devices ref ≡ new_device id conn now)
        × ((w'.conns conn).closed ≡ false)
        × IsReplaced w' (get id w.registry)
  register_device_lem {ref} h refs e =
      let (left, same, ok) = register_device-some e in
      rw (left, same)
        (
          (λ other. added-get other h),
          added-device,
          ground (arith, write_ok-open (added.conns conn) ok),
          old-IsReplaced (get id w.registry) refl refs ok,
        )

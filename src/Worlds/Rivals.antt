-- ===== src/Worlds/Rivals.antt =====
-- Two registrations of one identifier, one behind the other and at once.
use proxy_rfc.Base.{
  ℕ, ◌≡◌, ◌≢◌, ap, sym, ◌∙◌, false, none, some, Bytes, bytes_eq, bytes_eq_iff, inl, inr, Bool-cases,
  arith,
}
use proxy_rfc.Device.{get}
use proxy_rfc.Device.Laws.{get-unregister}
use proxy_rfc.Handler.{World, add_device, device_exit, wrote, register_device, stop_keepalive}
use proxy_rfc.Handler.Registration.{
  added, added-get, added-device, old_stopped, register_device-ok, register_device-failed,
  added-IsMap,
}
use proxy_rfc.Protocol.{write_ok}
use proxy_rfc.SyncMap.Laws.{IsMap, load-All}
use proxy_rfc.Worlds.Slots.{IsSlot, IsRegistry}
use proxy_rfc.Worlds.Stops.{stop_keepalive-running, stop_keepalive-stopped}

-- No device that is registered has been stopped.
abbrev pub IsUnstopped : World → Type 0
IsUnstopped w =
    (id : Bytes) (ref : ℕ) → get id w.registry ≡ some ref → (w.devices ref).stopped ≡ false

IsSlot-get :
    (w : World) (id : Bytes) (ref : ℕ)
    → IsRegistry w
    → get id w.registry ≡ some ref
    → IsSlot w.devices w.next_ref (id, ref)
unfolding get
IsSlot-get w id ref v e = load-All (IsSlot w.devices w.next_ref) id w.registry e v.slots

-- A device object that is neither the new one nor the old one.
kept_device :
    (now : ℕ) (w : World) (conn : ℕ) (id : Bytes) (old ref : ℕ)
    → get id w.registry ≡ some old
    → ref ≢ w.next_ref
    → ref ≢ old
    → ((added now w conn id).devices ref).stopped ≡ (w.devices ref).stopped
unfolding add_device
kept_device now w conn id old ref e not_new not_old = rw e (ground arith)

module _ (now : ℕ) (w : World) (conn : ℕ) (id : Bytes) (old : ℕ) (v : IsRegistry w)
    (u : IsUnstopped w) (e : get id w.registry ≡ some old) where
  abbrev left : World
  left = added now w conn id

  added-IsUnstopped : IsUnstopped left
  added-IsUnstopped other ref f =
      let found = sym (added-get now w conn id other v.unique) ∙ f in
      elim (Bool-cases (bytes_eq id other)) [
        | inl q ↦
            let same : w.next_ref ≡ ref = ground (arith, rw q at found) in
            ap (λ r. (left.devices r).stopped) (sym same)
            ∙ ap (λ d. d.stopped) (added-device now w conn id)
        | inr q ↦
            let here : get other w.registry ≡ some ref = rw q at found in
            let (less, named) = IsSlot-get w other ref v here in
            let (_, old_named) = IsSlot-get w id old v e in
            let apart : ref ≢ old = λ same.
              let one : id ≡ other =
                sym old_named ∙ ap (λ r. (w.devices r).id) (sym same) ∙ named in
              absurd (cc ((bytes_eq_iff id other).1 one, q)) in
            kept_device now w conn id old ref e (λ same. omega (arith, same)) apart
            ∙ u other ref here
      ]

  old_apart : old ≢ w.next_ref
  old_apart same = let (less, _) = IsSlot-get w id old v e in omega (arith, same)

  exit_IsUnstopped :
      (w1 : World) → IsMap w1.registry → IsUnstopped w1 → IsUnstopped (device_exit w1 id)
  unfolding device_exit
  exit_IsUnstopped w1 h all other ref f =
      let found = sym (get-unregister id other w1.registry h) ∙ f in
      elim (Bool-cases (bytes_eq id other)) [
        | inl q ↦ absurd (cc (rw q at found))
        | inr q ↦ all other ref (rw q at found)
      ]

  abbrev after : World
  after = wrote left conn (write_ok (left.conns conn))

  stops_again : stop_keepalive after old ≡ none
  stops_again = stop_keepalive-stopped after old (old_stopped now w conn id old e old_apart)

  exit_stops_again : stop_keepalive (device_exit after id) old ≡ none
  unfolding device_exit
  exit_stops_again =
      stop_keepalive-stopped (device_exit after id) old (old_stopped now w conn id old e old_apart)

  -- In a well-formed registry none of whose devices has been stopped, a device registers whose
  -- identifier has a device already, with no step of another handler between. It stops the old
  -- device without a panic, and, whether its OK goes out or not, none of the devices then
  -- registered has been stopped, so that the next registration stops its old device without a panic
  -- too. But a handler that has got the same old device before this registration, and stops it
  -- after, panics, which ends the program.
  pub register_rivals :
      let w' = (register_device now w conn id).0 in
      ((w1 : World) × (stop_keepalive w old ≡ some w1))
      × IsUnstopped w'
      × (stop_keepalive w' old ≡ none)
  register_rivals =
      let first : (w1 : World) × (stop_keepalive w old ≡ some w1) =
        (_, stop_keepalive-running w old (u id old e)) in
      elim (Bool-cases (write_ok (left.conns conn)).ok) [
        | inl ok ↦ rw (register_device-ok now w conn id ok) (first, added-IsUnstopped, stops_again)
        | inr bad ↦ rw (register_device-failed now w conn id bad) (
          first,
          exit_IsUnstopped after (added-IsMap now w conn id v.unique) added-IsUnstopped,
          exit_stops_again,
        )
      ]

-- ===== src/Worlds/Stops.antt =====
-- The stop of an old device's keepalive, at the registration that replaces it.
use proxy_rfc.Base.{ℕ, ◌≡◌, refl, true, false, none, some, inl, inr, Bool-cases}
use proxy_rfc.Device.{put_device}
use proxy_rfc.Handler.{World, stop_keepalive}

abbrev pub stopped : World → ℕ → World
stopped w ref = record w {
  devices = put_device ref (record (w.devices ref) { stopped = true }) w.devices;
}

pub stop_keepalive-running :
    (w : World) (ref : ℕ)
    → (w.devices ref).stopped ≡ false
    → stop_keepalive w ref ≡ some (stopped w ref)
unfolding stop_keepalive
stop_keepalive-running w ref e = rw e refl

pub stop_keepalive-stopped :
    (w : World) (ref : ℕ) → (w.devices ref).stopped ≡ true → stop_keepalive w ref ≡ none
unfolding stop_keepalive
stop_keepalive-stopped w ref e = rw e refl

pub stop_keepalive-some :
    (w : World) (ref : ℕ) {w' : World}
    → stop_keepalive w ref ≡ some w'
    → ((w.devices ref).stopped ≡ false) × (w' ≡ stopped w ref)
stop_keepalive-some w ref e = elim (Bool-cases (w.devices ref).stopped) [
  | inl q ↦ let never = stop_keepalive-stopped w ref q in absurd (cc)
  | inr q ↦ let made = stop_keepalive-running w ref q in (q, cc)
]

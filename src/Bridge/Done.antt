-- ===== src/Bridge/Done.antt =====
-- A bridge of bridge.go whose client's loop has ended.
use proxy_rfc.Base.{◌≡◌, refl, ◌∙◌, false, List, [], ◌∷◌, arith}
use proxy_rfc.Bridge.{
  Bridge, Event, client_reads, device_reads, ticks, wakes, returns, client_read, device_read, wake,
  apply, run,
}

-- The client's loop has ended: nothing more is written to the device.
pub record IsDone (b : Bridge) : Type 0 where
  pub no_keepalive : b.keepalive ≡ false
  pub done_loop : b.inward.running ≡ false

pub apply-IsDone :
    (b : Bridge) (e : Event)
    → IsDone b
    → IsDone (apply b e)
      × ((apply b e).device.sent ≡ b.device.sent)
      × ((apply b e).inward ≡ b.inward)
unfolding apply client_read device_read wake
apply-IsDone b (client_reads now r) v =
    (record { no_keepalive = ground arith; done_loop = ground arith }, ground arith, ground arith)
apply-IsDone b (device_reads now r) v =
    (record { no_keepalive = ground arith; done_loop = ground arith }, ground arith, ground arith)
apply-IsDone b (ticks now) v =
    (record { no_keepalive = ground arith; done_loop = ground arith }, ground arith, ground arith)
apply-IsDone b wakes v =
    (record { no_keepalive = ground arith; done_loop = ground arith }, ground arith, ground arith)
apply-IsDone b returns v =
    (record { no_keepalive = ground arith; done_loop = ground arith }, ground arith, ground arith)

pub run-IsDone :
    (b : Bridge) (es : List Event)
    → IsDone b
    → ((run b es).device.sent ≡ b.device.sent) × ((run b es).inward ≡ b.inward)
unfolding run
run-IsDone b [] v = (refl, refl)
run-IsDone b (e ∷ es) v =
    let (v', sent, flow) = apply-IsDone b e v in
    let (sent', flow') = run-IsDone (apply b e) es v' in (sent' ∙ sent, flow' ∙ flow)

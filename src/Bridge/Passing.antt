-- ===== src/Bridge/Passing.antt =====
-- The bridge of bridge.go, with its keepalive on or off: what both sides are sent.
use mathlib.Core.List.{append-nil, append_assoc}
use proxy_rfc.Base.{
  ◌≡◌, refl, sym, ap, subst, ◌∙◌, inl, inr, Bool, true, false, List, [], ◌∷◌, ◌++◌, Bytes,
  Bool-cases, arith,
}
use proxy_rfc.Bridge.{
  Bridge, Event, client_reads, device_reads, ticks, wakes, returns, both_done, wake, apply, run,
}
use proxy_rfc.Bridge.Delivery.{client_data}
use proxy_rfc.Bridge.Done.{IsDone, apply-IsDone}
use proxy_rfc.Bridge.Mirror.{mirror, device_data}
use proxy_rfc.Bridge.Outward.{apply-IsDone_outward}
use proxy_rfc.Bridge.Padding.{Padded, nothing, gets, Pads-IsOpen}
use proxy_rfc.Bridge.Opened.{
  IsOpened, BothPad, client_reads-BothPad, device_reads-BothPad, ticks-BothPad, wakes-BothPad,
  returns-BothPad,
}

-- Both loops have ended, and so has the keepalive: nothing more is sent.
abbrev IsOver : Bridge → Type 0
IsOver b = IsDone b × IsDone (mirror b)

run-IsOver :
    (b : Bridge) (es : List Event)
    → IsOver b
    → ((run b es).device.sent ≡ b.device.sent) × ((run b es).client.sent ≡ b.client.sent)
unfolding run
run-IsOver b [] v = (refl, refl)
run-IsOver b (e ∷ es) (v, o) =
    let (v', device, _) = apply-IsDone b e v in
    let (o', client) = apply-IsDone_outward b e o in
    let (device', client') = run-IsOver (apply b e) es (v', o') in
    (device' ∙ device, client' ∙ client)

wakes-IsOver :
    (b : Bridge)
    → both_done b ≡ true
    → IsOver (apply b wakes)
      × ((apply b wakes).device.sent ≡ b.device.sent)
      × ((apply b wakes).client.sent ≡ b.client.sent)
unfolding apply wake
wakes-IsOver b done =
    let in_done : b.inward.running ≡ false = ground arith in
    let out_done : b.outward.running ≡ false = ground arith in
    simp (in_done, out_done)
      (
        (
          record { no_keepalive = refl; done_loop = in_done },
          record { no_keepalive = refl; done_loop = out_done },
        ),
        refl,
        refl,
      )

-- What the two sides of a bridge have been sent from one state to another.
abbrev pub Passes : Bridge → List Event → Bridge → Type 0
Passes b es b' =
    ((m : Bytes) × (b'.device.sent ≡ b.device.sent ++ m)
      × Padded b.keepalive (gets b.inward.running (client_data es)) m)
    × ((m : Bytes) × (b'.client.sent ≡ b.client.sent ++ m)
        × Padded b.keepalive (gets b.outward.running (device_data es)) m)

step-Passes :
    (b : Bridge) (e : Event) (es : List Event)
    → IsOpened b
    → BothPad b e es
    → ((b' : Bridge) → IsOpened b' → Passes b' es (run b' es))
    → Passes b (e ∷ es) (run (apply b e) es)
step-Passes b e es v ((x, d, p), (y, c, q), live, keeps) later =
    let opened : IsOpened (apply b e) = record {
      not_ended = live ∙ v.not_ended;
      client_opened =
          Pads-IsOpen b.keepalive b.client (apply b e).client
            (gets b.outward.running (device_data (e ∷ es)))
            (gets (apply b e).outward.running (device_data es)) (y, c, q) v.client_opened;
      device_opened =
          Pads-IsOpen b.keepalive b.device (apply b e).device
            (gets b.inward.running (client_data (e ∷ es)))
            (gets (apply b e).inward.running (client_data es)) (x, d, p) v.device_opened;
    } in
    let ((m, device, padded), (n, client, padded')) = later (apply b e) opened in
    (
      (
        x ++ m,
        device ∙ ap (λ k. k.sent ++ m) d ∙ append_assoc b.device.sent x m,
        p m (
            subst (λ k. Padded k (gets (apply b e).inward.running (client_data es)) m) keeps
              padded),
      ),
      (
        y ++ n,
        client ∙ ap (λ k. k.sent ++ n) c ∙ append_assoc b.client.sent y n,
        q n (
            subst (λ k. Padded k (gets (apply b e).outward.running (device_data es)) n) keeps
              padded'),
      ),
    )

gets_done :
    (keepalive running : Bool) (d : Bytes) → running ≡ false → Padded keepalive (gets running d) []
gets_done keepalive running d done = rw done nothing

-- `Run` closes both connections once both loops have ended.
over-Passes :
    (b : Bridge) (es : List Event)
    → both_done b ≡ true
    → Passes b (wakes ∷ es) (run (apply b wakes) es)
over-Passes b es done =
    let (v, device, client) = wakes-IsOver b done in
    let (device', client') = run-IsOver (apply b wakes) es v in
    (
      (
        [],
        device' ∙ device ∙ sym (append-nil b.device.sent),
        gets_done b.keepalive b.inward.running (client_data es) (ground arith),
      ),
      (
        [],
        client' ∙ client ∙ sym (append-nil b.client.sent),
        gets_done b.keepalive b.outward.running (device_data es) (ground arith),
      ),
    )

gets-nothing : (keepalive running : Bool) → Padded keepalive (gets running []) []
gets-nothing keepalive true = nothing
gets-nothing keepalive false = nothing

pub run-Passes : (b : Bridge) (es : List Event) → IsOpened b → Passes b es (run b es)
unfolding run
run-Passes b [] v = (
  ([], sym (append-nil b.device.sent), gets-nothing b.keepalive b.inward.running),
  ([], sym (append-nil b.client.sent), gets-nothing b.keepalive b.outward.running),
)
run-Passes b (client_reads now r ∷ es) v =
    step-Passes b (client_reads now r) es v (client_reads-BothPad b now r es v)
      (λ b' v'. run-Passes b' es v')
run-Passes b (device_reads now r ∷ es) v =
    step-Passes b (device_reads now r) es v (device_reads-BothPad b now r es v)
      (λ b' v'. run-Passes b' es v')
run-Passes b (ticks now ∷ es) v =
    step-Passes b (ticks now) es v (ticks-BothPad b now es v) (λ b' v'. run-Passes b' es v')
run-Passes b (wakes ∷ es) v = elim (Bool-cases (both_done b)) [
  | inl done ↦ over-Passes b es done
  | inr more ↦ step-Passes b wakes es v (wakes-BothPad b es more v) (λ b' v'. run-Passes b' es v')
]
run-Passes b (returns ∷ es) v =
    step-Passes b returns es v (returns-BothPad b es) (λ b' v'. run-Passes b' es v')

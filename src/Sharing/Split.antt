-- ===== src/Sharing/Split.antt =====
-- Where the bytes of a device go that two loops read at once.
use mathlib.Core.List.{append-nil, append_assoc}
use proxy_rfc.Base.{
  ℕ, ◌≡◌, ◌≢◌, refl, ap, ◌∙◌, sym, subst, ◌⊎◌, inl, inr, true, false, ◌&&◌, List, [], ◌∷◌, ◌++◌,
  Bytes, Bool-cases, ltb, leb, arith,
}
use proxy_rfc.Bridge
use proxy_rfc.Bridge.{Bridge, client_reads, device_reads, ticks, wakes, returns}
use proxy_rfc.Bridge.Delivery.{IsFlowing, IsOther}
use proxy_rfc.Bridge.Done.{IsDone}
use proxy_rfc.Bridge.Mirror.{mirror, mirror_event}
use proxy_rfc.Bridge.Outward.{
  apply-IsFlowing_outward, apply-IsDone_outward, device_read-sent, device_read-IsDone,
}
use proxy_rfc.Waiting.{Reader, looking, reading, gone}
use proxy_rfc.Sharing.{
  Sharing, Holder, nobody, the_reader, the_bridge, Event, client_says, bridge_ticks, bridge_wakes,
  bridge_returns, reader_looks, reader_enters, bridge_enters, arrives, expires, received, timed_out,
  let_reader_in, let_bridge_in, apply, run,
}

-- What the Read of the loop that has been let in returns.
abbrev returned : Holder → Bytes → Bytes
returned nobody bytes = []
returned _ bytes = bytes

abbrev taken_now : Event → Holder → Bytes
taken_now (arrives now bytes) h = returned h bytes
taken_now _ h = []

-- All that the Reads of the device's connection return.
abbrev pub taken : Sharing → List Event → Bytes
taken s [] = []
taken s (e ∷ es) = taken_now e s.holder ++ taken (apply s e) es

-- The third text is made of pieces of the first two, each in its order.
pub data Merged : Bytes → Bytes → Bytes → Type 0 where
  nothing : Merged [] [] []
  from_first : (b : Bytes) {xs ys zs : Bytes} → Merged xs ys zs → Merged (b ++ xs) ys (b ++ zs)
  from_second : (b : Bytes) {xs ys zs : Bytes} → Merged xs ys zs → Merged xs (b ++ ys) (b ++ zs)

-- The bridge's loop runs and passes on what it reads, or it is over and in no Read.
abbrev IsRead : Sharing → Type 0
IsRead s = IsFlowing (mirror s.bridge) ⊎ (IsDone (mirror s.bridge) × (s.holder ≢ the_bridge))

-- One event: what a Read returned was dropped or sent to the client.
abbrev Took : Sharing → Sharing → Bytes → Type 0
Took s s' b =
    ((s'.dropped ≡ s.dropped ++ b) × (s'.bridge.client.sent ≡ s.bridge.client.sent))
    ⊎ ((s'.dropped ≡ s.dropped) × (s'.bridge.client.sent ≡ s.bridge.client.sent ++ b))

-- A step that leaves the bridge and what was dropped takes nothing.
keep_all :
    (s s' : Sharing)
    → IsRead s
    → s'.bridge ≡ s.bridge
    → s'.dropped ≡ s.dropped
    → (s'.holder ≢ the_bridge) ⊎ (s'.holder ≡ s.holder)
    → IsRead s' × Took s s' []
keep_all s s' (inl flows) b d h = (
  inl (subst (λ k. IsFlowing (mirror k)) (sym b) flows),
  inl (d ∙ sym (append-nil s.dropped), ap (λ k. k.client.sent) b),
)
keep_all s s' (inr (over, out)) b d h = (
  inr (
    subst (λ k. IsDone (mirror k)) (sym b) over,
    elim h [ inl free ↦ free | inr same ↦ λ q. out (sym same ∙ q) ],
  ),
  inl (d ∙ sym (append-nil s.dropped), ap (λ k. k.client.sent) b),
)

-- An event of the bridge other than a read of the device.
on_bridge-Took :
    (s : Sharing) (e : Bridge.Event)
    → IsOther (mirror_event e)
    → IsRead s
    → let s' = record s { bridge = Bridge.apply s.bridge e } in IsRead s' × Took s s' []
on_bridge-Took s e q (inl flows) =
    let (flows', same) = apply-IsFlowing_outward s.bridge e q flows in
    (inl flows', inl (sym (append-nil s.dropped), ap (λ c. c.sent) same))
on_bridge-Took s e q (inr (over, out)) =
    let (over', same) = apply-IsDone_outward s.bridge e over in
    (inr (over', out), inl (sym (append-nil s.dropped), same))

nobody_out : nobody ≢ the_bridge
nobody_out q = cc

received-Took :
    (now : ℕ) (bytes : Bytes) (h : Holder) (s : Sharing)
    → s.holder ≡ h
    → IsRead s
    → IsRead (received now bytes h s) × Took s (received now bytes h s) (returned h bytes)
unfolding Bridge.apply
received-Took now bytes nobody s e v = keep_all s s v refl refl (inr refl)
received-Took now bytes the_reader s e (inl flows) = (inl flows, inl (refl, refl))
received-Took now bytes the_reader s e (inr (over, out)) =
    (inr (over, nobody_out), inl (refl, refl))
received-Took now bytes the_bridge s e (inl flows) =
    let (flows', sent) =
      device_read-sent now (record { payload = bytes; fails = false }) s.bridge refl flows in
    (inl flows', inr (refl, sent))
received-Took now bytes the_bridge s e (inr (over, out)) = absurd (out e)

timed_out-Took :
    (now : ℕ) (h : Holder) (s : Sharing)
    → s.holder ≡ h
    → IsRead s
    → IsRead (timed_out now h s) × Took s (timed_out now h s) []
unfolding Bridge.apply
timed_out-Took now nobody s e v = keep_all s s v refl refl (inr refl)
timed_out-Took now the_reader s e v =
    keep_all s (timed_out now the_reader s) v refl refl (inl nobody_out)
timed_out-Took now the_bridge s e (inl flows) =
    let (over, sent) =
      device_read-IsDone now (record { payload = []; fails = true }) s.bridge refl flows in
    (
      inr (over, nobody_out),
      inl (sym (append-nil s.dropped), sent ∙ append-nil s.bridge.client.sent),
    )
timed_out-Took now the_bridge s e (inr (over, out)) = absurd (out e)

let_reader_in-Took :
    (h : Holder) (r : Reader) (s : Sharing)
    → IsRead s
    → IsRead (let_reader_in h r s) × Took s (let_reader_in h r s) []
let_reader_in-Took nobody reading s v =
    keep_all s (let_reader_in nobody reading s) v refl refl (inl (λ q. cc))
let_reader_in-Took nobody looking s v = keep_all s s v refl refl (inr refl)
let_reader_in-Took nobody gone s v = keep_all s s v refl refl (inr refl)
let_reader_in-Took the_reader r s v = keep_all s s v refl refl (inr refl)
let_reader_in-Took the_bridge r s v = keep_all s s v refl refl (inr refl)

let_bridge_in-Took :
    (h : Holder) (s : Sharing)
    → IsRead s
    → IsRead (let_bridge_in h s) × Took s (let_bridge_in h s) []
let_bridge_in-Took nobody s (inl flows) =
    simp flows.client_loop (inl flows, inl (sym (append-nil s.dropped), refl))
let_bridge_in-Took nobody s (inr (over, out)) =
    simp over.done_loop (keep_all s s (inr (over, out)) refl refl (inr refl))
let_bridge_in-Took the_reader s v = keep_all s s v refl refl (inr refl)
let_bridge_in-Took the_bridge s v = keep_all s s v refl refl (inr refl)

apply-Took :
    (s : Sharing) (e : Event)
    → IsRead s
    → IsRead (apply s e) × Took s (apply s e) (taken_now e s.holder)
unfolding apply
apply-Took s (client_says now r) v = on_bridge-Took s (client_reads now r) tt v
apply-Took s (bridge_ticks now) v = on_bridge-Took s (ticks now) tt v
apply-Took s bridge_wakes v = on_bridge-Took s wakes tt v
apply-Took s bridge_returns v = on_bridge-Took s returns tt v
apply-Took s (reader_looks now) v =
    keep_all s (apply s (reader_looks now)) v (ground arith) (ground arith) (inr (ground arith))
apply-Took s reader_enters v = let_reader_in-Took s.holder s.reader s v
apply-Took s bridge_enters v = let_bridge_in-Took s.holder s v
apply-Took s (arrives now bytes) v = received-Took now bytes s.holder s refl v
apply-Took s (expires now) v = elim (Bool-cases (ltb 0 s.deadline && leb s.deadline now)) [
  | inl past ↦ rw past (timed_out-Took now s.holder s refl v)
  | inr ahead ↦ rw ahead (keep_all s s v refl refl (inr refl))
]

-- What was dropped, what the client was sent, and that together they are all that was read.
abbrev pub Splits : Sharing → Sharing → Bytes → Type 0
Splits s s' bytes =
    (lost : Bytes) × (passed : Bytes) × Merged lost passed bytes
    × (s'.dropped ≡ s.dropped ++ lost)
    × (s'.bridge.client.sent ≡ s.bridge.client.sent ++ passed)

Took-Splits :
    (s s' s'' : Sharing) (b bytes : Bytes)
    → Took s s' b
    → Splits s' s'' bytes
    → Splits s s'' (b ++ bytes)
Took-Splits s s' s'' b bytes (inl (dropped, sent)) (lost, passed, merged, d, c) = (
  b ++ lost,
  passed,
  from_first b merged,
  d ∙ ap (λ x. x ++ lost) dropped ∙ append_assoc s.dropped b lost,
  c ∙ ap (λ x. x ++ passed) sent,
)
Took-Splits s s' s'' b bytes (inr (dropped, sent)) (lost, passed, merged, d, c) = (
  lost,
  b ++ passed,
  from_second b merged,
  d ∙ ap (λ x. x ++ lost) dropped,
  c ∙ ap (λ x. x ++ passed) sent ∙ append_assoc s.bridge.client.sent b passed,
)

run-Splits_from : (s : Sharing) (es : List Event) → IsRead s → Splits s (run s es) (taken s es)
unfolding run
run-Splits_from s [] v = ([], [], nothing, sym (append-nil _), sym (append-nil _))
run-Splits_from s (e ∷ es) v =
    let (v', took) = apply-Took s e v in
    Took-Splits s (apply s e) (run (apply s e) es) (taken_now e s.holder) (taken (apply s e) es)
      took (run-Splits_from (apply s e) es v')

-- From a bridge on whose device loop runs, with the keepalive off and the session not ended,
-- between an open device connection and a client connection that takes all writes: each byte that
-- is read from the device goes one way. What deviceReader drops and what the client is sent are,
-- each in its order, the parts of all that is read, in whichever order the two loops are let in.
pub run-Splits :
    (s : Sharing) (es : List Event) → IsFlowing (mirror s.bridge) → Splits s (run s es) (taken s es)
run-Splits s es v = run-Splits_from s es (inl v)

-- ===== src/Sharing/Deaf.antt =====
-- What becomes of a session whose device says nothing for a while.
use proxy_rfc.Base.{
  ℕ, ◌+◌, ◌≤◌, ◌<◌, ◌≡◌, refl, ap, ◌∙◌, sym, subst, ◌⊎◌, inl, inr, true, false, ◌&&◌, List, [], ◌∷◌,
  ◌++◌, Bytes, All, Bool-cases, arith, ltb, leb,
}
use proxy_rfc.Bridge
use proxy_rfc.Bridge.{Bridge, Reading, device_read}
use proxy_rfc.Bridge.Silenced.{
  AddsNops, AddsNops-refl, AddsNops-trans, failure-over, failure-sent, apply-IsSilenced,
}
use proxy_rfc.Sharing.{
  Sharing, Holder, nobody, the_reader, the_bridge, Event, client_says, bridge_ticks, bridge_wakes,
  bridge_returns, reader_looks, reader_enters, bridge_enters, arrives, expires, received, timed_out,
  apply, run,
}

-- The event happens by the time `t`.
abbrev pub IsBy : ℕ → Event → Type 0
IsBy t (reader_looks now) = now ≤ t
IsBy t _ = Unit

-- The connection has a read deadline, five seconds after `t` at the latest.
abbrev HasDeadline : ℕ → Sharing → Type 0
HasDeadline t s = (0 < s.deadline) × (s.deadline ≤ t + 5000000000)

apply-HasDeadline :
    (t : ℕ) (s : Sharing) (e : Event) → IsBy t e → HasDeadline t s → HasDeadline t (apply s e)
unfolding apply
apply-HasDeadline t s (client_says now r) h v = ground (arith, v)
apply-HasDeadline t s (bridge_ticks now) h v = ground (arith, v)
apply-HasDeadline t s bridge_wakes h v = ground (arith, v)
apply-HasDeadline t s bridge_returns h v = ground (arith, v)
apply-HasDeadline t s (reader_looks now) h (lo, hi) = (ground (arith, lo), ground (arith, hi, h))
apply-HasDeadline t s reader_enters h (lo, hi) = (ground (arith, lo), ground (arith, hi, h))
apply-HasDeadline t s bridge_enters h (lo, hi) = (ground (arith, lo), ground (arith, hi, h))
apply-HasDeadline t s (arrives now bytes) h (lo, hi) = (ground (arith, lo), ground (arith, hi, h))
apply-HasDeadline t s (expires now) h (lo, hi) = (ground (arith, lo), ground (arith, hi, h))

run-HasDeadline :
    (t : ℕ) (s : Sharing) (es : List Event)
    → All (IsBy t) es
    → HasDeadline t s
    → HasDeadline t (run s es)
unfolding run
run-HasDeadline t s [] h v = v
run-HasDeadline t s (e ∷ es) h v =
    run-HasDeadline t (apply s e) es h.1 (apply-HasDeadline t s e h.0 v)

-- An event is at most one event of the bridge.
abbrev IsBridged : Bridge → Bridge → Type 0
IsBridged b b' = (b' ≡ b) ⊎ ((e : Bridge.Event) × (b' ≡ Bridge.apply b e))

received-IsBridged :
    (now : ℕ) (bytes : Bytes) (h : Holder) (s : Sharing)
    → IsBridged s.bridge (received now bytes h s).bridge
received-IsBridged now bytes nobody s = inl refl
received-IsBridged now bytes the_reader s = inl refl
received-IsBridged now bytes the_bridge s = inr (_, refl)

timed_out-IsBridged :
    (now : ℕ) (h : Holder) (s : Sharing) → IsBridged s.bridge (timed_out now h s).bridge
timed_out-IsBridged now nobody s = inl refl
timed_out-IsBridged now the_reader s = inl refl
timed_out-IsBridged now the_bridge s = inr (_, refl)

apply-IsBridged : (s : Sharing) (e : Event) → IsBridged s.bridge (apply s e).bridge
unfolding apply
apply-IsBridged s (client_says now r) = inr (_, refl)
apply-IsBridged s (bridge_ticks now) = inr (_, refl)
apply-IsBridged s bridge_wakes = inr (_, refl)
apply-IsBridged s bridge_returns = inr (_, refl)
apply-IsBridged s (reader_looks now) = inl (ground arith)
apply-IsBridged s reader_enters = inl (ground arith)
apply-IsBridged s bridge_enters = inl (ground arith)
apply-IsBridged s (arrives now bytes) = received-IsBridged now bytes s.holder s
apply-IsBridged s (expires now) = elim (Bool-cases (ltb 0 s.deadline && leb s.deadline now)) [
  | inl past ↦ rw past (timed_out-IsBridged now s.holder s)
  | inr ahead ↦ rw ahead (inl refl)
]

IsBridged-silenced :
    (b b' : Bridge)
    → IsBridged b b'
    → b.outward.running ≡ false
    → (b'.outward.running ≡ false) × AddsNops b.client.sent b'.client.sent
IsBridged-silenced b b' (inl same) over = (
  ap (λ c. c.outward.running) same ∙ over,
  subst (λ c. AddsNops b.client.sent c.client.sent) (sym same) (AddsNops-refl b.client.sent),
)
IsBridged-silenced b b' (inr (e, same)) over =
    let (still, more) = apply-IsSilenced b e over in
    (
      ap (λ c. c.outward.running) same ∙ still,
      subst (λ c. AddsNops b.client.sent c.client.sent) (sym same) more,
    )

-- A session whose device loop is over.
run_deaf :
    (s : Sharing) (es : List Event)
    → s.bridge.outward.running ≡ false
    → AddsNops s.bridge.client.sent (run s es).bridge.client.sent
unfolding run
run_deaf s [] over = AddsNops-refl s.bridge.client.sent
run_deaf s (e ∷ es) over =
    let (still, first) =
      IsBridged-silenced s.bridge (apply s e).bridge (apply-IsBridged s e) over in
    AddsNops-trans _ _ _ first (run_deaf (apply s e) es still)

run-append : (s : Sharing) (es later : List Event) → run s (es ++ later) ≡ run (run s es) later
unfolding run
run-append s [] later = refl
run-append s (e ∷ es) later = run-append (apply s e) es later

-- A deadline that passes while the bridge is in its Read.
expires-over :
    (now : ℕ) (s : Sharing)
    → 0 < s.deadline
    → s.deadline ≤ now
    → s.holder ≡ the_bridge
    → ((apply s (expires now)).bridge.outward.running ≡ false)
      × ((apply s (expires now)).bridge.client.sent ≡ s.bridge.client.sent)
unfolding apply Bridge.apply
expires-over now s lo hi h =
    let past : (ltb 0 s.deadline && leb s.deadline now) ≡ true = ground arith in
    rw past (
      subst
        (λ k.
          ((timed_out now k s).bridge.outward.running ≡ false)
          × ((timed_out now k s).bridge.client.sent ≡ s.bridge.client.sent))
        (sym h) (failure-over now s.bridge, failure-sent now s.bridge))

-- Where the device's connection has a read deadline five seconds after a time at the latest, and
-- deviceReader has not set one after that time when the bridge is in its Read of the device, then
-- the session is deaf once the five seconds have passed: whatever happens after that, the client is
-- sent nothing more but bytes of NOPs.
pub run_deafens :
    (t : ℕ) (s : Sharing) (es later : List Event)
    → 0 < s.deadline
    → s.deadline ≤ t + 5000000000
    → All (IsBy t) es
    → (run s es).holder ≡ the_bridge
    → AddsNops
        (run s es).bridge.client.sent
        (run s (es ++ (expires (t + 5000000000) ∷ later))).bridge.client.sent
unfolding run
run_deafens t s es later lo hi h held =
    let (lo', hi') = run-HasDeadline t s es h (lo, hi) in
    let (over, same) = expires-over (t + 5000000000) (run s es) lo' hi' held in
    let deaf = run_deaf (apply (run s es) (expires (t + 5000000000))) later over in
    rw (run-append s es (expires (t + 5000000000) ∷ later)) (
      subst
        (λ sent.
          AddsNops sent
            (run (apply (run s es) (expires (t + 5000000000))) later).bridge.client.sent)
        same deaf)

-- ===== src/Bridge/Silenced.antt =====
-- What the client gets once the device's loop of bridge.go has returned.
use mathlib.Core.List.{append_assoc, append-nil}
use proxy_rfc.Base.{
  ℕ, zero, suc, ◌+◌, ◌/◌, leb, ◌≡◌, refl, sym, subst, true, false, ◌⊎◌, ◌&&◌, ◌||◌, List, [], ◌∷◌,
  ◌++◌, Bytes, All, All-append, Bool-cases, inl, inr, take, arith,
}
use proxy_rfc.Conn.{Conn, Outcome, accepts, breaks, Written, write_open, write}
use proxy_rfc.Bridge.{
  Reading, Flow, Bridge, telnet_nop, both_done, nop_written, copy_reading, keep_side, keep_device,
  keep_both, Event, client_reads, device_reads, ticks, wakes, returns, client_read, device_read,
  wake, apply, run,
}

abbrev pub IsNopByte : ℕ → Type 0
IsNopByte c = (c ≡ 0xff) ⊎ (c ≡ 0xf1)

-- A text behind another one with nothing added but bytes of NOPs.
abbrev pub AddsNops : Bytes → Bytes → Type 0
AddsNops sent text = (more : Bytes) × (text ≡ sent ++ more) × All IsNopByte more

pub AddsNops-refl : (sent : Bytes) → AddsNops sent sent
AddsNops-refl sent = ([], sym (append-nil sent), tt)

pub AddsNops-trans : (a b c : Bytes) → AddsNops a b → AddsNops b c → AddsNops a c
AddsNops-trans a b c (x, p, hx) (y, q, hy) =
    (x ++ y, rw (q, p) (simp append_assoc), All-append IsNopByte x y hx hy)

taken_nop : (n : ℕ) → All IsNopByte (take n telnet_nop)
taken_nop zero = tt
taken_nop (suc zero) = (inl refl, tt)
taken_nop (suc (suc zero)) = (inl refl, (inr refl, tt))
taken_nop (suc (suc (suc n))) = (inl refl, (inr refl, tt))

write_open-AddsNops :
    (os : List Outcome) (c : Conn) → AddsNops c.sent (write_open os c telnet_nop).conn.sent
write_open-AddsNops [] c = (telnet_nop, refl, taken_nop 2)
write_open-AddsNops (accepts ∷ os) c = (telnet_nop, refl, taken_nop 2)
write_open-AddsNops (breaks n ∷ os) c = (take n telnet_nop, refl, taken_nop n)

write-AddsNops : (c : Conn) → AddsNops c.sent (write c telnet_nop).conn.sent
unfolding write
write-AddsNops c = elim (Bool-cases c.closed) [
  | inl shut ↦ simp shut (AddsNops-refl c.sent)
  | inr up ↦ simp up (write_open-AddsNops c.outcomes c)
]

nop_written-sent : (w : Written) → (nop_written w).conn.sent ≡ w.conn.sent
nop_written-sent w = ground arith

keep_side-AddsNops :
    (idle_timeout now : ℕ) (f : Flow) (c : Conn)
    → AddsNops c.sent (keep_side idle_timeout now f c).conn.sent
unfolding keep_side
keep_side-AddsNops idle now f c = elim (Bool-cases (leb (f.last_active + idle / 1000000000) now)) [
  | inl due ↦ rw due (rw (nop_written-sent (write c telnet_nop)) (write-AddsNops c))
  | inr rested ↦ rw rested (AddsNops-refl c.sent)
]

-- The device's loop is over, and the client's connection has only got bytes of NOPs.
abbrev pub IsSilenced : Bytes → Bridge → Type 0
IsSilenced sent b = (b.outward.running ≡ false) × AddsNops sent b.client.sent

keep_both-IsSilenced :
    (now : ℕ) (b : Bridge) → b.outward.running ≡ false → IsSilenced b.client.sent (keep_both now b)
unfolding keep_both keep_device
keep_both-IsSilenced now b over =
    let side = keep_side-AddsNops b.idle_timeout now b.inward b.client in
    elim (Bool-cases (keep_side b.idle_timeout now b.inward b.client).alive) [
      | inl alive ↦ rw alive (over, side)
      | inr lost ↦ rw lost (over, side)
    ]

-- One event of a silenced bridge.
pub apply-IsSilenced :
    (b : Bridge) (e : Event) → b.outward.running ≡ false → IsSilenced b.client.sent (apply b e)
unfolding apply client_read device_read wake
apply-IsSilenced b (client_reads now r) over = elim (Bool-cases b.inward.running) [
  | inl on ↦ simp on (over, AddsNops-refl b.client.sent)
  | inr off ↦ simp off (over, AddsNops-refl b.client.sent)
]
apply-IsSilenced b (device_reads now r) over = simp over (refl, AddsNops-refl b.client.sent)
apply-IsSilenced b (ticks now) over = elim (Bool-cases b.keepalive) [
  | inl on ↦ simp on (keep_both-IsSilenced now b over)
  | inr off ↦ simp off (over, AddsNops-refl b.client.sent)
]
apply-IsSilenced b wakes over = elim (Bool-cases (both_done b || b.ended)) [
  | inl due ↦ rw due (over, AddsNops-refl b.client.sent)
  | inr early ↦ rw early (over, AddsNops-refl b.client.sent)
]
apply-IsSilenced b returns over = elim (Bool-cases (b.closing && both_done b)) [
  | inl due ↦ rw due (over, AddsNops-refl b.client.sent)
  | inr early ↦ rw early (over, AddsNops-refl b.client.sent)
]

run-IsSilenced :
    (b : Bridge) (es : List Event) → b.outward.running ≡ false → IsSilenced b.client.sent (run b es)
unfolding run
run-IsSilenced b [] over = (over, AddsNops-refl b.client.sent)
run-IsSilenced b (e ∷ es) over =
    let (still, first) = apply-IsSilenced b e over in
    let (last, rest) = run-IsSilenced (apply b e) es still in
    (last, AddsNops-trans _ _ _ first rest)

-- A read that returns no bytes and an error, as one does whose deadline passes.
abbrev pub failure : Reading
failure = record { payload = []; fails = true }

pub failure-over : (now : ℕ) (b : Bridge) → (device_read now failure b).outward.running ≡ false
unfolding device_read copy_reading
failure-over now b = ground arith

pub failure-sent : (now : ℕ) (b : Bridge) → (device_read now failure b).client.sent ≡ b.client.sent
unfolding device_read copy_reading
failure-sent now b = ground arith

-- A read of the device that fails with no bytes ends what the client gets from it: whatever happens
-- after it, the client is sent nothing more but bytes of NOPs.
pub run_silences :
    (b : Bridge) (now : ℕ) (es : List Event)
    → AddsNops b.client.sent (run b (device_reads now failure ∷ es)).client.sent
unfolding run apply
run_silences b now es =
    let (_, more) = run-IsSilenced (device_read now failure b) es (failure-over now b) in
    subst (λ sent. AddsNops sent (run (device_read now failure b) es).client.sent)
      (failure-sent now b) more

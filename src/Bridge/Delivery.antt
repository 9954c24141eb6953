-- ===== src/Bridge/Delivery.antt =====
-- What the bridge delivers, with its keepalive off.
use mathlib.Core.List.{append-nil, append_assoc}
use proxy_rfc.Base.{
  ℕ, ◌+◌, ◌%◌, ◌^◌, ◌≡◌, refl, sym, ap, ◌∙◌, Bool, true, false, not, ◌&&◌, List, [], ◌∷◌, ◌++◌,
  Bytes, length, length-append, if◌then◌else◌, Bool-cases, inl, inr, arith,
}
use proxy_rfc.Conn.{Conn, write}
use proxy_rfc.Conn.Open.{IsOpen, write_open_lem}
use proxy_rfc.Bridge.Done.{run-IsDone}
use proxy_rfc.Bridge.{
  Reading, Flow, Bridge, copy_reading, Event, client_reads, device_reads, ticks, wakes, returns,
  both_done, client_read, device_read, wake, apply, run,
}

-- The bytes read from the client, up to the first read that fails.
abbrev pub client_data : List Event → Bytes
client_data [] = []
client_data (client_reads now r ∷ es) = if r.fails then r.payload else r.payload ++ client_data es
client_data (_ ∷ es) = client_data es

-- The client's loop runs between two open connections.
pub record IsFlowing (b : Bridge) : Type 0 where
  pub no_keepalive : b.keepalive ≡ false
  pub client_loop : b.inward.running ≡ true
  pub not_ended : b.ended ≡ false
  pub client_open : b.client.closed ≡ false
  pub device_open : IsOpen b.device

-- Events other than the client's reads.
abbrev pub IsOther : Event → Type 0
IsOther (client_reads now r) = ⊥
IsOther _ = Unit

device_read-IsFlowing :
    (now : ℕ) (r : Reading) (b : Bridge)
    → IsFlowing b
    → IsFlowing (device_read now r b)
      × ((device_read now r b).device ≡ b.device)
      × ((device_read now r b).inward ≡ b.inward)
unfolding device_read copy_reading write
device_read-IsFlowing now r b v = (
  record {
    no_keepalive = ground arith;
    client_loop = ground arith;
    not_ended = ground arith;
    client_open = ground arith;
    device_open = record { not_closed = ground arith; no_outcomes = ground arith };
  },
  ground arith,
  ground arith,
)

wake_idle : (b : Bridge) → IsFlowing b → wake b ≡ b
unfolding wake
wake_idle b v = ground arith

pub apply-IsFlowing :
    (b : Bridge) (e : Event)
    → IsOther e
    → IsFlowing b
    → IsFlowing (apply b e) × ((apply b e).device ≡ b.device) × ((apply b e).inward ≡ b.inward)
unfolding apply
apply-IsFlowing b (client_reads now r) h v = absurd h
apply-IsFlowing b (device_reads now r) h v = device_read-IsFlowing now r b v
apply-IsFlowing b (ticks now) h v = simp v.no_keepalive (v, refl, refl)
apply-IsFlowing b wakes h v = rw (wake_idle b v) (v, refl, refl)
apply-IsFlowing b returns h v =
    let idle : (b.closing && both_done b) ≡ false = ground arith in rw idle (v, refl, refl)

pub copy_fields :
    (now : ℕ) (conn : Conn) (f : Flow) (payload : Bytes) (fails : Bool)
    → IsOpen conn
    → let k = copy_reading now conn f (record { payload = payload; fails = fails }) in
      (k.conn ≡ record conn { sent = conn.sent ++ payload })
      × (k.flow.counter % 2 ^ 64 ≡ (f.counter + length payload) % 2 ^ 64)
      × (k.flow.running ≡ not fails)
unfolding copy_reading
copy_fields now conn f [] fails h = (rw (append-nil conn.sent) refl, omega arith, refl)
copy_fields now conn f (x ∷ xs) fails h =
    rw (write_open_lem conn (x ∷ xs) h) (refl, omega arith, refl)

-- A read of the client's loop: all that was read is written and counted.
pub client_read-sent :
    (now : ℕ) (r : Reading) (b : Bridge)
    → IsFlowing b
    → let b' = client_read now r b in
      (b'.device ≡ record b.device { sent = b.device.sent ++ r.payload })
      × (b'.inward.counter % 2 ^ 64 ≡ (b.inward.counter + length r.payload) % 2 ^ 64)
      × (b'.inward.running ≡ not r.fails)
      × ((b'.keepalive ≡ false) × (b'.ended ≡ false) × (b'.client.closed ≡ false))
unfolding client_read
client_read-sent now r b v =
    let (conn, counter, running) =
      copy_fields now b.device b.inward r.payload r.fails v.device_open in
    simp (v.client_open, v.client_loop)
      (conn, counter, running, (v.no_keepalive, v.not_ended, refl))

-- What the device has been sent of the client's data, and the counter of it.
abbrev Delivers : Bridge → Bytes → Bridge → Type 0
Delivers b payload b' =
    (b'.device.sent ≡ b.device.sent ++ payload)
    × (b'.inward.counter % 2 ^ 64 ≡ (b.inward.counter + length payload) % 2 ^ 64)

-- An event that leaves the device and the flow changes nothing in what is delivered after it.
other-Delivers :
    (b b' b'' : Bridge) (payload : Bytes)
    → b'.device ≡ b.device
    → b'.inward ≡ b.inward
    → Delivers b' payload b''
    → Delivers b payload b''
other-Delivers b b' b'' payload d i (sent, counter) = (
  sent ∙ ap (λ c. c.sent ++ payload) d,
  counter ∙ ap (λ f. (f.counter + length payload) % 2 ^ 64) i,
)

pub reads-IsFlowing :
    (now : ℕ) (r : Reading) (b : Bridge)
    → IsFlowing b
    → r.fails ≡ false
    → IsFlowing (client_read now r b)
reads-IsFlowing now r b v more =
    let (device, _, running, (off, live, is_open)) = client_read-sent now r b v in
    record {
      no_keepalive = off;
      client_loop = running ∙ ap not more;
      not_ended = live;
      client_open = is_open;
      device_open = record {
        not_closed = ap (λ c. c.closed) device ∙ v.device_open.not_closed;
        no_outcomes = ap (λ c. c.outcomes) device ∙ v.device_open.no_outcomes;
      };
    }

reads-Delivers :
    (now : ℕ) (r : Reading) (b b'' : Bridge) (payload : Bytes)
    → IsFlowing b
    → Delivers (client_read now r b) payload b''
    → Delivers b (r.payload ++ payload) b''
reads-Delivers now r b b'' payload v (sent, counter) =
    let (device, counted, _, _) = client_read-sent now r b v in
    (
      sent ∙ ap (λ c. c.sent ++ payload) device ∙ append_assoc b.device.sent r.payload payload,
      counter ∙ omega (arith, counted, length-append r.payload payload),
    )

-- An event other than a read of the client's, with what comes after it.
other_first :
    (b : Bridge) (e : Event) (es : List Event)
    → IsOther e
    → IsFlowing b
    → ((b' : Bridge) → IsFlowing b' → Delivers b' (client_data es) (run b' es))
    → Delivers b (client_data es) (run (apply b e) es)
other_first b e es h v later =
    let (v', d, i) = apply-IsFlowing b e h v in
    other-Delivers b (apply b e) (run (apply b e) es) (client_data es) d i (later (apply b e) v')

read_first :
    (b : Bridge) (now : ℕ) (r : Reading) (es : List Event)
    → IsFlowing b
    → ((b' : Bridge) → IsFlowing b' → Delivers b' (client_data es) (run b' es))
    → Delivers b (client_data (client_reads now r ∷ es)) (run (client_read now r b) es)
read_first b now r es v later = elim (Bool-cases r.fails) [
  | inr more ↦ simp more (
      reads-Delivers now r b (run (client_read now r b) es) (client_data es) v
        (later (client_read now r b) (reads-IsFlowing now r b v more)))
  | inl last ↦
      let (device, counted, running, (off, _, _)) = client_read-sent now r b v in
      let (sent, flow) =
        run-IsDone (client_read now r b) es
          (record { no_keepalive = off; done_loop = running ∙ ap not last }) in
      simp last (sent ∙ ap (λ c. c.sent) device, ap (λ f. f.counter % 2 ^ 64) flow ∙ counted)
]

-- With the keepalive off, the session not ended, the client's loop running on an open connection,
-- and a device connection whose writes succeed, the device
-- is sent exactly the bytes read from the client, in order, up to the client's first failing read,
-- however the other events come between; and the counter BytesIn grows by their number, modulo
-- 2 ^ 64.
pub run-Delivers :
    (b : Bridge) (es : List Event) → IsFlowing b → Delivers b (client_data es) (run b es)
unfolding run apply
run-Delivers b [] v = (sym (append-nil b.device.sent), omega arith)
run-Delivers b (client_reads now r ∷ es) v =
    read_first b now r es v (λ b' v'. run-Delivers b' es v')
run-Delivers b (device_reads now r ∷ es) v =
    other_first b (device_reads now r) es tt v (λ b' v'. run-Delivers b' es v')
run-Delivers b (ticks now ∷ es) v =
    other_first b (ticks now) es tt v (λ b' v'. run-Delivers b' es v')
run-Delivers b (wakes ∷ es) v = other_first b wakes es tt v (λ b' v'. run-Delivers b' es v')
run-Delivers b (returns ∷ es) v = other_first b returns es tt v (λ b' v'. run-Delivers b' es v')

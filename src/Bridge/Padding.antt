-- ===== src/Bridge/Padding.antt =====
-- What a connection of the bridge is sent where NOPs may come between the pieces of its data.
use mathlib.Core.List.{append-nil}
use proxy_rfc.Base.{
  ℕ, ◌+◌, ◌/◌, ◌≡◌, refl, sym, ap, subst, ◌∙◌, inl, inr, Bool, true, false, not, [], ◌++◌, Bytes,
  if◌then◌else◌, Bool-cases, leb,
}
use proxy_rfc.Conn.{Conn}
use proxy_rfc.Conn.Open.{IsOpen}
use proxy_rfc.Bridge.{telnet_nop, Flow}
use proxy_rfc.Bridge.Keepalive.{nop_due}

-- A text as it was read, with NOPs put in between its pieces where there is a keepalive.
pub data Padded : Bool → Bytes → Bytes → Type 0 where
  nothing : {keepalive : Bool} → Padded keepalive [] []
  piece :
      (b : Bytes) {keepalive : Bool} {d m : Bytes}
      → Padded keepalive d m
      → Padded keepalive (b ++ d) (b ++ m)
  nop : {d m : Bytes} → Padded true d m → Padded true d (telnet_nop ++ m)

Padded-plain : {keepalive : Bool} {d m : Bytes} → Padded keepalive d m → keepalive ≡ false → m ≡ d
Padded-plain nothing off = refl
Padded-plain (piece b p) off = ap (λ x. b ++ x) (Padded-plain p off)
Padded-plain (nop p) off = cc

-- With no keepalive the text is the one that was read.
pub Padded-same : (d m : Bytes) → Padded false d m → m ≡ d
Padded-same d m p = Padded-plain p refl

-- A loop that has ended reads no more.
abbrev pub gets : Bool → Bytes → Bytes
gets running d = if running then d else []

-- A connection that is sent something: what was to come with what is still to come is padded.
abbrev pub Pads : Bool → Conn → Conn → Bytes → Bytes → Type 0
Pads keepalive c c' before after =
    (x : Bytes) × (c' ≡ record c { sent = c.sent ++ x })
    × ((m : Bytes) → Padded keepalive after m → Padded keepalive before (x ++ m))

pub stays-Pads : (keepalive : Bool) (c : Conn) (d : Bytes) → Pads keepalive c c d d
stays-Pads keepalive c d = ([], ap (λ s. record c { sent = s }) (sym (append-nil c.sent)), λ m p. p)

pub nop_due-Pads :
    (idle now : ℕ) (f : Flow) (c : Conn) (d : Bytes)
    → Pads true c (record c { sent = c.sent ++ nop_due idle now f }) d d
nop_due-Pads idle now f c d = elim (Bool-cases (leb (f.last_active + idle / 1000000000) now)) [
  | inl due ↦ (nop_due idle now f, refl, λ m p. rw due (nop p))
  | inr rested ↦ (nop_due idle now f, refl, λ m p. rw rested p)
]

pub read-Pads :
    (keepalive : Bool) (c : Conn) (p : Bytes) (fails : Bool) (d : Bytes)
    → Pads keepalive c
        (record c { sent = c.sent ++ p })
        (if fails then p else p ++ d)
        (gets (not fails) d)
read-Pads keepalive c p true d =
    (p, refl, λ m q. subst (λ x. Padded keepalive x (p ++ m)) (append-nil p) (piece p q))
read-Pads keepalive c p false d = (p, refl, λ m q. piece p q)

pub Pads-IsOpen :
    (keepalive : Bool) (c c' : Conn) (before after : Bytes)
    → Pads keepalive c c' before after
    → IsOpen c
    → IsOpen c'
Pads-IsOpen keepalive c c' before after (x, e, _) h = record {
  not_closed = ap (λ k. k.closed) e ∙ h.not_closed;
  no_outcomes = ap (λ k. k.outcomes) e ∙ h.no_outcomes;
}

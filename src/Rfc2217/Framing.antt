-- ===== src/Rfc2217/Framing.antt =====
-- How rfc2217.go finds one framed command at the head of the data.
use mathlib.Core.List.{append_assoc}
use proxy_rfc.Base.{
  ℕ, ◌≡◌, ◌≢◌, refl, ap, ◌∙◌, inl, inr, ◌&&◌, Option, none, some, [], ◌∷◌, ◌++◌, Bytes, ◌==◌,
  Bool-cases, Option-cases, arith,
}
use proxy_rfc.Rfc2217.{Command, iac, sb, se, com_port_option, find_end, frame_body, frame_at}

-- A command as it stands on the wire.
abbrev pub frame : Command → Bytes
frame c = iac ∷ sb ∷ com_port_option ∷ c.command ∷ (c.payload ++ (iac ∷ se ∷ []))

-- No IAC SE stands in the command's body.
abbrev pub IsPlain : Command → Type 0
IsPlain c = find_end (c.command ∷ c.payload) ≡ none

pub find_end-cons : (x : ℕ) (xs : Bytes) → x ≢ iac → find_end xs ≡ none → find_end (x ∷ xs) ≡ none
unfolding find_end
find_end-cons x [] ne h = refl
find_end-cons x (y ∷ r) ne h = ground arith

-- The end mark is found behind a body that holds none.
find_end-append :
    (body rest : Bytes)
    → find_end body ≡ none
    → find_end (body ++ (iac ∷ se ∷ rest)) ≡ some (body, rest)
unfolding find_end
find_end-append [] rest h = refl
find_end-append (x ∷ []) rest h = ground arith
find_end-append (x ∷ y ∷ r) rest h = ground (arith, find_end-append (y ∷ r) rest)

-- What was found, with the mark, is the whole input, and the mark is the first.
abbrev Splits : Bytes → Option (Bytes × Bytes) → Type 0
Splits bytes none = Unit
Splits bytes (some (body, rest)) = (bytes ≡ body ++ (iac ∷ se ∷ rest)) × (find_end body ≡ none)

find_end-Splits : (bytes : Bytes) → Splits bytes (find_end bytes)
unfolding find_end
find_end-Splits [] = tt
find_end-Splits (x ∷ []) = tt
find_end-Splits (x ∷ y ∷ r) = elim (Option-cases (find_end (y ∷ r))) [
  | inl e ↦ ground (arith, e)
  | inr ((body, rest), e) ↦ ground (arith, e, find_end-Splits (y ∷ r))
]

pub frame_at-frame :
    (c : Command) (rest : Bytes) → IsPlain c → frame_at (frame c ++ rest) ≡ some (c, rest)
unfolding frame_at
frame_at-frame c rest h =
    rw (append_assoc c.payload (iac ∷ se ∷ []) rest)
      (rw (find_end-append (c.command ∷ c.payload) rest h))

-- A frame that is found is the head of the data.
abbrev pub Heads : Bytes → Option (Command × Bytes) → Type 0
Heads bytes none = Unit
Heads bytes (some (c, rest)) = (bytes ≡ frame c ++ rest) × IsPlain c

frame_body-Heads :
    (r : Bytes) (o : Option (Bytes × Bytes))
    → Splits r o
    → Heads (iac ∷ sb ∷ com_port_option ∷ r) (frame_body o)
frame_body-Heads r none s = tt
frame_body-Heads r (some ([], rest)) s = tt
frame_body-Heads r (some (c ∷ d, rest)) (e, plain) = (
  ap (λ t. iac ∷ sb ∷ com_port_option ∷ t)
      (e ∙ ap (◌∷◌ c) (rw (append_assoc d (iac ∷ se ∷ []) rest))),
  plain,
)

pub frame_at-Heads : (bytes : Bytes) → Heads bytes (frame_at bytes)
unfolding frame_at
frame_at-Heads [] = tt
frame_at-Heads (a ∷ []) = tt
frame_at-Heads (a ∷ b ∷ []) = tt
frame_at-Heads (a ∷ b ∷ c ∷ r) = elim (Bool-cases (a == iac && b == sb && c == com_port_option)) [
  | inl e ↦
      let m : (a ≡ iac) × (b ≡ sb) × (c ≡ com_port_option) = ground arith in
      rw e (rw (m.0, m.1, m.2) (frame_body-Heads r (find_end r) (find_end-Splits r)))
  | inr e ↦ rw e tt
]

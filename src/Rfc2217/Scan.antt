-- ===== src/Rfc2217/Scan.antt =====
-- ParseRFC2217Commands of internal/connection/rfc2217.go against a reading of the data from left to
-- right that has no index and no jump.
use proxy_rfc.Base.{
  ℕ, zero, suc, ◌+◌, ◌≤◌, ◌≡◌, ◌≢◌, ◌↔◌, refl, ap, ◌∙◌, sym, subst, Option, none, some, List, [],
  ◌∷◌, ◌++◌, Bytes, length, length-append, Option-cases, inl, inr, arith,
}
use proxy_rfc.Rfc2217.{Command, frame_at, parse_from, parse_commands}
use proxy_rfc.Rfc2217.Framing.{frame, IsPlain, frame_at-frame, frame_at-Heads}
use proxy_rfc.Rfc2217.Parser.{parse_from-some, parse_from-frame}

-- No framed command stands at the head of the data.
abbrev pub IsUnframed : Bytes → Type 0
IsUnframed bytes = (c : Command) (rest : Bytes) → IsPlain c → bytes ≢ frame c ++ rest

-- The commands in the data: a frame at the head is taken whole, and where none stands one byte is
-- passed over.
pub data Scan : Bytes → List Command → Type 0 where
  ends : Scan [] []
  takes :
      {rest : Bytes} {cs : List Command} (c : Command)
      → IsPlain c
      → Scan rest cs
      → Scan (frame c ++ rest) (c ∷ cs)
  skips :
      {x : ℕ} {xs : Bytes} {cs : List Command} → IsUnframed (x ∷ xs) → Scan xs cs → Scan (x ∷ xs) cs

unframed-frame_at : (bytes : Bytes) → IsUnframed bytes → frame_at bytes ≡ none
unframed-frame_at bytes h = elim (Option-cases (frame_at bytes)) [
  | inl e ↦ e
  | inr ((c, rest), e) ↦
      let (split, plain) = rw e at (frame_at-Heads bytes) in absurd (h c rest plain split)
]

frame_at-IsUnframed : (bytes : Bytes) → frame_at bytes ≡ none → IsUnframed bytes
frame_at-IsUnframed bytes e c rest plain q =
    let found : ◌≡◌ {A = Option (Command × Bytes)} none (some (c, rest)) =
      sym e ∙ ap frame_at q ∙ frame_at-frame c rest plain in
    cc

parse_from-none :
    (x : ℕ) (xs : Bytes) → frame_at (x ∷ xs) ≡ none → parse_from zero (x ∷ xs) ≡ parse_from zero xs
unfolding parse_from
parse_from-none x xs e = rw (e, parse_from) refl

Scan-parse_from : {bytes : Bytes} {cs : List Command} → Scan bytes cs → parse_from zero bytes ≡ cs
Scan-parse_from ends = unfold parse_from in refl
Scan-parse_from (takes c plain s) = parse_from-frame c _ plain ∙ ap (◌∷◌ c) (Scan-parse_from s)
Scan-parse_from (skips {x} {xs} h s) =
    parse_from-none x xs (unframed-frame_at (x ∷ xs) h) ∙ Scan-parse_from s

length-rest : (c : Command) (rest : Bytes) → length rest + 1 ≤ length (frame c ++ rest)
length-rest c rest = omega (arith, length-append (frame c) rest)

parse_from-Scan : (n : ℕ) (bytes : Bytes) → length bytes ≤ n → Scan bytes (parse_from zero bytes)
parse_from-Scan n [] h = unfold parse_from in ends
parse_from-Scan zero (x ∷ xs) h = absurd (omega arith)
parse_from-Scan (suc n) (x ∷ xs) h = elim (Option-cases (frame_at (x ∷ xs))) [
  | inl e ↦
      subst (Scan (x ∷ xs)) (sym (parse_from-none x xs e))
        (skips (frame_at-IsUnframed (x ∷ xs) e) (parse_from-Scan n xs (omega arith)))
  | inr ((c, rest), e) ↦
      let (split, plain) = rw e at (frame_at-Heads (x ∷ xs)) in
      let shorter : length rest ≤ n =
        omega (arith, length-rest c rest, ap (length {A = ℕ}) split) in
      subst (Scan (x ∷ xs)) (sym (parse_from-some (x ∷ xs) e)) (
        subst (λ bytes. Scan bytes (c ∷ parse_from zero rest)) (sym split)
          (takes c plain (parse_from-Scan n rest shorter)))
]

-- `ParseRFC2217Commands` returns some commands exactly if they are the ones that stand in the data
-- when these are read from left to right: a frame at the head, with no IAC SE in its body, is taken
-- whole, and where none stands one byte is passed over.
pub parse_commands_iff :
    (bytes : Bytes) (cs : List Command) → ((parse_commands bytes).commands ≡ cs) ↔ Scan bytes cs
unfolding parse_commands
parse_commands_iff bytes cs = (
  (λ e. subst (Scan bytes) e (parse_from-Scan (length bytes) bytes (omega arith))),
  (λ s. Scan-parse_from s),
)

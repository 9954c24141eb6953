-- ===== src/Protocol/Lines.antt =====
-- What the line reader of protocol.go returns.
use proxy_rfc.Base.{
  ℕ, suc, ◌<◌, ◌≤◌, ◌≡◌, ◌⊎◌, inl, inr, refl, Bool, true, false, [], ◌∷◌, ◌++◌, Bytes, length,
  Bool-cases, arith,
}
use proxy_rfc.Conn.{byte, edge, pause, Stream}
use proxy_rfc.Protocol.{
  Line, ended, conn_closed, skip_lf, after_end, in_command, is_line_end, read_line,
}

skip_lf-le : (s : Stream) → length (skip_lf s) ≤ length s
unfolding skip_lf
skip_lf-le [] = omega arith
skip_lf-le (byte b ∷ s) = ground arith
skip_lf-le (edge ∷ s) = omega (arith, skip_lf-le s)
skip_lf-le (pause ∷ s) = omega arith

after_end-le : (b : ℕ) (s : Stream) → length (after_end b s) ≤ length s
unfolding after_end
after_end-le b s = ground (arith, skip_lf-le s)

-- The two ways of the loop's body, with the tests on the byte shut.
pub read_line-end :
    (in_at : Bool) (line skipped : Bytes) (b : ℕ) (s : Stream)
    → is_line_end b ≡ true
    → read_line in_at line skipped (byte b ∷ s)
      ≡ record { line = line; skipped = skipped; outcome = ended; rest = after_end b s }
unfolding read_line
read_line-end in_at line skipped b s h = rw h

pub read_line-take :
    (in_at : Bool) (line skipped : Bytes) (b : ℕ) (s : Stream)
    → is_line_end b ≡ false
    → in_command in_at b s ≡ true
    → read_line in_at line skipped (byte b ∷ s) ≡ read_line true (line ++ (b ∷ [])) skipped s
unfolding read_line
read_line-take in_at line skipped b s h t = rw h (rw t)

pub read_line-skip :
    (in_at : Bool) (line skipped : Bytes) (b : ℕ) (s : Stream)
    → is_line_end b ≡ false
    → in_command in_at b s ≡ false
    → read_line in_at line skipped (byte b ∷ s) ≡ read_line false line (skipped ++ (b ∷ [])) s
unfolding read_line
read_line-skip in_at line skipped b s h t = rw h (rw t)

-- A proof over the three ways.
pub read_line-cases {ℓ} :
    (P : Line → Type ℓ) (in_at : Bool) (line skipped : Bytes) (b : ℕ) (s : Stream)
    → (is_line_end b ≡ true
        → P (record { line = line; skipped = skipped; outcome = ended; rest = after_end b s }))
    → (is_line_end b ≡ false
        → in_command in_at b s ≡ true
        → P (read_line true (line ++ (b ∷ [])) skipped s))
    → (is_line_end b ≡ false
        → in_command in_at b s ≡ false
        → P (read_line false line (skipped ++ (b ∷ [])) s))
    → P (read_line in_at line skipped (byte b ∷ s))
read_line-cases P in_at line skipped b s ends takes skips = elim (Bool-cases (is_line_end b)) [
  | inl h ↦ rw (read_line-end in_at line skipped b s h) (ends h)
  | inr h ↦ elim (Bool-cases (in_command in_at b s)) [
    | inl t ↦ rw (read_line-take in_at line skipped b s h t) (takes h t)
    | inr t ↦ rw (read_line-skip in_at line skipped b s h t) (skips h t)
  ]
]

-- A line takes at least one item off the stream, unless the connection reads no more.
abbrev pub Consumes : ℕ → Line → Type 0
Consumes n l = (l.outcome ≡ conn_closed) ⊎ (length l.rest < n)

Consumes-suc : (n : ℕ) (l : Line) → Consumes n l → Consumes (suc n) l
Consumes-suc n l (inl e) = inl e
Consumes-suc n l (inr h) = inr (omega arith)

pub read_line-Consumes :
    (in_at : Bool) (line skipped : Bytes) (s : Stream)
    → Consumes (length s) (read_line in_at line skipped s)
unfolding read_line
read_line-Consumes in_at line skipped [] = inl refl
read_line-Consumes in_at line skipped (edge ∷ s) =
    Consumes-suc _ (read_line in_at line skipped s) (read_line-Consumes in_at line skipped s)
read_line-Consumes in_at line skipped (pause ∷ s) = inr (omega arith)
read_line-Consumes in_at line skipped (byte b ∷ s) =
    read_line-cases (Consumes (suc (length s))) in_at line skipped b s
      (λ _. inr (omega (arith, after_end-le b s)))
      (λ _ _.
        Consumes-suc _ (read_line true (line ++ (b ∷ [])) skipped s)
          (read_line-Consumes true (line ++ (b ∷ [])) skipped s))
      (λ _ _.
        Consumes-suc _ (read_line false line (skipped ++ (b ∷ [])) s)
          (read_line-Consumes false line (skipped ++ (b ∷ [])) s))

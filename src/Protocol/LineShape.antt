-- ===== src/Protocol/LineShape.antt =====
-- The command part of the lines that protocol.go reads.
use proxy_rfc.Base.{ℕ, ◌≡◌, ◌⊎◌, inl, inr, refl, Bool, true, false, [], ◌∷◌, ◌++◌, Bytes, arith}
use proxy_rfc.Conn.{byte, edge, pause, Stream, next_is}
use proxy_rfc.Protocol.{in_command, is_line_end, read_line}
use proxy_rfc.Protocol.Lines.{read_line-cases}

-- The command of a line is empty or begins with "AT".
abbrev pub IsAtLine : Bytes → Type 0
IsAtLine line = (line ≡ []) ⊎ ((r : Bytes) × (line ≡ b'A' ∷ b'T' ∷ r))

-- The same while the line is read: behind an 'A' alone stands a 'T'.
abbrev AtState : Bool → Bytes → Stream → Type 0
AtState in_at line s =
    ((in_at ≡ false) × (line ≡ []))
    ⊎ (((in_at ≡ true) × (line ≡ b'A' ∷ []) × (next_is b'T' s ≡ true))
        ⊎ ((in_at ≡ true) × ((r : Bytes) × (line ≡ b'A' ∷ b'T' ∷ r))))

AtState-edge :
    (in_at : Bool) (line : Bytes) (s : Stream)
    → AtState in_at line (edge ∷ s)
    → AtState in_at line s
unfolding next_is
AtState-edge in_at line s a = a

AtState-take :
    (in_at : Bool) (line : Bytes) (b : ℕ) (s : Stream)
    → in_command in_at b s ≡ true
    → AtState in_at line (byte b ∷ s)
    → AtState true (line ++ (b ∷ [])) s
unfolding in_command next_is
AtState-take in_at line b s t (inl (out, e)) = inr (inl (refl, rw e (ground arith), ground arith))
AtState-take in_at line b s t (inr (inl (_, e, n))) = inr (inr (refl, ([], rw e (ground arith))))
AtState-take in_at line b s t (inr (inr (_, (r, e)))) = inr (inr (refl, (r ++ (b ∷ []), rw e)))

AtState-IsAtLine :
    (in_at : Bool) (line : Bytes) (s : Stream)
    → next_is b'T' s ≡ false
    → AtState in_at line s
    → IsAtLine line
AtState-IsAtLine in_at line s n (inl (_, e)) = inl e
AtState-IsAtLine in_at line s n (inr (inl (_, _, y))) = cc
AtState-IsAtLine in_at line s n (inr (inr (_, at))) = inr at

next_is-line_end : (b : ℕ) (s : Stream) → is_line_end b ≡ true → next_is b'T' (byte b ∷ s) ≡ false
unfolding next_is
next_is-line_end b s h = ground arith

AtState-skip :
    (in_at : Bool) (line : Bytes) (b : ℕ) (s : Stream)
    → in_command in_at b s ≡ false
    → AtState in_at line (byte b ∷ s)
    → AtState false line s
unfolding in_command
AtState-skip in_at line b s t (inl (_, e)) = inl (refl, e)
AtState-skip in_at line b s t (inr (inl (y, _, _))) = absurd (ground arith)
AtState-skip in_at line b s t (inr (inr (y, _))) = absurd (ground arith)

read_line-AtState :
    (in_at : Bool) (line skipped : Bytes) (s : Stream)
    → AtState in_at line s
    → IsAtLine (read_line in_at line skipped s).line
unfolding read_line
read_line-AtState in_at line skipped [] a =
    AtState-IsAtLine in_at line [] (unfold next_is in refl) a
read_line-AtState in_at line skipped (edge ∷ s) a =
    read_line-AtState in_at line skipped s (AtState-edge in_at line s a)
read_line-AtState in_at line skipped (pause ∷ s) a =
    AtState-IsAtLine in_at line (pause ∷ s) (unfold next_is in refl) a
read_line-AtState in_at line skipped (byte b ∷ s) a =
    read_line-cases (λ l. IsAtLine l.line) in_at line skipped b s
      (λ e. AtState-IsAtLine in_at line (byte b ∷ s) (next_is-line_end b s e) a)
      (λ _ t. read_line-AtState true (line ++ (b ∷ [])) skipped s (AtState-take in_at line b s t a))
      (λ _ t.
        read_line-AtState false line (skipped ++ (b ∷ [])) s (AtState-skip in_at line b s t a))

-- Also where a read fails, the command part of a line is empty or begins with "AT".
pub read_line_shape : (s : Stream) → IsAtLine (read_line false [] [] s).line
read_line_shape s = read_line-AtState false [] [] s (inl (refl, refl))

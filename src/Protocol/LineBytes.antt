-- ===== src/Protocol/LineBytes.antt =====
-- The bytes that the line reader of protocol.go takes and leaves.
use mathlib.Core.List.{append-nil, append_assoc}
use proxy_rfc.Base.{
  ℕ, ◌≡◌, ◌⊎◌, inl, inr, refl, ap, subst, Bool, true, false, [], ◌∷◌, ◌++◌, Bytes, ◌==◌, Bool-cases,
  arith,
}
use proxy_rfc.Conn.{byte, edge, pause, Stream}
use proxy_rfc.Protocol.{
  Line, LineEnd, ended, timed_out, conn_closed, skip_lf, after_end, in_command, is_line_end,
  read_line,
}
use proxy_rfc.Protocol.Lines.{read_line-cases}

-- The bytes of a stream.
abbrev pub stream_bytes : Stream → Bytes
stream_bytes [] = []
stream_bytes (byte b ∷ s) = b ∷ stream_bytes s
stream_bytes (edge ∷ s) = stream_bytes s
stream_bytes (pause ∷ s) = stream_bytes s

-- How a line stops: at CR, LF or CR LF, or where a read fails, with no byte taken.
pub data EndMark : LineEnd → Bytes → Type 0 where
  at_end :
      (mark : Bytes)
      → (mark ≡ b'\r' ∷ []) ⊎ ((mark ≡ b'\n' ∷ []) ⊎ (mark ≡ b'\r' ∷ b'\n' ∷ []))
      → EndMark ended mark
  at_pause : EndMark timed_out []
  at_close : EndMark conn_closed []

-- `read` are the bytes that a line was read from: those skipped, those of the command, and the
-- line's end, and the rest stands behind them.
abbrev pub Conserves : Bytes → Line → Type 0
Conserves read l =
    (mark : Bytes) × EndMark l.outcome mark
    × (read ≡ (l.skipped ++ l.line) ++ (mark ++ stream_bytes l.rest))

skip_lf-bytes :
    (s : Stream)
    → (stream_bytes (skip_lf s) ≡ stream_bytes s)
      ⊎ (stream_bytes s ≡ b'\n' ∷ stream_bytes (skip_lf s))
unfolding skip_lf
skip_lf-bytes [] = inl refl
skip_lf-bytes (byte b ∷ s) = ground arith
skip_lf-bytes (edge ∷ s) = skip_lf-bytes s
skip_lf-bytes (pause ∷ s) = inl refl

after_end-mark :
    (b : ℕ) (s : Stream)
    → is_line_end b ≡ true
    → (mark : Bytes) × EndMark ended mark
      × (b ∷ stream_bytes s ≡ mark ++ stream_bytes (after_end b s))
unfolding after_end
after_end-mark b s h = elim (Bool-cases (b == b'\r')) [
  | inl cr ↦ elim (skip_lf-bytes s) [
    | inl same ↦ (b'\r' ∷ [], at_end _ (inl refl), ground (arith, same))
    | inr lf ↦ (b'\r' ∷ b'\n' ∷ [], at_end _ (inr (inr refl)), ground (arith, lf))
  ]
  | inr other ↦ (b'\n' ∷ [], at_end _ (inr (inl refl)), ground arith)
]

in_command-outside :
    (in_at : Bool) (b : ℕ) (s : Stream) → in_command in_at b s ≡ false → in_at ≡ false
unfolding in_command
in_command-outside in_at b s h = ground arith

-- Where no command has begun, its bytes are none.
read_line_inside-Conserves :
    (in_at : Bool) (line skipped : Bytes) (s : Stream)
    → (in_at ≡ false → line ≡ [])
    → Conserves ((skipped ++ line) ++ stream_bytes s) (read_line in_at line skipped s)
unfolding read_line
read_line_inside-Conserves in_at line skipped [] h = ([], at_close, refl)
read_line_inside-Conserves in_at line skipped (edge ∷ s) h =
    read_line_inside-Conserves in_at line skipped s h
read_line_inside-Conserves in_at line skipped (pause ∷ s) h = ([], at_pause, refl)
read_line_inside-Conserves in_at line skipped (byte b ∷ s) h =
    read_line-cases (Conserves ((skipped ++ line) ++ (b ∷ stream_bytes s))) in_at line skipped b s
      (λ e. let (mark, m, q) = after_end-mark b s e in (mark, m, ap (◌++◌ (skipped ++ line)) q))
      (λ _ t.
        subst (λ read. Conserves read (read_line true (line ++ (b ∷ [])) skipped s))
          (simp append_assoc)
          (read_line_inside-Conserves true (line ++ (b ∷ [])) skipped s (λ e. cc)))
      (λ _ t.
        let none_yet : line ≡ [] = h (in_command-outside in_at b s t) in
        subst (λ read. Conserves read (read_line false line (skipped ++ (b ∷ [])) s))
          (rw none_yet (simp (append_assoc, append-nil)))
          (read_line_inside-Conserves false line (skipped ++ (b ∷ [])) s (λ _. none_yet)))

-- A line that is read accounts for every byte: what was skipped, then the command, then the line's
-- end (none where the read failed), then what is left to read.
pub read_line-Conserves : (s : Stream) → Conserves (stream_bytes s) (read_line false [] [] s)
read_line-Conserves s = read_line_inside-Conserves false [] [] s (λ _. refl)

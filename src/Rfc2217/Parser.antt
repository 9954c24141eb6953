-- ===== src/Rfc2217/Parser.antt =====
-- What `ParseRFC2217Commands` of rfc2217.go returns on framed commands.
use mathlib.Core.List.{append-nil, append_assoc}
use proxy_rfc.Base.{
  ℕ, zero, suc, ◌+◌, ◌%◌, ◌<◌, ◌≡◌, refl, sym, ap, subst, All, All-mono, ◌∙◌, ◌↔◌, inl, inr, none,
  some, List, [], ◌∷◌, ◌++◌, Bytes, length, drop, length-append, drop-append, Option-cases, arith,
}
use proxy_rfc.Rfc2217.{
  Command, iac, se, find_end, frame_at, parse_from, parse_commands, build_response,
}
use proxy_rfc.Rfc2217.Framing.{frame, IsPlain, frame_at-frame, frame_at-Heads, find_end-cons}

abbrev pub frames : List Command → Bytes
frames [] = []
frames (c ∷ cs) = frame c ++ frames cs

-- A jump passes over the bytes it counts.
parse_from-drop :
    (skip : ℕ) (bytes : Bytes) → parse_from skip bytes ≡ parse_from zero (drop skip bytes)
unfolding parse_from
parse_from-drop zero bytes = refl
parse_from-drop (suc skip) [] = refl
parse_from-drop (suc skip) (x ∷ xs) = parse_from-drop skip xs

parse_from-jump :
    (x : ℕ) (xs : Bytes) (c : Command) (rest : Bytes)
    → frame_at (x ∷ xs) ≡ some (c, rest)
    → parse_from zero (x ∷ xs) ≡ c ∷ parse_from (length c.payload + 5) xs
unfolding parse_from
parse_from-jump x xs c rest e = rw (e, parse_from)

length-frame : (c : Command) → length (frame c) ≡ suc (length c.payload + 5)
length-frame c = omega (arith, length-append c.payload (iac ∷ se ∷ []))

-- The jump to `end + 2` leaves what stands behind the frame.
drop-frame :
    (x : ℕ) (xs : Bytes) (c : Command) (rest : Bytes)
    → x ∷ xs ≡ frame c ++ rest
    → drop (length c.payload + 5) xs ≡ rest
drop-frame x xs c rest e =
    ap (drop (suc (length c.payload + 5))) e
    ∙ ap (λ n. drop n (frame c ++ rest)) (sym (length-frame c))
    ∙ drop-append (frame c) rest

pub parse_from-some :
    (bytes : Bytes) {c : Command} {rest : Bytes}
    → frame_at bytes ≡ some (c, rest)
    → parse_from zero bytes ≡ c ∷ parse_from zero rest
parse_from-some [] e = absurd (unfold frame_at in cc)
parse_from-some (x ∷ xs) {c} {rest} e =
    parse_from-jump x xs c rest e
    ∙ ap (◌∷◌ c) (
        parse_from-drop (length c.payload + 5) xs
        ∙ ap (parse_from zero) (drop-frame x xs c rest (rw e at (frame_at-Heads (x ∷ xs))).0))

pub parse_from-frame :
    (c : Command) (rest : Bytes)
    → IsPlain c
    → parse_from zero (frame c ++ rest) ≡ c ∷ parse_from zero rest
parse_from-frame c rest h = parse_from-some (frame c ++ rest) (frame_at-frame c rest h)

-- A stream of framed commands, with whatever follows it.
pub parse_from-frames :
    (cs : List Command) (rest : Bytes)
    → All IsPlain cs
    → parse_from zero (frames cs ++ rest) ≡ cs ++ parse_from zero rest
parse_from-frames [] rest h = refl
parse_from-frames (c ∷ cs) rest h =
    ap (parse_from zero) (append_assoc (frame c) (frames cs) rest)
    ∙ parse_from-frame c (frames cs ++ rest) h.0
    ∙ ap (◌∷◌ c) (parse_from-frames cs rest h.1)

-- The command stands framed somewhere in the data, with no end mark in its body.
abbrev pub FramedIn : Bytes → Command → Type 0
FramedIn bytes c =
    IsPlain c × ((before : Bytes) × (after : Bytes) × (bytes ≡ before ++ (frame c ++ after)))

FramedIn-cons : (x : ℕ) (xs : Bytes) (c : Command) → FramedIn xs c → FramedIn (x ∷ xs) c
FramedIn-cons x xs c (plain, (before, after, e)) = (plain, (x ∷ before, after, ap (◌∷◌ x) e))

parse_from-FramedIn : (skip : ℕ) (bytes : Bytes) → All (FramedIn bytes) (parse_from skip bytes)
unfolding parse_from
parse_from-FramedIn skip [] = tt
parse_from-FramedIn (suc skip) (x ∷ xs) =
    All-mono _ _ (parse_from skip xs) (FramedIn-cons x xs) (parse_from-FramedIn skip xs)
parse_from-FramedIn zero (x ∷ xs) = elim (Option-cases (frame_at (x ∷ xs))) [
  | inl e ↦
      rw (e, parse_from)
        (All-mono _ _ (parse_from zero xs) (FramedIn-cons x xs) (parse_from-FramedIn zero xs))
  | inr ((c, rest), e) ↦
      let (split, plain) = rw e at (frame_at-Heads (x ∷ xs)) in
      let later = parse_from (length c.payload + 5) xs in
      rw (e, parse_from)
        (
          (plain, ([], rest, split)),
          All-mono _ _ later (FramedIn-cons x xs) (parse_from-FramedIn (length c.payload + 5) xs),
        )
]

-- Every command that the parser returns stands framed in the data, with no IAC SE in its body.
pub parse_commands-FramedIn : (bytes : Bytes) → All (FramedIn bytes) (parse_commands bytes).commands
unfolding parse_commands
parse_commands-FramedIn bytes = parse_from-FramedIn zero bytes

-- A stream of framed commands without IAC SE in a body is read back whole, whatever follows it.
pub parse_commands-frames :
    (cs : List Command) (rest : Bytes)
    → All IsPlain cs
    → (parse_commands (frames cs ++ rest)).commands ≡ cs ++ (parse_commands rest).commands
unfolding parse_commands
parse_commands-frames cs rest h = parse_from-frames cs rest h

-- One framed command is read back as itself alone exactly when its body does not hold the end mark
-- IAC SE.
pub parse_commands-frame :
    (c : Command) → ((parse_commands (frame c)).commands ≡ c ∷ []) ↔ IsPlain c
unfolding parse_commands
parse_commands-frame c = (
  λ e. (subst (All (FramedIn (frame c))) e (parse_from-FramedIn zero (frame c))).0.0,
  λ h.
      ap (parse_from zero) (sym (append-nil (frame c)))
      ∙ parse_from-frame c [] h
      ∙ ap (◌∷◌ c) (unfold parse_from in refl),
)

-- The answer of the server to a command whose code is below 155 and whose data hold no IAC SE is
-- read back as one command: the code is raised by 100, the data are the same.
pub parse_commands-build_response :
    (c : Command)
    → c.command < 155
    → find_end c.payload ≡ none
    → (parse_commands (build_response c)).commands ≡ record c { command = c.command + 100 } ∷ []
unfolding build_response
parse_commands-build_response c small plain =
    let code : (c.command + 100) % 256 ≡ c.command + 100 = omega arith in
    rw code (
      (parse_commands-frame (record c { command = c.command + 100 })).1
        (find_end-cons (c.command + 100) c.payload (omega arith) plain))

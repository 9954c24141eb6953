-- ===== src/Protocol/Commands.antt =====
-- Which lines protocol.go reads as commands.
use proxy_rfc.Base.{
  ◌≡◌, ◌≢◌, ◌↔◌, inl, inr, refl, true, false, none, some, [], ◌∷◌, Bytes, codes, drop, Option-cases,
  arith,
}
use proxy_rfc.Protocol.{modem, other, AtCommand, parse_at_command}
use proxy_rfc.Text.{has_prefix, to_upper}
use proxy_rfc.Text.Laws.{has_prefix-append_left, has_prefix-split}

to_upper-at : (r : Bytes) → has_prefix (to_upper (b'A' ∷ b'T' ∷ r)) (codes "AT") ≡ true
unfolding to_upper has_prefix
to_upper-at [] = refl
to_upper-at (d ∷ r) = refl

upper_of_at :
    (line : Bytes)
    → has_prefix line (codes "AT") ≡ true
    → has_prefix (to_upper line) (codes "AT") ≡ true
upper_of_at line h = rw (has_prefix-split line (codes "AT") h) (to_upper-at (drop 2 line))

-- A line is no command exactly when its upper case does not begin with "AT".
pub parse_at_command-none :
    (line : Bytes)
    → (parse_at_command line ≡ none) ↔ (has_prefix (to_upper line) (codes "AT") ≡ false)
unfolding parse_at_command
parse_at_command-none line = (
  λ e. ground arith,
  λ h. ground (
    arith,
    upper_of_at line,
    has_prefix-append_left line (codes "AT") (codes "+REG="),
    has_prefix-append_left line (codes "AT") (codes "+CONNECT="),
    has_prefix-append_left (to_upper line) (codes "AT") (codes "DT"),
    has_prefix-append_left (to_upper line) (codes "AT") (codes "DP"),
    has_prefix-append_left (to_upper line) (codes "AT") (codes "D"),
  ),
)

-- A line that begins with "AT" is a command.
pub parse_at_command-at :
    (r : Bytes) → (c : AtCommand) × (parse_at_command (b'A' ∷ b'T' ∷ r) ≡ some c)
parse_at_command-at r = elim (Option-cases (parse_at_command (b'A' ∷ b'T' ∷ r))) [
  | inl e ↦ absurd (ground (arith, to_upper-at r, (parse_at_command-none (b'A' ∷ b'T' ∷ r)).0 e))
  | inr found ↦ found
]

-- What the rest of the program relies on in a command: it is one of the five that are known, a
-- modem command is a whole line, and nothing has been collected yet.
pub record IsParsed (line : Bytes) (c : AtCommand) : Type 0 where
  pub known : (name : Bytes) → c.cmd ≢ other name
  pub modem_line : c.cmd ≡ modem → c.param ≡ line
  pub no_skipped : c.skipped ≡ []
  pub no_usrvcom : c.usrvcom ≡ none

-- A line read as a command is one of the five known commands, keeps the whole line as its parameter
-- if it is a modem command, and comes with no data collected and no port setting.
pub parse_at_command-IsParsed :
    (line : Bytes) {c : AtCommand} → parse_at_command line ≡ some c → IsParsed line c
unfolding parse_at_command
parse_at_command-IsParsed line e = record {
  known = λ name. ground arith;
  modem_line = ground arith;
  no_skipped = ground arith;
  no_usrvcom = ground arith;
}

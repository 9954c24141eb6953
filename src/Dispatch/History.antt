-- ===== src/Dispatch/History.antt =====
-- What `Handle` carries from the commands of a connection to its client: the commands that it has
-- gone through are a history, with the last one first.
use mathlib.Core.List.{append-nil}
use proxy_rfc.Base.{
  ℕ, ◌+◌, ◌≡◌, inl, inr, refl, sym, ap, ◌∙◌, Bool, true, false, ◌&&◌, ◌||◌, Option, none, some,
  List, [], ◌∷◌, ◌++◌, Bytes, is_empty, if◌then◌else◌, Bool-cases, arith,
}
use proxy_rfc.Conn.{Conn, Stream}
use proxy_rfc.Handler.{is_dial}
use proxy_rfc.Modem.{ModemState}
use proxy_rfc.Protocol.{
  AtCommand, Cmd, reg, connect, dt, dp, modem, other, is_some, command, read_at_command,
}
use proxy_rfc.Dispatch.{
  Talk, Next, goes_on, to_client, new_talk, or_else, keep_usrvcom, keep_skipped, on_plain_dial,
  on_modem_dial, on_dial, on_modem, by_command, dispatch,
}
use proxy_rfc.Usrvcom.{UsrVcomConfig}

abbrev pub is_modem : Cmd → Bool
is_modem modem = true
is_modem _ = false

-- The last port setting that came with a command.
abbrev pub last_setting : List AtCommand → Option UsrVcomConfig
last_setting [] = none
last_setting (c ∷ cs) = or_else c.usrvcom (last_setting cs)

-- The data before the modem's commands, in the order they came.
abbrev pub modem_skipped : List AtCommand → Bytes
modem_skipped [] = []
modem_skipped (c ∷ cs) = if is_modem c.cmd then modem_skipped cs ++ c.skipped else modem_skipped cs

abbrev pub any_modem : List AtCommand → Bool
any_modem [] = false
any_modem (c ∷ cs) = is_modem c.cmd || any_modem cs

-- A client `c'` is told by its own command and those before it: it has the last port setting that
-- came with any of them; it has dialled only if a modem command came before, and then it has, where
-- no data came before its own command, all data from before the modem's commands; with AT+CONNECT
-- it has only the data before its own command.
pub record IsCarried (cs : List AtCommand) (c c' : AtCommand) (m : Option ModemState) : Type 0 where
  pub setting : c'.usrvcom ≡ last_setting (c ∷ cs)
  pub same_param : c'.param ≡ c.param
  pub dialled : is_some m ≡ is_dial c.cmd
  pub modem_first : (is_dial c.cmd && any_modem cs) ≡ is_dial c.cmd
  pub skipped :
      c'.skipped ≡ (if is_dial c.cmd && is_empty c.skipped then modem_skipped cs else c.skipped)

module _ (post_timeout : ℕ) where
  -- The loop has read and gone through these commands, in so many rounds, and goes on with these
  -- variables, this rest of the stream and this connection.
  pub data Reaches (since : ℕ → ℕ → ℕ) (init_timeout : ℕ) (stream : Stream) (first : Conn)
      : List AtCommand → ℕ → Talk → Stream → Conn → Type 0 where
    begins : Reaches since init_timeout stream first [] 0 (new_talk init_timeout) stream first
    dispatched :
        {cs : List AtCommand} {round : ℕ} {t t' : Talk} {s rest : Stream} {conn conn' : Conn}
        (c : AtCommand)
        → Reaches since init_timeout stream first cs round t s conn
        → read_at_command t.timeout (since round) s ≡ some (command c rest)
        → dispatch post_timeout t c conn ≡ goes_on t' conn'
        → Reaches since init_timeout stream first (c ∷ cs) (round + 1) t' rest conn'

  -- What a round that goes on leaves in the variables, told by its command.
  abbrev Keeps : Talk → Cmd → Bytes → Next → Type 0
  Keeps t cmd skipped (goes_on t' conn) =
      (t'.usrvcom ≡ t.usrvcom)
      × (t'.presets ≡ (if is_modem cmd then t.presets ++ skipped else t.presets))
      × (is_some t'.modem ≡ (is_modem cmd || is_some t.modem))
  Keeps t cmd skipped _ = Unit

  keep_skipped-append : (a b : Bytes) → keep_skipped a b ≡ a ++ b
  keep_skipped-append a [] = sym (append-nil a)
  keep_skipped-append a (x ∷ xs) = refl

  on_dial-Keeps :
      (t : Talk) (o : Option ModemState) (c : AtCommand) (conn : Conn)
      → Keeps t dt c.skipped (on_dial post_timeout t o c conn)
  unfolding on_dial on_plain_dial on_modem_dial
  on_dial-Keeps t none c conn = ground arith
  on_dial-Keeps t (some m) c conn = ground arith

  by_command-Keeps :
      (t : Talk) (cmd : Cmd) (c : AtCommand) (conn : Conn)
      → Keeps t cmd c.skipped (by_command post_timeout t cmd c conn)
  by_command-Keeps t dt c conn = on_dial-Keeps t t.modem c conn
  by_command-Keeps t dp c conn = on_dial-Keeps t t.modem c conn
  by_command-Keeps t reg c conn = tt
  by_command-Keeps t connect c conn = tt
  by_command-Keeps t modem c conn =
      unfold on_modem in (refl, keep_skipped-append t.presets c.skipped, refl)
  by_command-Keeps t (other name) c conn = tt

  dispatch-Keeps :
      (t : Talk) (c : AtCommand) (conn : Conn)
      → Keeps (keep_usrvcom t c) c.cmd c.skipped (dispatch post_timeout t c conn)
  unfolding dispatch
  dispatch-Keeps t c conn = by_command-Keeps (keep_usrvcom t c) c.cmd c conn

  -- Along a history the loop keeps the last port setting and all data before the modem's commands,
  -- and its modem is on once there was a modem command.
  pub Reaches-kept :
      {since : ℕ → ℕ → ℕ} {init_timeout : ℕ} {stream : Stream} {first : Conn} {cs : List AtCommand}
      {round : ℕ} {t : Talk} {s : Stream} {conn : Conn}
      → Reaches since init_timeout stream first cs round t s conn
      → (t.usrvcom ≡ last_setting cs)
        × (t.presets ≡ modem_skipped cs)
        × (is_some t.modem ≡ any_modem cs)
  Reaches-kept begins = (refl, refl, refl)
  Reaches-kept (dispatched {cs} {round} {t} {t'} {s} {rest} {conn} {conn'} c before read e) =
      let (setting, presets, has_modem) = Reaches-kept before in
      let (setting', presets', has_modem') = rw e at (dispatch-Keeps t c conn) in
      (ground (arith, setting), ground (arith, presets), ground (arith, has_modem))

  -- What a client is handed, told by its command and what the loop has kept.
  abbrev Handed : Talk → Cmd → AtCommand → Next → Type 0
  Handed t cmd c (to_client c' m conn) =
      (c'.usrvcom ≡ or_else c.usrvcom t.usrvcom)
      × (c'.param ≡ c.param)
      × (is_some m ≡ is_dial cmd)
      × ((is_dial cmd && is_some t.modem) ≡ is_dial cmd)
      × (c'.skipped ≡ (if is_dial cmd && is_empty c.skipped then t.presets else c.skipped))
  Handed t cmd c _ = Unit

  on_modem_dial-Handed :
      (t : Talk) (m : ModemState) (c : AtCommand) (conn : Conn)
      → t.modem ≡ some m
      → Handed t dt c (on_modem_dial post_timeout t m c conn)
  unfolding on_modem_dial
  on_modem_dial-Handed t m c conn e = elim (Bool-cases (is_empty c.param)) [
    | inl no_number ↦ rw no_number tt
    | inr number ↦ rw number (ground arith, ground arith, refl, rw e refl, ground arith)
  ]

  on_dial-Handed :
      (t : Talk) (o : Option ModemState) (c : AtCommand) (conn : Conn)
      → t.modem ≡ o
      → Handed t dt c (on_dial post_timeout t o c conn)
  unfolding on_dial
  on_dial-Handed t none c conn e = unfold on_plain_dial in ground arith
  on_dial-Handed t (some m) c conn e = on_modem_dial-Handed t m c conn e

  by_command-Handed :
      (t : Talk) (cmd : Cmd) (c : AtCommand) (conn : Conn)
      → Handed t cmd c (by_command post_timeout t cmd c conn)
  by_command-Handed t dt c conn = on_dial-Handed t t.modem c conn refl
  by_command-Handed t dp c conn = on_dial-Handed t t.modem c conn refl
  by_command-Handed t reg c conn = tt
  by_command-Handed t connect c conn = (refl, refl, refl, refl, refl)
  by_command-Handed t modem c conn = unfold on_modem in tt
  by_command-Handed t (other name) c conn = tt

  dispatch-Handed :
      (t : Talk) (c : AtCommand) (conn : Conn)
      → Handed (keep_usrvcom t c) c.cmd c (dispatch post_timeout t c conn)
  unfolding dispatch
  dispatch-Handed t c conn = by_command-Handed (keep_usrvcom t c) c.cmd c conn

  or_else-twice : (a b : Option UsrVcomConfig) → or_else a (or_else a b) ≡ or_else a b
  or_else-twice none b = refl
  or_else-twice (some a) b = refl

  pub Reaches-IsCarried :
      {since : ℕ → ℕ → ℕ} {init_timeout round : ℕ} {stream s : Stream} {first conn conn' : Conn}
      {cs : List AtCommand} {t : Talk} (c : AtCommand) {c' : AtCommand} {m : Option ModemState}
      → Reaches since init_timeout stream first cs round t s conn
      → dispatch post_timeout t c conn ≡ to_client c' m conn'
      → IsCarried cs c c' m
  Reaches-IsCarried {conn = conn} {cs = cs} {t = t} c before e =
      let (kept_setting, kept_presets, has_modem) = Reaches-kept before in
      let (own_setting, param, dials, first_modem, own_skipped) =
        rw e at (dispatch-Handed t c conn) in
      record {
        setting =
            own_setting ∙ or_else-twice c.usrvcom t.usrvcom ∙ ap (or_else c.usrvcom) kept_setting;
        same_param = param;
        dialled = dials;
        modem_first = ap (λ m. is_dial c.cmd && m) (sym has_modem) ∙ first_modem;
        skipped = rw (← kept_presets) own_skipped;
      }

-- ===== src/Dispatch/Said.antt =====
-- What `Handle` of internal/connection says to a client before it hands it over.
use mathlib.Core.List.{append-nil, append_assoc}
use proxy_rfc.Base.{
  ℕ, ◌≡◌, sym, ap, subst, ◌∙◌, inl, inr, Option, none, some, List, [], ◌++◌, Bytes, codes, is_empty,
  Bool-cases, arith,
}
use proxy_rfc.Conn.{Conn, Stream, write}
use proxy_rfc.Conn.Open.{IsOpen, write_open_lem}
use proxy_rfc.Modem.{
  ModemState, new_modem_state, write_modem_ok, write_info_response, handle_command,
}
use proxy_rfc.Modem.Cases.{handle_prefix-cases, handle_upper-cases}
use proxy_rfc.Protocol.{AtCommand, Cmd, reg, connect, dt, dp, modem, other, write_ok, write_error}
use proxy_rfc.Text.{to_upper, trim_space}
use proxy_rfc.Dispatch.{
  Talk, Next, conn_of, to_client, keep_usrvcom, modem_of, on_plain_dial, on_modem_dial, on_dial,
  on_modem, by_command, dispatch, handle,
}
use proxy_rfc.Dispatch.History.{Reaches, begins, dispatched}
use proxy_rfc.Dispatch.Clients.{handle-Traced}

-- Nothing has happened to the connection but that more was sent.
abbrev pub Says : Conn → Conn → Type 0
Says c c' = (text : Bytes) × (c' ≡ record c { sent = c.sent ++ text })

pub Says-IsOpen : (c c' : Conn) → Says c c' → IsOpen c → IsOpen c'
Says-IsOpen c c' (text, e) h = record {
  not_closed = ap (λ k. k.closed) e ∙ h.not_closed;
  no_outcomes = ap (λ k. k.outcomes) e ∙ h.no_outcomes;
}

silent-Says : (c : Conn) → Says c c
silent-Says c = ([], ap (λ b. record c { sent = b }) (sym (append-nil c.sent)))

abbrev more : Conn → Bytes → Conn
more c text = record c { sent = c.sent ++ text }

Says-trans : (c c' c'' : Conn) → Says c c' → Says c' c'' → Says c c''
Says-trans c c' c'' (x, e) (y, e') =
    (x ++ y, e' ∙ ap (λ k. more k y) e ∙ ap (λ b. record c { sent = b }) (append_assoc c.sent x y))

write-Says : (c : Conn) (b : Bytes) → IsOpen c → Says c (write c b).conn
write-Says c b h = (b, ap (λ r. r.conn) (write_open_lem c b h))

module _ (c : Conn) (h : IsOpen c) where
  modem_ok-Says : (m : ModemState) → Says c (write_modem_ok m c).conn
  unfolding write_modem_ok
  modem_ok-Says m = write-Says c _ h

  info-Says : (m : ModemState) (info : Bytes) → Says c (write_info_response m c info).conn
  unfolding write_info_response
  info-Says m info = write-Says c _ h

  handle_command-Says : (m : ModemState) (line : Bytes) → Says c (handle_command m c line).conn
  unfolding handle_command
  handle_command-Says m line =
      handle_upper-cases m c (λ k. Says c k.conn) (to_upper (trim_space line))
        (λ r. modem_ok-Says new_modem_state) (λ m' r. modem_ok-Says m)
        (λ r.
          handle_prefix-cases m c (λ k. Says c k.conn) (to_upper (trim_space line)) (info-Says m)
            (modem_ok-Says m) (λ miss. silent-Says c))

  module _ (post_timeout : ℕ) (t : Talk) (a : AtCommand) where
    on_dial-Says : (o : Option ModemState) → Says c (conn_of (on_dial post_timeout t o a c))
    unfolding on_dial on_plain_dial on_modem_dial write_ok
    on_dial-Says none = ground (arith, write-Says c (codes "OK\r\n") h)
    on_dial-Says (some m) = elim (Bool-cases (is_empty a.param)) [
      | inl e ↦ rw e (modem_ok-Says m)
      | inr e ↦ rw e (silent-Says c)
    ]

    by_command-Says : (cmd : Cmd) → Says c (conn_of (by_command post_timeout t cmd a c))
    unfolding on_modem write_error
    by_command-Says reg = silent-Says c
    by_command-Says connect = silent-Says c
    by_command-Says dt = on_dial-Says t.modem
    by_command-Says dp = on_dial-Says t.modem
    by_command-Says modem = handle_command-Says (modem_of t.modem) a.param
    by_command-Says (other name) = write-Says c _ h

dispatch-Says :
    (post_timeout : ℕ) (t : Talk) (a : AtCommand) (c : Conn)
    → IsOpen c
    → Says c (conn_of (dispatch post_timeout t a c))
unfolding dispatch
dispatch-Says post_timeout t a c h = by_command-Says c h post_timeout (keep_usrvcom t a) a a.cmd

-- One more round.
round-Says :
    (post_timeout : ℕ) (t : Talk) (a : AtCommand) (first c : Conn) (n : Next)
    → dispatch post_timeout t a c ≡ n
    → Says first c
    → IsOpen first
    → Says first (conn_of n)
round-Says post_timeout t a first c n e said h = Says-trans first c (conn_of n) said (
    subst (λ k. Says c (conn_of k)) e
      (dispatch-Says post_timeout t a c (Says-IsOpen first c said h)))

Reaches-Says :
    {post_timeout : ℕ} {since : ℕ → ℕ → ℕ} {init_timeout : ℕ} {stream : Stream} {first : Conn}
    {cs : List AtCommand} {round : ℕ} {t : Talk} {s : Stream} {conn : Conn}
    → Reaches post_timeout since init_timeout stream first cs round t s conn
    → IsOpen first
    → Says first conn
Reaches-Says {first = first} begins h = silent-Says first
Reaches-Says {first = first} (dispatched c before read d) h =
    round-Says _ _ c first _ _ d (Reaches-Says before h) h

-- A client that `Handle` hands over has, on an open connection that takes all writes, been sent
-- some answers, and its connection is still such a one.
pub handle-Says :
    (post_timeout init_timeout : ℕ) (since : ℕ → ℕ → ℕ) (s : Stream) (conn : Conn) {c : AtCommand}
    {m : Option ModemState} {conn' : Conn} {rest : Stream}
    → handle post_timeout init_timeout since s conn ≡ some (to_client c m conn', rest)
    → IsOpen conn
    → Says conn conn'
handle-Says post_timeout init_timeout since s conn e h =
    let (cs, round, t, s', before, c, reached, read, d) =
      handle-Traced post_timeout since init_timeout s conn e in
    round-Says post_timeout t c conn before _ d (Reaches-Says reached h) h

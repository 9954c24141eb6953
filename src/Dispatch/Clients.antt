-- ===== src/Dispatch/Clients.antt =====
-- The clients of `Handle`, traced back to the commands that its loop has read.
use proxy_rfc.Base.{
  ℕ, zero, suc, ◌+◌, ◌≡◌, ◌⊎◌, inl, inr, refl, sym, ◌∙◌, Option, none, some, List, [], ◌∷◌, Bytes,
  length, Option-cases,
}
use proxy_rfc.Conn.{Conn, Stream}
use proxy_rfc.Modem.{ModemState}
use proxy_rfc.Protocol.{AtCommand, ReadError, command, failed, read_at_command, write_error}
use proxy_rfc.Dispatch.{
  Talk, Next, goes_on, to_device, to_client, gives_up, new_talk, dispatch, talk, handle,
}
use proxy_rfc.Dispatch.Rounds.{ReadResult-cases}
use proxy_rfc.Dispatch.History.{Reaches, begins, dispatched, Reaches-IsCarried, IsCarried}

-- The shapes of what comes next.
Next-shapes :
    (n : Next)
    → ((t : Talk) × (conn : Conn) × (n ≡ goes_on t conn))
      ⊎ (((c : AtCommand) × (m : Option ModemState) × (conn : Conn) × (n ≡ to_client c m conn))
          ⊎ (((token : Bytes) × (conn : Conn) × (n ≡ to_device token conn))
              ⊎ ((conn : Conn) × (n ≡ gives_up conn))))
Next-shapes (goes_on t conn) = inl (t, conn, refl)
Next-shapes (to_client c m conn) = inr (inl (c, m, conn, refl))
Next-shapes (to_device token conn) = inr (inr (inl (token, conn, refl)))
Next-shapes (gives_up conn) = inr (inr (inr (conn, refl)))

module _ (post_timeout : ℕ) (since : ℕ → ℕ → ℕ) (init_timeout : ℕ) (stream : Stream)
    (first : Conn) where
  -- The client stands at the end of a history.
  abbrev pub Traced : AtCommand → Option ModemState → Conn → Stream → Type 0
  Traced c' m conn' rest =
      (cs : List AtCommand) × (round : ℕ) × (t : Talk) × (s : Stream) × (conn : Conn)
      × (c : AtCommand) × Reaches post_timeout since init_timeout stream first cs round t s conn
      × (read_at_command t.timeout (since round) s ≡ some (command c rest))
      × (dispatch post_timeout t c conn ≡ to_client c' m conn')

  talk_failed :
      (fuel round : ℕ) (t : Talk) (s rest : Stream) (conn : Conn) (e : ReadError)
      → read_at_command t.timeout (since round) s ≡ some (failed e rest)
      → talk post_timeout since (suc fuel) round t s conn
        ≡ some (gives_up (write_error conn).conn, rest)
  unfolding talk
  talk_failed fuel round t s rest conn e q = rw (q, talk) refl

  talk_read :
      (fuel round : ℕ) (t : Talk) (s rest : Stream) (conn : Conn) (c : AtCommand) (n : Next)
      → read_at_command t.timeout (since round) s ≡ some (command c rest)
      → dispatch post_timeout t c conn ≡ n
      → talk post_timeout since (suc fuel) round t s conn ≡ (elim n [
        | goes_on t' conn' ↦ talk post_timeout since fuel (round + 1) t' rest conn'
        | to_device token conn' ↦ some (to_device token conn', rest)
        | to_client c m conn' ↦ some (to_client c m conn', rest)
        | gives_up conn' ↦ some (gives_up conn', rest)
      ])
  unfolding talk
  talk_read fuel round t s rest conn c n q d = rw (q, talk) (rw d refl)

  talk-none :
      (fuel round : ℕ) (t : Talk) (s : Stream) (conn : Conn)
      → read_at_command t.timeout (since round) s ≡ none
      → talk post_timeout since (suc fuel) round t s conn ≡ none
  unfolding talk
  talk-none fuel round t s conn q = rw (q, talk) refl

  talk-Traced :
      (fuel round : ℕ) (t : Talk) (s : Stream) (conn : Conn) (cs : List AtCommand) {c' : AtCommand}
      {m : Option ModemState} {conn' : Conn} {rest' : Stream}
      → Reaches post_timeout since init_timeout stream first cs round t s conn
      → talk post_timeout since fuel round t s conn ≡ some (to_client c' m conn', rest')
      → Traced c' m conn' rest'
  talk-Traced zero round t s conn cs before e = absurd (unfold talk in cc)
  talk-Traced (suc fuel) round t s conn cs {c'} {m} {conn'} {rest'} before e =
      elim (Option-cases (read_at_command t.timeout (since round) s)) [
        | inl q ↦ absurd (cc (talk-none fuel round t s conn q, e))
        | inr (r, q) ↦ elim (ReadResult-cases r) [
          | inr (err, rest, same) ↦
              absurd (cc (talk_failed fuel round t s rest conn err (rw same at q), e))
          | inl (c, rest, same) ↦ elim (Next-shapes (dispatch post_timeout t c conn)) [
            | inl (t2, conn2, d) ↦
                talk-Traced fuel (round + 1) t2 rest conn2 (c ∷ cs)
                  (dispatched c before (rw same at q) d)
                  (sym (talk_read fuel round t s rest conn c _ (rw same at q) d) ∙ e)
            | inr (inl (c2, m2, conn2, d)) ↦
                let eq = sym (talk_read fuel round t s rest conn c _ (rw same at q) d) ∙ e in
                (cs, round, t, s, conn, c, before, cc, d ∙ cc)
            | inr (inr (inl (token, conn2, d))) ↦
                absurd (cc (talk_read fuel round t s rest conn c _ (rw same at q) d, e))
            | inr (inr (inr (conn2, d))) ↦
                absurd (cc (talk_read fuel round t s rest conn c _ (rw same at q) d, e))
          ]
        ]
      ]

  pub handle-Traced :
      {c' : AtCommand} {m : Option ModemState} {conn' : Conn} {rest' : Stream}
      → handle post_timeout init_timeout since stream first ≡ some (to_client c' m conn', rest')
      → Traced c' m conn' rest'
  unfolding handle
  handle-Traced e =
      talk-Traced (length stream + 1) 0 (new_talk init_timeout) stream first [] begins e

  -- Whenever `Handle` ends with a client, the loop has read commands from the start of the stream
  -- on, the client's own last, and the client is told by them: it has the last port setting that
  -- came with any of them; it has dialled only if a modem command came before, and then it has,
  -- where no data came before its own command, all data from before the modem's commands; with
  -- AT+CONNECT it has only the data before its own command.
  pub handle-IsCarried :
      {c' : AtCommand} {m : Option ModemState} {conn' : Conn} {rest' : Stream}
      → handle post_timeout init_timeout since stream first ≡ some (to_client c' m conn', rest')
      → (cs : List AtCommand) × (c : AtCommand) × ((round : ℕ) × (t : Talk) × (s : Stream)
          × (conn : Conn) × Reaches post_timeout since init_timeout stream first cs round t s conn
          × (read_at_command t.timeout (since round) s ≡ some (command c rest')))
        × IsCarried cs c c' m
  handle-IsCarried e =
      let (cs, round, t, s, conn, c, before, read, d) = handle-Traced e in
      (cs, c, (round, t, s, conn, before, read), Reaches-IsCarried post_timeout c before d)

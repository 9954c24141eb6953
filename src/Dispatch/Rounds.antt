-- ===== src/Dispatch/Rounds.antt =====
-- The rounds of the loop of `Handle`, and what they keep.
use proxy_rfc.Base.{
  ℕ, zero, suc, ◌+◌, ◌<◌, ◌≡◌, ◌⊎◌, inl, inr, refl, ◌∙◌, subst, Option, some, IsBytes, length,
  arith,
}
use proxy_rfc.Conn.{Conn, Stream}
use proxy_rfc.Modem.{ModemState}
use proxy_rfc.Protocol.{AtCommand, ReadResult, ReadError, command, failed, read_at_command}
use proxy_rfc.Protocol.LineBytes.{stream_bytes}
use proxy_rfc.Protocol.Loop.{Leaves, read_at_command_total}
use proxy_rfc.Protocol.Results.{IsSound}
use proxy_rfc.Protocol.Sound.{read_at_command-IsSound}
use proxy_rfc.Dispatch.Kept.{TalkInv, IsClient, NextInv, IsEnd, dispatch-NextInv}
use proxy_rfc.Dispatch.{
  Talk, Next, goes_on, to_device, to_client, gives_up, new_talk, dispatch, answer, talk, handle,
}

-- A read returns, is sound, and leaves less where it is a command.
read_is_good :
    (timeout : ℕ) (since : ℕ → ℕ) (s : Stream)
    → IsBytes (stream_bytes s)
    → (r : ReadResult) × (read_at_command timeout since s ≡ some r)
      × IsSound r
      × Leaves (length s) r
read_is_good timeout since s b =
    let (r, e, sound) = read_at_command-IsSound timeout since s b in
    let (r', e', leaves) = read_at_command_total timeout since s in
    let same : r' ≡ r = cc in (r, e, sound, subst (Leaves (length s)) same leaves)

pub ReadResult-cases :
    (r : ReadResult)
    → ((c : AtCommand) × (s : Stream) × (r ≡ command c s))
      ⊎ ((e : ReadError) × (s : Stream) × (r ≡ failed e s))
ReadResult-cases (command c s) = inl (c, s, refl)
ReadResult-cases (failed e s) = inr (e, s, refl)

-- A round that goes on has less left to read, and the bytes that are left are bytes.
abbrev Closer : ℕ → Next → Stream → Type 0
Closer n (goes_on t conn) rest = (length rest < n) × IsBytes (stream_bytes rest)
Closer n (to_client c m conn) rest = IsBytes (stream_bytes rest)
Closer n _ rest = Unit

-- What is left behind a client's command is bytes.
abbrev LeavesBytes : Next → Stream → Type 0
LeavesBytes (to_client c m conn) rest = IsBytes (stream_bytes rest)
LeavesBytes _ rest = Unit

Closer-LeavesBytes :
    (n : ℕ) (next : Next) (rest : Stream) → Closer n next rest → LeavesBytes next rest
Closer-LeavesBytes n (goes_on t conn) rest h = tt
Closer-LeavesBytes n (to_device token conn) rest h = tt
Closer-LeavesBytes n (to_client c m conn) rest h = h
Closer-LeavesBytes n (gives_up conn) rest h = tt

Closer-less :
    (n : ℕ) (next : Next) (rest : Stream)
    → (length rest < n) × IsBytes (stream_bytes rest)
    → Closer n next rest
Closer-less n (goes_on t conn) rest h = h
Closer-less n (to_device token conn) rest h = tt
Closer-less n (to_client c m conn) rest h = h.1
Closer-less n (gives_up conn) rest h = tt

answer_is_good :
    (post_timeout : ℕ) (t : Talk) (conn : Conn) (n : ℕ) (r : ReadResult)
    → TalkInv t
    → IsSound r
    → Leaves n r
    → (next : Next) × (rest : Stream) × (answer post_timeout t conn (some r) ≡ some (next, rest))
      × NextInv next
      × Closer n next rest
answer_is_good post_timeout t conn n (command c rest) v (known, skipped, preset, bytes_rest)
      leaves =
    (
      dispatch post_timeout t c conn,
      rest,
      refl,
      dispatch-NextInv post_timeout t c conn v skipped preset,
      Closer-less n (dispatch post_timeout t c conn) rest (leaves, bytes_rest),
    )
answer_is_good post_timeout t conn n (failed e rest) v sound leaves =
    (gives_up _, rest, refl, tt, tt)

Next-cases : (n : Next) → NextInv n → ((t : Talk) × (conn : Conn) × (n ≡ goes_on t conn)) ⊎ IsEnd n
Next-cases (goes_on t conn) v = inl (t, conn, refl)
Next-cases (to_device token conn) v = inr tt
Next-cases (to_client c m conn) v = inr v
Next-cases (gives_up conn) v = inr tt

module _ (post_timeout : ℕ) (since : ℕ → ℕ → ℕ) where
  talk_next :
      (fuel round : ℕ) (t t' : Talk) (s rest : Stream) (conn conn' : Conn)
      → answer post_timeout t conn (read_at_command t.timeout (since round) s)
        ≡ some (goes_on t' conn', rest)
      → talk post_timeout since (suc fuel) round t s conn
        ≡ talk post_timeout since fuel (round + 1) t' rest conn'
  unfolding talk
  talk_next fuel round t t' s rest conn conn' e = rw (e, talk)

  talk_stops :
      (fuel round : ℕ) (t : Talk) (s rest : Stream) (conn : Conn) (n : Next)
      → answer post_timeout t conn (read_at_command t.timeout (since round) s) ≡ some (n, rest)
      → IsEnd n
      → talk post_timeout since (suc fuel) round t s conn ≡ some (n, rest)
  unfolding talk
  talk_stops fuel round t s rest conn (goes_on t' conn') e h = absurd h
  talk_stops fuel round t s rest conn (to_device token conn') e h = rw (e, talk)
  talk_stops fuel round t s rest conn (to_client c m conn') e h = rw (e, talk)
  talk_stops fuel round t s rest conn (gives_up conn') e h = rw (e, talk)

  talk_ends :
      (fuel round : ℕ) (t : Talk) (s : Stream) (conn : Conn)
      → TalkInv t
      → IsBytes (stream_bytes s)
      → length s < fuel
      → (n : Next) × (rest : Stream) × (talk post_timeout since fuel round t s conn
          ≡ some (n, rest))
        × IsEnd n
        × LeavesBytes n rest
  talk_ends zero round t s conn v b h = absurd (omega arith)
  talk_ends (suc fuel) round t s conn v b h =
      let (r, e, sound, leaves) = read_is_good t.timeout (since round) s b in
      let (n, rest, a, inv, closer) =
        answer_is_good post_timeout t conn (length s) r v sound leaves in
      let here : answer post_timeout t conn (read_at_command t.timeout (since round) s)
          ≡ some (n, rest) =
        rw e a in
      elim (Next-cases n inv) [
        | inl (t', conn', q) ↦
            let (less, b') = rw q at closer in
            let (n', rest', ends, good, left) =
              talk_ends fuel (round + 1) t' rest conn' (rw q at inv) b' (omega arith) in
            (
              n',
              rest',
              talk_next fuel round t t' s rest conn conn' (rw q at here) ∙ ends,
              good,
              left,
            )
        | inr good ↦ (
          n,
          rest,
          talk_stops fuel round t s rest conn n here good,
          good,
          Closer-LeavesBytes (length s) n rest closer,
        )
      ]

  -- `Handle` ends its loop for every stream of bytes, whatever the times: at a registration, at a
  -- client, which then has the command AT+CONNECT, bytes collected before it and, if any, a port
  -- setting in range, or by giving the connection up.
  pub handle_ends :
      (init_timeout : ℕ) (s : Stream) (conn : Conn)
      → IsBytes (stream_bytes s)
      → (n : Next) × (rest : Stream) × (handle post_timeout init_timeout since s conn
          ≡ some (n, rest))
        × IsEnd n
  unfolding handle
  handle_ends init_timeout s conn b =
      let (n, rest, e, good, _) =
        talk_ends (length s + 1) 0 (new_talk init_timeout) s conn
          (record { presets_bytes = tt; setting = tt }) b (omega arith) in
      (n, rest, e, good)

  -- A client of a stream of bytes, with what its reader still has.
  pub handle-IsClient :
      (init_timeout : ℕ) (s : Stream) (conn : Conn) {c : AtCommand} {m : Option ModemState}
      {conn' : Conn} {rest : Stream}
      → IsBytes (stream_bytes s)
      → handle post_timeout init_timeout since s conn ≡ some (to_client c m conn', rest)
      → IsClient c × IsBytes (stream_bytes rest)
  unfolding handle
  handle-IsClient init_timeout s conn {c} {m} {conn'} {rest} b h =
      let (n, rest', e, good, left) =
        talk_ends (length s + 1) 0 (new_talk init_timeout) s conn
          (record { presets_bytes = tt; setting = tt }) b (omega arith) in
      let same : n ≡ to_client c m conn' = cc in
      let same_rest : rest' ≡ rest = cc in
      (
        subst IsEnd same good,
        subst (LeavesBytes (to_client c m conn')) same_rest
            (subst (λ k. LeavesBytes k rest') same left),
      )

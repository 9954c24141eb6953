-- ===== src/Modem/Replies.antt =====
-- How the emulated modem answers.
use mathlib.Core.List.{append_assoc}
use proxy_rfc.Base.{
  ◌≡◌, inl, inr, refl, Bool, true, [], ◌++◌, Bytes, codes, if◌then◌else◌, Bool-cases, arith,
}
use proxy_rfc.Conn.{Conn, write}
use proxy_rfc.Text.{has_prefix, to_upper, trim_space}
use proxy_rfc.Modem.{
  ModemState, new_modem_state, write_modem_ok, write_info_response, Handled, answered, handle_upper,
  handle_command,
}
use proxy_rfc.Modem.Cases.{is_reset, handle_prefix-cases, handle_upper-cases}

-- A final result code: OK in words, or 0 with the numeric ones.
abbrev pub final_ok : Bool → Bytes
final_ok verbose = if verbose then codes "OK\r\n" else codes "0\r"

-- One write was made, and what it wrote ends with a final OK of the mode.
abbrev pub Acknowledges : Bool → Conn → Conn → Type 0
Acknowledges verbose before after =
    (text : Bytes) × (after ≡ (write before (text ++ final_ok verbose)).conn)

write_modem_ok-Acknowledges :
    (m : ModemState) (c : Conn) → Acknowledges m.verbose c (write_modem_ok m c).conn
unfolding write_modem_ok
write_modem_ok-Acknowledges m c = elim (Bool-cases m.verbose) [
  | inl v ↦ rw v (codes "\r\n", refl)
  | inr v ↦ rw v ([], refl)
]

write_info_response-Acknowledges :
    (m : ModemState) (c : Conn) (info : Bytes)
    → Acknowledges m.verbose c (write_info_response m c info).conn
unfolding write_info_response
write_info_response-Acknowledges m c info = elim (Bool-cases m.verbose) [
  | inl v ↦ rw v (codes "\r\n" ++ (info ++ codes "\r\n\r\n"), simp append_assoc)
  | inr v ↦ rw v (info ++ codes "\r", simp append_assoc)
]

-- Only a reset answers in words whatever the mode.
abbrev pub reply_mode : ModemState → Bytes → Bool
reply_mode m upper = if is_reset upper then true else m.verbose

-- The command was handled: one answer that ends with a final OK in the given mode.
abbrev pub IsAnswered : Bool → Conn → Handled → Type 0
IsAnswered verbose c h = (h.handled ≡ true) × Acknowledges verbose c h.conn

module _ (m : ModemState) (c : Conn) where
  ok-IsAnswered : (m' : ModemState) → IsAnswered m.verbose c (answered m' (write_modem_ok m c))
  ok-IsAnswered m' = (refl, write_modem_ok-Acknowledges m c)

  info-IsAnswered :
      (info : Bytes) → IsAnswered m.verbose c (answered m (write_info_response m c info))
  info-IsAnswered info = (refl, write_info_response-Acknowledges m c info)

  handle_upper-IsAnswered :
      (upper : Bytes)
      → has_prefix upper (codes "AT") ≡ true
      → IsAnswered (reply_mode m upper) c (handle_upper m c upper)
  handle_upper-IsAnswered upper h =
      handle_upper-cases m c (IsAnswered (reply_mode m upper) c) upper
        (λ r. rw r (refl, write_modem_ok-Acknowledges new_modem_state c))
        (λ m' r. rw r (ok-IsAnswered m'))
        (λ r. rw r (
          handle_prefix-cases m c (IsAnswered m.verbose c) upper info-IsAnswered (ok-IsAnswered m)
            (λ miss. absurd (ground arith))))

  -- Every line that begins with "AT", in either case and behind white space, is handled and gets
  -- one answer that ends with a final OK. ATZ and ATZ0 answer in words; every other command, ATV0
  -- and ATV1 among them, answers in the mode that was set before it.
  pub handle_command-IsAnswered :
      (line : Bytes)
      → has_prefix (to_upper (trim_space line)) (codes "AT") ≡ true
      → IsAnswered (reply_mode m (to_upper (trim_space line))) c (handle_command m c line)
  unfolding handle_command
  handle_command-IsAnswered line h = handle_upper-IsAnswered (to_upper (trim_space line)) h

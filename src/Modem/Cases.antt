-- ===== src/Modem/Cases.antt =====
-- The cases of the modem's command switch, and what it does with anything else.
use proxy_rfc.Base.{◌≡◌, refl, Bool, true, false, ◌||◌, Bytes, codes, bytes_eq, bytes_eq_iff, arith}
use proxy_rfc.Conn.{Conn}
use proxy_rfc.Text.{has_prefix, to_upper, trim_space}
use proxy_rfc.Text.Laws.{has_prefix-append_left, bytes_eq-has_prefix}
use proxy_rfc.Modem.{
  ModemState, new_modem_state, write_modem_ok, write_info_response, Handled, answered,
  handle_prefix, handle_upper, handle_command,
}

-- The two commands that reset the modem.
abbrev pub is_reset : Bytes → Bool
is_reset upper = bytes_eq upper (codes "ATZ") || bytes_eq upper (codes "ATZ0")

module _ (m : ModemState) (c : Conn) where
  pub handle_prefix-cases {ℓ} :
      (P : Handled → Type ℓ) (upper : Bytes)
      → ((info : Bytes) → P (answered m (write_info_response m c info)))
      → P (answered m (write_modem_ok m c))
      → (has_prefix upper (codes "AT") ≡ false
          → P (record { state = m; conn = c; handled = false }))
      → P (handle_prefix m c upper)
  unfolding handle_prefix
  handle_prefix-cases P upper info ok miss = ground (
    arith,
    info (codes "RFC2217-PROXY"),
    info (codes "+CPIN: READY"),
    info (codes "+CSQ: 31,0"),
    ok,
    miss,
  )

  pub handle_prefix-state : (upper : Bytes) → (handle_prefix m c upper).state ≡ m
  handle_prefix-state upper =
      handle_prefix-cases (λ h. h.state ≡ m) upper (λ _. refl) refl (λ _. refl)

  pub handle_upper-cases {ℓ} :
      (P : Handled → Type ℓ) (upper : Bytes)
      → (is_reset upper ≡ true → P (answered new_modem_state (write_modem_ok new_modem_state c)))
      → ((m' : ModemState) → is_reset upper ≡ false → P (answered m' (write_modem_ok m c)))
      → (is_reset upper ≡ false → P (handle_prefix m c upper))
      → P (handle_upper m c upper)
  unfolding handle_upper
  handle_upper-cases P upper reset plain prefix = ground (
    arith,
    reset,
    plain m,
    plain (record m { echo = false }),
    plain (record m { echo = true }),
    plain (record m { verbose = false }),
    plain (record m { verbose = true }),
    prefix,
    bytes_eq_iff upper (codes "AT"),
    bytes_eq_iff upper (codes "ATZ"),
    bytes_eq_iff upper (codes "ATZ0"),
  )

  handle_prefix-ignored :
      (upper : Bytes)
      → has_prefix upper (codes "AT") ≡ false
      → handle_prefix m c upper ≡ record { state = m; conn = c; handled = false }
  unfolding handle_prefix
  handle_prefix-ignored upper h = ground (
    arith,
    has_prefix-append_left upper (codes "AT") (codes "I"),
    has_prefix-append_left upper (codes "AT") (codes "+CGMI"),
    has_prefix-append_left upper (codes "AT") (codes "+CPIN"),
    has_prefix-append_left upper (codes "AT") (codes "+CSQ"),
    has_prefix-append_left upper (codes "AT") (codes "S"),
    has_prefix-append_left upper (codes "AT") (codes "&"),
    has_prefix-append_left upper (codes "AT") (codes "\\"),
    has_prefix-append_left upper (codes "AT") (codes "+"),
  )

  handle_upper-ignored :
      (upper : Bytes)
      → has_prefix upper (codes "AT") ≡ false
      → handle_upper m c upper ≡ record { state = m; conn = c; handled = false }
  unfolding handle_upper
  handle_upper-ignored upper h = ground (
    arith,
    bytes_eq-has_prefix upper (codes "AT") (codes ""),
    bytes_eq-has_prefix upper (codes "AT") (codes "Z"),
    bytes_eq-has_prefix upper (codes "AT") (codes "Z0"),
    bytes_eq-has_prefix upper (codes "AT") (codes "E0"),
    bytes_eq-has_prefix upper (codes "AT") (codes "E1"),
    bytes_eq-has_prefix upper (codes "AT") (codes "V0"),
    bytes_eq-has_prefix upper (codes "AT") (codes "V1"),
    bytes_eq-has_prefix upper (codes "AT") (codes "H"),
    bytes_eq-has_prefix upper (codes "AT") (codes "H0"),
    handle_prefix-ignored upper h,
  )

  -- A line that does not begin with "AT", in either case and behind white space, is not handled and
  -- not answered: the state and the connection stay as they are.
  pub handle_command-ignored :
      (line : Bytes)
      → has_prefix (to_upper (trim_space line)) (codes "AT") ≡ false
      → handle_command m c line ≡ record { state = m; conn = c; handled = false }
  unfolding handle_command
  handle_command-ignored line h = handle_upper-ignored (to_upper (trim_space line)) h

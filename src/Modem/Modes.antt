-- ===== src/Modem/Modes.antt =====
-- The modes of the emulated modem.
use proxy_rfc.Base.{
  ◌≡◌, true, false, ◌||◌, Bytes, codes, bytes_eq, bytes_eq_iff, if◌then◌else◌, arith,
}
use proxy_rfc.Conn.{Conn}
use proxy_rfc.Text.{to_upper, trim_space}
use proxy_rfc.Modem.{ModemState, handle_upper, handle_command}
use proxy_rfc.Modem.Cases.{is_reset, handle_prefix-state}

module _ (m : ModemState) (c : Conn) where
  handle_upper-state :
      (upper : Bytes)
      → let after = (handle_upper m c upper).state in
        (after.verbose ≡ (
          if is_reset upper || bytes_eq upper (codes "ATV1")
          then true
          else if bytes_eq upper (codes "ATV0")
          then false
          else m.verbose))
        × (after.echo ≡ (
            if is_reset upper || bytes_eq upper (codes "ATE1")
            then true
            else if bytes_eq upper (codes "ATE0")
            then false
            else m.echo))
  unfolding handle_upper
  handle_upper-state upper = (
    ground (
      arith,
      handle_prefix-state m c upper,
      bytes_eq_iff upper (codes "AT"),
      bytes_eq_iff upper (codes "ATZ"),
      bytes_eq_iff upper (codes "ATZ0"),
      bytes_eq_iff upper (codes "ATE0"),
      bytes_eq_iff upper (codes "ATE1"),
      bytes_eq_iff upper (codes "ATV0"),
      bytes_eq_iff upper (codes "ATV1"),
    ),
    ground (
      arith,
      handle_prefix-state m c upper,
      bytes_eq_iff upper (codes "AT"),
      bytes_eq_iff upper (codes "ATZ"),
      bytes_eq_iff upper (codes "ATZ0"),
      bytes_eq_iff upper (codes "ATE0"),
      bytes_eq_iff upper (codes "ATE1"),
      bytes_eq_iff upper (codes "ATV0"),
      bytes_eq_iff upper (codes "ATV1"),
    ),
  )

  -- The verbose mode after a command: ATZ, ATZ0 and ATV1 set it, ATV0 clears it; the echo mode:
  -- ATZ, ATZ0 and ATE1 set it, ATE0 clears it. No other command changes either.
  pub handle_command-state :
      (line : Bytes)
      → let upper = to_upper (trim_space line) in
        let after = (handle_command m c line).state in
        (after.verbose ≡ (
          if is_reset upper || bytes_eq upper (codes "ATV1")
          then true
          else if bytes_eq upper (codes "ATV0")
          then false
          else m.verbose))
        × (after.echo ≡ (
            if is_reset upper || bytes_eq upper (codes "ATE1")
            then true
            else if bytes_eq upper (codes "ATE0")
            then false
            else m.echo))
  unfolding handle_command
  handle_command-state line = handle_upper-state (to_upper (trim_space line))

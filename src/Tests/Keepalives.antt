-- ===== src/Tests/Keepalives.antt =====
-- The keepalive of a connection on systems that take its calls, and on one that does not.
use proxy_rfc.Base.{ℕ, ◌≡◌, refl, true, none, some, [], ◌∷◌, if◌then◌else◌, Option, ◌==◌}
use proxy_rfc.Config
use proxy_rfc.Config.{Config, Environment}
use proxy_rfc.Keepalive.{
  Call, set_keep_alive, set_keep_alive_period, syscall_conn, control, setsockopt, System, linux,
  darwin, tcp, wrapped, set_tcp_keepalive, keep_accepted,
}
use proxy_rfc.Keepalive.Calls.{until_error, linux_calls, keep_accepted_lem}

abbrev empty : Environment
empty key = []

abbrev error_of : ℕ → Call → Option ℕ
error_of refused (setsockopt option value) = if option == refused then some 22 else none
error_of refused _ = none

-- A system that refuses one option.
abbrev refuses : ℕ → System
refuses option done = error_of option

keep_accepted_lem_example :
    keep_accepted linux (refuses 5) wrapped (Config.load empty)
    ≡ until_error (refuses 5) linux_calls []
unfolding Config.load Config.get_bool_env
keep_accepted_lem_example = keep_accepted_lem (refuses 5) wrapped (Config.load empty) refl

-- The option and the count behind it are not asked for.
stops_at_error : keep_accepted linux (refuses 5) wrapped (Config.load empty) ≡ record {
  calls =
      set_keep_alive true
      ∷ set_keep_alive_period 10000000000
      ∷ syscall_conn
      ∷ control
      ∷ setsockopt 4 30
      ∷ setsockopt 5 10
      ∷ [];
  error = some 22;
}
unfolding keep_accepted Config.load Config.get_bool_env
stops_at_error = refl

-- On macOS the error of the interval is not looked at.
goes_on_on_macos :
    (set_tcp_keepalive darwin (refuses 0x101) tcp 30000000000 10000000000 3 []).error ≡ none
unfolding set_tcp_keepalive
goes_on_on_macos = refl

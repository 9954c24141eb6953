-- ===== src/Keepalive.antt =====
-- internal/connection/keepalive.go with keepalive_linux.go, keepalive_darwin.go and
-- keepalive_other.go: the TCP options that the handlers ask for on a connection. What a call of the
-- system returns is a parameter. Durations are nanoseconds and not negative, as those of the
-- callers.
pub mod Calls
use proxy_rfc.Base.{
  ℕ, ◌+◌, ◌*◌, ◌/◌, ◌%◌, ◌^◌, Bool, true, false, Option, none, some, List, [], ◌∷◌, ◌++◌,
  if◌then◌else◌,
}
use proxy_rfc.Config.{Config, second}

-- What the code asks of a connection: `SetKeepAlive`, `SetKeepAlivePeriod`, `SyscallConn`,
-- `Control` and, in the function that this runs, `SetsockoptInt` at IPPROTO_TCP with an option and
-- its value.
pub data Call : Type 0 where
  set_keep_alive : Bool → Call
  set_keep_alive_period : ℕ → Call
  syscall_conn control : Call
  setsockopt : ℕ → ℕ → Call

-- The error of a call, if any, after the calls before it.
abbrev pub System : Type 0
System = List Call → Call → Option ℕ

-- What was asked, in order, and the error that is returned.
pub record Asked : Type 0 where
  pub calls : List Call
  pub error : Option ℕ

abbrev pub Action : Type 0
Action = List Call → Asked

abbrev pub ask : System → Call → Action
ask system c done = record { calls = done ++ (c ∷ []); error = system done c }

-- `if err != nil { return err }`.
infixl 5 ◌>>◌
abbrev pub ◌>>◌ : Action → Action → Action
◌>>◌ m k done =
    let r = m done in
    elim r.error [ none ↦ k r.calls | some e ↦ record { calls = r.calls; error = some e } ]

-- A call whose error is not looked at.
abbrev pub unchecked : Action → Action
unchecked m done = record { calls = (m done).calls; error = none }

abbrev pub succeed : Action
succeed done = record { calls = done; error = none }

-- `int(d.Seconds())`, exact below 2 ^ 22 seconds, where the float rounds to no other whole number.
abbrev pub seconds : ℕ → ℕ
seconds d = d / second

-- `int(d.Milliseconds())`.
abbrev pub milliseconds : ℕ → ℕ
milliseconds d = d / 1000000

-- In 64 bits.
abbrev pub user_timeout : ℕ → ℕ → ℕ → ℕ
user_timeout idle interval count = (milliseconds idle + milliseconds interval * count) % 2 ^ 64

-- The option numbers of Linux.
abbrev pub linux_keepidle : ℕ
linux_keepidle = 4

abbrev pub linux_keepintvl : ℕ
linux_keepintvl = 5

abbrev pub linux_keepcnt : ℕ
linux_keepcnt = 6

abbrev pub linux_user_timeout : ℕ
linux_user_timeout = 0x12

-- The option numbers of macOS.
abbrev pub darwin_keepidle : ℕ
darwin_keepidle = 0x10

abbrev pub darwin_keepintvl : ℕ
darwin_keepintvl = 0x101

abbrev pub darwin_keepcnt : ℕ
darwin_keepcnt = 0x102

abbrev pub set_keepalive_linux : System → ℕ → ℕ → ℕ → Action
set_keepalive_linux system idle interval count = do
  ask system syscall_conn
  ask system control
  ask system (setsockopt linux_keepidle (seconds idle))
  ask system (setsockopt linux_keepintvl (seconds interval))
  ask system (setsockopt linux_keepcnt count)
  ask system (setsockopt linux_user_timeout (user_timeout idle interval count))

abbrev pub set_keepalive_darwin : System → ℕ → ℕ → ℕ → Action
set_keepalive_darwin system idle interval count = do
  ask system syscall_conn
  ask system control
  ask system (setsockopt darwin_keepidle (seconds idle))
  unchecked (ask system (setsockopt darwin_keepintvl (seconds interval)))
  unchecked (ask system (setsockopt darwin_keepcnt count))

pub data Platform : Type 0 where
  linux darwin other : Platform

abbrev pub set_keepalive_options : Platform → System → ℕ → ℕ → ℕ → Action
set_keepalive_options linux = set_keepalive_linux
set_keepalive_options darwin = set_keepalive_darwin
set_keepalive_options other = λ system idle interval count. succeed

-- The type of a `net.Conn`: `*net.TCPConn`, or another that holds one.
pub data Kind : Type 0 where
  tcp wrapped : Kind

unfoldable pub set_tcp_keepalive : Platform → System → Kind → ℕ → ℕ → ℕ → Action
set_tcp_keepalive platform system wrapped idle interval count = succeed
set_tcp_keepalive platform system tcp idle interval count = do
  ask system (set_keep_alive true)
  ask system (set_keep_alive_period interval)
  set_keepalive_options platform system idle interval count

-- The connections that Start of internal/connection/server.go accepts; with PROXY protocol they
-- come from the listener of go-proxyproto, and are of the kind that this gives them.
abbrev pub accepted_kind : Kind → Config → Kind
accepted_kind proxied config = if config.proxy_protocol then proxied else tcp

-- What `handleDevice` and `handleClient` ask for on an accepted connection. Both only log an error.
unfoldable pub keep_accepted : Platform → System → Kind → Config → Asked
unfolding set_tcp_keepalive
keep_accepted platform system proxied config =
    set_tcp_keepalive platform system (accepted_kind proxied config) (30 * second) (10 * second) 3
      []

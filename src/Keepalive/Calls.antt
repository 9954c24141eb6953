-- ===== src/Keepalive/Calls.antt =====
-- What the handlers ask for, against a list of calls that are made until one fails.
use mathlib.Core.Path.{fun_ext}
use proxy_rfc.Base.{
  ◌≡◌, refl, ap, true, none, some, List, [], ◌∷◌, ◌++◌, Bool-cases, inl, inr, if◌then◌else◌, arith,
}
use proxy_rfc.Config.{Config}
use proxy_rfc.Keepalive.{
  Call, set_keep_alive, set_keep_alive_period, syscall_conn, control, setsockopt, tcp, System,
  Action, ask, ◌>>◌, linux, Kind, wrapped, set_tcp_keepalive, keep_accepted,
}

-- The calls in turn, up to the first that fails.
unfoldable pub until_error : System → List Call → Action
until_error system [] done = record { calls = done; error = none }
until_error system (c ∷ cs) done = elim (system done c) [
  | none ↦ until_error system cs (done ++ (c ∷ []))
  | some e ↦ record { calls = done ++ (c ∷ []); error = some e }
]

-- The settings of the handlers on Linux: the first probe after 30 seconds, a probe each 10 seconds,
-- 3 probes, and 60000 milliseconds for data that are not acknowledged.
abbrev pub linux_calls : List Call
linux_calls =
    set_keep_alive true
    ∷ set_keep_alive_period 10000000000
    ∷ syscall_conn
    ∷ control
    ∷ setsockopt 4 30
    ∷ setsockopt 5 10
    ∷ setsockopt 6 3
    ∷ setsockopt 18 60000
    ∷ []

module _ (system : System) where
  ask-last : (c : Call) → ask system c ≡ until_error system (c ∷ [])
  unfolding until_error
  ask-last c = fun_ext λ done. ground arith

  ask-then :
      (c : Call) (cs : List Call) (k : Action)
      → k ≡ until_error system cs
      → (ask system c >> k) ≡ until_error system (c ∷ cs)
  unfolding until_error
  ask-then c cs k h = ap (λ next. ask system c >> next) h

  set_tcp_keepalive-linux :
      set_tcp_keepalive linux system tcp 30000000000 10000000000 3 ≡ until_error system linux_calls
  unfolding set_tcp_keepalive
  set_tcp_keepalive-linux = ask-then _ _ _ (
      ask-then _ _ _ (
        ask-then _ _ _ (
          ask-then _ _ _
            (ask-then _ _ _ (ask-then _ _ _ (ask-then _ _ _ (ask-last (setsockopt 18 60000))))))))

-- Where go-proxyproto wraps the connections that it accepts in a type of its own: on Linux a
-- connection that was accepted with no PROXY protocol is asked for the whole keepalive, call after
-- call up to the first that fails, whose error is returned; one that was accepted with PROXY
-- protocol is asked for nothing, and no error is returned.
pub keep_accepted_lem :
    (system : System) (proxied : Kind) (config : Config)
    → proxied ≡ wrapped
    → keep_accepted linux system proxied config ≡ (
        if config.proxy_protocol
        then record { calls = []; error = none }
        else until_error system linux_calls [])
unfolding keep_accepted
keep_accepted_lem system proxied config wraps = elim (Bool-cases config.proxy_protocol) [
  | inl on ↦ rw (on, wraps) (unfold set_tcp_keepalive in refl)
  | inr off ↦ rw off (ap (λ m. m []) (set_tcp_keepalive-linux system))
]

-- ===== src/Tests/Configs.antt =====
-- The environment of the program, and requests to it.
use proxy_rfc.Base.{
  ◌+◌, ◌-◌, ◌*◌, ◌^◌, ◌≡◌, ◌≢◌, refl, false, true, none, some, inl, inr, [], ◌∷◌, codes, bytes_eq,
  arith, if◌then◌else◌,
}
use proxy_rfc.Api.{Request, Response, Host, is_authorized}
use proxy_rfc.Api.Blank.{IsBlank, serve_refuses_blank}
use proxy_rfc.Api.Server.{serve}
use proxy_rfc.Config
use proxy_rfc.Config.{Config, Environment, second, atoi, get_duration_env}
use proxy_rfc.Config.Durations.{get_duration_env_lem}
use proxy_rfc.Decimal.{decimal}
use proxy_rfc.Handler.{World, new_device}
use proxy_rfc.Worlds.{first_world}

abbrev keepalive_45 : Environment
keepalive_45 key = if bytes_eq key (codes "KEEPALIVE") then codes "45" else []

loads_keepalive : (Config.load keepalive_45).keep_alive ≡ 45 * second
unfolding Config.load get_duration_env bytes_eq atoi Config.read_digits
loads_keepalive = refl

loads_default : (Config.load keepalive_45).web_pass ≡ codes "admin"
unfolding Config.load Config.get_env bytes_eq
loads_default = refl

-- Too many seconds for 64 bits are taken for a negative duration.
abbrev too_long : Environment
too_long key = codes "9223372037"

overflows : get_duration_env too_long (codes "KEEPALIVE") 0 ≡ 2 ^ 63 + 145224192
unfolding get_duration_env atoi Config.read_digits
overflows = refl

refuses_words : atoi (codes "12h") ≡ none
unfolding atoi Config.read_digits
refuses_words = refl

-- A request to end a session, with the user's name and an empty password.
abbrev blank_request : Request
blank_request = record {
  method = codes "DELETE";
  path = codes "/api/v1/sessions/s";
  cookie = none;
  basic_auth = some (codes "admin", []);
  username = [];
  password = [];
}

blank_request-IsBlank : IsBlank blank_request
blank_request-IsBlank user pass (inl (value, e, _, _)) = absurd (cc)
blank_request-IsBlank user pass (inr e) = inr (cc)

abbrev no_host : Host
no_host = record {
  remote_addr = λ conn. [];
  seconds_since = λ t. 0;
  format_date_time = λ t. [];
  format_time = λ t. [];
}

abbrev world : World
world =
    first_world false 0 (λ ref. new_device [] 0 0)
      λ ref. record { sent = []; closed = false; outcomes = [] }

serve_refuses_blank_example :
    (is_authorized (Config.load keepalive_45) blank_request ≢ true)
    × ((response : Response) × (serve (Config.load keepalive_45) no_host world blank_request
          ≡ some (world, response)))
serve_refuses_blank_example =
    serve_refuses_blank keepalive_45 no_host world blank_request blank_request-IsBlank

get_duration_env_lem_example :
    (keepalive_45 (codes "KEEPALIVE") ≡ decimal 45
      → get_duration_env keepalive_45 (codes "KEEPALIVE") 0 ≡ 45 * second)
    × (keepalive_45 (codes "KEEPALIVE") ≡ b'-' ∷ decimal 45
        → get_duration_env keepalive_45 (codes "KEEPALIVE") 0 ≡ 2 ^ 64 - 45 * second)
get_duration_env_lem_example =
    get_duration_env_lem keepalive_45 (codes "KEEPALIVE") 0 45 (omega arith) (omega arith)

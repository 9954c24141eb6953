-- ===== src/Config.antt =====
-- internal/config/config.go: the configuration, read from the environment. An `int` and a
-- `time.Duration` are 64-bit words in two's complement, as numbers below 2 ^ 64.
pub mod Durations
use proxy_rfc.Base.{
  ℕ, zero, suc, ◌+◌, ◌-◌, ◌*◌, ◌/◌, ◌%◌, ◌^◌, Bool, true, false, ◌&&◌, ◌||◌, Option, none, some,
  List, [], ◌∷◌, Bytes, codes, bytes_eq, is_empty, ltb, leb, ◌==◌, if◌then◌else◌,
}

pub record Config : Type 0 where
  pub port : Bytes
  pub api_port : Bytes
  pub auth_token : Bytes
  pub web_user : Bytes
  pub web_pass : Bytes
  pub keep_alive : ℕ
  pub init_timeout : ℕ
  pub post_connect_timeout : ℕ
  pub idle_timeout : ℕ
  pub debug : Bool
  pub debug_http : Bool
  pub proxy_protocol : Bool

-- `os.Getenv`: what the environment has under each name, empty where it has nothing.
abbrev pub Environment : Type 0
Environment = Bytes → Bytes

abbrev is_digit : ℕ → Bool
is_digit c = leb b'0' c && leb c b'9'

-- The digits of a number, from the left; `none` at any other byte.
unfoldable pub read_digits : ℕ → Bytes → Option ℕ
read_digits acc [] = some acc
read_digits acc (c ∷ s) =
    let rest = read_digits (acc * 10 + (c - b'0')) s in if is_digit c then rest else none

abbrev read_number : Bytes → Option ℕ
read_number s = if is_empty s then none else read_digits 0 s

-- The range of `int`.
abbrev positive : Option ℕ → Option ℕ
positive none = none
positive (some n) = if ltb n (2 ^ 63) then some n else none

abbrev negative : Option ℕ → Option ℕ
negative none = none
negative (some n) = if leb n (2 ^ 63) then some ((2 ^ 64 - n) % 2 ^ 64) else none

-- `strconv.Atoi`; `none` is its error.
unfoldable pub atoi : Bytes → Option ℕ
atoi [] = none
atoi (c ∷ s) =
    if c == b'-'
    then negative (read_number s)
    else if c == b'+'
    then positive (read_number s)
    else positive (read_number (c ∷ s))

-- `time.Second`.
abbrev pub second : ℕ
second = 1000000000

unfoldable pub get_bool_env : Environment → Bytes → Bool → Bool
get_bool_env env key default =
    if is_empty (env key)
    then default
    else bytes_eq (env key) (codes "1")
      || bytes_eq (env key) (codes "true")
      || bytes_eq (env key) (codes "yes")

unfoldable pub get_env : Environment → Bytes → Bytes → Bytes
get_env env key default = if is_empty (env key) then default else env key

-- The product of two durations wraps around.
abbrev pub seconds_or : ℕ → Option ℕ → ℕ
seconds_or default none = default
seconds_or default (some secs) = secs * second % 2 ^ 64

unfoldable pub get_duration_env : Environment → Bytes → ℕ → ℕ
get_duration_env env key default =
    if is_empty (env key) then default else seconds_or default (atoi (env key))

unfoldable pub load : Environment → Config
load env = record {
  port = get_env env (codes "PORT") (codes "2217");
  api_port = get_env env (codes "API_PORT") (codes "8080");
  auth_token = get_env env (codes "AUTH_TOKEN") [];
  web_user = get_env env (codes "WEB_USER") (codes "admin");
  web_pass = get_env env (codes "WEB_PASS") (codes "admin");
  keep_alive = get_duration_env env (codes "KEEPALIVE") (30 * second);
  init_timeout = get_duration_env env (codes "INIT_TIMEOUT") (5 * second);
  post_connect_timeout = get_duration_env env (codes "POST_CONNECT_TIMEOUT") (60 * second);
  idle_timeout = get_duration_env env (codes "IDLE_TIMEOUT") (30 * second);
  debug = get_bool_env env (codes "DEBUG") false;
  debug_http = get_bool_env env (codes "DEBUG_HTTP") false;
  proxy_protocol = get_bool_env env (codes "PROXY_PROTOCOL") false;
}

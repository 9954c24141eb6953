-- ===== src/Api.antt =====
-- internal/api: the HTTP interface over the registry and the session manager. A request is what
-- net/http has parsed of it; an answer is its status, the cookie that it sets and its body, of
-- which JSON stays a value.
pub mod Texts
pub mod Page
pub mod Handlers
pub mod Server
pub mod Masking
pub mod Auth
pub mod Privacy
pub mod Effects
pub mod Ending
pub mod Rows
pub mod Blank
use proxy_rfc.Base.{
  ℕ, zero, suc, ◌-◌, Bool, true, false, not, ◌&&◌, Option, none, some, List, [], ◌∷◌, ◌++◌, Bytes,
  codes, bytes_eq, is_empty, ◌==◌, if◌then◌else◌,
}
use proxy_rfc.Base64.{decode}
use proxy_rfc.Config.{Config}
use proxy_rfc.Device.{DeviceInfo}
use proxy_rfc.Session.{SessionInfo}
use proxy_rfc.Text.{split_at}

pub record Request : Type 0 where
  pub method : Bytes
  pub path : Bytes
  -- The value of the cookie `rfc2217_auth`.
  pub cookie : Option Bytes
  -- `r.BasicAuth()`: user and password.
  pub basic_auth : Option (Bytes × Bytes)
  -- `r.FormValue`, empty where the form has no such value.
  pub username : Bytes
  pub password : Bytes

-- A cookie is kept for some seconds, or deleted at once.
pub data MaxAge : Type 0 where
  keeps : ℕ → MaxAge
  deletes : MaxAge

pub record Cookie : Type 0 where
  pub name : Bytes
  pub value : Bytes
  pub path : Bytes
  pub max_age : MaxAge
  pub http_only : Bool
  pub same_site_strict : Bool

-- The constructor of a body is its Content-Type; `moved` is what `http.Redirect` writes.
pub data Body : Type 0 where
  plain : Bytes → Body
  html : Bytes → Body
  status_json : Bytes → Body
  devices_json : ℕ → List DeviceInfo → Body
  sessions_json : ℕ → List SessionInfo → Body
  stats_json : ℕ → ℕ → Body
  moved : Bytes → Body

pub record Response : Type 0 where
  pub status : ℕ
  pub cookie : Option Cookie
  pub body : Body

abbrev pub respond : ℕ → Body → Response
respond status body = record { status = status; cookie = none; body = body }

-- What the handlers take from their surroundings: the addresses of connections, the clock, and the
-- printing of a time as a date with its time of day and as a time of day.
pub record Host : Type 0 where
  pub remote_addr : ℕ → Bytes
  pub seconds_since : ℕ → ℕ
  pub format_date_time : ℕ → Bytes
  pub format_time : ℕ → Bytes

abbrev pub auth_cookie_name : Bytes
auth_cookie_name = codes "rfc2217_auth"

abbrev pub same_credentials : Config → Option (Bytes × Bytes) → Bool
same_credentials config none = false
same_credentials config (some (user, pass)) =
    bytes_eq user config.web_user && bytes_eq pass config.web_pass

abbrev pub decoded_credentials : Option Bytes → Option (Bytes × Bytes)
decoded_credentials none = none
decoded_credentials (some decoded) = split_at b':' decoded

abbrev pub cookie_credentials : Option Bytes → Option (Bytes × Bytes)
cookie_credentials none = none
cookie_credentials (some value) =
    if is_empty value then none else decoded_credentials (decode value)

unfoldable pub is_logged_in : Config → Request → Bool
is_logged_in config r = same_credentials config (cookie_credentials r.cookie)

-- `ConstantTimeCompare` is 1 where its texts are the same.
abbrev pub check_auth : Config → Request → Bool
check_auth config r = same_credentials config r.basic_auth

unfoldable pub is_authorized : Config → Request → Bool
unfolding is_logged_in
is_authorized config r = if is_logged_in config r then true else check_auth config r

abbrev pub masked : Option (Bytes × Bytes) → Bytes
masked (some (x ∷ octet, rest)) = (x ∷ octet) ++ codes ".x.x.x:xxxxx"
masked _ = codes "x.x.x.x:xxxxx"

unfoldable pub mask_ip : Bytes → Bytes
unfolding split_at
mask_ip addr = if is_empty addr then [] else masked (split_at b'.' addr)

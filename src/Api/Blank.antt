-- ===== src/Api/Blank.antt =====
-- internal/config and internal/api together: the credentials that Load gives, whatever the
-- environment, and what a request with blank ones can do.
use proxy_rfc.Base.{
  ◌≡◌, ◌≢◌, ◌⊎◌, inl, inr, true, ap, ◌∙◌, some, [], ◌∷◌, Bytes, codes, is_empty, if◌then◌else◌,
}
use proxy_rfc.Config
use proxy_rfc.Config.{Environment, get_env}
use proxy_rfc.Handler.{World}
use proxy_rfc.Api.{Request, Response, Host, is_authorized}
use proxy_rfc.Api.Auth.{Holds, is_authorized_iff}
use proxy_rfc.Api.Effects.{IsEffect, serve-IsEffect}
use proxy_rfc.Api.Server.{serve}

or_default-nonempty : (s default : Bytes) → default ≢ [] → (if is_empty s then default else s) ≢ []
or_default-nonempty [] default h = h
or_default-nonempty (c ∷ s) default h = λ e. cc

-- A variable with a default that is not empty.
get_env-nonempty :
    (env : Environment) (key default : Bytes) → default ≢ [] → get_env env key default ≢ []
unfolding get_env
get_env-nonempty env key default h = or_default-nonempty (env key) default h

-- No user and password that the request carries, by its cookie or by Basic Auth, are both given.
abbrev pub IsBlank : Request → Type 0
IsBlank r =
    (user pass : Bytes)
    → Holds r.cookie user pass ⊎ (r.basic_auth ≡ some (user, pass))
    → (user ≡ []) ⊎ (pass ≡ [])

blank_refused :
    (env : Environment) (r : Request) → IsBlank r → is_authorized (Config.load env) r ≢ true
unfolding Config.load
blank_refused env r blank a =
    let (_, (admits, _)) = is_authorized_iff (Config.load env) r in
    elim (blank _ _ (admits a)) [
      | inl e ↦ get_env-nonempty env (codes "WEB_USER") (codes "admin") (λ q. cc) e
      | inr e ↦ get_env-nonempty env (codes "WEB_PASS") (codes "admin") (λ q. cc) e
    ]

effect_refused :
    (env : Environment) (w w' : World) (r : Request) (response : Response)
    → IsBlank r
    → IsEffect (Config.load env) w r (w', response)
    → w' ≡ w
effect_refused env w w' r response blank (inl same) = same
effect_refused env w w' r response blank (inr (s, t, _, _)) =
    absurd (blank_refused env r blank t.authorized)

-- Whatever the environment that the program starts in, a request that carries no user with a
-- password, neither of them empty, is not authorized; and whatever it asks for, it is answered and
-- leaves the world as it is.
pub serve_refuses_blank :
    (env : Environment) (host : Host) (w : World) (r : Request)
    → IsBlank r
    → (is_authorized (Config.load env) r ≢ true)
      × ((response : Response) × (serve (Config.load env) host w r ≡ some (w, response)))
serve_refuses_blank env host w r blank =
    let ((w', response), e, effect) = serve-IsEffect (Config.load env) w r host in
    let same = effect_refused env w w' r response blank effect in
    (blank_refused env r blank, (response, e ∙ ap (λ v. some (v, response)) same))

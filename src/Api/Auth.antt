-- ===== src/Api/Auth.antt =====
-- Who is logged in, and what a login gives.
use proxy_rfc.Base.{
  ◌≡◌, ◌≢◌, ◌↔◌, ◌⊎◌, refl, ap, ◌∙◌, sym, true, false, Option, none, some, [], ◌∷◌, ◌++◌, Bytes,
  IsBytes, All, All-append, ◌&&◌, codes, bytes_eq, bytes_eq_iff, bytes_eq_refl, Bool-cases, inl,
  inr, arith,
}
use mathlib.Core.List.{append_assoc}
use proxy_rfc.Base64.{encode, decode}
use proxy_rfc.Base64.RoundTrip.{decode-encode}
use proxy_rfc.Config.{Config}
use proxy_rfc.Text.{split_at}
use proxy_rfc.Text.Laws.{split_at-append, split_at-AtFirst}
use proxy_rfc.Api.Handlers.{login, post_login, login_cookie, redirect_home, invalid_credentials}
use proxy_rfc.Api.Texts.{login_form_html}
use proxy_rfc.Api.{
  Request, Cookie, respond, html, same_credentials, cookie_credentials, decoded_credentials,
  is_logged_in, is_authorized,
}

same_credentials_iff :
    (config : Config) (o : Option (Bytes × Bytes))
    → (same_credentials config o ≡ true) ↔ (o ≡ some (config.web_user, config.web_pass))
same_credentials_iff config none = ((λ e. absurd (cc)), (λ e. absurd (cc)))
same_credentials_iff config (some (user, pass)) =
    let (same_user, user_same) = bytes_eq_iff user config.web_user in
    let (same_pass, pass_same) = bytes_eq_iff pass config.web_pass in
    (
      (λ e. rw (same_user (ground arith), same_pass (ground arith)) refl),
      (λ e. rw (user_same cc, pass_same cc) refl),
    )

-- The text `user:pass`, which a cookie holds encoded.
abbrev pub joined : Bytes → Bytes → Bytes
joined user pass = user ++ (b':' ∷ pass)

-- The two parts of a text that splits at its first colon.
split_at_iff :
    (s user pass : Bytes)
    → (split_at b':' s ≡ some (user, pass)) ↔ ((s ≡ joined user pass) × All (λ c. c ≢ b':') user)
split_at_iff s user pass = (
  (λ e. rw e at (split_at-AtFirst b':' s)),
  (λ (e, plain). rw e (split_at-append b':' user pass plain)),
)

-- What the cookie of a logged-in request holds.
abbrev pub Holds : Option Bytes → Bytes → Bytes → Type 0
Holds cookie user pass =
    (value : Bytes) × (cookie ≡ some value)
    × (decode value ≡ some (joined user pass))
    × All (λ c. c ≢ b':') user

decoded_credentials_iff :
    (o : Option Bytes) (user pass : Bytes)
    → (decoded_credentials o ≡ some (user, pass))
      ↔ ((o ≡ some (joined user pass)) × All (λ c. c ≢ b':') user)
decoded_credentials_iff none user pass = ((λ e. absurd (cc)), (λ (e, _). absurd (cc)))
decoded_credentials_iff (some s) user pass =
    let (splits, joins) = split_at_iff s user pass in
    ((λ e. let (q, plain) = splits e in (ap some q, plain)), (λ (e, plain). joins (cc, plain)))

-- An empty cookie is decoded to no text with a colon.
cookie_value :
    (value : Bytes) → cookie_credentials (some value) ≡ decoded_credentials (decode value)
unfolding split_at decode proxy_rfc.Base64.decode_chars proxy_rfc.Base64.drop_line_ends
cookie_value [] = refl
cookie_value (c ∷ value) = refl

cookie_credentials_iff :
    (o : Option Bytes) (user pass : Bytes)
    → (cookie_credentials o ≡ some (user, pass)) ↔ Holds o user pass
cookie_credentials_iff none user pass = ((λ e. absurd (cc)), (λ (v, e, _, _). absurd (cc)))
cookie_credentials_iff (some value) user pass =
    let (decodes, decoded) = decoded_credentials_iff (decode value) user pass in
    (
      (λ e. let (q, plain) = decodes (sym (cookie_value value) ∙ e) in (value, refl, q, plain)),
      (λ (v, e, q, plain).
          let same : value ≡ v = cc in cookie_value value ∙ decoded (rw same q, plain)),
    )

logged_in_iff :
    (config : Config) (r : Request)
    → (is_logged_in config r ≡ true) ↔ Holds r.cookie config.web_user config.web_pass
unfolding is_logged_in
logged_in_iff config r =
    let (same, of_same) = same_credentials_iff config (cookie_credentials r.cookie) in
    let (holds, of_holds) = cookie_credentials_iff r.cookie config.web_user config.web_pass in
    ((λ e. holds (same e)), (λ h. of_same (of_holds h)))

-- A request is logged in exactly if its cookie is base64 of the configured user, a colon and the
-- configured password, and that user's name has no colon; it is authorized exactly if it is logged
-- in or its Basic Auth is the configured user and password.
pub is_authorized_iff :
    (config : Config) (r : Request)
    → ((is_logged_in config r ≡ true) ↔ Holds r.cookie config.web_user config.web_pass)
      × ((is_authorized config r ≡ true) ↔ (
          Holds r.cookie config.web_user config.web_pass
          ⊎ (r.basic_auth ≡ some (config.web_user, config.web_pass))))
unfolding is_authorized
is_authorized_iff config r =
    let (holds, of_holds) = logged_in_iff config r in
    let (same, of_same) = same_credentials_iff config r.basic_auth in
    (
      (holds, of_holds),
      (
        (λ e. elim (Bool-cases (is_logged_in config r)) [
          | inl logged ↦ inl (holds logged)
          | inr out ↦ inr (same (rw out at e))
        ]),
        elim [ inl h ↦ rw (of_holds h) refl | inr q ↦ ground (arith, of_same q) ],
      ),
    )

-- The cookie that a login sets.
login_cookie_admits :
    (config : Config) (r : Request)
    → IsBytes config.web_user
    → IsBytes config.web_pass
    → r.cookie ≡ some (encode (joined config.web_user config.web_pass))
    → (is_logged_in config r ≡ true) ↔ All (λ b. b ≢ b':') config.web_user
login_cookie_admits config r hu hp e =
    let (holds, of_holds) = logged_in_iff config r in
    let text = joined config.web_user config.web_pass in
    (
      (λ l. let (_, _, _, plain) = holds l in plain),
      (λ plain. of_holds (
        encode text,
        e,
        decode-encode text (All-append _ config.web_user _ hu (omega arith, hp)),
        plain,
      )),
    )

login-post_login :
    (config : Config) (r : Request) → r.method ≡ codes "POST" → login config r ≡ post_login config r
unfolding login bytes_eq
login-post_login config r m = rw m refl

login_accepts :
    (config : Config) (r : Request)
    → r.username ≡ config.web_user
    → r.password ≡ config.web_pass
    → post_login config r
      ≡ redirect_home (login_cookie (encode (joined config.web_user config.web_pass)))
unfolding post_login
login_accepts config r u p =
    rw (u, p, bytes_eq_refl config.web_user, bytes_eq_refl config.web_pass) (simp append_assoc)

login_refuses :
    (config : Config) (r : Request)
    → (bytes_eq r.username config.web_user && bytes_eq r.password config.web_pass) ≡ false
    → post_login config r ≡ respond 401 (html (login_form_html ++ invalid_credentials))
unfolding post_login
login_refuses config r e = rw e refl

-- With a configured user and password of bytes, a posted login that names both sets a cookie, with
-- which requests are logged in exactly if the user's name has no colon; any other posted login is
-- answered with 401 and no cookie.
pub login_lem :
    (config : Config) (r : Request)
    → IsBytes config.web_user
    → IsBytes config.web_pass
    → r.method ≡ codes "POST"
    → ((r.username ≡ config.web_user)
        × (r.password ≡ config.web_pass)
        × ((c : Cookie) × ((login config r).cookie ≡ some c)
            × ((next : Request)
                → next.cookie ≡ some c.value
                → (is_logged_in config next ≡ true) ↔ All (λ b. b ≢ b':') config.web_user)))
      ⊎ (¬ ((r.username ≡ config.web_user) × (r.password ≡ config.web_pass))
          × ((login config r).cookie ≡ none)
          × ((login config r).status ≡ 401))
login_lem config r hu hp m =
    let posts = login-post_login config r m in
    let (same_user, user_same) = bytes_eq_iff r.username config.web_user in
    let (same_pass, pass_same) = bytes_eq_iff r.password config.web_pass in
    elim (Bool-cases (bytes_eq r.username config.web_user && bytes_eq r.password config.web_pass)) [
      | inl e ↦ inl (
        same_user (ground arith),
        same_pass (ground arith),
        (
          login_cookie (encode (joined config.web_user config.web_pass)),
          rw (posts, login_accepts config r (same_user (ground arith)) (same_pass (ground arith)))
              refl,
          (λ next c. login_cookie_admits config next hu hp c),
        ),
      )
      | inr e ↦ inr (
        (λ (u, p). absurd (ground arith)),
        rw (posts, login_refuses config r e) refl,
        rw (posts, login_refuses config r e) refl,
      )
    ]

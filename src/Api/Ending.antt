-- ===== src/Api/Ending.antt =====
-- Ending a session over HTTP: the paths of sessions are clean, so that a request for one reaches
-- TerminateSession.
use mathlib.Core.List.{append-nil}
use proxy_rfc.Base.{
  ℕ, ◌≡◌, ◌≢◌, refl, ap, ◌∙◌, sym, true, false, some, [], ◌∷◌, ◌++◌, Bytes, All, All-append,
  All-mono, codes, bytes_eq, bytes_eq_iff, ◌==◌, arith,
}
use proxy_rfc.Config.{Config}
use proxy_rfc.Decimal.{decimal, decimal-IsDigit}
use proxy_rfc.Handler.{World}
use proxy_rfc.Session.{Session, session_id, get_session}
use proxy_rfc.Session.Lifecycle.{IsManaged, IsEntry}
use proxy_rfc.SyncMap.Laws.{load-All}
use proxy_rfc.Text.{has_prefix}
use proxy_rfc.Api.{Request, respond, status_json, Host, is_authorized}
use proxy_rfc.Api.Effects.{Terminates, closed_both, terminate_session-Terminates}
use proxy_rfc.Api.Handlers.{sessions_path}
use proxy_rfc.Api.Server.{
  path_segments, clean_segments, clean_path, ends_in_slash, route, handle_request, to_session,
  serve, mux,
}

abbrev IsPlain : Bytes → Type 0
IsPlain = All (λ c. c ≢ b'/')

path_segments_plain : (s : Bytes) → IsPlain s → path_segments s ≡ s ∷ []
unfolding path_segments
path_segments_plain [] h = refl
path_segments_plain (c ∷ s) h = rw (path_segments_plain s h.1) (ground arith)

ends_in_slash_plain : (c : ℕ) (s : Bytes) → IsPlain (c ∷ s) → ends_in_slash (c ∷ s) ≡ false
unfolding ends_in_slash
ends_in_slash_plain c [] h = ground arith
ends_in_slash_plain c (d ∷ s) h = ends_in_slash_plain d s h.1

-- The path of a session whose identifier has no slash is clean.
clean_session_path :
    (c : ℕ) (id : Bytes)
    → IsPlain (c ∷ id)
    → c ≢ b'.'
    → clean_path (sessions_path ++ (c ∷ id)) ≡ sessions_path ++ (c ∷ id)
unfolding clean_path path_segments clean_segments ends_in_slash bytes_eq
clean_session_path c id h dot =
    let no_slash : (c == b'/') ≡ false = ground arith in
    let no_dot : (c == b'.') ≡ false = ground arith in
    rw (path_segments_plain id h.1, ends_in_slash_plain c id h, no_slash, no_dot)
      (rw append-nil refl)

decimal-IsPlain : (n : ℕ) → IsPlain (decimal n)
decimal-IsPlain n = All-mono _ _ (decimal n) (λ c d. omega arith) (decimal-IsDigit n)

session_id-IsPlain : (t n : ℕ) → IsPlain (session_id t n)
unfolding session_id
session_id-IsPlain t n =
    All-append _ (codes "sess_") (decimal t ++ (b'_' ∷ decimal n))
      (omega arith, (omega arith, (omega arith, (omega arith, (omega arith, tt)))))
      (All-append _ (decimal t) (b'_' ∷ decimal n) (decimal-IsPlain t)
        (omega arith, decimal-IsPlain n))

route_session : (id : Bytes) → route (sessions_path ++ id) ≡ to_session
unfolding route bytes_eq has_prefix
route_session id = refl

session_id_nonempty : (t n : ℕ) → session_id t n ≢ []
unfolding session_id
session_id_nonempty t n e = absurd (cc)

clean_path_of :
    (id : Bytes) (t n : ℕ)
    → id ≡ session_id t n
    → clean_path (sessions_path ++ id) ≡ sessions_path ++ id
unfolding session_id
clean_path_of id t n e = rw e (clean_session_path b's' _ (session_id-IsPlain t n) (omega arith))

-- In a well formed manager each active session can be ended: an authorized DELETE on its path
-- is answered with 200 and closes both of its connections, and nothing else in the world changes.
pub serve-Terminates :
    (config : Config) (host : Host) (w : World) (r : Request) (id : Bytes) (s : Session)
    → IsManaged w.manager
    → get_session w.manager id ≡ some s
    → r.method ≡ codes "DELETE"
    → is_authorized config r ≡ true
    → r.path ≡ sessions_path ++ id
    → serve config host w r ≡ some (closed_both w s, respond 200 (status_json (codes "terminated")))
unfolding serve mux handle_request get_session
serve-Terminates config host w r id s v f m a p =
    let (own, _, (t, n, e, _)) =
      load-All (IsEntry w.manager.counter) id w.manager.sessions f v.entries in
    let ends : Terminates config w r s = record {
      deletes = m;
      authorized = a;
      id = id;
      path_is = p;
      not_empty = λ none_given. session_id_nonempty t n (sym e ∙ own ∙ none_given);
      found = f;
    } in
    let clean : bytes_eq (clean_path r.path) r.path ≡ true =
      (bytes_eq_iff (clean_path r.path) r.path).1
        (ap clean_path p ∙ clean_path_of id t n (sym own ∙ e) ∙ sym p) in
    let routed : route r.path ≡ to_session = ap route p ∙ route_session id in
    rw (clean, routed) (terminate_session-Terminates config w r s ends)

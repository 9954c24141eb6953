-- ===== src/Api/Effects.antt =====
-- What a request can do to the world.
use mathlib.Core.Option.{some-injective}
use proxy_rfc.Base.{
  ◌≡◌, ◌≢◌, ◌⊎◌, refl, ◌∙◌, sym, subst, true, false, Option, none, some, [], ◌∷◌, ◌++◌, Bytes,
  codes, bytes_eq, bytes_eq_iff, length, drop, Bool-cases, Option-cases, inl, inr, arith,
}
use proxy_rfc.Config.{Config}
use proxy_rfc.Handler.{World}
use proxy_rfc.Session.{Session, terminate, get_session, close_conn}
use proxy_rfc.Text.{has_prefix}
use proxy_rfc.Text.Laws.{has_prefix-split}
use proxy_rfc.Api.{Request, Response, respond, status_json, Host, is_authorized}
use proxy_rfc.Api.Handlers.{error_reply, terminate_session, sessions_path, is_method}
use proxy_rfc.Api.Server.{
  Route, to_healthz, to_readyz, to_devices, to_sessions, to_session, to_stats, to_login, to_logout,
  to_dashboard, route, handle_request, serve, mux, clean_path,
}

-- The world with both connections of a session closed.
abbrev pub closed_both : World → Session → World
closed_both w s = record w { conns = close_conn s.device_conn (close_conn s.client_conn w.conns) }

route-prefix : (path : Bytes) → route path ≡ to_session → has_prefix path sessions_path ≡ true
unfolding route
route-prefix path e = ground arith

-- What a request must be to end the session `s`.
pub record Terminates (config : Config) (w : World) (r : Request) (s : Session) : Type 0 where
  pub deletes : r.method ≡ codes "DELETE"
  pub authorized : is_authorized config r ≡ true
  pub id : Bytes
  pub path_is : r.path ≡ sessions_path ++ id
  pub not_empty : id ≢ []
  pub found : get_session w.manager id ≡ some s

-- A request leaves the world as it is, or ends a session.
abbrev pub IsEffect : Config → World → Request → World × Response → Type 0
IsEffect config w r (w', response) =
    (w' ≡ w)
    ⊎ ((s : Session) × Terminates config w r s × (w' ≡ closed_both w s) × (response.status ≡ 200))

terminate-none :
    (w : World) (id : Bytes)
    → get_session w.manager id ≡ none
    → terminate w.manager id w.conns ≡ (w.conns, false)
unfolding terminate get_session
terminate-none w id e = rw e refl

terminate-some :
    (w : World) (id : Bytes) (s : Session)
    → get_session w.manager id ≡ some s
    → terminate w.manager id w.conns
      ≡ (close_conn s.device_conn (close_conn s.client_conn w.conns), true)
unfolding terminate get_session
terminate-some w id s e = rw e refl

module _ (config : Config) (w : World) (r : Request) where
  terminate_session-found :
      (id : Bytes) (s : Session)
      → r.method ≡ codes "DELETE"
      → is_authorized config r ≡ true
      → id ≢ []
      → r.path ≡ sessions_path ++ id
      → get_session w.manager id ≡ some s
      → terminate_session config w r
        ≡ some (closed_both w s, respond 200 (status_json (codes "terminated")))
  unfolding terminate_session bytes_eq
  terminate_session-found [] s m a ne p f = absurd (ne refl)
  terminate_session-found (c ∷ id) s m a ne p f = rw (m, a, p, terminate-some w (c ∷ id) s f) refl

  -- The handler on a request that passes its tests.
  pub terminate_session-Terminates :
      (s : Session)
      → Terminates config w r s
      → terminate_session config w r
        ≡ some (closed_both w s, respond 200 (status_json (codes "terminated")))
  terminate_session-Terminates s t =
      terminate_session-found t.id s t.deletes t.authorized t.not_empty t.path_is t.found

  unfound-IsEffect :
      (id : Bytes)
      → is_method (codes "DELETE") r ≡ true
      → is_authorized config r ≡ true
      → r.path ≡ sessions_path ++ id
      → get_session w.manager id ≡ none
      → (answer : World × Response) × (terminate_session config w r ≡ some answer)
        × IsEffect config w r answer
  unfolding terminate_session
  unfound-IsEffect [] m a p f =
      ((w, error_reply 400 (codes "session id required")), rw (m, a, p) refl, inl refl)
  unfound-IsEffect (c ∷ id) m a p f = (
    (w, error_reply 404 (codes "session not found")),
    rw (m, a, p, terminate-none w (c ∷ id) f) refl,
    inl refl,
  )

  found-IsEffect :
      (id : Bytes) (s : Session)
      → is_method (codes "DELETE") r ≡ true
      → is_authorized config r ≡ true
      → r.path ≡ sessions_path ++ id
      → get_session w.manager id ≡ some s
      → (answer : World × Response) × (terminate_session config w r ≡ some answer)
        × IsEffect config w r answer
  unfolding terminate_session
  found-IsEffect [] s m a p f =
      ((w, error_reply 400 (codes "session id required")), rw (m, a, p) refl, inl refl)
  found-IsEffect (c ∷ id) s m a p f =
      let t : Terminates config w r s = record {
        deletes = (bytes_eq_iff r.method (codes "DELETE")).0 m;
        authorized = a;
        id = c ∷ id;
        path_is = p;
        not_empty = λ e. absurd (cc);
        found = f;
      } in
      (
        (closed_both w s, respond 200 (status_json (codes "terminated"))),
        terminate_session-Terminates s t,
        inr (s, t, refl, refl),
      )

  terminate_session-IsEffect :
      (id : Bytes)
      → r.path ≡ sessions_path ++ id
      → (answer : World × Response) × (terminate_session config w r ≡ some answer)
        × IsEffect config w r answer
  unfolding terminate_session
  terminate_session-IsEffect id p = elim (Bool-cases (is_method (codes "DELETE") r)) [
    | inr m ↦ ((w, error_reply 405 (codes "method not allowed")), rw m refl, inl refl)
    | inl m ↦ elim (Bool-cases (is_authorized config r)) [
      | inr a ↦ ((w, error_reply 401 (codes "unauthorized")), rw (m, a) refl, inl refl)
      | inl a ↦ elim (Option-cases (get_session w.manager id)) [
        | inl f ↦ unfound-IsEffect id m a p f
        | inr (s, f) ↦ found-IsEffect id s m a p f
      ]
    ]
  ]

  -- What a handler answers, with its effect.
  abbrev Answers : Option (World × Response) → Type 0
  Answers o = (answer : World × Response) × (o ≡ some answer) × IsEffect config w r answer

  unchanged-Answers : (response : Response) → Answers (some (w, response))
  unchanged-Answers response = ((w, response), refl, inl refl)

  terminate_session-Answers :
      has_prefix r.path sessions_path ≡ true → Answers (terminate_session config w r)
  terminate_session-Answers e =
      terminate_session-IsEffect (drop (length sessions_path) r.path)
        (has_prefix-split r.path sessions_path e)

  handle_request-Answers :
      (host : Host) (to : Route)
      → (to ≡ to_session → has_prefix r.path sessions_path ≡ true)
      → Answers (handle_request config host w r to)
  unfolding handle_request
  handle_request-Answers host to_session h = terminate_session-Answers (h refl)
  handle_request-Answers host to_healthz h = unchanged-Answers _
  handle_request-Answers host to_readyz h = unchanged-Answers _
  handle_request-Answers host to_devices h = unchanged-Answers _
  handle_request-Answers host to_sessions h = unchanged-Answers _
  handle_request-Answers host to_stats h = unchanged-Answers _
  handle_request-Answers host to_login h = unchanged-Answers _
  handle_request-Answers host to_logout h = unchanged-Answers _
  handle_request-Answers host to_dashboard h = unchanged-Answers _

  -- Every request is answered, and either leaves the world as it is or, with 200, closes both
  -- connections of a session and changes nothing else; in that case the request is a DELETE, it is
  -- authorized, and its path names the session, which is active.
  pub serve-IsEffect :
      (host : Host)
      → (answer : World × Response) × (serve config host w r ≡ some answer)
        × IsEffect config w r answer
  unfolding serve mux
  serve-IsEffect host = elim (Bool-cases (bytes_eq (clean_path r.path) r.path)) [
    | inr e ↦ rw e (unchanged-Answers _)
    | inl e ↦ rw e (handle_request-Answers host (route r.path) (route-prefix r.path))
  ]

  pub serve-IsEffect_of :
      (host : Host) (answer : World × Response)
      → serve config host w r ≡ some answer
      → IsEffect config w r answer
  serve-IsEffect_of host answer e =
      let (made, q, effect) = serve-IsEffect host in
      subst (IsEffect config w r) (some-injective made answer (sym q ∙ e)) effect

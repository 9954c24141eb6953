-- ===== src/Session/Lifecycle.antt =====
-- A session from its creation to its end.
use proxy_rfc.Base.{
  ℕ, suc, ◌+◌, ◌≡◌, refl, ap, sym, ◌≤◌, ◌<◌, ◌^◌, ◌∙◌, true, false, none, some, List, [], ◌∷◌, ◌++◌,
  Bytes, All, bytes_eq, bytes_eq_refl, bytes_eq_iff, length, All-mono, if◌then◌else◌, Bool-cases,
  Option-cases, inl, inr, arith,
}
use proxy_rfc.SyncMap.{load, store, delete}
use proxy_rfc.SyncMap.Laws.{
  IsMap, load-store, load-delete, store-IsMap, delete-IsMap, delete_absent, All-store, All-delete,
  length-store, length-delete, found, load-All,
}
use proxy_rfc.Session.{
  Session, Manager, Notice, started, finished, notify, new_session, create, end_session,
  get_session, count_sessions, session_id, next_count,
}
use proxy_rfc.Session.Ids.{session_id_injective}

-- The calls of `onStart` and of `onEnd`.
abbrev pub starts : List Notice → ℕ
starts [] = 0
starts (started s ∷ ns) = suc (starts ns)
starts (finished s ∷ ns) = starts ns

abbrev pub finishes : List Notice → ℕ
finishes [] = 0
finishes (started s ∷ ns) = finishes ns
finishes (finished s ∷ ns) = suc (finishes ns)

-- An entry of the map: a session under its own identifier, not ended, with a count given out.
abbrev pub IsEntry : ℕ → Bytes × Session → Type 0
IsEntry n (key, s) =
    (s.id ≡ key) × (s.ended ≡ false) × ((t : ℕ) × (i : ℕ) × (s.id ≡ session_id t i) × (i ≤ n))

pub record IsManaged (m : Manager) : Type 0 where
  pub unique : IsMap m.sessions
  pub entries : All (IsEntry m.counter) m.sessions
  -- Each session that was started and not finished is in the map.
  pub balanced : m.has_callbacks ≡ true → starts m.notices ≡ finishes m.notices + length m.sessions

-- A created session takes the next count.
pub create-counter :
    (m : Manager) (now : ℕ) (device_id : Bytes) (client device : ℕ)
    → (create m now device_id client device).0.counter ≡ next_count m
unfolding create
create-counter m now device_id client device = ground arith

-- The count of a new session is none of those given out before.
fresh_id :
    (now n : ℕ) (m : List (Bytes × Session))
    → All (IsEntry n) m
    → load (session_id now (n + 1)) m ≡ none
unfolding load
fresh_id now n [] h = refl
fresh_id now n ((k, s) ∷ m) h =
    let ((own, _, (t, i, e, le)), rest) = h in
    elim (Bool-cases (bytes_eq k (session_id now (n + 1)))) [
      | inl q ↦
          let (_, same) =
            session_id_injective t i now (n + 1)
              (sym e ∙ own ∙ (bytes_eq_iff k (session_id now (n + 1))).0 q) in
          absurd (omega arith)
      | inr q ↦ rw q (fresh_id now n m rest)
    ]

starts-append :
    (ns : List Notice) (n : Notice) → starts (ns ++ (n ∷ [])) ≡ starts ns + starts (n ∷ [])
starts-append [] n = omega arith
starts-append (started s ∷ ns) n = omega (arith, starts-append ns n)
starts-append (finished s ∷ ns) n = starts-append ns n

finishes-append :
    (ns : List Notice) (n : Notice) → finishes (ns ++ (n ∷ [])) ≡ finishes ns + finishes (n ∷ [])
finishes-append [] n = omega arith
finishes-append (started s ∷ ns) n = finishes-append ns n
finishes-append (finished s ∷ ns) n = omega (arith, finishes-append ns n)

-- A notice keeps the invariant if it makes up for what happened to the map.
notify-IsManaged :
    (m : Manager) (n : Notice)
    → IsMap m.sessions
    → All (IsEntry m.counter) m.sessions
    → (m.has_callbacks ≡ true
        → starts m.notices + starts (n ∷ [])
          ≡ finishes m.notices + finishes (n ∷ []) + length m.sessions)
    → IsManaged (notify m n)
notify-IsManaged m n unique entries b = elim (Bool-cases m.has_callbacks) [
  | inl yes_callbacks ↦ simp yes_callbacks (record {
    unique = unique;
    entries = entries;
    balanced =
        λ _. omega (arith, starts-append m.notices n, finishes-append m.notices n, b yes_callbacks);
  })
  | inr none_set ↦
      simp none_set (record { unique = unique; entries = entries; balanced = λ h. absurd (cc) })
]

IsEntry-mono : (n n' : ℕ) (e : Bytes × Session) → n ≤ n' → IsEntry n e → IsEntry n' e
IsEntry-mono n n' (k, s) h (own, live, (t, i, e, le)) = (own, live, (t, i, e, omega arith))

module _ (m : Manager) (now : ℕ) (device_id : Bytes) (client device : ℕ) (v : IsManaged m)
    (room : m.counter + 1 < 2 ^ 64) where
  count_up : next_count m ≡ m.counter + 1
  count_up = omega arith

  new_id_fresh : load (session_id now (next_count m)) m.sessions ≡ none
  new_id_fresh = rw count_up (fresh_id now m.counter m.sessions v.entries)

  create-IsManaged : IsManaged (create m now device_id client device).0
  unfolding create
  create-IsManaged =
      let s = new_session m now device_id client device in
      notify-IsManaged _ (started s) (store-IsMap s.id s m.sessions v.unique)
        (All-store (IsEntry (next_count m)) s.id s m.sessions
          (refl, refl, (now, next_count m, refl, omega arith))
          (All-mono _ _ m.sessions (λ e. IsEntry-mono m.counter (next_count m) e (omega arith))
            v.entries))
        (λ c. omega (
          arith,
          v.balanced c,
          length-store s.id s m.sessions,
          ap (found {V = Session}) new_id_fresh,
        ))

  -- The map as `Create` leaves it.
  create-sessions :
      (create m now device_id client device).0.sessions
      ≡ store (session_id now (next_count m)) (create m now device_id client device).1 m.sessions
  unfolding create
  create-sessions = ground arith

  -- `Create` keeps a well formed manager with a count left well formed. Its session has an
  -- identifier that no active session has, is found under it, and is the session that was asked
  -- for; no other session is touched, and one more is active.
  pub create_lem :
      let s = (create m now device_id client device).1 in
      let m' = (create m now device_id client device).0 in
      IsManaged m'
      × (get_session m s.id ≡ none)
      × ((id : Bytes) → get_session m' id ≡ (if bytes_eq s.id id then some s else get_session m id))
      × (count_sessions m' ≡ count_sessions m + 1)
      × ((s.device_id ≡ device_id) × (s.client_conn ≡ client) × (s.device_conn ≡ device))
  unfolding get_session count_sessions create
  create_lem = (
    create-IsManaged,
    new_id_fresh,
    (λ id. rw create-sessions (load-store (session_id now (next_count m)) id _ m.sessions)),
    rw create-sessions (
        omega (
          arith,
          length-store (session_id now (next_count m)) (create m now device_id client device).1
              m.sessions,
          ap (found {V = Session}) new_id_fresh,
        )),
    (refl, refl, refl),
  )

end_session-none : (m : Manager) (id : Bytes) → load id m.sessions ≡ none → end_session m id ≡ m
unfolding end_session
end_session-none m id e = rw e

module _ (m : Manager) (id : Bytes) (v : IsManaged m) where
  end_session-IsManaged : IsManaged (end_session m id)
  unfolding end_session
  end_session-IsManaged = elim (Option-cases (load id m.sessions)) [
    | inl e ↦ rw e v
    | inr (s, e) ↦ rw e (
        notify-IsManaged _ (finished (record s { ended = true }))
          (delete-IsMap id m.sessions v.unique)
          (All-delete (IsEntry m.counter) id m.sessions v.entries)
          (λ c.
            omega (arith, v.balanced c, length-delete id m.sessions, ap (found {V = Session}) e)))
  ]

  end_session-sessions : (end_session m id).sessions ≡ delete id m.sessions
  unfolding end_session
  end_session-sessions = ground (arith, delete_absent id m.sessions)

  -- `End` keeps a well formed manager well formed and removes the session, if it is there, and no
  -- other. A second `End` of the same session does nothing: its channel is closed once and its end
  -- is announced once.
  pub end_session_lem :
      IsManaged (end_session m id)
      × ((other : Bytes)
          → get_session (end_session m id) other
            ≡ (if bytes_eq id other then none else get_session m other))
      × (count_sessions (end_session m id) + found (get_session m id) ≡ count_sessions m)
      × (end_session (end_session m id) id ≡ end_session m id)
  unfolding get_session count_sessions
  end_session_lem = (
    end_session-IsManaged,
    (λ other. rw end_session-sessions (load-delete id other m.sessions v.unique)),
    rw end_session-sessions (length-delete id m.sessions),
    end_session-none (end_session m id) id
        (rw end_session-sessions (load-delete id id m.sessions v.unique ∙ rw (bytes_eq_refl id))),
  )

-- A session of the map whose object changes in nothing but its counters.
pub store-IsManaged :
    (m : Manager) (s s' : Session)
    → IsManaged m
    → get_session m s.id ≡ some s
    → s'.id ≡ s.id
    → s'.ended ≡ s.ended
    → IsManaged (record m { sessions = store s.id s' m.sessions })
unfolding get_session
store-IsManaged m s s' v f own live =
    let (_, not_ended, (t, i, e, le)) = load-All (IsEntry m.counter) s.id m.sessions f v.entries in
    let size : length (store s.id s' m.sessions) ≡ length m.sessions =
      omega (arith, ap found f, length-store s.id s' m.sessions) in
    record {
      unique = store-IsMap s.id s' m.sessions v.unique;
      entries =
          All-store (IsEntry m.counter) s.id s' m.sessions
            (own, live ∙ not_ended, (t, i, own ∙ e, le)) v.entries;
      balanced = λ h. v.balanced h ∙ ap (λ n. finishes m.notices + n) (sym size);
    }

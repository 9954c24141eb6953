-- ===== src/Program/Running.antt =====
-- A program that nothing stops.
use mathlib.Core.List.{append_assoc, append-nil}
use proxy_rfc.Base.{ℕ, ◌≡◌, ap, ◌∙◌, sym, true, false, none, List, [], ◌∷◌, ◌++◌, All}
use proxy_rfc.Program.{
  accepts, fails, accept_round, start_server, Program, start_program, Event, signalled,
  accept_returns, listener_closes, serving_closed, serving_failed, main_wakes, apply, run,
}

-- Neither a signal nor an error of the HTTP server.
abbrev pub IsQuiet : Event → Type 0
IsQuiet signalled = ⊥
IsQuiet serving_failed = ⊥
IsQuiet _ = Unit

-- The connections that Accept returns.
abbrev pub arrivals : List Event → List ℕ
arrivals [] = []
arrivals (accept_returns (accepts conn) ∷ es) = conn ∷ arrivals es
arrivals (_ ∷ es) = arrivals es

-- The program as it serves, with some connections handled.
abbrev serving : List ℕ → Program
serving handled = record {
  cancelled = false;
  connections = record { listening = true; handled = handled; result = none };
  api = none;
  over = false;
}

run-serving :
    (handled : List ℕ) (es : List Event)
    → All IsQuiet es
    → run (serving handled) es ≡ serving (handled ++ arrivals es)
unfolding run apply accept_round
run-serving handled [] q = ap serving (sym (append-nil handled))
run-serving handled (signalled ∷ es) q = absurd q.0
run-serving handled (serving_failed ∷ es) q = absurd q.0
run-serving handled (accept_returns (accepts conn) ∷ es) q =
    run-serving (handled ++ (conn ∷ [])) es q.1
    ∙ ap serving (append_assoc handled (conn ∷ []) (arrivals es))
run-serving handled (accept_returns fails ∷ es) q = run-serving handled es q.1
run-serving handled (listener_closes ∷ es) q = run-serving handled es q.1
run-serving handled (serving_closed ∷ es) q = run-serving handled es q.1
run-serving handled (main_wakes ∷ es) q = run-serving handled es q.1

-- Once it listens, a program that gets no signal and whose HTTP server meets no error goes on: main
-- does not return, whichever calls of Accept fail, and each accepted connection gets its handler,
-- in the order of arrival.
pub run_goes_on :
    (es : List Event)
    → All IsQuiet es
    → ((run (start_program true) es).over ≡ false)
      × ((run (start_program true) es).connections.handled ≡ arrivals es)
unfolding start_program start_server
run_goes_on es q =
    let e = run-serving [] es q in (ap (λ p. p.over) e, ap (λ p. p.connections.handled) e)

-- ===== src/Tests/Programs.antt =====
-- The program from its start, event by event.
use proxy_rfc.Base.{◌≡◌, refl, true, false, List, [], ◌∷◌, arith}
use proxy_rfc.Program.{
  start_program, Event, signalled, accept_returns, accepts, fails, listener_closes, main_wakes, run,
}
use proxy_rfc.Program.Running.{run_goes_on}

abbrev arrives : List Event
arrives =
    accept_returns (accepts 3) ∷ accept_returns fails ∷ main_wakes ∷ accept_returns (accepts 4) ∷ []

run_goes_on_example :
    ((run (start_program true) arrives).over ≡ false)
    × ((run (start_program true) arrives).connections.handled ≡ 3 ∷ 4 ∷ [])
run_goes_on_example = run_goes_on arrives (ground arith)

-- A signal ends it, and a port that is taken.
ends_by_signal : (run (start_program true) (signalled ∷ main_wakes ∷ [])).over ≡ true
unfolding run start_program proxy_rfc.Program.apply
ends_by_signal = refl

ends_at_once : (run (start_program false) (main_wakes ∷ [])).over ≡ true
unfolding run start_program proxy_rfc.Program.apply
ends_at_once = refl

-- A listener that is closed accepts no more.
turns_away :
    (run
      (start_program true)
      (signalled ∷ listener_closes ∷ accept_returns (accepts 5) ∷ [])).connections.handled
    ≡ []
unfolding run start_program proxy_rfc.Program.apply
turns_away = refl

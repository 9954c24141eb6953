-- ===== src/Waiting/Watch.antt =====
-- When the handler of a waiting device goes on.
use proxy_rfc.Base.{
  ℕ, ◌≡◌, refl, true, false, List, [], ◌∷◌, All, ◌⊎◌, inl, inr, is_positive, arith,
}
use proxy_rfc.Conn.{Conn}
use proxy_rfc.Waiting.{
  gone, Waiting, start, Event, reader_looks, read_returns, keeper_stops, keeper_ticks, replaces,
  cancels, device_reader_looks, device_reader_returns, device_keepalive, device_keepalive_stops,
  apply, run, is_over,
}

-- The goroutines of a device that is not replaced tell the handler when they end.
pub record IsWatched (idle_timeout : ℕ) (w : Waiting) : Type 0 where
  pub not_stopped : w.stopped ≡ false
  pub reader_tells : w.reader ≡ gone → w.read_closed ≡ true
  pub keeper_tells : is_positive idle_timeout ≡ true → w.keeper ≡ false → w.conn_closed ≡ true

abbrev pub IsKept : Event → Type 0
IsKept replaces = ⊥
IsKept _ = Unit

apply-IsWatched :
    (idle_timeout : ℕ) (w : Waiting) (e : Event)
    → IsKept e
    → IsWatched idle_timeout w
    → IsWatched idle_timeout (apply w e)
unfolding apply device_reader_looks device_reader_returns device_keepalive device_keepalive_stops
apply-IsWatched idle w replaces k v = absurd k
apply-IsWatched idle w (reader_looks now) k v = record {
  not_stopped = ground (arith, v.not_stopped);
  reader_tells = λ g. ground (arith, v.not_stopped, v.reader_tells);
  keeper_tells = λ p off. ground (arith, v.keeper_tells p);
}
apply-IsWatched idle w (read_returns o) k v = record {
  not_stopped = ground (arith, v.not_stopped);
  reader_tells = λ g. ground (arith, v.not_stopped, v.reader_tells);
  keeper_tells = λ p off. ground (arith, v.keeper_tells p);
}
apply-IsWatched idle w keeper_stops k v = record {
  not_stopped = ground (arith, v.not_stopped);
  reader_tells = λ g. ground (arith, v.not_stopped, v.reader_tells);
  keeper_tells = λ p off. ground (arith, v.keeper_tells p);
}
apply-IsWatched idle w keeper_ticks k v = record {
  not_stopped = ground (arith, v.not_stopped);
  reader_tells = λ g. ground (arith, v.not_stopped, v.reader_tells);
  keeper_tells = λ p off. ground (arith, v.keeper_tells p);
}
apply-IsWatched idle w cancels k v = record {
  not_stopped = ground (arith, v.not_stopped);
  reader_tells = λ g. ground (arith, v.not_stopped, v.reader_tells);
  keeper_tells = λ p off. ground (arith, v.keeper_tells p);
}

run-IsWatched :
    (idle_timeout : ℕ) (w : Waiting) (es : List Event)
    → All IsKept es
    → IsWatched idle_timeout w
    → IsWatched idle_timeout (run w es)
unfolding run
run-IsWatched idle w [] k v = v
run-IsWatched idle w (e ∷ es) k v =
    run-IsWatched idle (apply w e) es k.1 (apply-IsWatched idle w e k.0 v)

-- While a device that waits is not replaced, its handler goes on as soon as the reader has
-- returned, or, with an idle timeout, the keepalive has.
pub run_tells :
    (idle_timeout : ℕ) (conn : Conn) (es : List Event)
    → All IsKept es
    → let w = run (start idle_timeout conn) es in
      (w.reader ≡ gone) ⊎ ((is_positive idle_timeout ≡ true) × (w.keeper ≡ false))
      → is_over w ≡ true
unfolding start
run_tells idle conn es k ended =
    let v = run-IsWatched idle (start idle conn) es k (record {
      not_stopped = refl;
      reader_tells = λ g. absurd (cc);
      keeper_tells = λ p off. absurd (ground arith);
    }) in
    elim ended [
      | inl g ↦ ground (arith, v.reader_tells g)
      | inr (p, off) ↦ ground (arith, v.keeper_tells p off)
    ]

-- Both goroutines have returned and told nobody.
record IsStranded (w : Waiting) : Type 0 where
  reader_gone : w.reader ≡ gone
  keeper_gone : w.keeper ≡ false
  not_closed : w.conn_closed ≡ false
  not_read : w.read_closed ≡ false
  not_cancelled : w.cancelled ≡ false

abbrev pub IsUncancelled : Event → Type 0
IsUncancelled cancels = ⊥
IsUncancelled _ = Unit

apply-IsStranded :
    (w : Waiting) (e : Event) → IsUncancelled e → IsStranded w → IsStranded (apply w e)
unfolding apply device_reader_looks device_reader_returns device_keepalive device_keepalive_stops
apply-IsStranded w cancels k v = absurd k
apply-IsStranded w (reader_looks now) k v = record {
  reader_gone = ground (arith, v.reader_gone);
  keeper_gone = ground (arith, v.keeper_gone);
  not_closed = ground (arith, v.keeper_gone, v.not_closed);
  not_read = ground (arith, v.reader_gone, v.not_read);
  not_cancelled = ground (arith, v.not_cancelled);
}
apply-IsStranded w (read_returns o) k v = record {
  reader_gone = ground (arith, v.reader_gone);
  keeper_gone = ground (arith, v.keeper_gone);
  not_closed = ground (arith, v.keeper_gone, v.not_closed);
  not_read = ground (arith, v.reader_gone, v.not_read);
  not_cancelled = ground (arith, v.not_cancelled);
}
apply-IsStranded w keeper_stops k v = record {
  reader_gone = ground (arith, v.reader_gone);
  keeper_gone = ground (arith, v.keeper_gone);
  not_closed = ground (arith, v.keeper_gone, v.not_closed);
  not_read = ground (arith, v.reader_gone, v.not_read);
  not_cancelled = ground (arith, v.not_cancelled);
}
apply-IsStranded w keeper_ticks k v = record {
  reader_gone = ground (arith, v.reader_gone);
  keeper_gone = ground (arith, v.keeper_gone);
  not_closed = ground (arith, v.keeper_gone, v.not_closed);
  not_read = ground (arith, v.reader_gone, v.not_read);
  not_cancelled = ground (arith, v.not_cancelled);
}
apply-IsStranded w replaces k v = record {
  reader_gone = ground (arith, v.reader_gone);
  keeper_gone = ground (arith, v.keeper_gone);
  not_closed = ground (arith, v.keeper_gone, v.not_closed);
  not_read = ground (arith, v.reader_gone, v.not_read);
  not_cancelled = ground (arith, v.not_cancelled);
}

run-IsStranded :
    (w : Waiting) (es : List Event) → All IsUncancelled es → IsStranded w → IsStranded (run w es)
unfolding run
run-IsStranded w [] k v = v
run-IsStranded w (e ∷ es) k v = run-IsStranded (apply w e) es k.1 (apply-IsStranded w e k.0 v)

replaced-IsStranded :
    (idle_timeout now : ℕ) (conn : Conn)
    → IsStranded (run (start idle_timeout conn) (replaces ∷ reader_looks now ∷ keeper_stops ∷ []))
unfolding run start apply device_reader_looks device_keepalive_stops
replaced-IsStranded idle now conn = record {
  reader_gone = refl;
  keeper_gone = refl;
  not_closed = refl;
  not_read = refl;
  not_cancelled = refl;
}

-- A device that is replaced before the first read of its reader leaves its handler waiting once the
-- reader and the keepalive have seen the stop, whatever happens then but the end of the program.
pub run_strands :
    (idle_timeout now : ℕ) (conn : Conn) (es : List Event)
    → All IsUncancelled es
    → is_over (run (start idle_timeout conn) (replaces ∷ reader_looks now ∷ keeper_stops ∷ es))
      ≡ false
unfolding run
run_strands idle now conn es k =
    let v = run-IsStranded _ es k (replaced-IsStranded idle now conn) in
    ground (arith, v.not_closed, v.not_read, v.not_cancelled)

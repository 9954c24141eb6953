-- ===== src/Tests/Admission.antt =====
-- Clients that get a session or are refused, and rival registrations, in the world of Tests.Proxy.
use proxy_rfc.Base.{◌≡◌, ◌↔◌, ◌⊎◌, refl, some, none, ℕ, codes, bytes_eq, arith}
use proxy_rfc.Device.{get}
use proxy_rfc.Handler.{World, client_check, client_open, register_device, stop_keepalive}
use proxy_rfc.Handler.Admission.{IsCallable, IsStarted, client_passes_iff, client_open_decides}
use proxy_rfc.Session.{put_conn}
use proxy_rfc.Worlds.Rivals.{IsUnstopped, register_rivals}
use proxy_rfc.Worlds.Slots.{IsRegistry}
use proxy_rfc.Tests.Proxy.{world, caller, open_conn, stranger}

client_passes_iff_example :
    (client_check (codes "k") world (caller 3) ≡ some 0)
    ↔ IsCallable (codes "k") world (codes "k+meter") 0
client_passes_iff_example = client_passes_iff (codes "k") world (caller 3) 0 (tt, tt)

client_open_decides_example :
    ((ref : ℕ) × IsCallable (codes "k") world (codes "k+other") ref
      × IsStarted world stranger ref (client_open (codes "k") 1700000100 world stranger))
    ⊎ (((ref : ℕ) → IsCallable (codes "k") world (codes "k+other") ref → ⊥)
        × (client_open (codes "k") 1700000100 world stranger ≡ (
          record world {
            conns = put_conn 4 (record open_conn { sent = codes "\r\nNO CARRIER\r\n" }) world.conns;
          },
          none,
        )))
client_open_decides_example =
    client_open_decides (codes "k") 1700000100 world stranger (tt, tt)
      (record { not_closed = refl; no_outcomes = refl })

IsRegistry-world : IsRegistry world
IsRegistry-world = record { unique = (tt, tt); slots = ((omega arith, refl), tt) }

gets_meter : get (codes "meter") world.registry ≡ some 0
unfolding get proxy_rfc.SyncMap.load bytes_eq
gets_meter = refl

register_rivals_example :
    let w' = (register_device 1700000100 world 9 (codes "meter")).0 in
    ((w1 : World) × (stop_keepalive world 0 ≡ some w1))
    × IsUnstopped w'
    × (stop_keepalive w' 0 ≡ none)
register_rivals_example =
    register_rivals 1700000100 world 9 (codes "meter") 0 IsRegistry-world (λ id ref e. refl)
      gets_meter

-- ===== src/Handler/Wait.antt =====
-- What a registered device's wait for ATDT or ATDP does.
use proxy_rfc.Base.{ℕ, ◌≡◌, ◌⊎◌, inl, inr, refl, ap, some, Bool-cases}
use mathlib.Core.Option
use proxy_rfc.Conn.{Stream}
use proxy_rfc.Handler.{World, wrote, is_dial, device_dialled, after_wait, device_wait}
use proxy_rfc.Protocol.{ReadResult, command, failed, read_plain_at_command, write_ok}
use proxy_rfc.Protocol.Loop.{read_at_command_total}

after_wait-cases :
    (w : World) (conn : ℕ) (r : ReadResult)
    → (after_wait w conn r ≡ w) ⊎ (after_wait w conn r ≡ wrote w conn (write_ok (w.conns conn)))
unfolding device_dialled
after_wait-cases w conn (failed e rest) = inl refl
after_wait-cases w conn (command c rest) = elim (Bool-cases (is_dial c.cmd)) [
  | inl dial ↦ rw dial (inr refl)
  | inr other ↦ rw other (inl refl)
]

-- The wait comes to an end on every stream that does, and then at most one OK has been written.
pub device_wait_total :
    (since : ℕ → ℕ) (s : Stream) (w : World) (conn : ℕ)
    → (w' : World) × (device_wait since s w conn ≡ some w')
      × ((w' ≡ w) ⊎ (w' ≡ wrote w conn (write_ok (w.conns conn))))
unfolding device_wait read_plain_at_command
device_wait_total since s w conn =
    let (r, e, _) = read_at_command_total 0 since s in
    (after_wait w conn r, ap (λ o. Option.map (after_wait w conn) o) e, after_wait-cases w conn r)

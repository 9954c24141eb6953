-- ===== src/Conn/Open.antt =====
-- Connections that take all that is written.
use proxy_rfc.Base.{◌≡◌, true, false, [], ◌++◌, Bytes, length}
use proxy_rfc.Conn.{Conn, write}

-- An open connection whose writes succeed.
pub record IsOpen (c : Conn) : Type 0 where
  pub not_closed : c.closed ≡ false
  pub no_outcomes : c.outcomes ≡ []

pub write_open_lem :
    (c : Conn) (b : Bytes)
    → IsOpen c
    → write c b ≡ record { conn = record c { sent = c.sent ++ b }; count = length b; ok = true }
unfolding write
write_open_lem c b h = simp (h.not_closed, h.no_outcomes)

-- ===== src/Conn.antt =====
-- A network connection as the program sees it (net.Conn and bufio.Reader of Go's library): what
-- has been written to it, what comes of each further write, and what is still to be read.
pub mod Open
use proxy_rfc.Base.{
  ℕ, Bool, true, false, List, [], ◌∷◌, ◌++◌, Bytes, length, take, ◌==◌, if◌then◌else◌,
}

-- What comes of one call of Write: all bytes go out, or the given number at most and an error.
pub data Outcome : Type 0 where
  accepts : Outcome
  breaks : ℕ → Outcome

pub record Conn : Type 0 where
  pub sent : Bytes
  pub closed : Bool
  pub outcomes : List Outcome

pub record Written : Type 0 where
  pub conn : Conn
  pub count : ℕ
  pub ok : Bool

-- With no outcome left to meet every write succeeds.
abbrev pub write_open : List Outcome → Conn → Bytes → Written
write_open [] c b = record { conn = record c { sent = c.sent ++ b }; count = length b; ok = true }
write_open (accepts ∷ more) c b = record {
  conn = record c { sent = c.sent ++ b; outcomes = more };
  count = length b;
  ok = true;
}
write_open (breaks n ∷ more) c b = record {
  conn = record c { sent = c.sent ++ take n b; outcomes = more };
  count = length (take n b);
  ok = false;
}

unfoldable pub write : Conn → Bytes → Written
write c b =
    if c.closed then record { conn = c; count = 0; ok = false } else write_open c.outcomes c b

abbrev pub close : Conn → Conn
close c = record c { closed = true }

-- What a buffered reader has before it: bytes, the edges between what single reads of the
-- connection return, and read deadlines that pass. Its end is a connection that reads no more.
-- The bytes before the first edge are those that the reader holds already.
pub data Item : Type 0 where
  byte : ℕ → Item
  edge : Item
  pause : Item

abbrev pub Stream : Type 0
Stream = List Item

-- A peek at the next byte finds `b`.
unfoldable pub next_is : ℕ → Stream → Bool
next_is b (byte c ∷ s) = c == b
next_is b (edge ∷ s) = next_is b s
next_is b (pause ∷ s) = false
next_is b [] = false

-- `reader.Buffered()`, with the bytes themselves.
unfoldable pub buffered : Stream → Bytes
buffered (byte b ∷ s) = b ∷ buffered s
buffered _ = []

abbrev pub bytes : Bytes → Stream
bytes [] = []
bytes (b ∷ bs) = byte b ∷ bytes bs

-- ===== src/Tests/Setting.antt =====
-- A port setting of 9600 baud, 8 data bits, no parity and 1 stop bit on its way to the device.
use proxy_rfc.Base.{Bytes, codes}
use proxy_rfc.Handler.Setting.{packet}

abbrev setting_9600 : Bytes
setting_9600 = packet 0x00 0x25 0x80 0x03 0xa8 (codes "AT")

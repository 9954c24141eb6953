-- ===== src/Handler/Setting.antt =====
-- A client's port setting, from the eight bytes of its USR-VCOM packet to the RFC 2217 commands
-- that the device's connection is sent.
use proxy_rfc.Base.{ℕ, ◌+◌, ◌*◌, ◌^◌, ◌%◌, true, [], ◌∷◌, Bytes}
use proxy_rfc.Conn.{Conn}
use proxy_rfc.Usrvcom.{UsrVcomConfig, decode_param_parity, decode_param_stop}

module _ (hi mid lo param sum : ℕ) (rest : Bytes) where
  abbrev pub packet : Bytes
  packet = 0x55 ∷ 0xaa ∷ 0x55 ∷ hi ∷ mid ∷ lo ∷ param ∷ sum ∷ rest

  abbrev setting : UsrVcomConfig
  setting = record {
    baud_rate = hi * 2 ^ 16 + mid * 2 ^ 8 + lo;
    data_bits = 5 + param % 4;
    parity = decode_param_parity param;
    stop_bits = decode_param_stop param;
    valid = true;
    raw_data = 0x55 ∷ 0xaa ∷ 0x55 ∷ hi ∷ mid ∷ lo ∷ param ∷ sum ∷ [];
  }

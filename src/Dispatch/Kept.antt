-- ===== src/Dispatch/Kept.antt =====
-- What each round of the loop of `Handle` keeps.
use proxy_rfc.Base.{
  ℕ, ◌≡◌, inl, inr, refl, Option, none, some, [], ◌∷◌, Bytes, IsBytes, All-append, is_empty, not,
  ◌&&◌, Bool-cases, arith,
}
use proxy_rfc.Conn.{Conn}
use proxy_rfc.Modem.{ModemState}
use proxy_rfc.Protocol.{AtCommand, Cmd, reg, connect, dt, dp, modem, other}
use proxy_rfc.Protocol.Results.{IsPreset}
use proxy_rfc.Dispatch.{
  Talk, Next, goes_on, to_device, to_client, gives_up, or_else, keep_usrvcom, with_presets,
  keep_skipped, on_plain_dial, on_modem_dial, on_dial, on_modem, by_command, dispatch,
}
use proxy_rfc.Usrvcom.{UsrVcomConfig}

-- The loop keeps bytes and a port setting, if any.
pub record TalkInv (t : Talk) : Type 0 where
  pub presets_bytes : IsBytes t.presets
  pub setting : IsPreset t.usrvcom

-- A client comes with the command AT+CONNECT, with bytes and a port setting, if any.
abbrev pub IsClient : AtCommand → Type 0
IsClient c = (c.cmd ≡ connect) × IsBytes c.skipped × IsPreset c.usrvcom

abbrev pub NextInv : Next → Type 0
NextInv (goes_on t conn) = TalkInv t
NextInv (to_device token conn) = Unit
NextInv (to_client c m conn) = IsClient c
NextInv (gives_up conn) = Unit

-- The same where the loop has ended.
abbrev pub IsEnd : Next → Type 0
IsEnd (goes_on t conn) = ⊥
IsEnd (to_device token conn) = Unit
IsEnd (to_client c m conn) = IsClient c
IsEnd (gives_up conn) = Unit

or_else-IsPreset : (a b : Option UsrVcomConfig) → IsPreset a → IsPreset b → IsPreset (or_else a b)
or_else-IsPreset none b ha hb = hb
or_else-IsPreset (some a) b ha hb = ha

with_presets-IsClient :
    (t : Talk) (c : AtCommand) → TalkInv t → IsClient c → IsClient (with_presets t c)
with_presets-IsClient t c v (cmd, skipped, setting) =
    elim (Bool-cases (not (is_empty t.presets) && is_empty c.skipped)) [
      | inl own ↦ rw own (cmd, v.presets_bytes, setting)
      | inr given ↦ rw given (cmd, skipped, setting)
    ]

keep_skipped-IsBytes :
    (presets skipped : Bytes)
    → IsBytes presets
    → IsBytes skipped
    → IsBytes (keep_skipped presets skipped)
keep_skipped-IsBytes presets [] hp hs = hp
keep_skipped-IsBytes presets (x ∷ xs) hp hs = All-append _ presets (x ∷ xs) hp hs

module _ (post_timeout : ℕ) (t : Talk) (c : AtCommand) (conn : Conn) (v : TalkInv t)
    (skipped : IsBytes c.skipped) (preset : IsPreset c.usrvcom) where
  set_timeout : TalkInv (record t { timeout = post_timeout })
  set_timeout = record { presets_bytes = v.presets_bytes; setting = v.setting }

  on_modem-NextInv : NextInv (on_modem post_timeout t c conn)
  unfolding on_modem
  on_modem-NextInv = record {
    presets_bytes = keep_skipped-IsBytes t.presets c.skipped v.presets_bytes skipped;
    setting = v.setting;
  }

  on_dial-NextInv : (o : Option ModemState) → NextInv (on_dial post_timeout t o c conn)
  unfolding on_dial on_plain_dial on_modem_dial
  on_dial-NextInv none = ground (arith, set_timeout)
  on_dial-NextInv (some m) = elim (Bool-cases (is_empty c.param)) [
    | inl e ↦ rw e set_timeout
    | inr e ↦ rw e (
        with_presets-IsClient t _ v
          (refl, skipped, or_else-IsPreset c.usrvcom t.usrvcom preset v.setting))
  ]

  by_command-NextInv : (cmd : Cmd) → c.cmd ≡ cmd → NextInv (by_command post_timeout t cmd c conn)
  by_command-NextInv reg e = tt
  by_command-NextInv connect e = (e, skipped, or_else-IsPreset c.usrvcom t.usrvcom preset v.setting)
  by_command-NextInv dt e = on_dial-NextInv t.modem
  by_command-NextInv dp e = on_dial-NextInv t.modem
  by_command-NextInv modem e = on_modem-NextInv
  by_command-NextInv (other name) e = tt

pub dispatch-NextInv :
    (post_timeout : ℕ) (t : Talk) (c : AtCommand) (conn : Conn)
    → TalkInv t
    → IsBytes c.skipped
    → IsPreset c.usrvcom
    → NextInv (dispatch post_timeout t c conn)
unfolding dispatch
dispatch-NextInv post_timeout t c conn v skipped preset =
    by_command-NextInv post_timeout (keep_usrvcom t c) c conn
      (record {
        presets_bytes = v.presets_bytes;
        setting = or_else-IsPreset c.usrvcom t.usrvcom preset v.setting;
      })
      skipped preset c.cmd refl

-- ===== src/Protocol/Results.antt =====
-- The invariant of the loop of protocol.go, and what a round takes from a line.
use proxy_rfc.Base.{
  ◌≢◌, inl, inr, subst, false, Option, none, some, [], ◌++◌, Bytes, is_empty, IsBytes, Bool-cases,
  Option-cases,
}
use proxy_rfc.Conn.{Stream}
use proxy_rfc.Protocol.{
  Line, other, Presets, ReadResult, command, failed, unknown_command, Step, again, done, collect,
  accepted, take_unended, take_skipped, read_line,
}
use proxy_rfc.Base.{All-append, All-append_split}
use proxy_rfc.Protocol.{is_rfc2217_data}
use proxy_rfc.Protocol.LineBytes.{stream_bytes, read_line-Conserves}
use proxy_rfc.Protocol.LineShape.{IsAtLine, read_line_shape}
use proxy_rfc.Usrvcom.{UsrVcomConfig, is_usrvcom, parse_usrvcom}
use proxy_rfc.Usrvcom.Settings.{IsPortSetting, parse_usrvcom-IsPortSetting}

abbrev pub IsPreset : Option UsrVcomConfig → Type 0
IsPreset none = Unit
IsPreset (some c) = IsPortSetting c

-- The variables of the loop hold bytes and a port setting, if any.
pub record Inv (p : Presets) (s : Stream) : Type 0 where
  pub unread_bytes : IsBytes (stream_bytes s)
  pub skipped_bytes : IsBytes p.all_skipped
  pub preset : IsPreset p.usrvcom

-- A command is one that is known, with bytes collected before it and a port setting, if any. No
-- line is refused as an unknown command.
abbrev pub IsSound : ReadResult → Type 0
IsSound (command c s) =
    ((name : Bytes) → c.cmd ≢ other name)
    × IsBytes c.skipped
    × IsPreset c.usrvcom
    × IsBytes (stream_bytes s)
IsSound (failed (unknown_command line) s) = ⊥
IsSound (failed _ s) = Unit

abbrev pub StepInv : Step → Type 0
StepInv (again p s) = Inv p s
StepInv (done r) = IsSound r

pub record LineInv (l : Line) : Type 0 where
  pub line_skipped : IsBytes l.skipped
  pub line_rest : IsBytes (stream_bytes l.rest)
  pub line_shape : IsAtLine l.line

pub read_line-LineInv : (s : Stream) → IsBytes (stream_bytes s) → LineInv (read_line false [] [] s)
read_line-LineInv s b =
    let (mark, _, e) = read_line-Conserves s in
    let l = read_line false [] [] s in
    let (read, behind) =
      All-append_split _ (l.skipped ++ l.line) (mark ++ stream_bytes l.rest) (subst IsBytes e b) in
    record {
      line_skipped = (All-append_split _ l.skipped l.line read).0;
      line_rest = (All-append_split _ mark (stream_bytes l.rest) behind).1;
      line_shape = read_line_shape s;
    }

accepted-IsPreset : (read : Bytes) → IsBytes read → IsPreset (accepted (parse_usrvcom read))
accepted-IsPreset read b = elim (Option-cases (parse_usrvcom read)) [
  | inl e ↦ rw e tt
  | inr (c, e) ↦ let v = parse_usrvcom-IsPortSetting read b e in rw e (simp v.is_valid v)
]

collect-Inv :
    (p : Presets) (skipped : Bytes) (s : Stream)
    → Inv p s
    → IsBytes skipped
    → Inv (collect p skipped) s
collect-Inv p skipped s v b = record {
  unread_bytes = v.unread_bytes;
  skipped_bytes = All-append _ p.all_skipped skipped v.skipped_bytes b;
  preset = v.preset;
}

set-Inv :
    (p : Presets) (o : Option UsrVcomConfig) (s : Stream)
    → Inv p s
    → IsPreset o
    → Inv (record p { usrvcom = o }) s
set-Inv p o s v h = record {
  unread_bytes = v.unread_bytes;
  skipped_bytes = v.skipped_bytes;
  preset = h;
}

module _ (p : Presets) (skipped : Bytes) (s : Stream) (v : Inv p s) (b : IsBytes skipped) where
  pub take_unended-Inv : Inv (take_unended p skipped) s
  unfolding take_unended
  take_unended-Inv = elim (Bool-cases (is_usrvcom skipped)) [
    | inr no_packet ↦ rw no_packet (collect-Inv p skipped s v b)
    | inl packet ↦ elim (Option-cases (accepted (parse_usrvcom skipped))) [
      | inl e ↦ rw (packet, e, take_unended) (collect-Inv p skipped s v b)
      | inr (c, e) ↦
          rw (packet, e, take_unended)
            (set-Inv p (some c) s v (rw e at (accepted-IsPreset skipped b)))
    ]
  ]

  pub take_skipped-Inv : Inv (take_skipped p skipped) s
  unfolding take_skipped
  take_skipped-Inv = elim (Bool-cases (is_empty skipped)) [
    | inl empty ↦ rw empty v
    | inr full ↦ rw full (elim (Bool-cases (is_usrvcom skipped)) [
      | inr no_packet ↦ rw no_packet (elim (Bool-cases (is_rfc2217_data skipped)) [
        | inl r ↦ rw r (collect-Inv p skipped s v b)
        | inr r ↦ rw r (collect-Inv p skipped s v b)
      ])
      | inl packet ↦ elim (Option-cases (accepted (parse_usrvcom skipped))) [
        | inl e ↦ rw packet (rw (e, take_skipped) v)
        | inr (c, e) ↦
            rw packet (
              rw (e, take_skipped) (set-Inv p (some c) s v (rw e at (accepted-IsPreset skipped b))))
      ]
    ])
  ]

-- ===== src/Constants.antt =====
-- internal/rfc2217/constants.go: the numbers of Telnet and RFC 2217, a type for each group of names
-- with its bytes. No other package imports this one; internal/connection has constants of its own.
pub mod Agreement
use proxy_rfc.Base.{ℕ}

-- The commands of Telnet.
pub data Telnet : Type 0 where
  iac dont do' wont will sb ga el ec ayt ao ip brk dm nop se : Telnet

unfoldable pub telnet_byte : Telnet → ℕ
telnet_byte iac = 255
telnet_byte dont = 254
telnet_byte do' = 253
telnet_byte wont = 252
telnet_byte will = 251
telnet_byte sb = 250
telnet_byte ga = 249
telnet_byte el = 248
telnet_byte ec = 247
telnet_byte ayt = 246
telnet_byte ao = 245
telnet_byte ip = 244
telnet_byte brk = 243
telnet_byte dm = 242
telnet_byte nop = 241
telnet_byte se = 240

abbrev pub com_port_option : ℕ
com_port_option = 44

-- The commands of a subnegotiation, which a client and a server send with different codes.
pub data ComPort : Type 0 where
  signature set_baudrate set_datasize set_parity set_stop_size set_control notify_linestate
        notify_modemstate flow_control_susp flow_control_res set_linestate set_modemstate
        purge_data :
      ComPort

unfoldable pub client_code : ComPort → ℕ
client_code signature = 0
client_code set_baudrate = 1
client_code set_datasize = 2
client_code set_parity = 3
client_code set_stop_size = 4
client_code set_control = 5
client_code notify_linestate = 6
client_code notify_modemstate = 7
client_code flow_control_susp = 8
client_code flow_control_res = 9
client_code set_linestate = 10
client_code set_modemstate = 11
client_code purge_data = 12

unfoldable pub server_code : ComPort → ℕ
server_code signature = 100
server_code set_baudrate = 101
server_code set_datasize = 102
server_code set_parity = 103
server_code set_stop_size = 104
server_code set_control = 105
server_code notify_linestate = 106
server_code notify_modemstate = 107
server_code flow_control_susp = 108
server_code flow_control_res = 109
server_code set_linestate = 110
server_code set_modemstate = 111
server_code purge_data = 112

pub data Parity : Type 0 where
  none odd even mark space : Parity

unfoldable pub parity_byte : Parity → ℕ
parity_byte none = 1
parity_byte odd = 2
parity_byte even = 3
parity_byte mark = 4
parity_byte space = 5

pub data StopBits : Type 0 where
  one two one_and_half : StopBits

unfoldable pub stop_byte : StopBits → ℕ
stop_byte one = 1
stop_byte two = 2
stop_byte one_and_half = 3

pub data FlowControl : Type 0 where
  no_control xon_xoff rts_cts : FlowControl

unfoldable pub flow_byte : FlowControl → ℕ
flow_byte no_control = 1
flow_byte xon_xoff = 2
flow_byte rts_cts = 3

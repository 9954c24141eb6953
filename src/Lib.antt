-- ===== src/Lib.antt =====
-- Verification of the RFC 2217 proxy: a server that lets clients reach serial devices behind
-- outgoing TCP connections. A device registers with AT+REG=<token> and waits; a client asks for it
-- with AT+CONNECT=<token>, or by dialling ATD<token> through an emulated modem, and is bridged to
-- it. Before and behind its command a client may send its port setting, as RFC 2217 frames or as a
-- USR-VCOM packet.
--
-- The parts, and the files that model them:
-- * Rfc2217, for internal/connection/rfc2217.go: ParseRFC2217Commands is `parse_commands`,
--   BuildResponse `build_response`, IsQuery `is_query`. The index of the parser's loop is the head
--   of a list of bytes and the number of bytes that a jump still passes over.
-- * Usrvcom, for internal/connection/usrvcom.go: ParseUSRVCOM is `parse_usrvcom`,
--   ToRFC2217Commands `to_commands`, BuildRFC2217Packet `build_packet`.
-- * Protocol, for internal/connection/protocol.go: readLineWithSkipped is `read_line`,
--   parseATCommand `parse_at_command`, ReadATCommandWithPresets `read_at_command`.
-- * Modem, for internal/connection/modem.go: HandleCommand is `handle_command`.
-- * Device, for internal/device/registry.go, and Session, for internal/session/manager.go: one
--   function for each method. A device object and a connection are references into a store, so
--   that handlers share them as in the program.
-- * Handler, for internal/connection/handler.go: what handleDevice and handleClient do to the
--   registry, the devices, the sessions and the connections, in steps that end where the handler
--   waits or where another one can come between. Forward holds what goes to the device of the
--   data around the command, with ForwardRFC2217ToDevice as `forward`.
-- * Dispatch, for the same file: Handle is `handle`, the body of its loop behind the read is
--   `dispatch`.
-- * Bridge, for internal/session/bridge.go: a machine whose events are the reads that return, the
--   ticks of the keepalive and the steps of Run; copyWithActivity's body is `copy_reading`, a tick
--   `keep_both`.
-- * Waiting, for the end of handleDevice in internal/connection/handler.go: a machine whose events
--   are the steps of the goroutines deviceReader and deviceKeepalive.
-- * Config, for internal/config/config.go: Load is `load`, over an environment given as a function.
-- * Api, for internal/api/handlers.go and internal/api/server.go: each handler is a function of the
--   same name from a request to an answer, `serve` is the server with its routes. Texts and Page hold
--   the two pages with every byte of their text.
-- * Sharing, for deviceReader again and the device's loop of internal/session/bridge.go: both read
--   from the connection of a device in a session, one at a time, with one deadline.
-- * Keepalive, for internal/connection/keepalive.go and its files for Linux, macOS and other systems:
--   SetTCPKeepalive is `set_tcp_keepalive`, on a system whose answers are given; `keep_accepted` is
--   the handlers' call of it.
-- * Constants, for internal/rfc2217/constants.go.
-- * Program, for cmd/proxy/main.go and the Start of internal/connection/server.go and of
--   internal/api/server.go: the accept loop, the ends of the servers and the wait of main.
-- * Worlds, over all of these: the steps of the handlers in any order from the start of
--   cmd/proxy/main.go, with the requests to the HTTP interface between them. A step takes what
--   the code does between two waits as one, or one event of a session's bridge, which counts in
--   the session's object; the loop of Handle is a step too, since it touches its own connection
--   only. A registration is cut into its calls, since no lock is held over them, and Registering
--   puts them together for one handler; Rivals sets two handlers against each other. Passage and
--   Arrival follow one client from its first byte through its session, Standing and Meeting a
--   device and a client from the device's registration.
-- * Base, Text, Decimal, Base64, SyncMap and Conn hold what Go and its library give: lists of
--   bytes, the string functions, %d, base64, sync.Map as an association list, and network
--   connections.
-- * Tests runs the functions on concrete data and applies the theorems to them.
--
-- How the parts interact: Dispatch reads commands with Protocol, answers with Modem, and ends where
-- a handler begins. The handler parses the token, looks the device up in Device, makes a session in
-- Session, forwards to the device what Usrvcom and Rfc2217 make of the client's data, and leaves
-- both connections to a Bridge.
--
-- Numbers are natural; a byte is one below 256, and a sum that wraps around in the program is
-- written with its remainder. A reader is a list of bytes, edges between reads, and deadlines that
-- pass; what comes of each write of a connection is given in advance. The readings of the clock
-- are given in advance too: `read_at_command` takes two of time.Since in each round. Its loop and
-- that of `handle` run on fuel, one more than the length of the stream, which is enough because
-- each round that goes on takes an item off the stream; `digits` prints n with n rounds, and each
-- round divides by ten.
--
-- What the program takes from its surroundings is given: the environment, the addresses of
-- connections, and for the HTTP interface a record of the clock's readings and of times as text.
-- `Refinement` in Device and in Session states what the registry and the session manager are to
-- their clients, a function from identifiers, and which calls change it where.
--
-- Not modelled: the log, write deadlines, the PROXY protocol (a package that is not in the
-- repository; the kind of connection that it accepts is an argument), JSON as text, and requests
-- with percent-encoded paths, by CONNECT or for `*`. A duration on the dashboard is in
-- whole seconds where the program has a float64.
-- `ended` of a bridge is never set by its events: the program calls End only when Run has returned.
pub mod Base
pub mod Base64
pub mod Text
pub mod Decimal
pub mod Config
pub mod Conn
pub mod Api
pub mod Rfc2217
pub mod Usrvcom
pub mod Protocol
pub mod Modem
pub mod SyncMap
pub mod Device
pub mod Session
pub mod Constants
pub mod Keepalive
pub mod Forward
pub mod Handler
pub mod Dispatch
pub mod Bridge
pub mod Waiting
pub mod Sharing
pub mod Program
pub mod Worlds
pub mod Tests

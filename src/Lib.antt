-- ===== src/Lib.antt =====
-- The network commands of the studio's RIOT examples, their CoAP server and clients, and the start
-- of the example `xbd-net` that joins them.
--
-- The program's parts:
--   * examples/native-lwip/main: three shell commands, `udp`, `ip` and `tcp`, over lwIP's sockets.
--     Each has a client that sends hex data, converted by `hex2ints` of common.c, and a server: a
--     thread that opens a socket and then runs an event loop, whose handlers print what arrives.
--     The two sides share the static variables of their file.
--   * examples/native-sockets/main/udp.c: a `udp` command over POSIX sockets, with a server thread
--     that receives in a loop. The command reads and the thread writes `server_socket`.
--   * examples/xbd-net/modules/minerva_gcoap: a CoAP server with the resources /cli/stats and
--     /riot/board, and a client with blockwise transfers and a proxy. They share the count of
--     requests: the client counts, the server answers the count and lets it be set.
--   * examples/xbd-net/modules/minerva_xbd/gcoap.c: the same client for the Rust side, which keeps the
--     state of blockwise transfers and is told of each block. Beside it, shell.c feeds the Rust
--     side's shell with the input and xbd.c gives it timers.
--   * examples/xbd-net/modules/minerva_libcoap: a CoAP client on libcoap. Its handlers, which libcoap
--     calls, end the loop of the client through a static flag.
--   * examples/xbd-net/modules/minerva_gnrc/border_router.c: the search for the outer and the inner
--     interface of a border router, and the setting of their addresses.
--   * examples/xbd-net/modules/minerva_esp32_minimal: a registry of Ethernet devices, whose places
--     carry the interrupts to the drivers, and the commands `txtsnd` and `ifconfig`, which read it.
--   * examples/xbd-net/main/main.c: the start, which initialises a driver, has the border router set
--     up, starts a CoAP file server, and hands the functions of minerva_xbd to the Rust side.
--
-- The files:
--   * Base: the shared names. A C function is a `Prog`: from a state to a result and a new state, or
--     to `none` where it accesses memory outside an object or does what C leaves undefined.
--     `Returns` says that a run is not `none` and that its result meets a predicate. A state has a
--     log of what was printed and called, newest first; `calls` are the calls alone. Plan has
--     sequences of calls that stop at the first failure, Kinds those of which each is of a kind.
--   * Libc: `atoi` and `strtoul` on 32 bits. Decimal has the digits that `%d` prints.
--   * Lwip/Hex: `hex2ints`; Decode has its specification, Bounds what its callers need.
--   * Lwip/Udp, Lwip/Ip, Lwip/Tcp: the commands `udp_cmd`, `ip_cmd` and `tcp_cmd` with the functions
--     that they call, the server threads, and the handlers `udp_recv`, `ip_recv`, `tcp_recv` and
--     `tcp_accept` (the last two in Lwip/Tcp/Events). The modules below them hold the proofs: Laws
--     for the operations, Command for the command line, Server for threads and events, and
--     Lwip/Udp/Reach for the states that all of these reach together.
--   * Sockets: `udp_cmd`, `udp_send`, `udp_start_server`, the thread up to its loop, and
--     `receive_round`, one round of the loop.
--   * Gcoap/Server: `_encode_link`, `_stats_handler`, `riot_board_handler_minerva`,
--     `notify_observers` and `server_init` of server.c.
--   * Gcoap/Client: `_send`; below it Blockwise for `_resp_handler` (Transfer is
--     about a whole transfer), Config for `info` and `proxy`,
--     and Command for the other requests of `gcoap_cli_cmd`, all of client.c.
--   * Gcoap/Bridge: `xbd_gcoap_req_send` and `xbd_resp_handler` of
--     examples/xbd-net/modules/minerva_xbd/gcoap.c; the first is in Request, the second in Laws.
--   * Gcoap/Count says what the count of requests stands for; the Count modules beside the operations
--     keep it true, and Gcoap/Reach is about the states that client, bridge and server reach together.
--   * Gnrc: `find_ifces` and `set_ips`; Search is about the first, Setup about the second.
--   * EthMinimal: netdev_eth_minimal.c and shell_commands.c of minerva_esp32_minimal. Registry has the
--     states that registrations, events and commands reach (Keeps what leaves it alone), Receive is
--     about `_recv`, Command about `txtsnd`, and Init about the initialisation and `ifconfig`.
--   * Libcoap: client-coap.c, and `libcoap_cli_cmd` of client-coap.h. Events is about the handlers,
--     Resolve about `resolve_address`, Wait about the loop of `client_coap_init`. The rest of that
--     function is in Client, where Session is about the calls of a request, Outcome says how far
--     a client comes, and Cleanup is about the whole command.
--   * Xbd: shell.c (Shell) and xbd.c (Timers) of minerva_xbd.
--   * Startup: `main` of examples/xbd-net/main/main.c, which runs Gnrc on its own part of the state.
--   * Tests: the theorems at concrete systems.
--
-- RIOT, lwIP, gcoap, nanocoap, libcoap, the drivers, the Rust side and the POSIX layer are parameters:
-- a record `Env` for each file, with what their functions answer, as functions of the log, so that an
-- answer may depend on all that was done before. A packet of gcoap is the list of what was asked for
-- it; the lengths and the room
-- that gcoap computes from it are fields of `Env`.
--
-- Bounds: a line of the shell is shorter than its buffer (`FitsLine`), and the out-array of
-- `hex2ints` has half that size, as in the source. The receive buffer has 256 bytes in native-lwip,
-- 64 in native-sockets, and 1518 in minerva_esp32_minimal. Three loops end by what is outside the
-- program, and run on fuel. `tcp_recv` and the input handler of shell.c end when a read fails: fuel
-- above the number of successful reads is enough. The loop of the libcoap client ends when a handler
-- is told so or the time is over: if every call of `coap_io_process` takes a millisecond or more, fuel
-- above the waiting time in milliseconds is enough. An event loop is not a loop of the model: its
-- handlers run in any order.
--
-- Not modelled: the mains of native-lwip and native-sockets and the registration of shell commands;
-- the blocks of `set_ips` for RPL and multihop prefixes, which use a variable outside its scope; the
-- creation of the interfaces on ESP32, which is RIOT's; the Rust and Python parts; the copies of
-- libcoap's minimal examples and of the bindings of mbedtls. Of `main` the blocks behind `if (0)` are
-- left out. Preemption inside a handler is not modelled.
pub mod Base
pub mod Libc
pub mod Lwip
pub mod Sockets
pub mod Gcoap
pub mod Gnrc
pub mod EthMinimal
pub mod Libcoap
pub mod Xbd
pub mod Startup
pub mod Tests

-- ===== src/Lib.antt =====
-- udproxy: panel data over UDP. A kernel keeps a panel, the registers of the machine at its last clock
-- tick; a client beside it reads the panel 30 or 60 times a second and sends it as one datagram; the
-- server receives the datagrams of all clients and prints the registers as rows of lights. Paths below
-- start at the repository's root.
--
-- Base: shared names, Boolean tests, lists measured by native numbers (Base/Lists), little-endian bytes
-- and memory copies (Base/Bytes), C strings (Base/Text).
-- Layout: the sizes, alignments and byte orders of C structs on an LP64 host, a PDP-11 and a VAX. The
-- PDP-11 stores a 32-bit number with its high word first. Layout/Laws stores and loads.
-- Packet, PanelState: socket/panel_packet.h and the panel_state.h files of socket/arch/. `populate` is the
-- three assignments to `packet` before each `sendto`; Packet/Fields is what it leaves.
-- Display: the display functions of socket/server.c, one value of `Line` per printed line. Display/Binary
-- is about `format_binary` and `format_binary64`.
-- Server: `handle_udp_clients` of socket/server.c over the list of what `recvfrom` returns. The body of
-- its loop is `serve_once`; a list that is used up is a server that waits. Server/Accept counts frames,
-- Server/Progress the progress lines, Server/Delivery and its users follow one client packet through the
-- server, Server/Arrivals many; Server/Stale is about packets without their panel. Server/Main is the
-- socket's set-up, the signal handler and `main`.
-- Client: what the clients share, socket/common.c: the frame rate, `precise_delay`, and the shape of a
-- `while (1)` loop over the answers of its environment, one element per round.
-- Startup: options, `create_udp_socket`, and traces of the calls that open and close what a program
-- holds; Startup/Held reads such a trace.
-- NetBsdX64: socket/arch/NetBSDx64/client.c. NetBsdX64/EndToEnd joins it with the server.
-- NetBsdVax: socket/arch/NetBSDVAX/client.c; Notices says what it is to send, EndToEnd joins it with the
-- server, Main is its start.
-- Pdp: socket/arch/211BSD/client.c. Macos: socket/arch/macOS/client.c. Generic: socket/client.c, on a
-- system with the kvm library and on the others; Generic/Trace is about what it sends.
-- Symbols: `open_kmem_and_find_panel` of socket/client.c and of the 2.11BSD and VAX clients, with the
-- conversions of `sscanf` and `printf` that they use in Scan. `fgets` delivers 255 characters at most; a
-- word that is written beyond its array of 64 ends the search, and the calls that a trace has behind
-- `overruns` say nothing of the code.
-- LinuxX64: the kernel module socket/arch/LinuxX64/kprobe.c (LinuxX64/Kprobe), the client
-- socket/arch/LinuxX64/client.c (LinuxX64/Client), and both together (LinuxX64/RoundTrip).
-- PdpClock: the clock of the 2.11BSD kernel, socket/arch/211BSD/kern_clock.c: the timeout queue (Callout,
-- with what it stands for in Callout/View), the physical address of the program counter (Address), what a
-- tick charges, the time of day and `hzto` (Account), the whole interrupt with the panel
-- (Hardclock), and the callers of `sys_wait_for_panel` (Waiters).
-- An `int` has 16 bits there and a `long` 32, in two's complement.
-- NetBsdClock: the clocks of the NetBSD kernels, socket/arch/NetBSDx64/kern_clock.c and
-- socket/arch/NetBSDVAX/kern_clock.c, which are the same but for the VAX's notices: the rates (Init), what
-- is registered (Registration), the profiling clock (Profile), the statistics clock (Stat), the real-time
-- clock with the panel (Hard) and the notices to the client (Hard/Notify).
-- Proxy: the web proxy, proxy/. `get_panel_state` is its test of a packet; Proxy/Hex is `to_hex`,
-- Proxy/Panels the objects that `udp_packet_to_json` of pdproxy.cpp, amd64proxy.cpp and netbsdvaxproxy.cpp
-- makes, Proxy/Accept which packets are taken. Proxy/Loop is `ProxyBase` of proxybase.cpp: the threads of
-- the WebSocket server, of `run` and of `udp_loop`, which share the clients and the stop flag, as a
-- relation of single steps in any interleaving; Loop/Sockets, Loop/Stopping,
-- Loop/Delivery and Loop/Texts are about it.
-- Proxy/Main is proxy/main.cpp, the three proxies in one program: Main/Return and Main/Interrupt.
-- Proxy/FromX64, Proxy/FromVax and Proxy/FromPdp join it with the clients.
-- Examples: the theorems at concrete inputs.
--
-- The environment (the network, the kvm library, the kernel's memory, kqueue, nm, Mach) answers through
-- arguments, one answer per call, and no law is assumed of it. A loop without end is followed for as
-- many rounds as there are answers, so no fuel is needed there; `softclock` alone, which runs functions
-- that may queue themselves again, has fuel, and more rounds than entries are due are enough where each
-- function sets one timeout at most. Every function is total. Numbers are natural numbers below the size
-- of their C type, written with `%` where the code can wrap. `int` frame counts do not wrap here.
-- Printed text is a format with its numbers, not characters, but for the two places where the program
-- reads text back. Datagrams arrive as they are given: the ports, which differ between the NetBSD clients
-- and the server, are outside.
--
-- The kernels' clocks run one interrupt at a time; the locks and interrupt levels are outside, and so
-- are the machines' tests of the processor status and the functions that timeouts call, which are
-- parameters. The 2.11BSD clock is built with UCB_METER, the NetBSD clocks without GPROF and KDTRACE_HOOKS.
--
-- The proxy's steps are atomic between two accesses of what its threads share; the text of a JSON object
-- and the WebSocket server are the Crow library's, proxy/crow_all.h: the text is a parameter, and the
-- server's calls of the proxy are steps that can come at any time. The texts of the log are left out.
--
-- Not modelled: the 2.11BSD system call table, the diagnostic programs of socket/arch/211BSD and
-- socket/debug_vax_sizes.c, which are for use by hand, and the file server
-- (proxy/webserver.cpp), which is fixed wiring of library calls.
pub mod Base
pub mod Layout
pub mod Packet
pub mod PanelState
pub mod Display
pub mod Server
pub mod Client
pub mod NetBsdX64
pub mod Scan
pub mod LinuxX64
pub mod NetBsdVax
pub mod Pdp
pub mod Macos
pub mod Generic
pub mod PdpClock
pub mod NetBsdClock
pub mod Proxy
pub mod Startup
pub mod Symbols
pub mod Examples

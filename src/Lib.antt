-- ===== src/Lib.antt =====
-- gouter: the packet path of a user-space router that speaks BGP and MPLS, and the tables on it.
--
-- The program. Transports (WireGuard, MPLS over UDP) hand packets to the router, which looks at
-- each one (internal/router/router.go): an IP packet is for this host and goes to a NIC of the
-- embedded network stack (internal/netstack), or it is forwarded by the longest match in the FIB
-- (internal/router/fib.go) to the transport of the entry or of its next hop (nexthop.go); a
-- labelled packet is popped, swapped or pushed by the entry of its label (internal/mpls). BGP
-- (internal/bgp) fills the FIB and the label table.
--
-- Files and the code they model.
--   Base: shared names, Boolean tests, Go's == (Base/Equality), lists on the native numbers
--     (Base/Lists), unsigned integers with their wrap-around written out (Base/Word), Go's int
--     (Base/Integer), Go maps as
--     association lists (Base/Dict), disjunction of bit fields (Base/Bits), permutations
--     (Base/Perms).
--   Netip: the addresses and prefixes of Go's net/netip, as far as the program uses them.
--   Transport: internal/transport/transport.go.
--   Mpls/Label: internal/mpls/label.go: ParseLabel is parse_label, PushLabel push_label, and so
--     on; an error is `none`. Mpls/Lfib and Mpls/Allocator: internal/mpls/lfib.go. Mpls/Udp:
--     internal/mpls/transport.go, with the socket as a parameter.
--   Checksum: checksum of internal/router/router.go and of cmd/mplstest/main.go.
--   Router/Fib, Router/Nexthop: fib.go and nexthop.go of internal/router; Router/Fib/Store is
--     fib.go with the array under the slice of routes. Router/Header and Router/Packets:
--     router.go; a handler only reads the state of the router, so handle_packet and the functions
--     below it return an `Outcome`, the one thing that became of the packet. An index or a slice
--     of an IP header past the end of the packet is a panic, though Go lets a slice go on to the
--     capacity, and so is a swap without a label. Reads behind the length guards of label.go and
--     of detectPacketType have no such case.
--   Netstack/Manager, Netstack/Sockets: internal/netstack/stack.go, the NICs, and the listeners,
--     dialers and outgoing packets; gVisor's stack is a type parameter and its calls are the
--     fields of the records Calls and Gonet. Netstack/Forward: internal/netstack/forward.go, the
--     table of port forwards with the listeners that are open.
--   Bgp/Paths, Bgp/Families, Bgp/Export, Bgp/Start: internal/bgp/speaker.go, what the best paths
--     do to both tables, the address families of a peer, the routes that the router exports, and
--     Start with all that it calls; gobgp's NLRI and attributes are data types with what the
--     type switches tell apart. Bgp/Server: the calls of gobgp as values, and the actions that
--     make them, which end, fail or panic. Bgp/Filter: internal/bgp/filter.go. Bgp/Proxy:
--     internal/bgp/proxy.go, the addresses, ports and maps of the proxies. What the host, gobgp
--     or net/netip answers is a parameter.
--   Config: internal/config/config.go, the structs and the defaults of Load; reading the file
--     and decoding its YAML are parameters.
--   Wg/Tun: internal/wg/tun.go, the two channels of the in-memory TUN device, each the list of
--     what waits in it, one operation at a time. Wg/Transport: internal/wg/transport.go, where
--     the device, readLoop and the reader of the router take steps in any order.
--   Appctx: internal/appctx/ac.go, New. Appctx/Program: what is made of it with the speaker of
--     NewSpeaker, at work: a run of best paths, of transports, prefixes and NICs that come and go,
--     and of packets, in any order. The router, its resolver and the speaker share their tables by
--     pointers; each holds the contents here, and a change by the speaker changes all. Its child
--     modules tell what becomes of packets in terms of what the best paths left
--     (Bgp/Paths/Changes and Bgp/Paths/Bindings).
--   Http: internal/http_server/http_server.go, the pages as the calls that write them.
--   Cmd/Pingtest: cmd/pingtest/main.go, the router that main builds and its outbound loop;
--     Cmd/Pingtest/Main is main, from the environment on.
--   Cmd/Mplstest: cmd/mplstest/main.go, the router that main builds, from its socket to its
--     socket, and the packets that it is tried with; Cmd/Mplstest/Trials is its tests.
--   Tests: small runs, and every result with a hypothesis at a concrete input.
--
-- Fuel. handle_packet has fuel for packets inside labelled packets; each is four bytes shorter,
-- so `handle` gives it the length of the packet and one. The carry loop of the checksum has fuel
-- 3, enough for a 32-bit sum; the loop of the label allocator has allocate_fuel, enough for the
-- reserved labels and a reset. The bounds are proved where they are used.
--
-- Not modelled: locks, but for the interleavings of the allocator and, in Appctx/Program, of whole
-- operations; log lines; a forwarded connection once it is accepted, which is io.Copy's work;
-- sockets, the device of wireguard-go and its Configure; the dispatch of HTTP requests; the file
-- and the environment that a configuration is read from. In the packet path the entry that Lookup
-- returns is a value; what becomes of the pointer is modelled in Router/Fib/Store alone. A Go map
-- is visited in one order, that of its list; every statement is about all lists. The MTU of a
-- WireGuard transport is not negative; in a configuration an int may be.
pub mod Appctx
pub mod Base
pub mod Bgp
pub mod Checksum
pub mod Cmd
pub mod Config
pub mod Http
pub mod Mpls
pub mod Netip
pub mod Netstack
pub mod Router
pub mod Tests
pub mod Transport
pub mod Wg

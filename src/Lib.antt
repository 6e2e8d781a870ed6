-- ===== src/Lib.antt =====
-- The connection tracking and the wire protocol of the Windows kernel extension.
--
-- The driver (windows_kext/driver) tracks the connections of a machine for a user space firewall.
-- Packets and authorizations look a connection up in the connection cache, a miss is reported to
-- user space as an event, the verdict comes back as a command, and the end of an endpoint ends its
-- connections. An endpoint's closure waits for the decisions that were published before it.
--
-- The parts, with the files of the repository that they model:
--   Key            windows_kext/driver/src/connection_map.rs, `Key`: the five-tuple, its reverse and
--                  the loopback tests.
--   Connection     windows_kext/driver/src/connection.rs: verdicts, the trait `Connection` as a
--                  record of operations (`ConnectionTrait`), the identity counter, the redirect
--                  data. `Connection.V4` and `Connection.V6` are its two implementations, and
--                  `Connection.Laws` what the map relies on in them.
--   ConnectionMap  windows_kext/driver/src/connection_map.rs: `ConnectionMap.Bucket` is
--                  `ConnectionBucket`, `ConnectionMap.Remote` is `RemoteConnections`,
--                  `ConnectionMap.Search` the searches, and `ConnectionMap.Cache` the map with every
--                  operation of it; its reads are in `ConnectionMap.Cache.Read` and what ends and
--                  removes entries in `ConnectionMap.Cache.Close`. The map is generic in the trait.
--   ConnectionCache  windows_kext/driver/src/connection_cache.rs: the maps of both families.
--                  `ConnectionCache.Family` has what a method does to one map, and
--                  `ConnectionCache.Policy` the methods that choose the map by the key.
--   TcpClosureCache  windows_kext/driver/src/tcp_closure_cache.rs: closures that wait for requests.
--   TcpEndpointCache  windows_kext/driver/src/tcp_endpoint_cache.rs: the endpoint handles of TCP
--                  connections; `TcpEndpointCache.Handles` is `TcpEndpointHandles`, and
--                  `TcpEndpointCache.Transitions` has the operations that the callouts call.
--   IdCache        windows_kext/driver/src/id_cache.rs: the packets that wait for a verdict.
--                  `IdCache.Pending` is `PendingIds` with the reverse index, and `IdCache.Push` is
--                  `push`, with `Packet` of windows_kext/driver/src/device.rs. `IdCache.Announced`
--                  says what user space is to read of a queued packet.
--   UdpEndpointCache  windows_kext/driver/src/udp_endpoint_cache.rs: the peers of UDP endpoints.
--   UdpFlowCache   windows_kext/driver/src/udp_flow_cache.rs: the flow contexts that the filter
--                  engine holds, their removal and the unload.
--   IcmpEchoCache  windows_kext/driver/src/icmp_echo_cache.rs: the processes of echo requests.
--   Ipv6Packet     windows_kext/driver/src/ipv6_packet.rs: the walk over the extension headers, and
--                  in `Ipv6Packet.Rewrite` the rewrite of addresses, port and checksum.
--   Device         windows_kext/driver/src/device.rs: `Device.Read` is `read` with the requests of
--                  windows_kext/wdk/src/irp_helpers.rs, `Device.Write` the loop of `write`.
--   AlePolicy      windows_kext/driver/src/ale_policy.rs: the guards on injected indications.
--   Bandwidth      windows_kext/driver/src/bandwidth.rs: the byte counters of each connection, and
--                  their reports.
--   Logger         windows_kext/driver/src/logger.rs: the ring of log lines. Its array of 1024 slots
--                  is a function of the index, which every access takes modulo 1024.
--   ArrayHolder    windows_kext/driver/src/array_holder.rs: bytes held over to the next read.
--   Protocol       windows_kext/protocol/src: `Protocol.Command` is command.rs, `Protocol.Info` is
--                  info.rs. `Protocol.Frames` reads the events as user space has to, and
--                  `Protocol.Decode` their fields.
--   Prelude        lists, Boolean tests, orders, bytes, and `BTreeMap` as a sorted list of entries.
--
-- State is passed explicitly: an operation on `&mut self` returns the new state beside its result,
-- and a write through a returned reference is a function that the operation applies in place. A
-- lock is not modelled: each operation runs under one guard, so that it is one step. The abstract
-- view of the cache is `generations_at`: the entries of one group and endpoint, oldest first,
-- whichever of the compact representations holds them.
--
-- Numbers: identities, ports and times are natural numbers; the identity counter wraps at 2^64,
-- and the length fields at 2^32. A subtraction of times stops at 0, as `saturating_sub` does. An
-- IP protocol is its number. An address is the list of its bytes; that it has 4 or 16 of them is
-- a hypothesis where it matters. The keys of the maps are ordered as the derived order of Rust
-- has it, but for the IP protocols, which go by their number; that only decides the order of
-- entries. The walk over IPv6 headers recurses on the number of headers that it may still
-- follow. Two loops run on fuel: that of the identity counter, for which two rounds are enough,
-- and that over the commands of a write, for which one round for each byte is enough.
--
-- Parameters: smoltcp's loopback tests and the value that the registry holds for the special ports
-- (`Platform`), the clock (an argument `now`), the growth of a vector (`reserve` of `write_str`),
-- the order and the bytes of the addresses of `Bandwidth`, the saved packets of the filter engine
-- with what is read of them (`Wfp`), smoltcp's checks, accessors and setters of packets (`Wire`,
-- with its documented behaviour as `Documented`), and the pended classification of the
-- filter engine (`ClassifyPend`).
--
-- Not modelled: `Display` and `Debug`, the memory size of the representations and the recycling of
-- allocations, the panics on an empty bucket (a valid cache has none), the readers that cache parts
-- of a packet, and the parts of the driver that call the kernel: callouts, net buffers, injection,
-- I/O queues and the rest of the device. What one command does to the device is a parameter of the
-- write loop.
pub mod AlePolicy
pub mod ArrayHolder
pub mod Bandwidth
pub mod Connection
pub mod ConnectionCache
pub mod ConnectionMap
pub mod Device
pub mod IcmpEchoCache
pub mod IdCache
pub mod Ipv6Packet
pub mod Key
pub mod Logger
pub mod Prelude
pub mod Protocol
pub mod TcpClosureCache
pub mod TcpEndpointCache
pub mod Tests
pub mod UdpEndpointCache
pub mod UdpFlowCache

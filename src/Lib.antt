-- ===== src/Lib.antt =====
-- Verification of libvig, the library of data structures that the Vigor network functions keep
-- their state in, and of five of these functions: the firewall, the policer, the NAT, the bridge
-- and the load balancer. The files follow libvig/verified/ from the bottom up, then vigfw/,
-- vigpol/, vignat/, vigbridge/ and viglb/.
--
-- - MapImpl: map-impl.c and map-impl-pow2.c, an open-addressing hash table in five parallel arrays
--   (`Table`). A function has the name of the C function; the loops are `find_from`, `remove_from`,
--   `find_empty_from`, `clear_from` and `size_from`. MapImpl.Interface has what the C code is
--   handed or compiled with: `KeyOps` is the pair of function pointers of map-util.h with their
--   contracts, and `Build` is `loop` with the capacity check of `map_allocate`, which the macro
--   CAPACITY_POW2 switches. MapImpl.Loop gives both builds.
-- - Map: map.c, the map that the network functions call. Map.Dict is the contract of map.h, a
--   partial function in which a put of a present key, a put without room and an erase of an absent
--   key are outside the contract. Map.Run is about sequences of calls.
-- - DoubleChainImpl: double-chain-impl.c, two linked lists in one array of cells, write by write.
-- - DoubleChain: double-chain.c, the allocator of indices with their times of last use.
--   DoubleChain.Entries is the contract of double-chain.h: the allocated indices, oldest first.
-- - Vector: vector.c.
-- - DoubleMap: double-map.c, an array of values with two hash tables. `ValueOps` has the functions
--   that a client hands over, with their contracts. `IsDouble` says which values a map stores.
-- - Expirator: expirator.c. `expire_items_single_map` works on a chain, a vector of keys and a map
--   together, and Expirator.Coherent says when the three agree. Expirator.Double is `expire_items`,
--   which works on a chain and a double map.
-- - Cht: cht.c, the choice of a backend by a consistent hash, and the filling of its table.
--   `IsSize` is what the filling asks of the sizes: the height is a prime below 40000.
-- - Lpm: lpm-dir-24-8.c, routes in two levels of tables. `IsLpm` is the invariant, and Lpm.Run is
--   about sequences of updates. A rule of more than 24 bits that comes after a shorter one that
--   covers it is left out there: the code then drops the route of the addresses around it.
--   Lpm.Longest has the longest prefix among the rules that cover an address.
-- - ItemTable: what the network functions have in common, a chain, keys and a map that index values
--   of theirs. It has no code of its own. Its invariant is `IsItemTable`, and `live` is the value
--   of a key with its time of last use, by which the theorems speak of the state.
-- - Packet: the header fields that the network functions read and write.
-- - Headers: packet-io.c and the header getters of nf-util.h and nf-util.c. A packet is its bytes
--   and its length, and a pointer into it is an offset. `Layout` is what the headers of DPDK define.
--   `nf_process` of a network function takes what these getters return.
-- - Firewall: vigfw/fw_flowmanager.c and vigfw/fw_main.c. `nf_process` takes what the two header
--   getters return, as an option each, and the device of the packet, and returns where it goes and
--   the new state. `Firewall.Table.live` is the device and the time of a flow. Firewall.History is
--   about the states that any packets lead to.
-- - Policer: vigpol/policer_main.c. Policer.Bucket is the 64-bit arithmetic of a token bucket,
--   Policer.Rate how much it lets through, Policer.Check and Policer.Process the calls.
-- - Nat: vignat/nat_flowmanager.c and vignat/nat_main.c, for packets with both headers.
--   Nat.Table.mapping is the index of a flow, to which `start_port` is added to get its port.
-- - Ether: ether.c, the address of a frame as a key. The CRC instruction is a parameter.
-- - Bridge: vigbridge/bridge_main.c. Bridge.Learn.learned is what the bridge knows of an address.
--   The static rules are a map that is read only. An `int` that may be negative is its 32 bits.
-- - Balancer: viglb/lb_balancer.c and, in Balancer.Main, viglb/lb_main.c. The recursion of
--   `lb_get_backend` runs on fuel, and two calls are enough. Balancer.Flows.assigned is the backend
--   of a flow, Balancer.Heartbeat.backend_of the active backend of an address. Balancer.Filled puts
--   the balancer and the filling of the consistent hash together. The key functions of
--   the network functions' own keys are generated code, here a `KeyOps` argument.
-- - Prelude: Boolean tests, C arrays, lists, counting below a bound, bits of numbers, integers.
-- - Tests: runs on concrete inputs.
--
-- A C array is a function from the index, so that a read or write has no bounds check; the
-- invariants are about the indices below the capacity. A number of type `unsigned` or `int` that
-- the code counts with wraps at 2^32. A pointer to a key is the key: the code never writes to a key
-- while it is in a map. An allocation is an argument, with what the memory happens to hold, or
-- `none` for NULL. Times are integers, compared as the code does.
--
-- Every `for` loop is a recursion on the rounds that the capacity allows. The `while` loop of the
-- expirator runs on fuel, one more than the capacity of the vector or of the double map: each round
-- frees an index, and the theorems on the loops say that they return.
--
-- Times that the network functions subtract are 64-bit numbers, with the wrap of the C code. A port
-- below `start_port` or beyond the table makes vignat read outside the allocator's arrays; the
-- model of the NAT faults there.
--
-- Not modelled: the clock, the moving of a packet in its buffer, the file of static rules of
-- the bridge, the set-up of the network functions, which calls generated code, their command
-- lines, the MAC addresses and the checksum that they write, the concurrent variants and the
-- sketch under libvig/unverified, and everything that only models or drives the environment.
--
-- The double of a capacity is below INT_MAX, which is the contract of `loop` in map-impl.c and for
-- powers of two leaves out 2^30 alone.
pub mod Prelude
pub mod MapImpl
pub mod Lpm
pub mod Map
pub mod DoubleMap
pub mod DoubleChainImpl
pub mod DoubleChain
pub mod Vector
pub mod Expirator
pub mod ItemTable
pub mod Packet
pub mod Headers
pub mod Firewall
pub mod Nat
pub mod Policer
pub mod Tests
pub mod Ether
pub mod Bridge
pub mod Cht
pub mod Balancer

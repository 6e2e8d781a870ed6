-- ===== src/ConnectionMap.antt =====
-- windows_kext/driver/src/connection_map.rs: the connection cache of one address family. `Bucket`
-- holds the generations of one remote endpoint, `Remote` the endpoints of one local port, and `Map`
-- is the cache. `Spec` reads the cache as a function from endpoints to generations.
pub mod Bucket
pub mod Remote
pub mod Search
pub mod Cache

-- ===== src/Device.antt =====
-- windows_kext/driver/src/device.rs: the stream of events that user space reads, and the commands
-- that it writes. The rest of the device calls the kernel.
pub mod Read
pub mod Stream
pub mod Write
pub mod Commands

-- ===== src/Protocol.antt =====
-- windows_kext/protocol: the commands that user mode writes and the events that it reads.
pub mod Slices
pub mod Command
pub mod RoundTrip
pub mod Split
pub mod Info
pub mod Frames
pub mod Decode
pub mod LogLines

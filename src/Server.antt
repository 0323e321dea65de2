-- ===== src/Server.antt =====
-- The chat server in C++ (src/core/, src/reactor/): what it reads and writes are the frames of
-- gateway/src/pcap.ts, whose numbers are those of include/pulsechat/protocol.hpp.
pub mod Wire
pub mod Buffer
pub mod IdMap
pub mod Rooms
pub mod Connection
pub mod Reactor
mod Tests

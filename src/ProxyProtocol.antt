-- ===== src/ProxyProtocol.antt =====
-- src/proxy_protocol.rs: detection and parsing of a PROXY header at the start of a connection.
-- A connection is the list of the chunks that the network delivers: a read returns at most as much
-- as was asked for of the next chunk, an empty read is the end of the stream, and an I/O error is
-- an event of its own. The parser of IP addresses is the parameter `parse_ip`.
pub mod Stream
pub mod Words
pub mod Header
pub mod Detect
pub mod Conserves
pub mod Promise
pub mod Rewind
pub mod Contract
mod Tests

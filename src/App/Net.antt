-- ===== src/App/Net.antt =====
-- The network client, app/sys/eg_net.c: the decoding of hexadecimal text and the state of the connection.
pub mod Client
pub mod Hex
pub mod Link
pub mod Bits
pub mod Frame

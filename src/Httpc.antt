-- ===== src/Httpc.antt =====
-- The httpc package: why a call failed, which addresses a guarded client may connect to, the
-- retries of the transport, the tokens of a client, and its calls.
pub mod Fault
pub mod Ssrf
pub mod Transport
pub mod Client
pub mod Debug
pub mod Bytes
pub mod Sending

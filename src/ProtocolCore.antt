-- ===== src/ProtocolCore.antt =====
-- `pywayland/protocol_core`: the classes that the generated protocol modules build on.
pub mod Argument
pub mod Message
pub mod Interface
pub mod Proxy
pub mod Resource
pub mod Global

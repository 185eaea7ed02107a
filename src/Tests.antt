-- ===== src/Tests.antt =====
-- Concrete inputs, runs of the definitions, and the theorems at those inputs.
mod Additions
mod SampleCffi
mod Messages
mod Dispatchers
mod Modules
mod Parsing
mod Clients
mod Events
mod Utilities
mod Servers
mod Displays
mod Documentations
mod Globals
mod Interfaces
mod Listeners
mod Mains
mod Proxies

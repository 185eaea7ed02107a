-- ===== src/Scanner.antt =====
-- `pywayland/scanner`: the generator that reads protocol XML files and writes Python modules.
pub mod ArgumentType
pub mod Library
pub mod Main
pub mod Printer
pub mod Xml
pub mod Description
pub mod Entry
pub mod Enum
pub mod Argument
pub mod Method
pub mod Interface
pub mod Protocol

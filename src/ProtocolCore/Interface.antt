-- ===== src/ProtocolCore/Interface.antt =====
-- pywayland/protocol_core/interface.py: an interface class, whose decorators register messages, and
-- its `wl_interface` struct.
pub mod Memory
pub mod Opcodes
use pywayland_i6ie.Base.{
  ℕ, ℤ, String, Option, List, [], ◌∷◌, ◌++◌, Result, ok, ◌>>=◌, map_result, length,
}
use pywayland_i6ie.ProtocolCore.Argument.{Argument, ClassName}
use pywayland_i6ie.ProtocolCore.Message.{Ptr, Message, message, WlMessage, build_message_struct}
use pywayland_i6ie.ProtocolCore.Message.Wire.{Value, int_value, Cffi}

pub record InterfaceClass : Type 0 where
  pub name : String
  pub version : ℤ
  pub events : List Message
  pub requests : List Message

-- A class statement with its `name` and `version`: `InterfaceMeta.__init__` sets empty lists.
unfoldable pub interface_class : String → ℤ → InterfaceClass
interface_class name version = record { name = name; version = version; events = []; requests = [] }

-- What `cls.event(*arguments, version=version)` does to the class when it decorates a function of
-- this name, and what `cls.request` does.
unfoldable pub event : String → List Argument → Option ℕ → InterfaceClass → InterfaceClass
unfolding message
event func arguments version cls = record cls {
  events = cls.events ++ message func arguments version ∷ [];
}

unfoldable pub request : String → List Argument → Option ℕ → InterfaceClass → InterfaceClass
unfolding message
request func arguments version cls = record cls {
  requests = cls.requests ++ message func arguments version ∷ [];
}

-- The fields of the C struct.
pub record WlInterface : Type 0 where
  pub name : String
  pub version : ℤ
  pub method_count : ℕ
  pub methods : List WlMessage
  pub event_count : ℕ
  pub events : List WlMessage

-- `_gen_c`, by the struct that it leaves if it does not raise: the requests come before the events.
module _ (C : Cffi) (interface_ptr : ClassName → Option Ptr) where
  unfoldable pub gen_c : InterfaceClass → Result WlInterface
  unfolding build_message_struct
  gen_c cls = do
    version ← C.to_int32 (int_value cls.version)
    methods ← map_result (build_message_struct interface_ptr) cls.requests
    events ← map_result (build_message_struct interface_ptr) cls.events
    ok (record {
      name = cls.name;
      version = version;
      method_count = length cls.requests;
      methods = methods;
      event_count = length cls.events;
      events = events;
    })

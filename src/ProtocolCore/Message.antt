-- ===== src/ProtocolCore/Message.antt =====
-- pywayland/protocol_core/message.py: a message of an interface, and its `wl_message` struct.
pub mod Signature
pub mod Wire
pub mod ToC
pub mod ToPython
pub mod RoundTrip
pub mod Slots
pub mod Faults
use pywayland_i6ie.Base.{
  ℕ, String, ◌<>◌, Bool, true, false, Option, none, some, List, [], ◌∷◌, ◌++◌, map, Result, ok, err,
  assertion_error, ◌>>=◌, map_result,
}
use pywayland_i6ie.Base.Text.{concat, str, strip_underscores}
use pywayland_i6ie.Scanner.ArgumentType.{ArgumentType, string, uint, new_id}
use pywayland_i6ie.ProtocolCore.Argument.{Argument, ClassName, signature}

-- An address of C memory; 0 is NULL.
abbrev pub Ptr : Type 0
Ptr = ℕ

abbrev pub null : Ptr
null = 0

pub record Message : Type 0 where
  pub name : String
  pub arguments : List Argument
  pub version : Option ℕ

-- `Message(func, arguments, version)`, of the function's `__name__`.
unfoldable pub message : String → List Argument → Option ℕ → Message
message func_name arguments version = record {
  name = strip_underscores func_name;
  arguments = arguments;
  version = version;
}

abbrev plain_argument : ArgumentType → Argument
plain_argument t = record { argument_type = t; nullable = false; interface = none }

-- What `_marshaled_arguments` yields for one argument.
unfoldable pub marshaled_argument : ArgumentType → Option ClassName → Argument → List Argument
marshaled_argument new_id none arg = plain_argument string ∷ plain_argument uint ∷ arg ∷ []
marshaled_argument _ _ arg = arg ∷ []

unfoldable pub marshaled_arguments : List Argument → List Argument
unfolding marshaled_argument
marshaled_arguments [] = []
marshaled_arguments (arg ∷ arguments) =
    marshaled_argument arg.argument_type arg.interface arg ++ marshaled_arguments arguments

-- The fields of the C struct; `types` holds one `wl_interface` pointer for each slot.
pub record WlMessage : Type 0 where
  pub name : String
  pub signature : String
  pub types : List Ptr

version_prefix : Option ℕ → String → String
version_prefix none text = text
version_prefix (some version) text = str version <> text

unfoldable pub message_signature : Message → String
unfolding version_prefix
message_signature m = version_prefix m.version (concat (map signature m.arguments))

module _ (interface_ptr : ClassName → Option Ptr) where
  -- The pointer stored for an argument; a class whose `_ptr` is `None` fails the assertion.
  some_pointer : Option Ptr → Result Ptr
  some_pointer none = err assertion_error
  some_pointer (some ptr) = ok ptr

  unfoldable pub type_pointer : Option ClassName → Result Ptr
  unfolding some_pointer
  type_pointer none = ok null
  type_pointer (some interface) = some_pointer (interface_ptr interface)

  abbrev pub slot_pointers : List Argument → Result (List Ptr)
  slot_pointers = map_result (λ (a : Argument). type_pointer a.interface)

  unfoldable pub build_message_struct : Message → Result WlMessage
  unfolding type_pointer
  build_message_struct m = do
    types ← slot_pointers (marshaled_arguments m.arguments)
    ok (record { name = m.name; signature = message_signature m; types = types })

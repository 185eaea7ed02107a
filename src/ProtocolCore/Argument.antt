-- ===== src/ProtocolCore/Argument.antt =====
-- pywayland/protocol_core/argument.py: an argument of a message at run time.
pub mod Signature
use pywayland_i6ie.Base.{String, ◌<>◌, Bool, true, false, Option, none, some, if◌then◌else◌}
use pywayland_i6ie.Scanner.ArgumentType.{
  ArgumentType, int, uint, fixed, string, object, new_id, array, file_descriptor,
}

-- An interface class, by its name.
abbrev pub ClassName : Type 0
ClassName = String

pub record Argument : Type 0 where
  pub argument_type : ArgumentType
  pub nullable : Bool
  pub interface : Option ClassName

base_signature : ArgumentType → Option ClassName → String
base_signature int _ = "i"
base_signature uint _ = "u"
base_signature fixed _ = "f"
base_signature string _ = "s"
base_signature object _ = "o"
base_signature new_id none = "sun"
base_signature new_id (some _) = "n"
base_signature array _ = "a"
base_signature file_descriptor _ = "h"

unfoldable pub signature : Argument → String
unfolding base_signature
signature a =
    let base = base_signature a.argument_type a.interface in
    if a.nullable then "?" <> base else base

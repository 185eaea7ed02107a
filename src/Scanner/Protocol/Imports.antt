-- ===== src/Scanner/Protocol/Imports.antt =====
-- The dict from interfaces to protocols that `main` builds.
use pywayland_i6ie.Base.{
  String, ◌≡◌, refl, ◌∙◌, Bool, Option, none, some, List, [], ◌∷◌, if◌then◌else◌, ◌==◌, String-Eq,
  any, arith,
}
use pywayland_i6ie.Base.Dict.{Dict, lookup, insert, lookup-insert}
use pywayland_i6ie.Scanner.Interface.{Interface}
use pywayland_i6ie.Scanner.Protocol.{Protocol, add_interfaces, add_protocols, protocol_imports}

abbrev pub or_else : Option String → Option String → Option String
or_else none other = other
or_else (some x) other = some x

pub or_else-none : (o : Option String) → or_else o none ≡ o
or_else-none none = refl
or_else-none (some x) = refl

abbrev pub has_interface : String → List Interface → Bool
has_interface name interfaces = any (λ (i : Interface). i.name == name) interfaces

-- The name of the last protocol that has the interface.
abbrev pub last_owner : String → List Protocol → Option String
last_owner name [] = none
last_owner name (protocol ∷ protocols) =
    or_else (last_owner name protocols)
      (if has_interface name protocol.interface then some protocol.name else none)

lookup-add_interfaces :
    (name protocol : String) (interfaces : List Interface) (d : Dict String)
    → lookup name (add_interfaces protocol interfaces d)
      ≡ (if has_interface name interfaces then some protocol else lookup name d)
unfolding add_interfaces
lookup-add_interfaces name protocol [] d = refl
lookup-add_interfaces name protocol (i ∷ interfaces) d = ground (
  arith,
  lookup-add_interfaces name protocol interfaces (insert i.name protocol d),
  lookup-insert i.name name protocol d,
)

lookup-add_protocols :
    (name : String) (protocols : List Protocol) (d : Dict String)
    → lookup name (add_protocols protocols d) ≡ or_else (last_owner name protocols) (lookup name d)
unfolding add_protocols
lookup-add_protocols name [] d = refl
lookup-add_protocols name (protocol ∷ protocols) d = ground (
  arith,
  lookup-add_protocols name protocols (add_interfaces protocol.name protocol.interface d),
  lookup-add_interfaces name protocol.name protocol.interface d,
)

-- The dict that `main` passes to the protocols maps an interface to the last of the protocols that
-- has it, and has no other interface.
pub lookup-protocol_imports :
    (name : String) (protocols : List Protocol)
    → lookup name (protocol_imports protocols) ≡ last_owner name protocols
unfolding protocol_imports lookup
lookup-protocol_imports name protocols = lookup-add_protocols name protocols [] ∙ or_else-none _

-- ===== src/Tests/Parsing.antt =====
-- A protocol with two empty interfaces, parsed.
use pywayland_i6ie.Base.{String, ◌≡◌, refl, none, some, [], ◌∷◌, map, ok}
use pywayland_i6ie.Base.Words.{}
use pywayland_i6ie.Scanner.Interface.{Interface}
use pywayland_i6ie.Scanner.Protocol.{Protocol, parse_protocol}
use pywayland_i6ie.Scanner.Xml.{Xml, element, node, end, parse_optional_attribute, findall}
use pywayland_i6ie.Scanner.Protocol.Parsing.{names-parse_protocol}
use pywayland_i6ie.Generated.{}
use pywayland_i6ie.Tests.Modules.{plain_library}

-- A protocol with two empty interfaces, and what is parsed of it.
abbrev interface_element : String → Xml
interface_element name = element "interface" (("name", name) ∷ ("version", "1") ∷ []) none end

abbrev protocol_element : Xml
protocol_element =
    element "protocol" (("name", "my-protocol") ∷ []) none
      (node (interface_element "my_shell") (node (interface_element "my_cursor") end))

abbrev empty_interface : String → Interface
empty_interface name = record {
  name = name;
  version = "1";
  description = none;
  enum = [];
  event = [];
  request = [];
}

abbrev parsed : Protocol
parsed = record {
  name = "my-protocol";
  copyright = none;
  description = none;
  interface = empty_interface "my_shell" ∷ empty_interface "my_cursor" ∷ [];
}

parsed_ok : parse_protocol plain_library protocol_element ≡ ok parsed
unfolding parse_protocol
parsed_ok = refl

names-parse_protocol_example :
    (map (λ (i : Interface). some i.name) parsed.interface
      ≡ map (λ child. parse_optional_attribute child "name") (findall protocol_element "interface"))
    × (some parsed.name ≡ parse_optional_attribute protocol_element "name")
names-parse_protocol_example = names-parse_protocol plain_library protocol_element parsed parsed_ok

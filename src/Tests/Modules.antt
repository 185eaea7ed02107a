-- ===== src/Tests/Modules.antt =====
-- The scanner: two interfaces of a protocol that name each other, and the module of one of them.
use Prim.Native.Nat.{◌*◌}
use pywayland_i6ie.Base.{
  ◌+◌, ◌<>◌, String, ◌≡◌, refl, Bool, false, Option, none, some, List, [], ◌∷◌, ◌++◌, map, ok, err,
  length, In, inl, unbound_local_error,
}
use pywayland_i6ie.Base.Dict.{Dict, lookup, insert}
use pywayland_i6ie.Base.Words.{
  camel_case, upper, replace_dashes, split_paragraphs, starts_with, lstrip,
}
use pywayland_i6ie.Scanner.ArgumentType.{ArgumentType, uint, new_id}
use pywayland_i6ie.Scanner.Library.{Library}
use pywayland_i6ie.Scanner.Printer.{Printer, printer, line, each, indented, when_some, blank}
use pywayland_i6ie.Scanner.Printer.Docs.{doc, docstring}
use pywayland_i6ie.Scanner.Entry.{entry_value, member_name}
use pywayland_i6ie.Scanner.Argument.{Argument, parse_type, argument_text}
use pywayland_i6ie.Scanner.Method.{Method, protocol_of, output_method}
use pywayland_i6ie.Scanner.Method.Imports.{IsImported}
use pywayland_i6ie.Scanner.Method.Request.{marshal_args, request_class}
use pywayland_i6ie.Scanner.Method.Event.{event_args}
use pywayland_i6ie.Scanner.Interface.{
  Interface, Import, methods, interface_imports, output_interface,
}
use pywayland_i6ie.Scanner.Interface.Imports.{IsIncreasing, interface_imports-IsImported}
use pywayland_i6ie.Scanner.Interface.TopLevel.{top_lines}
use pywayland_i6ie.Scanner.Interface.Statements.{statements, top_lines-output_interface}
use pywayland_i6ie.Scanner.Protocol.{Protocol, protocol_imports, output_protocol, path_join}
use pywayland_i6ie.Scanner.Protocol.Files.{written_paths, output_protocol_paths}
use pywayland_i6ie.Scanner.Protocol.Imports.{last_owner, lookup-protocol_imports}
use pywayland_i6ie.ProtocolCore.Message.{marshaled_arguments}
use pywayland_i6ie.ProtocolCore.Message.Slots.{value_slots}
use pywayland_i6ie.Generated.{
  built, new_ids, untyped_new_ids, length-marshal_args, length-event_args,
}

-- Texts that need no filling and no links.
abbrev pub plain_library : Library
plain_library = record {
  fill = λ width text indent. ok text;
  dedent = λ text. text;
  sub = λ names replace text. text;
}

abbrev argument : String → ArgumentType → Option String → Argument
argument name type interface = record {
  name = name;
  type = type;
  summary = none;
  interface = interface;
  allow_null = false;
  enum = none;
  description = none;
}

abbrev method : String → List Argument → Method
method name arg = record { name = name; since = none; description = none; arg = arg }

abbrev get_registry : Method
get_registry = method "get_registry" (argument "registry" new_id (some "wl_registry") ∷ [])

abbrev bind : Method
bind = method "bind" (argument "name" uint none ∷ argument "id" new_id none ∷ [])

abbrev wl_display : Interface
wl_display = record {
  name = "wl_display";
  version = "1";
  description = none;
  enum = [];
  event = [];
  request = record { method = get_registry; type = none } ∷ [];
}

abbrev wl_registry : Interface
wl_registry = record {
  name = "wl_registry";
  version = "1";
  description = none;
  enum = [];
  event = [];
  request = record { method = bind; type = none } ∷ [];
}

abbrev wayland : Protocol
wayland = record {
  name = "wayland";
  copyright = none;
  description = none;
  interface = wl_display ∷ wl_registry ∷ [];
}

abbrev protocols : List Protocol
protocols = wayland ∷ []

abbrev module_imports : Dict String
module_imports = ("wl_display", "wayland") ∷ ("wl_registry", "wayland") ∷ []

wayland_imports : protocol_imports protocols ≡ module_imports
unfolding protocol_imports insert
wayland_imports = refl

lookup-protocol_imports_example :
    lookup "wl_registry" (protocol_imports protocols) ≡ last_owner "wl_registry" protocols
lookup-protocol_imports_example = lookup-protocol_imports "wl_registry" protocols

abbrev display_imports : List (String × String)
display_imports = (".wl_registry", "WlRegistry") ∷ []

display_found : interface_imports wl_display module_imports ≡ ok display_imports
unfolding interface_imports lookup camel_case protocol_of
display_found = refl

get_registry_method : In get_registry (methods wl_display)
unfolding methods
get_registry_method = inl refl

interface_imports-IsImported_example :
    IsIncreasing display_imports
    × IsImported "wl_display" module_imports display_imports (some "wl_registry")
interface_imports-IsImported_example =
    interface_imports-IsImported wl_display module_imports display_imports display_found
      get_registry (argument "registry" new_id (some "wl_registry")) get_registry_method (inl refl)

length-marshal_args_example :
    length (marshal_args bind.arg) ≡ value_slots (marshaled_arguments (map built bind.arg))
length-marshal_args_example =
    length-marshal_args bind.arg (λ p. absurd (cc), (λ p. absurd (cc), tt))

length-event_args_example :
    length (event_args bind.arg) + 2 * untyped_new_ids bind.arg
    ≡ value_slots (marshaled_arguments (map built bind.arg)) + new_ids bind.arg
length-event_args_example = length-event_args bind.arg

-- `wl_data_device.data_offer` passes on one value, and its message takes none.
data_offer_values :
    (length (event_args (argument "id" new_id (some "wl_data_offer") ∷ [])) ≡ 1)
    × (value_slots
          (marshaled_arguments (map built (argument "id" new_id (some "wl_data_offer") ∷ [])))
        ≡ 0)
unfolding event_args value_slots marshaled_arguments
data_offer_values = (refl, refl)

registry_text :
    argument_text (argument "registry" new_id (some "wl_registry"))
    ≡ "Argument(ArgumentType.NewId, interface=WlRegistry)"
unfolding argument_text camel_case
registry_text = refl

unknown_type : parse_type "float" ≡ err unbound_local_error
unfolding parse_type
unknown_type = refl

hex_value : entry_value "0x1f" ≡ "0x1F"
unfolding entry_value upper
hex_value = refl

numbers_as_names :
    (member_name "transform" "90" ≡ "transform_90") × (member_name "error" "name" ≡ "name_")
unfolding member_name
numbers_as_names = (refl, refl)

abbrev new_printer : Printer
new_printer = printer "wayland" (some "wl_display") (some module_imports)

abbrev display_lines : List String
display_lines =
    "# This file has been autogenerated by the pywayland scanner" ∷ ""
    ∷ "from __future__ import annotations" ∷ "" ∷ "" ∷ "from pywayland.protocol_core import ("
    ∷ "    Argument," ∷ "    ArgumentType," ∷ "    Global," ∷ "    Interface," ∷ "    Proxy,"
    ∷ "    Resource," ∷ ")" ∷ "from .wl_registry import WlRegistry" ∷ "" ∷ ""
    ∷ "class WlDisplay(Interface):" ∷ "    name = \"wl_display\"" ∷ "    version = 1" ∷ "" ∷ ""
    ∷ "class WlDisplayProxy(Proxy[WlDisplay]):" ∷ "    interface = WlDisplay" ∷ ""
    ∷ "    @WlDisplay.request(" ∷ "        Argument(ArgumentType.NewId, interface=WlRegistry),"
    ∷ "    )" ∷ "    def get_registry(self) -> Proxy[WlRegistry]:" ∷ "        \"\"\"get_registry"
    ∷ "" ∷ "        :returns:" ∷ "            wl_registry" ∷ "        \"\"\""
    ∷ "        registry = self._marshal_constructor(0, WlRegistry)" ∷ "        return registry" ∷ ""
    ∷ "" ∷ "class WlDisplayResource(Resource):" ∷ "    interface = WlDisplay" ∷ "" ∷ ""
    ∷ "class WlDisplayGlobal(Global):" ∷ "    interface = WlDisplay" ∷ "" ∷ ""
    ∷ "WlDisplay._gen_c()" ∷ "WlDisplay.proxy_class = WlDisplayProxy"
    ∷ "WlDisplay.resource_class = WlDisplayResource" ∷ "WlDisplay.global_class = WlDisplayGlobal"
    ∷ []

abbrev printed : Printer
printed = record new_printer { lines = display_lines }

display_module : output_interface plain_library wl_display module_imports new_printer ≡ ok printed
unfolding output_interface printer line interface_imports lookup camel_case protocol_of each
    indented when_some blank output_method request_class doc docstring split_paragraphs starts_with
    lstrip argument_text
display_module = refl

unindented : new_printer.level ≡ 0
unfolding printer
unindented = refl

top_lines-output_interface_example :
    (found : List Import) × (interface_imports wl_display module_imports ≡ ok found)
    × (printed.level ≡ 0)
    × (top_lines printed.lines ≡ top_lines new_printer.lines ++ statements wl_display found)
top_lines-output_interface_example =
    top_lines-output_interface plain_library wl_display module_imports new_printer printed
      unindented display_module

display_statements :
    top_lines display_lines
    ≡ "# This file has been autogenerated by the pywayland scanner"
      ∷ "from __future__ import annotations" ∷ "from pywayland.protocol_core import (" ∷ ")"
      ∷ "from .wl_registry import WlRegistry" ∷ "class WlDisplay(Interface):"
      ∷ "class WlDisplayProxy(Proxy[WlDisplay]):" ∷ "class WlDisplayResource(Resource):"
      ∷ "class WlDisplayGlobal(Global):" ∷ "WlDisplay._gen_c()"
      ∷ "WlDisplay.proxy_class = WlDisplayProxy" ∷ "WlDisplay.resource_class = WlDisplayResource"
      ∷ "WlDisplay.global_class = WlDisplayGlobal" ∷ []
display_statements = refl

-- No directory is there yet.
abbrev nothing : String → Bool
nothing path = false

wayland_written :
    (output_protocol plain_library nothing wayland "out" module_imports).outcome ≡ ok tt
unfolding output_protocol output_interface printer line interface_imports lookup camel_case
    protocol_of each indented when_some blank output_method request_class doc docstring
    split_paragraphs starts_with lstrip argument_text
wayland_written = refl

output_protocol_paths_example :
    written_paths (output_protocol plain_library nothing wayland "out" module_imports).effects
    ≡ path_join (path_join "out" (replace_dashes "wayland")) "__init__.py"
      ∷ map
          (λ (i : Interface).
            path_join (path_join "out" (replace_dashes "wayland")) (i.name <> ".py"))
          wayland.interface
output_protocol_paths_example =
    output_protocol_paths plain_library nothing wayland "out" module_imports wayland_written

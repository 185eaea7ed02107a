-- ===== src/Scanner/Protocol.antt =====
-- pywayland/scanner/protocol.py and the loop of `main` in pywayland/scanner/__main__.py: a
-- protocol, which becomes a package, and the map from interfaces to protocols.
pub mod Files
pub mod Imports
pub mod Order
pub mod Parsing
use Prim.Native.Nat.{Ordering}
use Prim.Native.Char.{code}
use Prim.Native.String.{compare}
use pywayland_i6ie.Base.{
  ℕ, String, ◌<>◌, Bool, true, false, Option, none, some, List, [], ◌∷◌, ◌++◌, map, Error, Result,
  ok, err, value_error, ◌>>=◌, if◌then◌else◌, ◌==◌, ◌||◌, String-Eq, ℕ-Eq,
}
use pywayland_i6ie.Base.Dict.{Dict, insert}
use pywayland_i6ie.Base.Text.{join}
use pywayland_i6ie.Base.Words.{replace_dashes}
use pywayland_i6ie.Scanner.Library.{Library}
use pywayland_i6ie.Scanner.Printer.{Printer, Output, printer, ◌⨾◌, line, blank, each}
use pywayland_i6ie.Scanner.Xml.{
  Xml, tag, parse_attribute, parse_optional_child, parse_repeated_child,
}
use pywayland_i6ie.Scanner.Description.{
  Description, Copyright, parse_description, parse_copyright, output_copyright,
}
use pywayland_i6ie.Scanner.Interface.{Interface, parse_interface, class_name, output_interface}

pub record Protocol : Type 0 where
  pub name : String
  pub copyright : Option Copyright
  pub description : Option Description
  pub interface : List Interface

unfoldable pub parse_protocol : Library → Xml → Result Protocol
unfolding parse_attribute parse_optional_child parse_repeated_child parse_copyright
    parse_description parse_interface
parse_protocol L x = do
  name ← parse_attribute x "name"
  copyright ← parse_optional_child (parse_copyright L) x "copyright"
  description ← parse_optional_child (parse_description L) x "description"
  interface ← parse_repeated_child (parse_interface L) x "interface"
  ok (record {
    name = name;
    copyright = copyright;
    description = description;
    interface = interface;
  })

parse_root : Library → Option (Result Xml) → Result Protocol
parse_root L none = err value_error
parse_root L (some (err e)) = err e
parse_root L (some (ok root)) =
    let parsed = parse_protocol L root in if tag root == "protocol" then parsed else err value_error

-- `parse_file`, where `load` gives nothing for a path that is not there, and else what `ET.parse`
-- returns or raises, such as a `ParseError`.
unfoldable pub parse_file : Library → (String → Option (Result Xml)) → String → Result Protocol
unfolding parse_root parse_protocol
parse_file L load input_file = parse_root L (load input_file)

-- `copyright_default`, by its lines.
notice_lines : List String
notice_lines =
    "# Copyright 2015 Sean Vig" ∷ "#"
    ∷ "# Licensed under the Apache License, Version 2.0 (the \"License\");"
    ∷ "# you may not use this file except in compliance with the License."
    ∷ "# You may obtain a copy of the License at" ∷ "#"
    ∷ "#    http://www.apache.org/licenses/LICENSE-2.0" ∷ "#"
    ∷ "# Unless required by applicable law or agreed to in writing, software"
    ∷ "# distributed under the License is distributed on an \"AS IS\" BASIS,"
    ∷ "# WITHOUT WARRANTIES OR CONDITIONS OF ANY KIND, either express or implied."
    ∷ "# See the License for the specific language governing permissions and"
    ∷ "# limitations under the License." ∷ []

copyright_default : String
unfolding notice_lines
copyright_default = join "\n" notice_lines

-- What is done to the file system: a directory made, or a file written with these lines.
pub data Effect : Type 0 where
  mkdir : String → Effect
  write : String → List String → Effect

-- `os.path.join(a, b)`
ends_with_slash : String → Bool
ends_with_slash String.[] = true
ends_with_slash (String.◌∷◌ c String.[]) = code c == b'/'
ends_with_slash (String.◌∷◌ c (String.◌∷◌ d s)) = ends_with_slash (String.◌∷◌ d s)

starts_with_slash : String → Bool
starts_with_slash String.[] = false
starts_with_slash (String.◌∷◌ c s) = code c == b'/'

unfoldable pub path_join : String → String → String
unfolding ends_with_slash starts_with_slash
path_join a b =
    if starts_with_slash b then b else if ends_with_slash a then a <> b else a <> "/" <> b

-- `sorted(interfaces, key=lambda x: x.name)`
place_by_name : Ordering → Interface → Interface → List Interface → List Interface → List Interface
place_by_name Ordering.gt x y interfaces later = y ∷ later
place_by_name _ x y interfaces later = x ∷ y ∷ interfaces

insert_by_name : Interface → List Interface → List Interface
insert_by_name x [] = x ∷ []
insert_by_name x (y ∷ interfaces) =
    place_by_name (compare x.name y.name) x y interfaces (insert_by_name x interfaces)

unfoldable pub sort_by_name : List Interface → List Interface
unfolding place_by_name insert_by_name
sort_by_name [] = []
sort_by_name (x ∷ interfaces) = insert_by_name x (sort_by_name interfaces)

-- The notice at the top, with the empty line behind it.
output_notice : Option Copyright → Output
output_notice none = line copyright_default ⨾ blank
output_notice (some copyright) = output_copyright copyright ⨾ blank

init_line : Interface → Output
init_line i = line ("from ." <> i.name <> " import " <> class_name i <> "  # noqa: F401")

unfoldable pub output_init : Protocol → Output
unfolding output_notice init_line sort_by_name copyright_default
output_init protocol =
    output_notice protocol.copyright ⨾ each init_line (sort_by_name protocol.interface)

-- What was done, and whether it ended with an exception: what is written before one stays written.
pub record Run : Type 0 where
  pub effects : List Effect
  pub outcome : Result (Unit {0})

unfoldable pub then_run : Run → Run → Run
then_run first second = elim first.outcome [
  | ok _ ↦ record { effects = first.effects ++ second.effects; outcome = second.outcome }
  | err _ ↦ first
]

-- A file is written once its printer is done.
write_printed : String → Result Printer → Run
write_printed path (err e) = record { effects = []; outcome = err e }
write_printed path (ok p) = record { effects = write path p.lines ∷ []; outcome = ok tt }

unfoldable pub make_dir : (String → Bool) → String → Run
make_dir exists dir = record {
  effects = if exists dir then [] else mkdir dir ∷ [];
  outcome = ok tt;
}

write_init : Protocol → String → Run
unfolding write_printed output_init path_join
write_init protocol dir =
    write_printed (path_join dir "__init__.py")
      (output_init protocol (printer (replace_dashes protocol.name) none none))

module _ (L : Library) where
  output_interface_module : Protocol → Dict String → Interface → Output
  unfolding output_notice
  output_interface_module protocol module_imports i =
      output_notice protocol.copyright ⨾ output_interface L i module_imports

  write_interface : String → Protocol → Dict String → Interface → Run
  unfolding write_printed output_interface_module
  write_interface output_dir protocol module_imports i =
      write_printed (path_join output_dir (i.name <> ".py")) (
        output_interface_module protocol module_imports i
          (printer (replace_dashes protocol.name) (some i.name) (some module_imports)))

  write_interfaces : String → Protocol → Dict String → List Interface → Run
  unfolding write_interface then_run
  write_interfaces output_dir protocol module_imports [] = record { effects = []; outcome = ok tt }
  write_interfaces output_dir protocol module_imports (i ∷ interfaces) =
      then_run (write_interface output_dir protocol module_imports i)
        (write_interfaces output_dir protocol module_imports interfaces)

  -- `Protocol.output`, where `exists` tells which paths are there.
  unfoldable pub output_protocol : (String → Bool) → Protocol → String → Dict String → Run
  unfolding make_dir write_init write_interfaces then_run path_join
  output_protocol exists protocol output_dir module_imports =
      let dir = path_join output_dir (replace_dashes protocol.name) in
      then_run (make_dir exists dir) (
        then_run (write_init protocol dir)
          (write_interfaces dir protocol module_imports protocol.interface))

  -- The loop over the protocols in `main`; a directory that was made for one is there for the next.
  unfoldable pub output_protocols : (String → Bool) → List Protocol → String → Dict String → Run
  unfolding output_protocol then_run
  output_protocols exists [] output_dir module_imports = record { effects = []; outcome = ok tt }
  output_protocols exists (protocol ∷ protocols) output_dir module_imports =
      let dir = path_join output_dir (replace_dashes protocol.name) in
      then_run (output_protocol exists protocol output_dir module_imports)
        (output_protocols (λ path. path == dir || exists path) protocols output_dir module_imports)

-- The dict `protocol_imports` of `main`: a later protocol takes an interface over.
unfoldable pub add_interfaces : String → List Interface → Dict String → Dict String
add_interfaces protocol [] d = d
add_interfaces protocol (i ∷ interfaces) d =
    add_interfaces protocol interfaces (insert i.name protocol d)

unfoldable pub add_protocols : List Protocol → Dict String → Dict String
unfolding add_interfaces
add_protocols [] d = d
add_protocols (protocol ∷ protocols) d =
    add_protocols protocols (add_interfaces protocol.name protocol.interface d)

unfoldable pub protocol_imports : List Protocol → Dict String
unfolding add_protocols
protocol_imports protocols = add_protocols protocols []

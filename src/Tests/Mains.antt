-- ===== src/Tests/Mains.antt =====
-- wayland-protocols with a stable and an unstable version of one protocol.
use pywayland_i6ie.Base.{
  ℕ, zero, suc, String, ◌≡◌, ◌≢◌, refl, true, false, Option, none, some, List, [], ◌∷◌, ok, err,
  name_error, arith, get_elem?, map_result, if◌then◌else◌, ◌==◌, String-Eq, Result,
}
use pywayland_i6ie.Base.Dict.{lookup}
use pywayland_i6ie.Scanner.Library.{Library}
use pywayland_i6ie.Scanner.Xml.{Xml, element, end, node}
use pywayland_i6ie.Scanner.Interface.{Interface}
use pywayland_i6ie.Scanner.Protocol.{Protocol, parse_file, protocol_imports, path_join}
use pywayland_i6ie.Scanner.Protocol.Imports.{has_interface}
use pywayland_i6ie.Scanner.Main.{
  path_leb, ScannerSystem, Arguments, get_wayland_protocols, parse_files, generate,
}
use pywayland_i6ie.Packaging.{ProtocolCommand, run_command, protocols_build}
use pywayland_i6ie.Packaging.Equal.{run_command-generate}
use pywayland_i6ie.Scanner.Main.Imports.{lookup-parse_files}

abbrev plain_library : Library
plain_library = record {
  fill = λ width text indent. ok text;
  dedent = λ text. text;
  sub = λ names replace text. text;
}

abbrev walked : List (String × List String)
walked =
    ("/p/stable", "shell.xml" ∷ "README" ∷ ".xml" ∷ []) ∷ ("/p/unstable", "shell-v5.xml" ∷ []) ∷ []

abbrev protocol_element : String → Xml
protocol_element name =
    element "protocol" (("name", name) ∷ []) none
      (node (element "interface" (("name", "popup") ∷ ("version", "1") ∷ []) none end) end)

abbrev load_file : String → Option (Result Xml)
load_file path =
    some (ok (protocol_element (if path == "/p/stable/shell.xml" then "shell" else "shell_v5")))

abbrev scanner_system : ScannerSystem
scanner_system = record {
  getenv = λ name. none;
  shlex_split = λ command. ok (command ∷ []);
  check_output = λ args. ok "/p\n";
  walk = λ dir. walked;
  load = load_file;
  exists = λ path. true;
}

abbrev files : List String
files = "/p/unstable/shell-v5.xml" ∷ "/p/stable/shell.xml" ∷ []

files_found : get_wayland_protocols scanner_system ≡ ok files
unfolding get_wayland_protocols path_join
files_found = refl

abbrev popup : Interface
popup = record {
  name = "popup";
  version = "1";
  description = none;
  enum = [];
  event = [];
  request = [];
}

abbrev protocol_of : String → Protocol
protocol_of name = record {
  name = name;
  copyright = none;
  description = none;
  interface = popup ∷ [];
}

abbrev asked : Arguments
asked = record { output_dir = "out"; with_protocols = true; input = "/p/stable/shell.xml" ∷ [] }

files_parsed :
    map_result (parse_file plain_library load_file) files
    ≡ ok (protocol_of "shell_v5" ∷ protocol_of "shell" ∷ [])
unfolding parse_file
files_parsed = refl

all_parsed :
    parse_files scanner_system plain_library asked
    ≡ ok (protocol_of "shell" ∷ protocol_of "shell_v5" ∷ protocol_of "shell" ∷ [])
unfolding parse_files get_wayland_protocols path_join
all_parsed = refl

others_greater :
    (j : ℕ) (other : String) (p : Protocol)
    → j ≢ 1
    → get_elem? files j ≡ some other
    → get_elem? (protocol_of "shell_v5" ∷ protocol_of "shell" ∷ []) j ≡ some p
    → has_interface "popup" p.interface ≡ true
    → path_leb other "/p/stable/shell.xml" ≡ false
others_greater zero other p differs at at' has =
    let same : "/p/unstable/shell-v5.xml" ≡ other = ground arith in rw (← same) refl
others_greater (suc zero) other p differs at at' has = absurd (differs refl)
others_greater (suc (suc j)) other p differs at at' has = absurd (cc)

-- The stable version is read last.
lookup-parse_files_example :
    lookup "popup"
      (protocol_imports (protocol_of "shell" ∷ protocol_of "shell_v5" ∷ protocol_of "shell" ∷ []))
    ≡ some "shell"
lookup-parse_files_example =
    lookup-parse_files scanner_system plain_library asked _ files _ 1 "/p/stable/shell.xml"
      (protocol_of "shell") "popup" refl all_parsed files_found files_parsed refl refl refl
      others_greater

abbrev installing : ProtocolCommand
installing = record {
  xml_file = "/p/stable/shell.xml";
  output_dir = "out";
  wayland_protocols = false;
  no_wayland_protocols = false;
  packages = "pywayland" ∷ [];
}

run_command-generate_example :
    (run_command scanner_system plain_library installing (λ path. true)).run
    ≡ generate scanner_system plain_library asked
run_command-generate_example =
    run_command-generate scanner_system plain_library installing (λ path. true) files refl
      files_found refl

-- No archive with a member can be extracted.
nothing_built :
    (protocols_build scanner_system plain_library
      ("wayland-protocols-1.25/README" ∷ [])
      "out").outcome
    ≡ err name_error
unfolding protocols_build
nothing_built = refl

-- ===== src/Scanner/Enum.antt =====
-- pywayland/scanner/enum.py: an enum of an interface.
use pywayland_i6ie.Base.{
  String, ◌<>◌, Bool, false, Option, none, some, List, Result, ok, ◌>>=◌, if◌then◌else◌, ◌==◌,
  String-Eq,
}
use pywayland_i6ie.Scanner.Library.{Library}
use pywayland_i6ie.Scanner.Printer.{Output, ◌⨾◌, line, each, indented}
use pywayland_i6ie.Scanner.Printer.Layout.{
  IsLayout, line-IsLayout, each-IsLayout, indented-IsLayout, ⨾-IsLayout,
}
use pywayland_i6ie.Scanner.Xml.{
  Xml, parse_attribute, parse_optional_attribute, parse_optional_child, parse_repeated_child,
}
use pywayland_i6ie.Scanner.Description.{Description, parse_description}
use pywayland_i6ie.Scanner.Entry.{Entry, parse_entry, output_entry, output_entry-IsLayout}

pub record Enum : Type 0 where
  pub name : String
  pub since : Option String
  pub is_bitfield : Bool
  pub description : Option Description
  pub entry : List Entry

-- `attribute == "true"`
abbrev pub is_true : Option String → Bool
is_true none = false
is_true (some value) = value == "true"

unfoldable pub parse_enum : Library → Xml → Result Enum
unfolding parse_attribute parse_optional_attribute parse_optional_child parse_repeated_child
    parse_description parse_entry
parse_enum L x = do
  let is_bitfield = is_true (parse_optional_attribute x "bitfield")
  name ← parse_attribute x "name"
  let since = parse_optional_attribute x "since"
  description ← parse_optional_child (parse_description L) x "description"
  entry ← parse_repeated_child (parse_entry L) x "entry"
  ok (record {
    name = name;
    since = since;
    is_bitfield = is_bitfield;
    description = description;
    entry = entry;
  })

-- The class takes the name that `version` would hide; the entries take the enum's own name.
unfoldable pub output_enum : Enum → Output
output_enum e =
    let name = if e.name == "version" then "version_" else e.name in
    line ("class " <> name <> (if e.is_bitfield then "(enum.IntFlag):" else "(enum.IntEnum):"))
    ⨾ indented (each (output_entry e.name) e.entry)

pub output_enum-IsLayout : (e : Enum) → IsLayout (output_enum e)
unfolding output_enum
output_enum-IsLayout e =
    ⨾-IsLayout (line-IsLayout _)
      (indented-IsLayout (each-IsLayout _ e.entry (output_entry-IsLayout e.name)))

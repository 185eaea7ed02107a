-- ===== src/Scanner/Argument.antt =====
-- pywayland/scanner/argument.py: an argument of a request or an event.
pub mod Docs
use pywayland_i6ie.Base.{
  String, ◌<>◌, Bool, true, false, Option, none, some, List, [], ◌∷◌, ◌++◌, Result, ok, err, ◌>>=◌,
  unbound_local_error, if◌then◌else◌, ◌==◌, String-Eq,
}
use pywayland_i6ie.Base.Text.{join}
use pywayland_i6ie.Base.Words.{camel_case}
use pywayland_i6ie.Scanner.ArgumentType.{
  ArgumentType, int, uint, fixed, string, object, new_id, array, file_descriptor, member_name,
}
use pywayland_i6ie.Scanner.Library.{Library}
use pywayland_i6ie.Scanner.Xml.{
  Xml, parse_attribute, parse_optional_attribute, parse_optional_child, present,
}
use pywayland_i6ie.Scanner.Description.{Description, parse_description}
use pywayland_i6ie.Scanner.Enum.{is_true}

pub record Argument : Type 0 where
  pub name : String
  pub type : ArgumentType
  pub summary : Option String
  pub interface : Option String
  pub allow_null : Bool
  pub enum : Option String
  pub description : Option Description

-- The last branch formats `argument_type` before it has a value.
unfoldable pub parse_type : String → Result ArgumentType
parse_type text =
    if text == "int"
    then ok int
    else if text == "uint"
    then ok uint
    else if text == "fixed"
    then ok fixed
    else if text == "string"
    then ok string
    else if text == "object"
    then ok object
    else if text == "new_id"
    then ok new_id
    else if text == "array"
    then ok array
    else if text == "fd"
    then ok file_descriptor
    else err unbound_local_error

unfoldable pub parse_argument : Library → Xml → Result Argument
unfolding parse_type parse_attribute parse_optional_attribute parse_optional_child parse_description
parse_argument L x = do
  type_text ← parse_attribute x "type"
  argument_type ← parse_type type_text
  let allow_null = is_true (parse_optional_attribute x "allow-null")
  name ← parse_attribute x "name"
  let summary = parse_optional_attribute x "summary"
  let interface = parse_optional_attribute x "interface"
  let enum = parse_optional_attribute x "enum"
  description ← parse_optional_child (parse_description L) x "description"
  ok (record {
    name = name;
    type = argument_type;
    summary = summary;
    interface = interface;
    allow_null = allow_null;
    enum = enum;
    description = description;
  })

-- The class of the interface, or `Any` where the interface is missing or empty.
class_or_any : Option String → String
class_or_any none = "Any"
class_or_any (some interface) = camel_case interface

base_annotation : ArgumentType → Option String → String
base_annotation int interface = "int"
base_annotation uint interface = "int"
base_annotation fixed interface = "float"
base_annotation string interface = "str"
base_annotation object interface = class_or_any (present interface)
base_annotation new_id interface = class_or_any (present interface)
base_annotation array interface = "list"
base_annotation file_descriptor interface = "int"

unfoldable pub annotation : Argument → String
unfolding base_annotation class_or_any camel_case
annotation a =
    let base = base_annotation a.type a.interface in
    if a.allow_null then base <> " | None" else base

unfoldable pub argument_signature : Argument → String
unfolding annotation
argument_signature a = a.name <> ": " <> annotation a

interface_part : Option String → List String
interface_part none = []
interface_part (some interface) = ("interface=" <> camel_case interface) ∷ []

-- The property `argument`: the text that builds the argument at run time.
unfoldable pub argument_text : Argument → String
unfolding interface_part member_name camel_case
argument_text a =
    let nullable : List String = if a.allow_null then "nullable=True" ∷ [] else [] in
    let parts = ("ArgumentType." <> member_name a.type) ∷ interface_part a.interface ++ nullable in
    "Argument(" <> join ", " parts <> ")"

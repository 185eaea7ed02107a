-- ===== src/Scanner/Method.antt =====
-- pywayland/scanner/method.py, request.py and event.py: the messages of an interface.
pub mod Request
pub mod Event
pub mod Layout
pub mod Imports
use pywayland_i6ie.Base.{
  ℕ, String, ◌<>◌, Bool, true, false, Option, none, some, List, [], ◌∷◌, ◌++◌, Result, ok, err,
  ◌>>=◌, if◌then◌else◌, ◌==◌, ◌||◌, String-Eq, key_error,
}
use pywayland_i6ie.Base.Dict.{Dict, lookup}
use pywayland_i6ie.Base.Text.{join}
use pywayland_i6ie.Base.Words.{camel_case}
use pywayland_i6ie.Scanner.Library.{Library}
use pywayland_i6ie.Scanner.Printer.{Output, ◌⨾◌, line, blank, each, indented, when_some, when}
use pywayland_i6ie.Scanner.Xml.{
  Xml, parse_attribute, parse_optional_attribute, parse_optional_child, parse_repeated_child,
  present,
}
use pywayland_i6ie.Scanner.Description.{Description, parse_description, output_description}
use pywayland_i6ie.Scanner.Argument.{Argument, parse_argument, argument_text}

pub record Method : Type 0 where
  pub name : String
  pub since : Option String
  pub description : Option Description
  pub arg : List Argument

-- `name += "_"` where the name is a word of Python's.
abbrev python_name : String → String
python_name name = if (name == "global") || (name == "import") then name <> "_" else name

-- What `Request.parse` and `Event.parse` have in common.
unfoldable pub parse_method : Library → Xml → Result Method
unfolding parse_attribute parse_optional_attribute parse_optional_child parse_repeated_child
    parse_description parse_argument
parse_method L x = do
  name ← parse_attribute x "name"
  let since = parse_optional_attribute x "since"
  description ← parse_optional_child (parse_description L) x "description"
  arg ← parse_repeated_child (parse_argument L) x "arg"
  ok (record { name = python_name name; since = since; description = description; arg = arg })

-- `module_imports[interface]`
item : Option String → Result String
item none = err key_error
item (some protocol) = ok protocol

unfoldable pub protocol_of : Dict String → String → Result String
unfolding item
protocol_of module_imports interface = item (lookup interface module_imports)

abbrev import_path : String → String → String → String
import_path current_protocol import_protocol interface =
    if current_protocol == import_protocol then "." <> interface else ".." <> import_protocol

-- The loop of `imports`, behind the lookup of the method's own interface.
module _ (interface : String) (module_imports : Dict String) (current_protocol : String) where
  import_for : Option String → Result (List (String × String))
  import_for none = ok []
  import_for (some other) =
      let found : Result (List (String × String)) = (do
        import_protocol ← protocol_of module_imports other
        ok ((import_path current_protocol import_protocol other, camel_case other) ∷ [])) in
      if other == interface then ok [] else found

  imports_of : List Argument → Result (List (String × String))
  unfolding import_for
  imports_of [] = ok []
  imports_of (a ∷ arg) = do
    first ← import_for a.interface
    rest ← imports_of arg
    ok (first ++ rest)

unfoldable pub imports : Method → String → Dict String → Result (List (String × String))
unfolding imports_of
imports m interface module_imports = do
  current_protocol ← protocol_of module_imports interface
  imports_of interface module_imports current_protocol m.arg

-- What the two subclasses give to the class: the decorator's name, the parameters, the return type,
-- and the docs and the body that they print.
pub record MethodClass : Type 0 where
  pub method : Method
  pub method_type : String
  pub method_args : List String
  pub return_type : String
  pub output_doc_params : Output
  pub output_body : ℕ → Output

module _ (L : Library) where
  output_docs : MethodClass → Output
  output_docs c =
      (elim c.method.description [
        | none ↦ line ("\"\"\"" <> c.method.name)
        | some description ↦ output_description L description
      ])
      ⨾ (elim c.method.arg [ [] ↦ ok | _ ∷ _ ↦ blank ⨾ c.output_doc_params ])
      ⨾ line "\"\"\""

  -- The decorator, over several lines if there are arguments.
  output_decorator : MethodClass → String → List Argument → Option String → Output
  output_decorator c in_class [] none = line ("@" <> in_class <> "." <> c.method_type <> "()")
  output_decorator c in_class [] (some since) =
      line ("@" <> in_class <> "." <> c.method_type <> "(version=" <> since <> ")")
  output_decorator c in_class (a ∷ arg) since =
      line ("@" <> in_class <> "." <> c.method_type <> "(")
      ⨾ indented (
          each (λ (x : Argument). line (argument_text x <> ",")) (a ∷ arg)
          ⨾ when_some since (λ version. line ("version=" <> version <> ",")))
      ⨾ line ")"

  unfoldable pub output_method : MethodClass → ℕ → String → Output
  unfolding output_docs output_decorator
  output_method c opcode in_class =
      output_decorator c in_class c.method.arg (present c.method.since)
      ⨾ line (
          "def "
          <> c.method.name
          <> "("
          <> join ", " ("self" ∷ c.method_args)
          <> ") -> "
          <> c.return_type
          <> ":")
      ⨾ indented (output_docs c ⨾ c.output_body opcode)

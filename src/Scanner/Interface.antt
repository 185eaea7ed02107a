-- ===== src/Scanner/Interface.antt =====
-- pywayland/scanner/interface.py: an interface, which becomes a module of its own.
pub mod Imports
pub mod Layout
pub mod TopLevel
pub mod Statements
use Prim.Native.Nat.{Ordering}
use Prim.Native.String.{compare}
use pywayland_i6ie.Base.{
  ℕ, suc, String, ◌<>◌, Bool, true, false, Option, none, some, List, [], ◌∷◌, ◌++◌, map, Result, ok,
  ◌>>=◌, if◌then◌else◌, ◌||◌, any,
}
use pywayland_i6ie.Base.Dict.{Dict}
use pywayland_i6ie.Base.Text.{join}
use pywayland_i6ie.Base.Words.{camel_case}
use pywayland_i6ie.Scanner.Library.{Library}
use pywayland_i6ie.Scanner.Printer.{Output, ◌⨾◌, line, blank, each, indented, when_some, when}
use pywayland_i6ie.Scanner.Xml.{Xml, parse_attribute, parse_optional_child, parse_repeated_child}
use pywayland_i6ie.Scanner.Description.{Description, parse_description, output_description}
use pywayland_i6ie.Scanner.Enum.{Enum, parse_enum, output_enum}
use pywayland_i6ie.Scanner.Argument.{Argument}
use pywayland_i6ie.Scanner.Method.{Method, MethodClass, imports, output_method}
use pywayland_i6ie.Scanner.Method.Request.{
  Request, parse_request, request_class, request_needs_any, defines_t,
}
use pywayland_i6ie.Scanner.Method.Event.{Event, parse_event, event_class, event_needs_any}

pub record Interface : Type 0 where
  pub name : String
  pub version : String
  pub description : Option Description
  pub enum : List Enum
  pub event : List Event
  pub request : List Request

unfoldable pub parse_interface : Library → Xml → Result Interface
unfolding parse_attribute parse_optional_child parse_repeated_child parse_description parse_enum
    parse_event parse_request
parse_interface L x = do
  name ← parse_attribute x "name"
  version ← parse_attribute x "version"
  description ← parse_optional_child (parse_description L) x "description"
  enum ← parse_repeated_child (parse_enum L) x "enum"
  event ← parse_repeated_child (parse_event L) x "event"
  request ← parse_repeated_child (parse_request L) x "request"
  ok (record {
    name = name;
    version = version;
    description = description;
    enum = enum;
    event = event;
    request = request;
  })

unfoldable pub class_name : Interface → String
unfolding camel_case
class_name i = camel_case i.name

-- A pair of a module and a class, in the order of Python's tuples and texts.
abbrev pub Import : Type 0
Import = String × String

abbrev lexicographic : Ordering → Ordering → Ordering
lexicographic Ordering.eq second = second
lexicographic first second = first

abbrev pub compare_imports : Import → Import → Ordering
compare_imports (a, b) (c, d) = lexicographic (compare a c) (compare b d)

place : Ordering → Import → Import → List Import → List Import → List Import
place Ordering.lt x y imports later = x ∷ y ∷ imports
place Ordering.eq x y imports later = y ∷ imports
place Ordering.gt x y imports later = y ∷ later

unfoldable pub insert_import : Import → List Import → List Import
unfolding place
insert_import x [] = x ∷ []
insert_import x (y ∷ imports) = place (compare_imports x y) x y imports (insert_import x imports)

-- `sorted(set(imports))`
unfoldable pub sorted_set : List Import → List Import
unfolding insert_import
sorted_set [] = []
sorted_set (x ∷ imports) = insert_import x (sorted_set imports)

methods_imports : String → Dict String → List Method → Result (List Import)
methods_imports name module_imports [] = ok []
methods_imports name module_imports (m ∷ methods) = do
  first ← imports m name module_imports
  rest ← methods_imports name module_imports methods
  ok (first ++ rest)

unfoldable pub methods : Interface → List Method
methods i = map (λ (r : Request). r.method) i.request ++ map (λ (e : Event). e.method) i.event

unfoldable pub interface_imports : Interface → Dict String → Result (List Import)
unfolding methods_imports methods sorted_set imports
interface_imports i module_imports = do
  found ← methods_imports i.name module_imports (methods i)
  ok (sorted_set found)

abbrev has_arguments : Method → Bool
has_arguments m = elim m.arg [ [] ↦ false | _ ∷ _ ↦ true ]

-- `sorted(typing_imports)`, of `Type` and `TypeVar` if there is a request that makes an object of
-- any interface, and `Any` if an annotation needs it.
unfoldable pub typing_imports : Bool → Bool → List String
typing_imports define_t needs_any =
    (if needs_any then "Any" ∷ [] else []) ++ (if define_t then "Type" ∷ "TypeVar" ∷ [] else [])

abbrev is_nonempty {ℓ} : {A : Type ℓ} → List A → Bool
is_nonempty [] = false
is_nonempty (_ ∷ _) = true

argument_lines : List String
argument_lines =
    "from pywayland.protocol_core import (" ∷ "    Argument," ∷ "    ArgumentType," ∷ "    Global,"
    ∷ "    Interface," ∷ "    Proxy," ∷ "    Resource," ∷ ")" ∷ []

-- The lines up to the class: the imports and the type variable.
unfoldable pub header_lines : Interface → List Import → List String
unfolding argument_lines typing_imports methods defines_t request_needs_any event_needs_any
header_lines i found =
    let define_t = any defines_t i.request in
    let needs_any = any request_needs_any i.request || any event_needs_any i.event in
    let typing = typing_imports define_t needs_any in
    "from __future__ import annotations"
    ∷ ""
    ∷ ((if is_nonempty i.enum then "import enum" ∷ [] else [])
        ++ (if is_nonempty typing then ("from typing import " <> join ", " typing) ∷ [] else [])
        ++ ("" ∷ [])
        ++ (if any has_arguments (methods i)
            then argument_lines
            else "from pywayland.protocol_core import Global, Interface, Proxy, Resource" ∷ [])
        ++ map (λ (x : Import). "from " <> x.0 <> " import " <> x.1) found
        ++ (if define_t then "" ∷ "T = TypeVar(\"T\", bound=Interface)" ∷ [] else [])
        ++ ("" ∷ "" ∷ []))

pub footer_lines : String → List String
footer_lines cls =
    ""
    ∷ ""
    ∷ (cls <> "._gen_c()")
    ∷ (cls <> ".proxy_class = " <> cls <> "Proxy")
    ∷ (cls <> ".resource_class = " <> cls <> "Resource")
    ∷ (cls <> ".global_class = " <> cls <> "Global")
    ∷ []

module _ (L : Library) where
  -- The class of the interface, with its docs, its attributes and its enums.
  output_class : Interface → String → Output
  output_class i cls =
      line ("class " <> cls <> "(Interface):")
      ⨾ indented (
          when_some i.description (λ d. output_description L d ⨾ line "\"\"\"" ⨾ blank)
          ⨾ line ("name = \"" <> i.name <> "\"")
          ⨾ line ("version = " <> i.version)
          ⨾ each (λ e. blank ⨾ output_enum e) i.enum)

  -- The methods, each behind an empty line and with its index for an opcode.
  pub output_methods : String → ℕ → List MethodClass → Output
  output_methods cls opcode [] = ok
  output_methods cls opcode (c ∷ classes) =
      blank ⨾ output_method L c opcode cls ⨾ output_methods cls (suc opcode) classes

  output_subclass : String → String → List MethodClass → Output
  unfolding output_methods
  output_subclass title cls classes =
      blank
      ⨾ blank
      ⨾ line ("class " <> title <> ":")
      ⨾ indented (line ("interface = " <> cls) ⨾ output_methods cls 0 classes)

  output_module : Interface → String → List Import → Output
  unfolding output_class output_subclass header_lines footer_lines
  output_module i cls found =
      each line (header_lines i found)
      ⨾ output_class i cls
      ⨾ output_subclass (cls <> "Proxy(Proxy[" <> cls <> "])") cls (map (request_class L) i.request)
      ⨾ output_subclass (cls <> "Resource(Resource)") cls (map (event_class L) i.event)
      ⨾ output_subclass (cls <> "Global(Global)") cls []
      ⨾ each line (footer_lines cls)

  unfoldable pub output_interface : Interface → Dict String → Output
  unfolding output_module interface_imports class_name
  output_interface i module_imports p = do
    found ← interface_imports i module_imports
    output_module i (class_name i) found p

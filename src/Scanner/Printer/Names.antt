-- ===== src/Scanner/Printer/Names.antt =====
-- The names of interfaces in the docs: `_doc_replace` and its two cases, and the pattern's names.
use Prim.Native.String.{count}
use pywayland_i6ie.Base.{
  String, ◌<>◌, Bool, false, Option, none, some, List, [], ◌∷◌, map, Result, ok, err,
  assertion_error, if◌then◌else◌, ◌==◌, String-Eq, ltb,
}
use pywayland_i6ie.Base.Dict.{Dict, lookup}
use pywayland_i6ie.Base.Words.{camel_case}
use pywayland_i6ie.Scanner.Library.{Library, Match}
use pywayland_i6ie.Scanner.Printer.{Printer, base_path}

-- `sorted(names, key=len, reverse=True)`: longest first, and equal lengths in their order.
insert_by_length : String → List String → List String
insert_by_length s [] = s ∷ []
insert_by_length s (t ∷ texts) =
    if ltb (count s) (count t) then t ∷ insert_by_length s texts else s ∷ t ∷ texts

unfoldable pub sort_by_length : List String → List String
unfolding insert_by_length
sort_by_length [] = []
sort_by_length (s ∷ texts) = insert_by_length s (sort_by_length texts)

abbrev is_named : String → Option String → Bool
is_named name none = false
is_named name (some other) = name == other

-- `self._interface_imports[name]`, where there is such an entry.
abbrev import_of : String → Option (Dict String) → Option String
import_of name none = none
import_of name (some imports) = lookup name imports

class_link : String → Option String → String
class_link cls none = "`" <> cls <> "`"
class_link cls (some path) = ":class:`~" <> base_path <> "." <> path <> "." <> cls <> "`"

func_link : String → String → Option String → String
func_link cls func none = "`" <> cls <> func <> "()`"
func_link cls func (some path) =
    ":func:`" <> cls <> func <> "() <" <> base_path <> "." <> path <> "." <> cls <> func <> ">`"

doc_class_replace : Printer → String → String
unfolding class_link
doc_class_replace p name =
    if is_named name p.interface_name
    then ":class:`" <> camel_case name <> "`"
    else class_link (camel_case name) (import_of name p.interface_imports)

doc_funcs_replace : Printer → String → String → String
unfolding func_link
doc_funcs_replace p name func =
    if is_named name p.interface_name
    then ":func:`" <> camel_case name <> func <> "()`"
    else func_link (camel_case name) func (import_of name p.interface_imports)

unfoldable pub doc_replace : Printer → Match → String
unfolding doc_class_replace doc_funcs_replace
doc_replace p m = elim m.func [
  | none ↦ doc_class_replace p m.interface
  | some func ↦ doc_funcs_replace p m.interface func
]

-- `_parse_doc_line`; without the imports there is no pattern, and the assertion fails.
module _ (L : Library) where
  substitute : Printer → Option (Dict String) → String → Result String
  substitute p none text = err assertion_error
  substitute p (some imports) text = ok (
      L.sub (sort_by_length (map (λ (entry : String × String). entry.0) imports)) (doc_replace p)
        text)

  unfoldable pub parse_doc_line : Printer → String → Result String
  unfolding substitute sort_by_length doc_replace
  parse_doc_line p text = substitute p p.interface_imports text

-- ===== src/Scanner/Entry.antt =====
-- pywayland/scanner/entry.py: an entry of an enum, and the texts that Python's `int` accepts.
use Prim.Native.Char.{code}
use pywayland_i6ie.Base.{
  ℕ, String, ◌<>◌, Bool, false, Option, List, [], ◌∷◌, Result, ok, ◌>>=◌, if◌then◌else◌, ◌==◌,
  String-Eq, ℕ-Eq, ◌||◌, ◌&&◌,
}
use pywayland_i6ie.Base.Text.{codes, is_digit}
use pywayland_i6ie.Base.Words.{strip, upper}
use pywayland_i6ie.Scanner.Library.{Library}
use pywayland_i6ie.Scanner.Printer.{Output, line}
use pywayland_i6ie.Scanner.Printer.Layout.{IsLayout, line-IsLayout}
use pywayland_i6ie.Scanner.Xml.{
  Xml, parse_attribute, parse_optional_attribute, parse_optional_child,
}
use pywayland_i6ie.Scanner.Description.{Description, parse_description}

pub record Entry : Type 0 where
  pub name : String
  pub value : String
  pub summary : Option String
  pub since : Option String
  pub description : Option Description

unfoldable pub parse_entry : Library → Xml → Result Entry
unfolding parse_attribute parse_optional_attribute parse_optional_child parse_description
parse_entry L x = do
  name ← parse_attribute x "name"
  value ← parse_attribute x "value"
  let summary = parse_optional_attribute x "summary"
  let since = parse_optional_attribute x "since"
  description ← parse_optional_child (parse_description L) x "description"
  ok (record {
    name = name;
    value = value;
    summary = summary;
    since = since;
    description = description;
  })

-- Digits, with single underscores between them; the flag tells whether the last one was a digit.
digits : Bool → List ℕ → Bool
digits after_digit [] = after_digit
digits after_digit (c ∷ cs) =
    let rest = digits (is_digit c) cs in
    if is_digit c then rest else (c == b'_') && after_digit && rest

signed_digits : List ℕ → Bool
signed_digits [] = false
signed_digits (c ∷ cs) =
    if (c == b'+') || (c == b'-') then digits false cs else digits false (c ∷ cs)

-- Whether `int(text)` returns.
unfoldable pub is_int : String → Bool
unfolding signed_digits digits strip
is_int text = signed_digits (codes (strip text))

-- `value`, with the digits of a hexadecimal number in upper case.
unfoldable pub entry_value : String → String
unfolding upper
entry_value String.[] = ""
entry_value (String.◌∷◌ c String.[]) = String.◌∷◌ c ""
entry_value (String.◌∷◌ c (String.◌∷◌ d digits)) =
    if (code c == b'0') && (code d == b'x')
    then "0x" <> upper digits
    else String.◌∷◌ c (String.◌∷◌ d digits)

-- The name of the enum's member: a number gets the enum's name in front, and `name` an underscore.
unfoldable pub member_name : String → String → String
unfolding is_int
member_name enum_name name =
    if is_int name then enum_name <> "_" <> name else if name == "name" then "name_" else name

unfoldable pub output_entry : String → Entry → Output
unfolding member_name entry_value
output_entry enum_name e = line (member_name enum_name e.name <> " = " <> entry_value e.value)

pub output_entry-IsLayout : (enum_name : String) (e : Entry) → IsLayout (output_entry enum_name e)
unfolding output_entry
output_entry-IsLayout enum_name e = line-IsLayout _

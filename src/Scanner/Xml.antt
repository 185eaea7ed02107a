-- ===== src/Scanner/Xml.antt =====
-- The XML elements that the scanner reads, and pywayland/scanner/element.py, which reads parts of
-- them.
use Prim.Native.Nat.{◌%◌}
use Prim.Native.Char.{code}
use pywayland_i6ie.Base.{
  ok-injective, ◌≡◌, sym, ap, ℕ, ◌+◌, ◌-◌, String, ◌<>◌, Option, none, some, List, [], ◌∷◌, Result,
  ok, err, value_error, ◌>>=◌, if◌then◌else◌, ◌==◌, String-Eq, ℕ-Eq, ◌||◌, map_result,
}
use pywayland_i6ie.Base.Dict.{Dict, lookup}
use pywayland_i6ie.Base.Words.{spaces, rstrip}
use pywayland_i6ie.Scanner.Library.{Library}

-- `xml.etree.ElementTree.Element`: its tag, its attributes, the text in front of its first child,
-- and its children.
mutual
  pub data Xml : Type 0 where
    element : String → Dict String → Option String → Nodes → Xml

  pub data Nodes : Type 0 where
    end : Nodes
    node : Xml → Nodes → Nodes

abbrev pub tag : Xml → String
tag (element t _ _ _) = t

abbrev pub attrib : Xml → Dict String
attrib (element _ a _ _) = a

abbrev pub text : Xml → Option String
text (element _ _ t _) = t

abbrev children : Xml → Nodes
children (element _ _ _ n) = n

find_in : String → Nodes → Option Xml
find_in name end = none
find_in name (node x nodes) = if tag x == name then some x else find_in name nodes

findall_in : String → Nodes → List Xml
findall_in name end = []
findall_in name (node x nodes) =
    let rest = findall_in name nodes in if tag x == name then x ∷ rest else rest

-- `element.find(name)`, `element.findall(name)`
unfoldable pub find : Xml → String → Option Xml
unfolding find_in
find x name = find_in name (children x)

unfoldable pub findall : Xml → String → List Xml
unfolding findall_in
findall x name = findall_in name (children x)

unfoldable pub parse_optional_attribute : Xml → String → Option String
unfolding lookup
parse_optional_attribute x name = lookup name (attrib x)

required {ℓ} : {A : Type ℓ} → Option A → Result A
required none = err value_error
required (some obj) = ok obj

unfoldable pub parse_attribute : Xml → String → Result String
unfolding required parse_optional_attribute
parse_attribute x name = required (parse_optional_attribute x name)

some-required {ℓ} : {A : Type ℓ} (o : Option A) (value : A) → required o ≡ ok value → some value ≡ o
unfolding required
some-required none value e = absurd (cc)
some-required (some x) value e = ap some (sym (ok-injective e))

-- An attribute that is required, if it is found, is the one that is there.
pub some-parse_attribute :
    (x : Xml) (name value : String)
    → parse_attribute x name ≡ ok value
    → some value ≡ parse_optional_attribute x name
unfolding parse_attribute
some-parse_attribute x name value e = some-required (parse_optional_attribute x name) value e

module _ {ℓ} {T : Type ℓ} (parse : Xml → Result T) where
  parse_found : Option Xml → Result (Option T)
  parse_found none = ok none
  parse_found (some x) = do obj ← parse x; ok (some obj)

  unfoldable pub parse_optional_child : Xml → String → Result (Option T)
  unfolding parse_found find
  parse_optional_child x name = parse_found (find x name)

  unfoldable pub parse_child : Xml → String → Result T
  unfolding parse_optional_child required
  parse_child x name = do obj ← parse_optional_child x name; required obj

  unfoldable pub parse_repeated_child : Xml → String → Result (List T)
  unfolding findall
  parse_repeated_child x name = map_result parse (findall x name)

-- `text.expandtabs(8)`, from a column on.
expand_tabs : ℕ → String → String
expand_tabs column String.[] = ""
expand_tabs column (String.◌∷◌ c s) =
    let gap = 8 - (column % 8) in
    let tab = code c == 9 in
    let newline = (code c == 10) || (code c == 13) in
    let rest = expand_tabs (if tab then column + gap else if newline then 0 else column + 1) s in
    if tab then spaces gap <> rest else String.◌∷◌ c rest

-- `text.lstrip("\n")`
lstrip_newlines : String → String
lstrip_newlines String.[] = ""
lstrip_newlines (String.◌∷◌ c s) = if code c == 10 then lstrip_newlines s else String.◌∷◌ c s

-- A text that is there and not empty, as `if text:` asks.
abbrev pub present : Option String → Option String
present none = none
present (some String.[]) = none
present (some (String.◌∷◌ c s)) = some (String.◌∷◌ c s)

pcdata : Library → Option String → Option String
pcdata L none = none
pcdata L (some t) = some (L.dedent (lstrip_newlines (rstrip (expand_tabs 0 t))))

unfoldable pub parse_pcdata : Library → Xml → Option String
unfolding pcdata expand_tabs lstrip_newlines rstrip
parse_pcdata L x = pcdata L (present (text x))

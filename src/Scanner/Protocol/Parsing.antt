-- ===== src/Scanner/Protocol/Parsing.antt =====
-- What is parsed of a protocol's children.
use mathlib.Core.Path.{ap₂}
use pywayland_i6ie.Base.{
  ◌≡◌, ap, sym, ◌∙◌, some, List, [], ◌∷◌, map, Result, ok, map_result, >>=-eq-ok, ok-injective,
}
use pywayland_i6ie.Scanner.Library.{Library}
use pywayland_i6ie.Scanner.Xml.{
  Xml, findall, parse_optional_attribute, parse_attribute, some-parse_attribute,
  parse_repeated_child, parse_optional_child,
}
use pywayland_i6ie.Scanner.Description.{parse_description, parse_copyright}
use pywayland_i6ie.Scanner.Enum.{parse_enum}
use pywayland_i6ie.Scanner.Method.Request.{parse_request}
use pywayland_i6ie.Scanner.Method.Event.{parse_event}
use pywayland_i6ie.Scanner.Interface.{Interface, parse_interface}
use pywayland_i6ie.Scanner.Protocol.{Protocol, parse_protocol}

map-map_result {ℓ κ μ} :
    {A : Type ℓ} {B : Type κ} {V : Type μ} (f : A → Result B) (g : B → V) (h : A → V)
    → ((a : A) (b : B) → f a ≡ ok b → g b ≡ h a)
    → (xs : List A) (ys : List B) → map_result f xs ≡ ok ys
    → map g ys ≡ map h xs
map-map_result f g h agree [] ys e = ap (map g) (sym (ok-injective e))
map-map_result f g h agree (x ∷ xs) ys e =
    let (y, first, e') = >>=-eq-ok (f x) _ e in
    let (rest, others, e'') = >>=-eq-ok (map_result f xs) _ e' in
    ap (map g) (sym (ok-injective e''))
    ∙ ap₂ (λ v vs. v ∷ vs) (agree x y first) (map-map_result f g h agree xs rest others)

name-parse_interface :
    (L : Library) (x : Xml) (i : Interface)
    → parse_interface L x ≡ ok i
    → some i.name ≡ parse_optional_attribute x "name"
unfolding parse_interface
name-parse_interface L x i e =
    let (name, found, e') = >>=-eq-ok (parse_attribute x "name") _ e in
    let (version, _, e1) = >>=-eq-ok (parse_attribute x "version") _ e' in
    let (description, _, e2) =
      >>=-eq-ok (parse_optional_child (parse_description L) x "description") _ e1 in
    let (enum, _, e3) = >>=-eq-ok (parse_repeated_child (parse_enum L) x "enum") _ e2 in
    let (event, _, e4) = >>=-eq-ok (parse_repeated_child (parse_event L) x "event") _ e3 in
    let (request, _, e5) = >>=-eq-ok (parse_repeated_child (parse_request L) x "request") _ e4 in
    ap (λ (i : Interface). some i.name) (sym (ok-injective e5))
    ∙ some-parse_attribute x "name" name found

-- If a protocol is parsed, its interfaces are those of the `interface` children of the element, one
-- for each child and in their order, each with the child's attribute `name`; its own name is that
-- of the element.
pub names-parse_protocol :
    (L : Library) (x : Xml) (protocol : Protocol)
    → parse_protocol L x ≡ ok protocol
    → (map (λ (i : Interface). some i.name) protocol.interface
        ≡ map (λ child. parse_optional_attribute child "name") (findall x "interface"))
      × (some protocol.name ≡ parse_optional_attribute x "name")
unfolding parse_protocol parse_repeated_child
names-parse_protocol L x protocol e =
    let (name, found, e1) = >>=-eq-ok (parse_attribute x "name") _ e in
    let (copyright, _, e2) =
      >>=-eq-ok (parse_optional_child (parse_copyright L) x "copyright") _ e1 in
    let (description, _, e3) =
      >>=-eq-ok (parse_optional_child (parse_description L) x "description") _ e2 in
    let (interfaces, parsed, e4) =
      >>=-eq-ok (parse_repeated_child (parse_interface L) x "interface") _ e3 in
    let same = ok-injective e4 in
    (
      ap (λ (p : Protocol). map (λ (i : Interface). some i.name) p.interface) (sym same)
          ∙ map-map_result (parse_interface L) (λ (i : Interface). some i.name)
              (λ child. parse_optional_attribute child "name") (name-parse_interface L)
              (findall x "interface") interfaces parsed,
      ap (λ (p : Protocol). some p.name) (sym same) ∙ some-parse_attribute x "name" name found,
    )

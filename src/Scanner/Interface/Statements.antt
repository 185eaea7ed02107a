-- ===== src/Scanner/Interface/Statements.antt =====
-- Which statements a generated module (pywayland/scanner/interface.py) has at its top level.
use mathlib.Core.Path.{subst}
use pywayland_i6ie.Base.{String, ◌<>◌, ◌≡◌, refl, ap, List, [], ◌∷◌, ◌++◌, ok, >>=-eq-ok}
use pywayland_i6ie.Base.Dict.{Dict}
use pywayland_i6ie.Scanner.Library.{Library}
use pywayland_i6ie.Scanner.Printer.{Printer}
use pywayland_i6ie.Scanner.Method.{MethodClass}
use pywayland_i6ie.Scanner.Interface.{
  Interface, Import, interface_imports, header_lines, footer_lines, output_class, output_subclass,
  output_module, output_interface, class_name,
}
use pywayland_i6ie.Scanner.Interface.Layout.{
  Classes, nil, class_body-IsLayout, subclass_body-IsLayout, request_class-Classes,
  event_class-Classes,
}
use pywayland_i6ie.Scanner.Interface.TopLevel.{
  top_lines, AddsTop, line-AddsTop, blank-AddsTop, ⨾-AddsTop, each-AddsTop, indented-AddsTop,
  is_top-append,
}

-- The imports and the type variable, the four classes, and the calls behind them.
abbrev pub statements : Interface → List Import → List String
statements i found =
    let cls = class_name i in
    top_lines (header_lines i found)
    ++ ("class " <> cls <> "(Interface):")
      ∷ ("class " <> (cls <> "Proxy(Proxy[" <> cls <> "])") <> ":")
      ∷ ("class " <> (cls <> "Resource(Resource)") <> ":")
      ∷ ("class " <> (cls <> "Global(Global)") <> ":")
      ∷ top_lines (footer_lines cls)

class_head : (rest : String) → top_lines (("class " <> rest) ∷ []) ≡ ("class " <> rest) ∷ []
class_head rest = rw (is_top-append "class " rest refl) refl

regroup :
    (xs ys : List String) (a b c d : String)
    → ((((xs ++ a ∷ []) ++ b ∷ []) ++ c ∷ []) ++ d ∷ []) ++ ys ≡ xs ++ a ∷ b ∷ c ∷ d ∷ ys
regroup [] ys a b c d = refl
regroup (x ∷ xs) ys a b c d = ap (λ l. x ∷ l) (regroup xs ys a b c d)

module _ (L : Library) where
  output_class-AddsTop :
      (i : Interface) (cls : String)
      → AddsTop (output_class L i cls) (("class " <> cls <> "(Interface):") ∷ [])
  unfolding output_class
  output_class-AddsTop i cls =
      subst (AddsTop _) (ap (λ l. l ++ []) (class_head (cls <> "(Interface):")))
        (⨾-AddsTop (line-AddsTop _) (indented-AddsTop (class_body-IsLayout L i)))

  output_subclass-AddsTop :
      (title cls : String) {classes : List MethodClass}
      → Classes L classes
      → AddsTop (output_subclass L title cls classes) (("class " <> title <> ":") ∷ [])
  unfolding output_subclass
  output_subclass-AddsTop title cls hs =
      subst (AddsTop _) (ap (λ l. l ++ []) (class_head (title <> ":"))) (
        ⨾-AddsTop (⨾-AddsTop (⨾-AddsTop blank-AddsTop blank-AddsTop) (line-AddsTop _))
          (indented-AddsTop (subclass_body-IsLayout L cls hs)))

  output_module-AddsTop :
      (i : Interface) (found : List Import)
      → AddsTop (output_module L i (class_name i) found) (statements i found)
  unfolding output_module
  output_module-AddsTop i found =
      subst (AddsTop _) (regroup (top_lines (header_lines i found)) _ _ _ _ _) (
        ⨾-AddsTop
          (⨾-AddsTop
            (⨾-AddsTop
              (⨾-AddsTop (⨾-AddsTop (each-AddsTop _) (output_class-AddsTop i _))
                (output_subclass-AddsTop _ _ (request_class-Classes L i.request)))
              (output_subclass-AddsTop _ _ (event_class-Classes L i.event)))
            (output_subclass-AddsTop _ _ nil))
          (each-AddsTop _))

  -- If an interface is printed at level 0 without an exception, then its imports were found, the
  -- printer ends at level 0, and the lines that were added and are neither empty nor indented are,
  -- in this order: those of the imports and the type variable, the heads of the classes of the
  -- interface, its proxy, its resource and its global, and the calls behind them; all that the
  -- classes hold is indented below their heads.
  pub top_lines-output_interface :
      (i : Interface) (module_imports : Dict String) (p q : Printer)
      → p.level ≡ 0
      → output_interface L i module_imports p ≡ ok q
      → (found : List Import) × (interface_imports i module_imports ≡ ok found)
        × (q.level ≡ 0)
        × (top_lines q.lines ≡ top_lines p.lines ++ statements i found)
  unfolding output_interface
  top_lines-output_interface i module_imports p q at e =
      let (found, imported, printed) = >>=-eq-ok (interface_imports i module_imports) _ e in
      let (back, added) = (output_module-AddsTop i found).added p q at printed in
      (found, imported, back, added)

-- ===== src/Scanner/Method/Imports.antt =====
-- Which imports a method asks for.
use pywayland_i6ie.Base.{
  String, ◌≡◌, refl, ◌⊎◌, inl, inr, Option, none, some, List, [], ◌∷◌, In, In-append_left,
  In-append_right, ok, >>=-eq-ok, ok-injective, ◌==◌, String-Eq, eq_iff, Bool-cases,
}
use mathlib.Core.Path.{subst}
use pywayland_i6ie.Base.Dict.{Dict}
use pywayland_i6ie.Base.Words.{camel_case}
use pywayland_i6ie.Scanner.Argument.{Argument}
use pywayland_i6ie.Scanner.Method.{
  Method, import_for, imports_of, imports, protocol_of, import_path,
}

-- The import of an argument's interface, where it is neither missing nor the method's own.
abbrev pub IsImported : String → Dict String → List (String × String) → Option String → Type 0
IsImported interface module_imports found none = Unit
IsImported interface module_imports found (some other) =
    (other ≡ interface)
    ⊎ ((current : String) × (protocol : String) × (protocol_of module_imports interface
          ≡ ok current)
        × (protocol_of module_imports other ≡ ok protocol)
        × In (import_path current protocol other, camel_case other) found)

pub IsImported-mono :
    (interface : String) (module_imports : Dict String) (xs ys : List (String × String))
    (o : Option String)
    → ((x : String × String) → In x xs → In x ys)
    → IsImported interface module_imports xs o
    → IsImported interface module_imports ys o
IsImported-mono interface mi xs ys none sub h = tt
IsImported-mono interface mi xs ys (some other) sub (inl e) = inl e
IsImported-mono interface mi xs ys (some other) sub (inr (c, p, hc, hp, m)) =
    inr (c, p, hc, hp, sub _ m)

import_for-IsImported :
    (interface : String) (module_imports : Dict String) (current : String) (o : Option String)
    (found : List (String × String))
    → protocol_of module_imports interface ≡ ok current
    → import_for interface module_imports current o ≡ ok found
    → IsImported interface module_imports found o
unfolding import_for
import_for-IsImported interface mi current none found here e = tt
import_for-IsImported interface mi current (some other) found here e =
    elim (Bool-cases (other == interface)) [
      | inl own ↦ inl ((eq_iff _ _).0 own)
      | inr foreign ↦
          let (protocol, known, e') = >>=-eq-ok (protocol_of mi other) _ (rw foreign at e) in
          inr (current, protocol, here, known, subst (In _) (ok-injective e') (inl refl))
    ]

imports_of-IsImported :
    (interface : String) (module_imports : Dict String) (current : String) (arg : List Argument)
    (found : List (String × String)) (a : Argument)
    → protocol_of module_imports interface ≡ ok current
    → imports_of interface module_imports current arg ≡ ok found
    → In a arg
    → IsImported interface module_imports found a.interface
unfolding imports_of
imports_of-IsImported interface mi current [] found a here e m = absurd m
imports_of-IsImported interface mi current (x ∷ arg) found a here e m =
    let (first, e1, e') = >>=-eq-ok (import_for interface mi current x.interface) _ e in
    let (rest, e2, e3) = >>=-eq-ok (imports_of interface mi current arg) _ e' in
    let all = ok-injective e3 in
    elim m [
      | inl same ↦
          IsImported-mono interface mi first found a.interface
            (λ y h. subst (In y) all (In-append_left y first rest h))
            (rw same (import_for-IsImported interface mi current x.interface first here e1))
      | inr later ↦
          IsImported-mono interface mi rest found a.interface
            (λ y h. subst (In y) all (In-append_right y first rest h))
            (imports_of-IsImported interface mi current arg rest a here e2 later)
    ]

-- Where the imports of a method are found, they hold one for the interface of each argument that
-- names an interface other than the method's own: the class, from the module beside it if the
-- protocol is the same, and from the other protocol's package if not.
pub imports-IsImported :
    (m : Method) (interface : String) (module_imports : Dict String)
    (found : List (String × String)) (a : Argument)
    → imports m interface module_imports ≡ ok found
    → In a m.arg
    → IsImported interface module_imports found a.interface
unfolding imports
imports-IsImported m interface mi found a e mem =
    let (current, here, e') = >>=-eq-ok (protocol_of mi interface) _ e in
    imports_of-IsImported interface mi current m.arg found a here e' mem

-- ===== src/Scanner/Main/Imports.antt =====
-- Which protocol an interface is imported from, if several files have it.
use pywayland_i6ie.Base.{
  ℕ, zero, suc, String, ◌≡◌, ◌≢◌, refl, ap, ◌∙◌, sym, true, false, none, some, List, [], ◌∷◌, ◌++◌,
  All, Result, ok, arith, Bool-cases, inl, inr, get_elem?, map_result, >>=-eq-ok, ok-injective,
  String-Eq,
}
use mathlib.Core.Path.{subst}
use pywayland_i6ie.Base.Dict.{lookup}
use pywayland_i6ie.Scanner.Library.{Library}
use pywayland_i6ie.Scanner.Protocol.{Protocol, parse_file, protocol_imports}
use pywayland_i6ie.Scanner.Protocol.Imports.{
  lookup-protocol_imports, or_else, or_else-none, has_interface, last_owner,
  lookup-protocol_imports,
}
use pywayland_i6ie.Scanner.Main.{
  path_leb, ScannerSystem, Arguments, get_wayland_protocols, input_files, parse_files,
}
use pywayland_i6ie.Scanner.Main.Paths.{Descends, get_wayland_protocols-Descends}

last_owner-append :
    (name : String) (ps qs : List Protocol)
    → last_owner name (ps ++ qs) ≡ or_else (last_owner name qs) (last_owner name ps)
last_owner-append name [] qs = sym (or_else-none (last_owner name qs))
last_owner-append name (p ∷ ps) qs = ground (arith, last_owner-append name ps qs)

All-get_elem? :
    {A : Type 0} (P : A → Type 0) (xs : List A) (i : ℕ) (x : A)
    → All P xs
    → get_elem? xs i ≡ some x
    → P x
All-get_elem? P [] i x all at = absurd (cc)
All-get_elem? P (y ∷ xs) zero x (first, all) at =
    let same : y ≡ x = ground arith in subst P same first
All-get_elem? P (y ∷ xs) (suc i) x (first, all) at = All-get_elem? P xs i x all at

true-ne-false : true ≢ false
true-ne-false e = absurd (cc)

-- No later protocol has the interface.
none_later :
    (name : String) (qs : List Protocol)
    → ((j : ℕ) (p : Protocol) → get_elem? qs j ≡ some p → has_interface name p.interface ≡ false)
    → last_owner name qs ≡ none
none_later name [] nothing = refl
none_later name (q ∷ qs) nothing =
    rw (none_later name qs (λ j p at. nothing (suc j) p at), nothing 0 q refl) refl

-- There is a protocol for each file.
abbrev Paired : List String → List Protocol → Type 0
Paired [] [] = Unit
Paired [] (q ∷ qs) = ⊥
Paired (x ∷ files) [] = ⊥
Paired (x ∷ files) (q ∷ qs) = Paired files qs

map_result-Paired :
    (f : String → Result Protocol) (files : List String) (qs : List Protocol)
    → map_result f files ≡ ok qs
    → Paired files qs
map_result-Paired f [] qs e = subst (Paired []) (ok-injective e) tt
map_result-Paired f (x ∷ files) qs e =
    let (q, _, e') = >>=-eq-ok (f x) _ e in
    let (rest, parsed, e'') = >>=-eq-ok (map_result f files) _ e' in
    subst (Paired (x ∷ files)) (ok-injective e'') (map_result-Paired f files rest parsed)

file_of :
    (files : List String) (qs : List Protocol) (j : ℕ) (p : Protocol)
    → Paired files qs
    → get_elem? qs j ≡ some p
    → (other : String) × (get_elem? files j ≡ some other)
file_of [] [] j p paired at = absurd (cc)
file_of [] (q ∷ qs) j p paired at = absurd paired
file_of (x ∷ files) [] j p paired at = absurd paired
file_of (x ∷ files) (q ∷ qs) zero p paired at = (x, refl)
file_of (x ∷ files) (q ∷ qs) (suc j) p paired at = file_of files qs j p paired at

last_owner-least :
    (name : String) (files : List String) (qs : List Protocol) (i : ℕ) (file : String)
    → (q : Protocol) → Descends files
    → Paired files qs
    → get_elem? files i ≡ some file
    → get_elem? qs i ≡ some q
    → has_interface name q.interface ≡ true
    → ((j : ℕ) (other : String) (p : Protocol)
        → j ≢ i
        → get_elem? files j ≡ some other
        → get_elem? qs j ≡ some p
        → has_interface name p.interface ≡ true
        → path_leb other file ≡ false)
    → last_owner name qs ≡ some q.name
last_owner-least name [] qs i file q descends paired here there has greater = absurd (cc)
last_owner-least name (x ∷ files) [] i file q descends paired here there has greater = absurd paired
last_owner-least name (x ∷ files) (p ∷ qs) (suc i) file q (_, descends) paired here there has
      greater =
    rw
      (last_owner-least name files qs i file q descends paired here there has
        (λ j other p differs at at' has'.
          greater (suc j) other p (λ e. differs (omega arith)) at at' has'))
      refl
last_owner-least name (x ∷ files) (p ∷ qs) zero file q (below, _) paired here there has greater =
    let same : x ≡ file = ground arith in
    let same' : p ≡ q = ground arith in
    let later : last_owner name qs ≡ none = none_later name qs (λ j p' at.
      let (other, at') = file_of files qs j p' paired at in
      let less : path_leb other file ≡ true =
        subst (λ y. path_leb other y ≡ true) same (All-get_elem? _ files j other below at') in
      elim (Bool-cases (has_interface name p'.interface)) [
        | inl has' ↦ absurd (
            true-ne-false
              (sym less ∙ greater (suc j) other p' (λ e. absurd (omega arith)) at' at has'))
        | inr no_interface ↦ no_interface
      ]) in
    rw (later, same', has) refl

input_files-append :
    (S : ScannerSystem) (args : Arguments) (files inputs : List String)
    → args.with_protocols ≡ true
    → get_wayland_protocols S ≡ ok files
    → input_files S args ≡ ok inputs
    → args.input ++ files ≡ inputs
unfolding input_files
input_files-append S args files inputs asked found given = ground (arith, asked, found, given)

-- What is parsed of two lists of files, one behind the other.
map_result-append :
    (f : String → Result Protocol) (xs ys : List String) (protocols qs : List Protocol)
    → map_result f (xs ++ ys) ≡ ok protocols
    → map_result f ys ≡ ok qs
    → (ps : List Protocol) × (protocols ≡ ps ++ qs)
map_result-append f [] ys protocols qs e e' = ([], ok-injective (sym e ∙ e'))
map_result-append f (x ∷ xs) ys protocols qs e e' =
    let (p, _, e1) = >>=-eq-ok (f x) _ e in
    let (rest, parsed, e2) = >>=-eq-ok (map_result f (xs ++ ys)) _ e1 in
    let (ps, same) = map_result-append f xs ys rest qs parsed e' in
    (p ∷ ps, sym (ok-injective e2) ∙ ap (λ l. p ∷ l) same)

-- With `--with-protocols`, if all files are parsed and one of those that were found has the
-- interface while any other of them that has it has a greater path, then the dict of imports maps
-- the interface to the protocol of that file: a stable protocol goes before an unstable one, and
-- both before the files that were given.
pub lookup-parse_files :
    (S : ScannerSystem) (L : Library) (args : Arguments) (protocols : List Protocol)
    → (files : List String) (qs : List Protocol) (i : ℕ) (file : String) (q : Protocol)
    → (name : String) → args.with_protocols ≡ true
    → parse_files S L args ≡ ok protocols
    → get_wayland_protocols S ≡ ok files
    → map_result (parse_file L S.load) files ≡ ok qs
    → get_elem? files i ≡ some file
    → get_elem? qs i ≡ some q
    → has_interface name q.interface ≡ true
    → ((j : ℕ) (other : String) (p : Protocol)
        → j ≢ i
        → get_elem? files j ≡ some other
        → get_elem? qs j ≡ some p
        → has_interface name p.interface ≡ true
        → path_leb other file ≡ false)
    → lookup name (protocol_imports protocols) ≡ some q.name
unfolding parse_files input_files
lookup-parse_files S L args protocols files qs i file q name asked all found parsed here there has
      greater =
    let (inputs, given, all') = >>=-eq-ok (input_files S args) _ all in
    let same : args.input ++ files ≡ inputs =
      input_files-append S args files inputs asked found given in
    let (ps, split) =
      map_result-append (parse_file L S.load) args.input files protocols qs
        (ap (map_result (parse_file L S.load)) same ∙ all') parsed in
    let (descends, _) = get_wayland_protocols-Descends S files found in
    let least =
      last_owner-least name files qs i file q descends
        (map_result-Paired (parse_file L S.load) files qs parsed) here there has greater in
    lookup-protocol_imports name protocols
    ∙ ap (last_owner name) split
    ∙ last_owner-append name ps qs
    ∙ ap (λ o. or_else o (last_owner name ps)) least

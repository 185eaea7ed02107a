-- ===== src/Scanner/Interface/Imports.antt =====
-- The import lines of a generated module: each pair once, in order, and every class that an
-- argument names among them.
use Prim.Native.Nat.{Ordering, compare as compare_ℕ}
use Prim.Native.Char.{code}
use Prim.Native.String
use Prim.Native.String.compare.{cons-cons, cons-nil, nil-cons}
use Prim.Native.String.{compare}
use text.Mathlib.TextEquality.{path_by_compare}
use mathlib.Core.Path.{subst, ap₂}
use pywayland_i6ie.Base.{
  ℕ, String, ◌≡◌, refl, sym, ap, ◌∙◌, ◌⊎◌, ◌↔◌, inl, inr, List, [], ◌∷◌, In, arith,
}
use pywayland_i6ie.Base.Dict.{Dict}
use pywayland_i6ie.Scanner.Argument.{Argument}
use pywayland_i6ie.Scanner.Method.{Method, imports}
use pywayland_i6ie.Scanner.Method.Imports.{IsImported, IsImported-mono, imports-IsImported}
use pywayland_i6ie.Base.{ok, >>=-eq-ok, ok-injective, In-append_left, In-append_right}
use pywayland_i6ie.Scanner.Interface.{Interface, methods_imports, methods, interface_imports}
use pywayland_i6ie.Scanner.Interface.{
  Import, compare_imports, lexicographic, place, insert_import, sorted_set,
}

abbrev pub flip : Ordering → Ordering
flip Ordering.lt = Ordering.gt
flip Ordering.eq = Ordering.eq
flip Ordering.gt = Ordering.lt

numbers_flip : (m n : ℕ) → compare_ℕ n m ≡ flip (compare_ℕ m n)
numbers_flip m n = ground arith

then_flip : (a b : Ordering) → String.then (flip a) (flip b) ≡ flip (String.then a b)
then_flip Ordering.lt b = refl
then_flip Ordering.eq b = refl
then_flip Ordering.gt b = refl

pub compare-flip : (s t : String) → compare t s ≡ flip (compare s t)
compare-flip String.[] String.[] = refl
compare-flip String.[] (String.◌∷◌ d t) = (λ i. cons-nil d t i) ∙ sym (λ i. flip (nil-cons d t i))
compare-flip (String.◌∷◌ c s) String.[] = (λ i. nil-cons c s i) ∙ sym (λ i. flip (cons-nil c s i))
compare-flip (String.◌∷◌ c s) (String.◌∷◌ d t) =
    (λ i. cons-cons d c t s i)
    ∙ ap₂ String.then (numbers_flip (code c) (code d)) (compare-flip s t)
    ∙ then_flip (compare_ℕ (code c) (code d)) (compare s t)
    ∙ sym (λ i. flip (cons-cons c d s t i))

lexicographic-flip : (a b : Ordering) → lexicographic (flip a) (flip b) ≡ flip (lexicographic a b)
lexicographic-flip Ordering.lt b = refl
lexicographic-flip Ordering.eq b = refl
lexicographic-flip Ordering.gt b = refl

both_eq : (a b : Ordering) → lexicographic a b ≡ Ordering.eq → (a ≡ Ordering.eq) × (b ≡ Ordering.eq)
both_eq Ordering.eq b h = (refl, h)
both_eq Ordering.lt b h = absurd (cc)
both_eq Ordering.gt b h = absurd (cc)

compare_imports-eq : (x y : Import) → compare_imports x y ≡ Ordering.eq → x ≡ y
compare_imports-eq (a, b) (c, d) e =
    let h = both_eq (compare a c) (compare b d) e in
    ap₂ (λ x y. (x, y)) (path_by_compare a c h.0) (path_by_compare b d h.1)

compare_imports-flip : (x y : Import) → compare_imports y x ≡ flip (compare_imports x y)
compare_imports-flip (a, b) (c, d) =
    ap₂ lexicographic (compare-flip a c) (compare-flip b d)
    ∙ lexicographic-flip (compare a c) (compare b d)

-- The list is empty or begins with a later pair.
abbrev Above : Import → List Import → Type 0
Above x [] = Unit
Above x (y ∷ _) = compare_imports x y ≡ Ordering.lt

-- Each pair comes before the next.
abbrev pub IsIncreasing : List Import → Type 0
IsIncreasing [] = Unit
IsIncreasing (x ∷ found) = Above x found × IsIncreasing found

flip-lt : (x y : Import) → compare_imports x y ≡ Ordering.gt → compare_imports y x ≡ Ordering.lt
flip-lt x y gt = compare_imports-flip x y ∙ ap flip gt

Above-place :
    (o : Ordering) (z x y : Import) (found later : List Import)
    → compare_imports z x ≡ Ordering.lt
    → compare_imports z y ≡ Ordering.lt
    → Above z (place o x y found later)
unfolding place
Above-place Ordering.lt z x y found later zx zy = zx
Above-place Ordering.eq z x y found later zx zy = zy
Above-place Ordering.gt z x y found later zx zy = zy

Above-insert_import :
    (z x : Import) (found : List Import)
    → compare_imports z x ≡ Ordering.lt
    → Above z found
    → Above z (insert_import x found)
unfolding insert_import
Above-insert_import z x [] zx above = zx
Above-insert_import z x (y ∷ found) zx above =
    Above-place (compare_imports x y) z x y found _ zx above

place-IsIncreasing :
    (o : Ordering) (x y : Import) (found : List Import)
    → compare_imports x y ≡ o
    → Above y found
    → IsIncreasing found
    → IsIncreasing (insert_import x found)
    → IsIncreasing (place o x y found (insert_import x found))
unfolding place
place-IsIncreasing Ordering.lt x y found e above h later = (e, (above, h))
place-IsIncreasing Ordering.eq x y found e above h later = (above, h)
place-IsIncreasing Ordering.gt x y found e above h later =
    (Above-insert_import y x found (flip-lt x y e) above, later)

insert_import-IsIncreasing :
    (x : Import) (found : List Import) → IsIncreasing found → IsIncreasing (insert_import x found)
unfolding insert_import
insert_import-IsIncreasing x [] h = (tt, tt)
insert_import-IsIncreasing x (y ∷ found) (above, h) =
    place-IsIncreasing (compare_imports x y) x y found refl above h
      (insert_import-IsIncreasing x found h)

sorted_set-IsIncreasing : (found : List Import) → IsIncreasing (sorted_set found)
unfolding sorted_set
sorted_set-IsIncreasing [] = tt
sorted_set-IsIncreasing (x ∷ found) = insert_import-IsIncreasing x _ (sorted_set-IsIncreasing found)

In-place :
    (o : Ordering) (z x y : Import) (found later : List Import)
    → compare_imports x y ≡ o
    → (In z later → (z ≡ x) ⊎ In z found)
    → (((z ≡ x) ⊎ In z found) → In z later)
    → In z (place o x y found later) ↔ ((z ≡ x) ⊎ In z (y ∷ found))
unfolding place
In-place Ordering.lt z x y found later e to from = (λ m. m, λ m. m)
In-place Ordering.eq z x y found later e to from =
    (λ m. inr m, λ m. elim m [ inl same ↦ inl (same ∙ compare_imports-eq x y e) | inr old ↦ old ])
In-place Ordering.gt z x y found later e to from = (
  λ m. elim m [
    | inl same ↦ inr (inl same)
    | inr old ↦ elim (to old) [ inl a ↦ inl a | inr b ↦ inr (inr b) ]
  ],
  λ m. elim m [
    | inl a ↦ inr (from (inl a))
    | inr old ↦ elim old [ inl same ↦ inl same | inr b ↦ inr (from (inr b)) ]
  ],
)

In-insert_import :
    (z x : Import) (found : List Import) → In z (insert_import x found) ↔ ((z ≡ x) ⊎ In z found)
unfolding insert_import
In-insert_import z x [] = (λ m. m, λ m. m)
In-insert_import z x (y ∷ found) =
    let ih = In-insert_import z x found in
    In-place (compare_imports x y) z x y found (insert_import x found) refl ih.0 ih.1

In-sorted_set : (z : Import) (found : List Import) → In z (sorted_set found) ↔ In z found
unfolding sorted_set
In-sorted_set z [] = (λ m. m, λ m. m)
In-sorted_set z (x ∷ found) =
    let step = In-insert_import z x (sorted_set found) in
    let ih = In-sorted_set z found in
    (
      λ m. elim (step.0 m) [ inl a ↦ inl a | inr b ↦ inr (ih.0 b) ],
      λ m. step.1 (elim m [ inl a ↦ inl a | inr b ↦ inr (ih.1 b) ]),
    )

methods_imports-IsImported :
    (name : String) (mi : Dict String) (ms : List Method) (found : List Import) (m : Method)
    (a : Argument)
    → methods_imports name mi ms ≡ ok found
    → In m ms
    → In a m.arg
    → IsImported name mi found a.interface
unfolding methods_imports
methods_imports-IsImported name mi [] found m a e mm am = absurd mm
methods_imports-IsImported name mi (x ∷ ms) found m a e mm am =
    let (first, e1, e') = >>=-eq-ok (imports x name mi) _ e in
    let (rest, e2, e3) = >>=-eq-ok (methods_imports name mi ms) _ e' in
    let both = ok-injective e3 in
    elim mm [
      | inl same ↦
          IsImported-mono name mi first found a.interface
            (λ y h. subst (In y) both (In-append_left y first rest h))
            (imports-IsImported x name mi first a e1 (subst (λ (k : Method). In a k.arg) same am))
      | inr later ↦
          IsImported-mono name mi rest found a.interface
            (λ y h. subst (In y) both (In-append_right y first rest h))
            (methods_imports-IsImported name mi ms rest m a e2 later am)
    ]

-- If the imports of an interface are found, they are in increasing order, each once; and for every
-- argument of its requests and events that names another interface, the class is among them, under
-- the path that its protocol gives it.
pub interface_imports-IsImported :
    (i : Interface) (mi : Dict String) (found : List Import)
    → interface_imports i mi ≡ ok found
    → (m : Method) (a : Argument) → In m (methods i)
    → In a m.arg
    → IsIncreasing found × IsImported i.name mi found a.interface
unfolding interface_imports
interface_imports-IsImported i mi found e m a mm am =
    let (all, e1, e2) = >>=-eq-ok (methods_imports i.name mi (methods i)) _ e in
    let same = ok-injective e2 in
    (
      subst IsIncreasing same (sorted_set-IsIncreasing all),
      IsImported-mono i.name mi all found a.interface
          (λ y h. subst (In y) same ((In-sorted_set y all).1 h))
          (methods_imports-IsImported i.name mi (methods i) all m a e1 mm am),
    )

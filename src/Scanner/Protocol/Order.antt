-- ===== src/Scanner/Protocol/Order.antt =====
-- The order in which `__init__.py` imports the interfaces.
use Prim.Native.Nat.{Ordering}
use Prim.Native.String.{compare}
use mathlib.Core.List.{Perm}
use mathlib.Core.List.Perm
use pywayland_i6ie.Base.{◌≡◌, ◌≢◌, refl, ap, ◌∙◌, List, [], ◌∷◌}
use pywayland_i6ie.Scanner.Interface.{Interface}
use pywayland_i6ie.Scanner.Interface.Imports.{flip, compare-flip}
use pywayland_i6ie.Scanner.Protocol.{place_by_name, insert_by_name, sort_by_name}

-- The list is empty, or its first name is not before this one.
abbrev pub Before : Interface → List Interface → Type 0
Before x [] = Unit
Before x (y ∷ _) = compare x.name y.name ≢ Ordering.gt

abbrev pub IsSorted : List Interface → Type 0
IsSorted [] = Unit
IsSorted (x ∷ interfaces) = Before x interfaces × IsSorted interfaces

not_after :
    (x y : Interface) → compare x.name y.name ≡ Ordering.gt → compare y.name x.name ≢ Ordering.gt
not_after x y gt again = let lt = compare-flip x.name y.name ∙ ap flip gt in absurd (cc)

Before-place_by_name :
    (o : Ordering) (z x y : Interface) (interfaces later : List Interface)
    → compare z.name x.name ≢ Ordering.gt
    → compare z.name y.name ≢ Ordering.gt
    → Before z (place_by_name o x y interfaces later)
unfolding place_by_name
Before-place_by_name Ordering.lt z x y interfaces later zx zy = zx
Before-place_by_name Ordering.eq z x y interfaces later zx zy = zx
Before-place_by_name Ordering.gt z x y interfaces later zx zy = zy

Before-insert_by_name :
    (z x : Interface) (interfaces : List Interface)
    → compare z.name x.name ≢ Ordering.gt
    → Before z interfaces
    → Before z (insert_by_name x interfaces)
unfolding insert_by_name
Before-insert_by_name z x [] zx before = zx
Before-insert_by_name z x (y ∷ interfaces) zx before =
    Before-place_by_name (compare x.name y.name) z x y interfaces _ zx before

place_by_name-IsSorted :
    (o : Ordering) (x y : Interface) (interfaces : List Interface)
    → compare x.name y.name ≡ o
    → IsSorted (y ∷ interfaces)
    → IsSorted (insert_by_name x interfaces)
    → IsSorted (place_by_name o x y interfaces (insert_by_name x interfaces))
unfolding place_by_name
place_by_name-IsSorted Ordering.lt x y interfaces e sorted later = (λ gt. absurd (cc), sorted)
place_by_name-IsSorted Ordering.eq x y interfaces e sorted later = (λ gt. absurd (cc), sorted)
place_by_name-IsSorted Ordering.gt x y interfaces e sorted later =
    (Before-insert_by_name y x interfaces (not_after x y e) sorted.0, later)

insert_by_name-IsSorted :
    (x : Interface) (interfaces : List Interface)
    → IsSorted interfaces
    → IsSorted (insert_by_name x interfaces)
unfolding insert_by_name
insert_by_name-IsSorted x [] sorted = (tt, tt)
insert_by_name-IsSorted x (y ∷ interfaces) sorted =
    place_by_name-IsSorted (compare x.name y.name) x y interfaces refl sorted
      (insert_by_name-IsSorted x interfaces sorted.1)

Perm-place_by_name :
    (o : Ordering) (x y : Interface) (interfaces later : List Interface)
    → Perm later (x ∷ interfaces)
    → Perm (place_by_name o x y interfaces later) (x ∷ y ∷ interfaces)
unfolding place_by_name
Perm-place_by_name Ordering.lt x y interfaces later same = Perm.refl _
Perm-place_by_name Ordering.eq x y interfaces later same = Perm.refl _
Perm-place_by_name Ordering.gt x y interfaces later same =
    Perm.trans (Perm.cons y same) (Perm.swap x y interfaces)

Perm-insert_by_name :
    (x : Interface) (interfaces : List Interface)
    → Perm (insert_by_name x interfaces) (x ∷ interfaces)
unfolding insert_by_name
Perm-insert_by_name x [] = Perm.refl _
Perm-insert_by_name x (y ∷ interfaces) =
    Perm-place_by_name (compare x.name y.name) x y interfaces _ (Perm-insert_by_name x interfaces)

-- The interfaces that `__init__.py` imports are those of the protocol, each as often as there, and
-- no name stands directly behind a later one.
pub sort_by_name-IsSorted :
    (interfaces : List Interface)
    → IsSorted (sort_by_name interfaces) × Perm (sort_by_name interfaces) interfaces
unfolding sort_by_name
sort_by_name-IsSorted [] = (tt, Perm.refl _)
sort_by_name-IsSorted (x ∷ interfaces) =
    let (sorted, same) = sort_by_name-IsSorted interfaces in
    (
      insert_by_name-IsSorted x (sort_by_name interfaces) sorted,
      Perm.trans (Perm-insert_by_name x (sort_by_name interfaces)) (Perm.cons x same),
    )

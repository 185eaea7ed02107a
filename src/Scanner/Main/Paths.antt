-- ===== src/Scanner/Main/Paths.antt =====
-- The order in which the protocols of wayland-protocols are read.
use mathlib.Core.List.{Perm}
use mathlib.Core.List.Perm
use pywayland_i6ie.Base.{
  ℕ, String, ◌≡◌, refl, true, false, List, [], ◌∷◌, All, Result, ok, err, arith, Bool-cases, inl,
  inr, >>=-eq-ok, ok-injective, io_error,
}
use pywayland_i6ie.Base.Text.{codes}
use pywayland_i6ie.Scanner.Main.{
  codes_leb, path_leb, insert_path, sort_reversed, walked_files, ScannerSystem, on_failure,
  pkgconfig, get_wayland_protocols,
}

codes_leb_total : (xs ys : List ℕ) → codes_leb xs ys ≡ false → codes_leb ys xs ≡ true
codes_leb_total [] ys e = absurd (cc)
codes_leb_total (x ∷ xs) [] e = refl
codes_leb_total (x ∷ xs) (y ∷ ys) e = ground (arith, codes_leb_total xs ys)

codes_leb_trans :
    (xs ys zs : List ℕ) → codes_leb xs ys ≡ true → codes_leb ys zs ≡ true → codes_leb xs zs ≡ true
codes_leb_trans [] ys zs e f = refl
codes_leb_trans (x ∷ xs) [] zs e f = absurd (ground arith)
codes_leb_trans (x ∷ xs) (y ∷ ys) [] e f = absurd (ground arith)
codes_leb_trans (x ∷ xs) (y ∷ ys) (z ∷ zs) e f = ground (arith, codes_leb_trans xs ys zs)

-- No path stands before a greater one.
abbrev pub Descends : List String → Type 0
Descends [] = Unit
Descends (x ∷ paths) = All (λ y. path_leb y x ≡ true) paths × Descends paths

All-trans :
    (x y : String) (paths : List String)
    → path_leb y x ≡ true
    → All (λ z. path_leb z y ≡ true) paths
    → All (λ z. path_leb z x ≡ true) paths
All-trans x y [] below all = tt
All-trans x y (z ∷ paths) below (first, all) =
    (codes_leb_trans (codes z) (codes y) (codes x) first below, All-trans x y paths below all)

All-insert_path :
    (bound x : String) (paths : List String)
    → path_leb x bound ≡ true
    → All (λ z. path_leb z bound ≡ true) paths
    → All (λ z. path_leb z bound ≡ true) (insert_path x paths)
unfolding insert_path
All-insert_path bound x [] below all = (below, tt)
All-insert_path bound x (y ∷ paths) below (first, all) = elim (Bool-cases (path_leb y x)) [
  | inl e ↦ rw e (below, (first, all))
  | inr e ↦ rw e (first, All-insert_path bound x paths below all)
]

insert_path-Descends :
    (x : String) (paths : List String) → Descends paths → Descends (insert_path x paths)
unfolding insert_path
insert_path-Descends x [] descends = (tt, tt)
insert_path-Descends x (y ∷ paths) (first, descends) = elim (Bool-cases (path_leb y x)) [
  | inl e ↦ rw e ((e, All-trans x y paths e first), (first, descends))
  | inr e ↦ rw e (
    All-insert_path y x paths (codes_leb_total (codes y) (codes x) e) first,
    insert_path-Descends x paths descends,
  )
]

Perm-insert_path : (x : String) (paths : List String) → Perm (insert_path x paths) (x ∷ paths)
unfolding insert_path
Perm-insert_path x [] = Perm.refl _
Perm-insert_path x (y ∷ paths) = elim (Bool-cases (path_leb y x)) [
  | inl e ↦ rw e (Perm.refl _)
  | inr e ↦ rw e (Perm.trans (Perm.cons y (Perm-insert_path x paths)) (Perm.swap x y paths))
]

pub sort_reversed-Descends : (paths : List String) → Descends (sort_reversed paths)
unfolding sort_reversed
sort_reversed-Descends [] = tt
sort_reversed-Descends (x ∷ paths) =
    insert_path-Descends x (sort_reversed paths) (sort_reversed-Descends paths)

pub Perm-sort_reversed : (paths : List String) → Perm (sort_reversed paths) paths
unfolding sort_reversed
Perm-sort_reversed [] = Perm.refl _
Perm-sort_reversed (x ∷ paths) =
    Perm.trans (Perm-insert_path x (sort_reversed paths)) (Perm.cons x (Perm-sort_reversed paths))

on_failure-err :
    (found : Result String) (dir : String)
    → on_failure (err io_error) found ≡ ok dir
    → found ≡ ok dir
on_failure-err (ok x) dir e = e
on_failure-err (err x) dir e = absurd (ground (arith, e))

-- What is found is what is walked through, with no path before a greater one.
pub get_wayland_protocols-Descends :
    (S : ScannerSystem) (files : List String)
    → get_wayland_protocols S ≡ ok files
    → Descends files
      × ((dir : String) × (pkgconfig S "wayland-protocols" "pkgdatadir" ≡ ok dir)
          × Perm files (walked_files (S.walk dir)))
unfolding get_wayland_protocols
get_wayland_protocols-Descends S files e =
    let (dir, found, e') =
      >>=-eq-ok (on_failure (err io_error) (pkgconfig S "wayland-protocols" "pkgdatadir")) _ e in
    let same : sort_reversed (walked_files (S.walk dir)) ≡ files = ok-injective e' in
    rw (← same) (
      sort_reversed-Descends (walked_files (S.walk dir)),
      (dir, on_failure-err _ dir found, Perm-sort_reversed (walked_files (S.walk dir))),
    )

-- ===== src/Documentation/Pages/Removed.antt =====
-- Which entries are left once the stale ones have been removed.
use pywayland_i6ie.Base.{
  String, ◌≡◌, refl, sym, ap, ◌∙◌, Bool, true, false, Option, none, some, List, [], ◌∷◌, Result, ok,
  err, any, if◌then◌else◌, ◌==◌, String-Eq, eq_iff, arith,
}
use pywayland_i6ie.Base.Dict.{lookup}
use pywayland_i6ie.Documentation.{Entry, text_file, directory, Pages, DocSystem}
use pywayland_i6ie.Documentation.Pages.{Step, after, without, remove_found, remove_files}

pub after-ok :
    (r : Result (Unit {0}) × Pages) (next : Step) (later : Pages)
    → after r next ≡ (ok tt, later)
    → (between : Pages) × (r ≡ (ok tt, between)) × (next between ≡ (ok tt, later))
unfolding after
after-ok (err e, pages) next later same = absurd (let e = ap (λ r. r.0) same in cc)
after-ok (ok tt, pages) next later same = (pages, refl, same)

lookup-without :
    (name j : String) (pages : Pages)
    → lookup j (without name pages) ≡ (if name == j then none else lookup j pages)
unfolding lookup without
lookup-without name j [] = ground arith
lookup-without name j ((k, entry) ∷ pages) =
    ground (arith, eq_iff k name, eq_iff name j, eq_iff k j, lookup-without name j pages)

remove_found-without :
    (b : Bool) (name : String) (entry : Option Entry) (pages later : Pages)
    → remove_found b name entry pages ≡ (ok tt, later)
    → without name pages ≡ later
unfolding remove_found
remove_found-without true name (some directory) pages later e = ap (λ r. r.1) e
remove_found-without false name (some (text_file t)) pages later e = ap (λ r. r.1) e
remove_found-without true name (some (text_file t)) pages later e =
    absurd (let e = ap (λ r. r.0) e in cc)
remove_found-without false name (some directory) pages later e =
    absurd (let e = ap (λ r. r.0) e in cc)
remove_found-without true name none pages later e = absurd (let e = ap (λ r. r.0) e in cc)
remove_found-without false name none pages later e = absurd (let e = ap (λ r. r.0) e in cc)

pub lookup-remove_files :
    (S : DocSystem) (names : List String) (pages later : Pages) (j : String)
    → remove_files S names pages ≡ (ok tt, later)
    → lookup j later ≡ (if any (λ n. n == j) names then none else lookup j pages)
unfolding remove_files
lookup-remove_files S [] pages later j e = ap (λ r. lookup j r.1) (sym e)
lookup-remove_files S (name ∷ names) pages later j e =
    let (between, first, rest) =
      after-ok (remove_found (S.is_dir name) name (lookup name pages) pages) (remove_files S names)
        later e in
    let removed =
      remove_found-without (S.is_dir name) name (lookup name pages) pages between first in
    let at : lookup j between ≡ (if name == j then none else lookup j pages) =
      ap (lookup j) (sym removed) ∙ lookup-without name j pages in
    let after_rest = lookup-remove_files S names between later j rest in
    ground (arith, eq_iff name j, at, after_rest)

-- ===== src/Server/Counts.antt =====
-- How often the sources of a loop (pywayland/server/eventloop.py) are added, removed and discarded.
use pywayland_i6ie.Base.{
  ℕ, zero, suc, ◌+◌, ◌≡◌, refl, Option, none, some, List, [], ◌∷◌, ◌++◌, get_elem?, set, arith,
  if◌then◌else◌, ◌==◌, ℕ-Eq,
}
use pywayland_i6ie.ProtocolCore.Message.{Ptr}
use pywayland_i6ie.Server.{LoopCall, add, remove, removing, discarding, remove_all, all_removed}

-- How often a source with this pointer was added, was removed, is there, and was discarded.
abbrev pub count_added : Ptr → List LoopCall → ℕ
count_added p [] = 0
count_added p (add _ _ q ∷ calls) =
    let rest = count_added p calls in if q == p then suc rest else rest
count_added p (_ ∷ calls) = count_added p calls

abbrev pub count_removed : Ptr → List LoopCall → ℕ
count_removed p [] = 0
count_removed p (remove q ∷ calls) =
    let rest = count_removed p calls in if q == p then suc rest else rest
count_removed p (_ ∷ calls) = count_removed p calls

abbrev pub count_source : Ptr → Option Ptr → ℕ
count_source p none = 0
count_source p (some q) = if q == p then 1 else 0

abbrev pub count_present : Ptr → List (Option Ptr) → ℕ
count_present p [] = 0
count_present p (source ∷ sources) = count_source p source + count_present p sources

abbrev pub count_discarded : Ptr → List Ptr → ℕ
count_discarded p [] = 0
count_discarded p (q ∷ discarded) =
    let rest = count_discarded p discarded in if q == p then suc rest else rest

pub count_added-append :
    (p : Ptr) (xs ys : List LoopCall)
    → count_added p (xs ++ ys) ≡ count_added p xs + count_added p ys
count_added-append p [] ys = omega arith
count_added-append p (add _ _ q ∷ xs) ys = ground (arith, count_added-append p xs ys)
count_added-append p (_ ∷ xs) ys = count_added-append p xs ys

pub count_removed-append :
    (p : Ptr) (xs ys : List LoopCall)
    → count_removed p (xs ++ ys) ≡ count_removed p xs + count_removed p ys
count_removed-append p [] ys = omega arith
count_removed-append p (remove q ∷ xs) ys = ground (arith, count_removed-append p xs ys)
count_removed-append p (_ ∷ xs) ys = count_removed-append p xs ys

pub count_discarded-append :
    (p : Ptr) (xs ys : List Ptr)
    → count_discarded p (xs ++ ys) ≡ count_discarded p xs + count_discarded p ys
count_discarded-append p [] ys = omega arith
count_discarded-append p (q ∷ xs) ys = ground (arith, count_discarded-append p xs ys)

pub count_discarded-discarding :
    (p : Ptr) (source : Option Ptr) → count_discarded p (discarding source) ≡ count_source p source
unfolding discarding
count_discarded-discarding p none = refl
count_discarded-discarding p (some q) = refl

pub count_present-append :
    (p : Ptr) (xs ys : List (Option Ptr))
    → count_present p (xs ++ ys) ≡ count_present p xs + count_present p ys
count_present-append p [] ys = omega arith
count_present-append p (x ∷ xs) ys = omega (arith, count_present-append p xs ys)

pub removing-counts :
    (p : Ptr) (source : Option Ptr)
    → (count_removed p (removing source) ≡ count_source p source)
      × (count_added p (removing source) ≡ 0)
unfolding removing
removing-counts p none = (refl, refl)
removing-counts p (some q) = (refl, refl)

pub remove_all-counts :
    (p : Ptr) (sources : List (Option Ptr))
    → (count_removed p (remove_all sources) ≡ count_present p sources)
      × (count_added p (remove_all sources) ≡ 0)
unfolding remove_all
remove_all-counts p [] = (refl, refl)
remove_all-counts p (source ∷ sources) =
    let (removed, added) = removing-counts p source in
    let (removed', added') = remove_all-counts p sources in
    let all_removed_here = count_removed-append p (removing source) (remove_all sources) in
    let all_added_here = count_added-append p (removing source) (remove_all sources) in
    (omega arith, omega arith)

pub count_present-all_removed :
    (p : Ptr) (sources : List (Option Ptr)) → count_present p (all_removed sources) ≡ 0
unfolding all_removed
count_present-all_removed p [] = refl
count_present-all_removed p (source ∷ sources) = omega (arith, count_present-all_removed p sources)

pub count_present-set :
    (p : Ptr) (sources : List (Option Ptr)) (k : ℕ) (source : Option Ptr)
    → get_elem? sources k ≡ some source
    → count_present p sources ≡ count_source p source + count_present p (set sources k none)
count_present-set p [] k source at = absurd (cc)
count_present-set p (x ∷ sources) zero source at =
    let same : x ≡ source = ground arith in rw same (omega arith)
count_present-set p (x ∷ sources) (suc k) source at =
    omega (arith, count_present-set p sources k source at)

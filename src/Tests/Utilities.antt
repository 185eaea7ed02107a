-- ===== src/Tests/Utilities.antt =====
-- Anonymous files on a system that counts, and a list with two links.
use pywayland_i6ie.Base.{
  ℕ, suc, ◌+◌, ℤ, pos, negsuc, ◌≡◌, refl, none, some, [], ◌∷◌, map, Result, ok, err, io_error,
  plain_exception, arith, if◌then◌else◌, ◌==◌, ℕ-Eq,
}
use pywayland_i6ie.Utils.{
  System, AnonymousFile, anonymous_file, open_file, close_file, with_file, wl_container_of,
  wl_list_for_each,
}
use pywayland_i6ie.Utils.AnonymousFiles.{with_file_closes}
use pywayland_i6ie.Utils.Links.{wl_list_for_each-Leads}

-- The world is the number of descriptors that were closed; no file has a negative size.
abbrev make : ℤ → ℕ → ℤ × ℕ
make (pos n) w = (pos 5, w)
make (negsuc n) w = (negsuc 0, w)

abbrev counting : System
counting = record { World = ℕ; create = make; close = λ fd w. (ok tt, suc w) }

abbrev opened_file : AnonymousFile
opened_file = record { size = pos 64; fd = some (pos 5) }

abbrev closed_file : AnonymousFile
closed_file = record { size = pos 64; fd = none }

closes : close_file counting opened_file 0 ≡ (ok tt, closed_file, 1)
unfolding close_file
closes = refl

abbrev failed_file : AnonymousFile
failed_file = record { size = negsuc 7; fd = some (negsuc 0) }

not_made : open_file counting (anonymous_file (negsuc 7)) 0 ≡ (err io_error, failed_file, 0)
unfolding open_file anonymous_file
not_made = refl

not_made_again : open_file counting failed_file 0 ≡ (err io_error, failed_file, 0)
unfolding open_file
not_made_again = refl

-- The body raises.
abbrev raising : ℤ → ℕ → Result ℕ × ℕ
raising fd w = (err plain_exception, w)

with_file_closes_example :
    (with_file counting (anonymous_file (pos 64)) raising 0
      ≡ (err plain_exception, anonymous_file (pos 64), 1))
    × (close_file counting (anonymous_file (pos 64)) 1 ≡ (ok tt, anonymous_file (pos 64), 1))
with_file_closes_example = with_file_closes counting (pos 64) 5 raising 0 0 1 refl refl

-- The head is at 1000, and the links are at 24 and 8.
abbrev next_link : ℕ → ℕ
next_link at = if at == 1000 then 24 else if at == 24 then 8 else 1000

wl_list_for_each-Leads_example :
    wl_list_for_each next_link 1000 16 (suc 2 + 4)
    ≡ some (map (λ x. wl_container_of x 16) (24 ∷ 8 ∷ []))
wl_list_for_each-Leads_example =
    wl_list_for_each-Leads next_link 1000 16 (omega arith) (omega arith) (24 ∷ 8 ∷ []) 4 (
      refl,
      λ e. absurd (ground arith),
      omega arith,
      (refl, λ e. absurd (ground arith), omega arith, refl),
    )

-- The second container stands before its link by more than there is room: the address wraps.
walked : wl_list_for_each next_link 1000 16 3 ≡ some (8 ∷ 18446744073709551608 ∷ [])
unfolding wl_list_for_each
walked = refl

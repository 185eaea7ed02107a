-- ===== src/Utils.antt =====
-- pywayland/utils.py: anonymous files, and the walk over a list of libwayland's.
pub mod AnonymousFiles
pub mod Links
use Prim.Native.Nat.{◌%◌}
use pywayland_i6ie.Base.{
  ℕ, zero, suc, ◌+◌, ◌-◌, ℤ, pos, negsuc, Option, none, some, List, [], ◌∷◌, Result, ok, err,
  io_error, assertion_error, if◌then◌else◌, ◌==◌, ℕ-Eq,
}

-- The operating system on a world of its own: `lib.os_create_anonymous_file` gives a descriptor or
-- a negative number, and `os.close` may raise.
pub record System : Type 1 where
  pub World : Type 0
  pub create : ℤ → World → ℤ × World
  pub close : ℤ → World → Result (Unit {0}) × World

pub record AnonymousFile : Type 0 where
  pub size : ℤ
  pub fd : Option ℤ

-- `AnonymousFile(size)`
unfoldable pub anonymous_file : ℤ → AnonymousFile
anonymous_file size = record { size = size; fd = none }

module _ (S : System) where
  open S use {World}

  -- What a method of the file ends with, the file, and the world.
  abbrev pub Outcome {ℓ} : Type ℓ → Type ℓ
  Outcome A = Result A × AnonymousFile × World

  -- The number is stored before it is looked at.
  opened : AnonymousFile → ℤ × World → Outcome (Unit {0})
  opened f (pos n, w) = (ok tt, record f { fd = some (pos n) }, w)
  opened f (negsuc n, w) = (err io_error, record f { fd = some (negsuc n) }, w)

  unfoldable pub open_file : AnonymousFile → World → Outcome (Unit {0})
  unfolding opened
  open_file f w = elim f.fd [ some _ ↦ (err io_error, f, w) | none ↦ opened f (S.create f.size w) ]

  pub closed : AnonymousFile → Result (Unit {0}) × World → Outcome (Unit {0})
  closed f (err e, w) = (err e, f, w)
  closed f (ok _, w) = (ok tt, record f { fd = none }, w)

  unfoldable pub close_file : AnonymousFile → World → Outcome (Unit {0})
  unfolding closed
  close_file f w = elim f.fd [ none ↦ (ok tt, f, w) | some fd ↦ closed f (S.close fd w) ]

  entered : Outcome (Unit {0}) → Outcome ℤ
  entered (err e, f, w) = (err e, f, w)
  entered (ok _, f, w) = elim f.fd [ none ↦ (err assertion_error, f, w) | some fd ↦ (ok fd, f, w) ]

  -- `__enter__`
  unfoldable pub enter_file : AnonymousFile → World → Outcome ℤ
  unfolding entered open_file
  enter_file f w = entered (open_file f w)

  -- An exception of `close` takes the place of what the body ended with.
  left : {A : Type 0} → Result A → Outcome (Unit {0}) → Outcome A
  left ret (err e, f, w) = (err e, f, w)
  left ret (ok _, f, w) = (ret, f, w)

  ran : {A : Type 0} → (ℤ → World → Result A × World) → Outcome ℤ → Outcome A
  unfolding left close_file
  ran body (err e, f, w) = (err e, f, w)
  ran body (ok fd, f, w) = let (ret, w') = body fd w in left ret (close_file f w')

  -- `with file as fd: body`
  unfoldable pub with_file :
      {A : Type 0} → AnonymousFile → (ℤ → World → Result A × World) → World → Outcome A
  unfolding ran enter_file
  with_file f body w = ran body (enter_file f w)

-- Addresses are of 64 bits, and pointers wrap.
abbrev pub word : ℕ
word = 18446744073709551616

-- The container of the link at `ptr`, by the offset of the member, and the address of its member.
abbrev pub wl_container_of : ℕ → ℕ → ℕ
wl_container_of ptr offset = (ptr + (word - offset)) % word

abbrev pub member : ℕ → ℕ → ℕ
member container offset = (container + offset) % word

module _ (next : ℕ → ℕ) (head : ℕ) (offset : ℕ) where
  -- The loop from a container on: what it yields, or `none` if it has not ended after this many
  -- rounds.
  unfoldable pub each_from : ℕ → ℕ → Option (List ℕ)
  each_from zero at = none
  each_from (suc rounds) at =
      let rest = each_from rounds (wl_container_of (next (member at offset)) offset) in
      if member at offset == head
      then some []
      else (elim rest [ none ↦ none | some containers ↦ some (at ∷ containers) ])

  unfoldable pub wl_list_for_each : ℕ → Option (List ℕ)
  unfolding each_from
  wl_list_for_each rounds = each_from rounds (wl_container_of (next head) offset)

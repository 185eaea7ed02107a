-- ===== src/Base/Text.antt =====
-- Python's operations on texts that the program uses, over the native texts.
use Prim.Native.Nat.{◌/◌, ◌%◌, ◌*◌}
use Prim.Native.Char.{code}
use Prim.Native.String.append
use pywayland_i6ie.Base.Lists.{All, All-append}
use pywayland_i6ie.Base.Tests.{ltb, leb, if◌then◌else◌, ◌==◌, ℕ-Eq, String-Eq, Bool-cases}
use Prim.Native.Nat.{ℕ, zero, suc, ◌+◌, ◌-◌, ◌<◌}
use Prim.Native.String.{String, ◌++◌ as ◌<>◌}
use mathlib.Core.Path.{◌≡◌, refl, ap, ◌∙◌}
use mathlib.Core.Logic.{inl, inr}
use mathlib.Core.Bool.{Bool, true, false, ◌&&◌}
use mathlib.Core.List.{List, [], ◌∷◌, ◌++◌, append_assoc}
use native.Mathlib.Omega.{arith}

-- The code points of a text.
abbrev pub codes : String → List ℕ
codes String.[] = []
codes (String.◌∷◌ c s) = code c ∷ codes s

pub codes-append : (s t : String) → codes (s <> t) ≡ codes s ++ codes t
codes-append String.[] t = ap codes (λ i. append.nil t i)
codes-append (String.◌∷◌ c s) t =
    ap codes (λ i. append.cons c s t i) ∙ ap (λ l. code c ∷ l) (codes-append s t)

-- `"".join(texts)`
abbrev pub concat : List String → String
concat [] = ""
concat (s ∷ texts) = s <> concat texts

-- `sep.join(texts)`
abbrev pub join : String → List String → String
join sep [] = ""
join sep (s ∷ []) = s
join sep (s ∷ t ∷ texts) = s <> (sep <> join sep (t ∷ texts))

abbrev pub is_empty : String → Bool
is_empty String.[] = true
is_empty (String.◌∷◌ c s) = false

-- `text.strip("_")`
pub lstrip : String → String
lstrip String.[] = ""
lstrip (String.◌∷◌ c s) = if code c == 95 then lstrip s else String.◌∷◌ c s

pub rstrip : String → String
rstrip String.[] = ""
rstrip (String.◌∷◌ c s) =
    let rest = rstrip s in if is_empty rest && (code c == 95) then "" else String.◌∷◌ c rest

unfoldable pub strip_underscores : String → String
unfolding lstrip rstrip
strip_underscores s = rstrip (lstrip s)

abbrev digit : ℕ → String
digit zero = "0"
digit (suc zero) = "1"
digit (suc (suc zero)) = "2"
digit (suc (suc (suc zero))) = "3"
digit (suc (suc (suc (suc zero)))) = "4"
digit (suc (suc (suc (suc (suc zero))))) = "5"
digit (suc (suc (suc (suc (suc (suc zero)))))) = "6"
digit (suc (suc (suc (suc (suc (suc (suc zero))))))) = "7"
digit (suc (suc (suc (suc (suc (suc (suc (suc zero)))))))) = "8"
digit _ = "9"

pub decimal : ℕ → ℕ → String
decimal zero n = ""
decimal (suc fuel) n =
    let more = decimal fuel (n / 10) <> digit (n % 10) in if ltb n 10 then digit n else more

-- `str(n)`
unfoldable pub str : ℕ → String
unfolding decimal
str n = decimal (suc n) n

-- The number that the leading digits add to `acc`, as `atoi` reads it.
abbrev pub is_digit : ℕ → Bool
is_digit c = leb 48 c && leb c 57

unfoldable pub read_digits : ℕ → List ℕ → ℕ
read_digits acc [] = acc
read_digits acc (c ∷ cs) =
    let more = read_digits (acc * 10 + (c - 48)) cs in if is_digit c then more else acc

abbrev pub StartsNoDigit : List ℕ → Type 0
StartsNoDigit [] = Unit
StartsNoDigit (c ∷ cs) = is_digit c ≡ false

read_digits-digit :
    (d acc : ℕ) (rest : List ℕ)
    → d < 10
    → read_digits acc (codes (digit d) ++ rest) ≡ read_digits (acc * 10 + d) rest
unfolding read_digits
read_digits-digit zero acc rest h = refl
read_digits-digit (suc zero) acc rest h = refl
read_digits-digit (suc (suc zero)) acc rest h = refl
read_digits-digit (suc (suc (suc zero))) acc rest h = refl
read_digits-digit (suc (suc (suc (suc zero)))) acc rest h = refl
read_digits-digit (suc (suc (suc (suc (suc zero))))) acc rest h = refl
read_digits-digit (suc (suc (suc (suc (suc (suc zero)))))) acc rest h = refl
read_digits-digit (suc (suc (suc (suc (suc (suc (suc zero))))))) acc rest h = refl
read_digits-digit (suc (suc (suc (suc (suc (suc (suc (suc zero)))))))) acc rest h = refl
read_digits-digit (suc (suc (suc (suc (suc (suc (suc (suc (suc zero))))))))) acc rest h = refl
read_digits-digit (suc (suc (suc (suc (suc (suc (suc (suc (suc (suc n)))))))))) acc rest h =
    absurd (omega arith)

read_digits-decimal :
    (fuel n : ℕ) (rest : List ℕ)
    → n < fuel
    → read_digits 0 (codes (decimal fuel n) ++ rest) ≡ read_digits n rest
unfolding decimal
read_digits-decimal zero n rest h = elim h [ ]
read_digits-decimal (suc fuel) n rest h = elim (Bool-cases (ltb n 10)) [
  | inl small ↦
      rw small
        (read_digits-digit n 0 rest (ground arith) ∙ ap (λ k. read_digits k rest) (omega arith))
  | inr large ↦
      rw (large, codes-append, append_assoc)
        (read_digits-decimal fuel (n / 10) (codes (digit (n % 10)) ++ rest) (ground arith)
          ∙ read_digits-digit (n % 10) (n / 10) rest (omega arith)
          ∙ ap (λ k. read_digits k rest) (omega arith))
]

-- The printed digits read back, whatever follows that is no digit.
pub read_digits-str :
    (n : ℕ) (rest : List ℕ) → StartsNoDigit rest → read_digits 0 (codes (str n) ++ rest) ≡ n
unfolding str read_digits
read_digits-str n [] h = read_digits-decimal (suc n) n [] (omega arith)
read_digits-str n (c ∷ cs) h = read_digits-decimal (suc n) n (c ∷ cs) (omega arith) ∙ rw h

abbrev pub IsDigits : List ℕ → Type 0
IsDigits = All (λ c. is_digit c ≡ true)

digit-IsDigits : (d : ℕ) → IsDigits (codes (digit d))
digit-IsDigits zero = (refl, tt)
digit-IsDigits (suc zero) = (refl, tt)
digit-IsDigits (suc (suc zero)) = (refl, tt)
digit-IsDigits (suc (suc (suc zero))) = (refl, tt)
digit-IsDigits (suc (suc (suc (suc zero)))) = (refl, tt)
digit-IsDigits (suc (suc (suc (suc (suc zero))))) = (refl, tt)
digit-IsDigits (suc (suc (suc (suc (suc (suc zero)))))) = (refl, tt)
digit-IsDigits (suc (suc (suc (suc (suc (suc (suc zero))))))) = (refl, tt)
digit-IsDigits (suc (suc (suc (suc (suc (suc (suc (suc zero)))))))) = (refl, tt)
digit-IsDigits _ = (refl, tt)

decimal-IsDigits : (fuel n : ℕ) → IsDigits (codes (decimal fuel n))
unfolding decimal
decimal-IsDigits zero n = tt
decimal-IsDigits (suc fuel) n = elim (Bool-cases (ltb n 10)) [
  | inl small ↦ rw small (digit-IsDigits n)
  | inr large ↦
      rw (large, codes-append)
        (All-append _ _ _ (decimal-IsDigits fuel (n / 10)) (digit-IsDigits (n % 10)))
]

pub str-IsDigits : (n : ℕ) → IsDigits (codes (str n))
unfolding str
str-IsDigits n = decimal-IsDigits (suc n) n

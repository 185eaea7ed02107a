-- ===== src/Base/Words.antt =====
-- Python's methods on texts that take them apart: `split`, `strip`, `capitalize`, `replace`, over
-- texts of ASCII characters.
use Prim.Native.Nat.{ℕ, zero, suc, ◌-◌}
use Prim.Native.Char.{Char, code}
use Prim.Native.String.{String, char_at, ◌++◌ as ◌<>◌}
use mathlib.Core.Path.{◌≡◌, refl}
use mathlib.Core.Bool.{Bool, true, false, ◌&&◌, ◌||◌}
use mathlib.Core.List.{List, [], ◌∷◌, map}
use pywayland_i6ie.Base.Tests.{leb, if◌then◌else◌, ◌==◌, ℕ-Eq}
use pywayland_i6ie.Base.Text.{is_empty, concat}

-- `" " * n`
abbrev pub spaces : ℕ → String
spaces zero = ""
spaces (suc n) = " " <> spaces n

abbrev cons_head : Char → List String → List String
cons_head c [] = String.◌∷◌ c "" ∷ []
cons_head c (w ∷ words) = String.◌∷◌ c w ∷ words

-- `text.split(sep)` for a separator of one character, given by its code.
unfoldable pub split : ℕ → String → List String
split sep String.[] = "" ∷ []
split sep (String.◌∷◌ c s) =
    let words = split sep s in if code c == sep then "" ∷ words else cons_head c words

-- `text.split("\n\n")`
unfoldable pub split_paragraphs : String → List String
split_paragraphs String.[] = "" ∷ []
split_paragraphs (String.◌∷◌ c String.[]) = String.◌∷◌ c "" ∷ []
split_paragraphs (String.◌∷◌ c (String.◌∷◌ d s)) =
    let broken = "" ∷ split_paragraphs s in
    let kept = cons_head c (split_paragraphs (String.◌∷◌ d s)) in
    if (code c == 10) && (code d == 10) then broken else kept

abbrev is_space : ℕ → Bool
is_space c = (leb 9 c && leb c 13) || (leb 28 c && leb c 32)

-- `text.lstrip()`, `text.rstrip()`, `text.strip()`
unfoldable pub lstrip : String → String
lstrip String.[] = ""
lstrip (String.◌∷◌ c s) = if is_space (code c) then lstrip s else String.◌∷◌ c s

unfoldable pub rstrip : String → String
rstrip String.[] = ""
rstrip (String.◌∷◌ c s) =
    let rest = rstrip s in if is_empty rest && is_space (code c) then "" else String.◌∷◌ c rest

unfoldable pub strip : String → String
unfolding lstrip rstrip
strip s = rstrip (lstrip s)

-- `text.startswith(prefix)`
unfoldable pub starts_with : String → String → Bool
starts_with s String.[] = true
starts_with String.[] (String.◌∷◌ d t) = false
starts_with (String.◌∷◌ c s) (String.◌∷◌ d t) = (code c == code d) && starts_with s t

upper_char : Char → Char
upper_char c =
    if leb b'a' (code c) && leb (code c) b'z'
    then char_at "ABCDEFGHIJKLMNOPQRSTUVWXYZ" (code c - b'a')
    else c

lower_char : Char → Char
lower_char c =
    if leb b'A' (code c) && leb (code c) b'Z'
    then char_at "abcdefghijklmnopqrstuvwxyz" (code c - b'A')
    else c

-- `text.upper()`
unfoldable pub upper : String → String
unfolding upper_char
upper String.[] = ""
upper (String.◌∷◌ c s) = String.◌∷◌ (upper_char c) (upper s)

lower : String → String
unfolding lower_char
lower String.[] = ""
lower (String.◌∷◌ c s) = String.◌∷◌ (lower_char c) (lower s)

-- `text.capitalize()`
unfoldable pub capitalize : String → String
unfolding upper_char lower
capitalize String.[] = ""
capitalize (String.◌∷◌ c s) = String.◌∷◌ (upper_char c) (lower s)

-- `text.replace("-", "_")`
unfoldable pub replace_dashes : String → String
replace_dashes String.[] = ""
replace_dashes (String.◌∷◌ c s) =
    let rest = replace_dashes s in if code c == b'-' then "_" <> rest else String.◌∷◌ c rest

-- `"".join(x.capitalize() for x in name.split("_"))`
unfoldable pub camel_case : String → String
unfolding split capitalize
camel_case name = concat (map capitalize (split b'_' name))

camel_case_example : camel_case "wl_data_deVice" ≡ "WlDataDevice"
unfolding camel_case
camel_case_example = refl

split_paragraphs_example : split_paragraphs "a\n\nb\nc\n\n\nd" ≡ "a" ∷ "b\nc" ∷ "\nd" ∷ []
unfolding split_paragraphs
split_paragraphs_example = refl

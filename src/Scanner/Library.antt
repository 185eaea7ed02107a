-- ===== src/Scanner/Library.antt =====
-- What the scanner takes from the standard library's `textwrap` and `re`.
use pywayland_i6ie.Base.{ℤ, String, Option, List, Result}

-- A match of the pattern for interface and function names: the groups `interface` and `func`.
pub record Match : Type 0 where
  pub interface : String
  pub func : Option String

pub record Library : Type 0 where
  -- `textwrap.fill` by its width, its text and its `subsequent_indent`, with
  -- `break_long_words=False`
  pub fill : ℤ → String → String → Result String
  -- `textwrap.dedent(text)`
  pub dedent : String → String
  -- `re.compile(RE_DOC.format("|".join(names))).sub(replace, text)`
  pub sub : List String → (Match → String) → String → String

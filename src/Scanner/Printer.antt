-- ===== src/Scanner/Printer.antt =====
-- pywayland/scanner/printer.py: the lines of a generated module, with their indentation.
pub mod Names
pub mod Docs
pub mod Layout
use Prim.Native.Nat.{◌*◌}
use Prim.Native.String.{count}
use pywayland_i6ie.Base.{
  ℕ, zero, suc, ◌+◌, ◌-◌, ℤ, pos, negsuc, String, ◌<>◌, Bool, true, false, Option, none, some, List,
  [], ◌∷◌, ◌++◌, map, Result, ok, err, assertion_error, ◌>>=◌, if◌then◌else◌, ◌==◌, String-Eq, ltb,
  leb,
}
use pywayland_i6ie.Base.Dict.{Dict, lookup}
use pywayland_i6ie.Base.Text.{is_empty, join}
use pywayland_i6ie.Base.Words.{
  spaces, split, split_paragraphs, lstrip, strip, starts_with, camel_case,
}
use pywayland_i6ie.Scanner.Library.{Library, Match}

abbrev head_msg : String
head_msg = "# This file has been autogenerated by the pywayland scanner"

abbrev base_path : String
base_path = "pywayland.protocol"

abbrev doc_width : ℕ
doc_width = 79

abbrev pub tab_stop : ℕ
tab_stop = 4

-- `_re_doc` is there exactly if `interface_imports` is.
pub record Printer : Type 0 where
  pub level : ℕ
  pub lines : List String
  pub protocol_name : String
  pub interface_name : Option String
  pub interface_imports : Option (Dict String)

-- `Printer(protocol, interface_name, interface_imports)`
unfoldable pub printer : String → Option String → Option (Dict String) → Printer
printer protocol interface_name interface_imports = record {
  level = 0;
  lines = head_msg ∷ "" ∷ [];
  protocol_name = protocol;
  interface_name = interface_name;
  interface_imports = interface_imports;
}

-- A piece of code that prints, and may raise.
abbrev pub Output : Type 0
Output = Printer → Result Printer

infixl 10 ◌⨾◌
abbrev pub ◌⨾◌ : Output → Output → Output
◌⨾◌ first second p = first p >>= second

-- `printer(new_line)`, and `printer()` for an empty text.
unfoldable pub line : String → Output
line new_line p =
    let text = if is_empty new_line then "" else spaces (tab_stop * p.level) <> new_line in
    ok (record p { lines = p.lines ++ text ∷ [] })

unfoldable pub blank : Output
unfolding line
blank = line ""

-- `for line in lines: printer(line)`
unfoldable pub each {ℓ} : {A : Type ℓ} → (A → Output) → List A → Output
each output [] p = ok p
each output (x ∷ xs) p = output x p >>= each output xs

-- `with printer.indented(): …`
unfoldable pub indented : Output → Output
indented body p = do
  p' ← body (record p { level = p.level + 1 })
  ok (record p' { level = p'.level - 1 })

-- `if text: …`, for a text that may be missing.
unfoldable pub when_some {ℓ} : {A : Type ℓ} → Option A → (A → Output) → Output
when_some none output p = ok p
when_some (some x) output p = output x p

unfoldable pub when : Bool → Output → Output
when true output p = output p
when false output p = ok p

-- ===== src/Documentation.antt =====
-- doc/conf.py: the pages on the protocols, which the documentation is built from.
pub mod Pages
use pywayland_i6ie.Base.{
  ℕ, zero, suc, String, ◌<>◌, Bool, true, false, not, Option, none, some, List, [], ◌∷◌, map,
  Result, ok, err, io_error, runtime_error, ◌>>=◌, map_result, length, any, if◌then◌else◌, ◌==◌,
  ◌&&◌, String-Eq,
}
use pywayland_i6ie.Base.Dict.{Dict, lookup, insert}
use pywayland_i6ie.Base.Text.{codes, concat, join}
use pywayland_i6ie.Base.Words.{camel_case}
use pywayland_i6ie.Scanner.Main.{path_leb}

-- The output directory.
pub data Entry : Type 0 where
  text_file : String → Entry
  directory : Entry

abbrev pub Pages : Type 0
Pages = Dict Entry

-- What is outside: the directories of the modules, the modules themselves, by `dir`, the versions
-- in the index, and whether a name is that of a directory below the working directory.
pub record DocSystem : Type 1 where
  pub input_names : List String
  pub is_input_dir : String → Bool
  pub module_files : String → List String
  pub import_names : String → String → Result (List String)
  pub is_dir : String → Bool
  pub wayland_version : String
  pub protocols_version : String

-- `os.path.splitext`, for a name without a slash: dots that lead it belong to it.
pub last_dot : String → Option (String × String)
last_dot String.[] = none
last_dot (String.◌∷◌ c s) = elim (last_dot s) [
  | some (before, ext) ↦ some (String.◌∷◌ c before, ext)
  | none ↦ if String.◌∷◌ c "" == "." then some ("", String.◌∷◌ c s) else none
]

pub only_dots : String → Bool
only_dots String.[] = true
only_dots (String.◌∷◌ c s) = String.◌∷◌ c "" == "." && only_dots s

unfoldable pub splitext : String → String × String
unfolding last_dot only_dots
splitext name = elim (last_dot name) [
  | none ↦ (name, "")
  | some (before, ext) ↦ if only_dots before then (name, "") else (before, ext)
]

-- `sorted(names)`
pub insert_name : String → List String → List String
insert_name x [] = x ∷ []
insert_name x (y ∷ names) =
    let rest = insert_name x names in if path_leb x y then x ∷ y ∷ names else y ∷ rest

unfoldable pub sort_names : List String → List String
unfolding insert_name
sort_names [] = []
sort_names (x ∷ names) = insert_name x (sort_names names)

abbrev pub filtered : (String → Bool) → List String → List String
filtered p [] = []
filtered p (x ∷ names) = let rest = filtered p names in if p x then x ∷ rest else rest

-- `{empty:=^{len}}` for a length.
abbrev pub line_of : String → ℕ → String
line_of c zero = ""
line_of c (suc n) = c <> line_of c n

abbrev pub page_name : String → String
page_name module_name = module_name <> ".rst"

module _ (S : DocSystem) where
  unfoldable pub modules : List String
  modules = filtered (λ m. S.is_input_dir m && not (m == "__pycache__")) S.input_names

  -- The names of the entries that are of no module.
  unfoldable pub stale_files : Pages → List String
  unfolding modules splitext
  stale_files pages =
      filtered
        (λ name. not (name == "index.rst") && not (any (λ m. m == (splitext name).0) modules))
        (map (λ e. e.0) pages)

  unfoldable pub generated_index : String
  unfolding modules sort_names
  generated_index =
      ".. _protocol:\n\nProtocol Modules\n================\n\nWayland protocols built against Wayland "
      <> S.wayland_version
      <> " and Wayland Protocols "
      <> S.protocols_version
      <> ".\n\n.. toctree::\n   :maxdepth: 2\n\n"
      <> concat (map (λ m. "   " <> m <> "\n") (sort_names modules))

  protocol_header : String → String
  protocol_header m =
      ".. module:: pywayland.protocol."
      <> m
      <> "\n\n"
      <> m
      <> " Module\n"
      <> line_of "=" (length (codes m))
      <> "======="

  protocol_rst : String → String → String
  protocol_rst m protocol =
      protocol
      <> "\n"
      <> line_of "-" (length (codes protocol))
      <> "\n\n.. wl_protocol:: pywayland.protocol."
      <> m
      <> " "
      <> protocol

  unfoldable pub doc_files : String → List String
  unfolding splitext
  doc_files m =
      map (λ f. (splitext f).0)
        (filtered (λ f. not (f == "__init__.py") && (splitext f).1 == ".py") (S.module_files m))

  -- The class that a file of a module defines.
  found_class : String → List String → Result String
  found_class class_name names =
      if any (λ n. n == class_name) names then ok class_name else err runtime_error

  protocol_entry : String → String → Result String
  unfolding found_class protocol_rst camel_case
  protocol_entry m doc_file = do
    names ← S.import_names m doc_file
    protocol ← found_class (camel_case doc_file) names
    ok (protocol_rst m protocol)

  -- The page of a module.
  unfoldable pub protocol_output : String → Result String
  unfolding doc_files protocol_entry protocol_header
  protocol_output m = do
    entries ← map_result (protocol_entry m) (doc_files m)
    ok (join "\n\n" (protocol_header m ∷ entries))

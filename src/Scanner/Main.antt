-- ===== src/Scanner/Main.antt =====
-- pywayland/scanner/__main__.py: where the protocols are looked for, and what is done with them.
pub mod Imports
pub mod Paths
use Prim.Native.Char.{code}
use pywayland_i6ie.Base.{
  ℕ, String, ◌<>◌, Bool, true, false, Option, none, some, List, [], ◌∷◌, ◌++◌, Error, Result, ok,
  err, io_error, called_process_error, ◌>>=◌, map_result, if◌then◌else◌, ◌==◌, ◌||◌, ◌&&◌,
  String-Eq, ℕ-Eq, ltb, leb,
}
use pywayland_i6ie.Base.Text.{codes, is_empty}
use pywayland_i6ie.Scanner.Library.{Library}
use pywayland_i6ie.Scanner.Xml.{Xml}
use pywayland_i6ie.Scanner.Protocol.{
  Protocol, parse_file, Run, then_run, make_dir, path_join, output_protocols, protocol_imports,
}

-- The `strip()` of a text: Python's white space, by its code points.
is_space : ℕ → Bool
is_space c =
    (leb 9 c && leb c 13)
    || (leb 28 c && leb c 32)
    || c == 133
    || c == 160
    || c == 5760
    || (leb 8192 c && leb c 8202)
    || c == 8232
    || c == 8233
    || c == 8239
    || c == 8287
    || c == 12288

strip_left : String → String
unfolding is_space
strip_left String.[] = ""
strip_left (String.◌∷◌ c s) = if is_space (code c) then strip_left s else String.◌∷◌ c s

strip_right : String → String
unfolding is_space
strip_right String.[] = ""
strip_right (String.◌∷◌ c s) =
    let rest = strip_right s in if is_empty rest && is_space (code c) then "" else String.◌∷◌ c rest

-- The text from the last dot on, and what stands before it.
abbrev pub split_dot : List ℕ → Option (List ℕ × List ℕ)
split_dot [] = none
split_dot (c ∷ cs) = elim (split_dot cs) [
  | some (before, ext) ↦ some (c ∷ before, ext)
  | none ↦ if c == b'.' then some ([], c ∷ cs) else none
]

abbrev only_dots : List ℕ → Bool
only_dots [] = true
only_dots (c ∷ cs) = c == b'.' && only_dots cs

-- The extension of `os.path.splitext`, for the name of a file, which has no slash: dots that lead a
-- name belong to it.
unfoldable pub extension : List ℕ → List ℕ
extension name = elim (split_dot name) [
  | none ↦ []
  | some (before, ext) ↦ if only_dots before then [] else ext
]

-- Python's order of texts, by their code points: whether one is not behind the other.
abbrev pub codes_leb : List ℕ → List ℕ → Bool
codes_leb [] ys = true
codes_leb (x ∷ xs) [] = false
codes_leb (x ∷ xs) (y ∷ ys) =
    let rest = codes_leb xs ys in if ltb x y then true else if ltb y x then false else rest

abbrev pub path_leb : String → String → Bool
path_leb s t = codes_leb (codes s) (codes t)

-- `sorted(paths, reverse=True)`
insert_path : String → List String → List String
insert_path x [] = x ∷ []
insert_path x (y ∷ paths) =
    let rest = insert_path x paths in if path_leb y x then x ∷ y ∷ paths else y ∷ rest

unfoldable pub sort_reversed : List String → List String
unfolding insert_path
sort_reversed [] = []
sort_reversed (x ∷ paths) = insert_path x (sort_reversed paths)

abbrev same_codes : List ℕ → List ℕ → Bool
same_codes [] [] = true
same_codes [] (y ∷ ys) = false
same_codes (x ∷ xs) [] = false
same_codes (x ∷ xs) (y ∷ ys) = x == y && same_codes xs ys

unfoldable pub is_xml : String → Bool
unfolding extension
is_xml filename = same_codes (extension (codes filename)) (codes ".xml")

-- The paths of the xml files of a directory, and of all that `os.walk` lists.
unfoldable pub xml_files : String → List String → List String
unfolding is_xml
xml_files dir [] = []
xml_files dir (filename ∷ filenames) =
    let rest = xml_files dir filenames in
    if is_xml filename then path_join dir filename ∷ rest else rest

unfoldable pub walked_files : List (String × List String) → List String
unfolding xml_files
walked_files [] = []
walked_files ((dir, filenames) ∷ walked) = xml_files dir filenames ++ walked_files walked

-- What `argparse` gives.
pub record Arguments : Type 0 where
  pub output_dir : String
  pub with_protocols : Bool
  pub input : List String

-- The system: the environment, `shlex.split`, the decoded output of a command, what `os.walk` lists
-- of a directory with the names of the files, the XML of a file, and which paths are there.
pub record ScannerSystem : Type 0 where
  pub getenv : String → Option String
  pub shlex_split : String → Result (List String)
  pub check_output : List String → Result String
  pub walk : String → List (String × List String)
  pub load : String → Option (Result Xml)
  pub exists : String → Bool

abbrev env_or : Option String → String → String
env_or none default = default
env_or (some value) default = value

-- Where a command failed, another result or another exception takes its place.
abbrev pub on_failure {ℓ} : {A : Type ℓ} → Result A → Result A → Result A
on_failure other (ok a) = ok a
on_failure other (err called_process_error) = other
on_failure other (err e) = err e

module _ (S : ScannerSystem) where
  open S use {getenv, shlex_split, check_output, walk, load, exists}

  unfoldable pub pkgconfig : String → String → Result String
  unfolding strip_left strip_right
  pkgconfig pc_package variable = do
    args ← shlex_split (
        env_or (getenv "PKG_CONFIG") "pkg-config"
        <> " --variable="
        <> variable
        <> " "
        <> pc_package)
    output ← check_output args
    ok (strip_right (strip_left output))

  unfoldable pub get_wayland_protocols : Result (List String)
  unfolding pkgconfig walked_files sort_reversed
  get_wayland_protocols = do
    protocols_dir ← on_failure (err io_error) (pkgconfig "wayland-protocols" "pkgdatadir")
    ok (sort_reversed (walked_files (walk protocols_dir)))

  -- Where `wayland.xml` is.
  unfoldable pub wayland_xml : Result String
  unfolding pkgconfig path_join
  wayland_xml =
      on_failure (ok "/usr/share/wayland/wayland.xml")
        do xml_dir ← pkgconfig "wayland-scanner" "pkgdatadir"; ok (path_join xml_dir "wayland.xml")

  -- `args.input`, and the files of wayland-protocols if they are asked for.
  unfoldable pub input_files : Arguments → Result (List String)
  unfolding get_wayland_protocols
  input_files args =
      if args.with_protocols
      then get_wayland_protocols >>= (λ protocols_files. ok (args.input ++ protocols_files))
      else ok args.input

  module _ (L : Library) where
    unfoldable pub output_all : Arguments → Result (List Protocol) → Run
    unfolding output_protocols protocol_imports
    output_all args (err e) = record { effects = []; outcome = err e }
    output_all args (ok protocols) =
        output_protocols L (λ path. path == args.output_dir || exists path) protocols
          args.output_dir (protocol_imports protocols)

    unfoldable pub parse_files : Arguments → Result (List Protocol)
    unfolding input_files parse_file
    parse_files args = do files ← input_files args; map_result (parse_file L load) files

    -- `main`, once the arguments are parsed; `mkdir` makes the directory with those that it stands
    -- in.
    unfoldable pub generate : Arguments → Run
    unfolding make_dir then_run output_all parse_files
    generate args = then_run (make_dir exists args.output_dir) (output_all args (parse_files args))

    parsed_arguments : Result Arguments → Run
    unfolding generate
    parsed_arguments (err e) = record { effects = []; outcome = err e }
    parsed_arguments (ok args) = generate args

    -- `main`, for the directory that the module is in; `parse_args` is what `argparse` gives for
    -- the command line, by the defaults for the directory and for the input.
    unfoldable pub main : (String → List String → Result Arguments) → String → Run
    unfolding parsed_arguments wayland_xml path_join
    main parse_args this_dir = parsed_arguments do
      xml_file ← wayland_xml
      parse_args (path_join (path_join this_dir "..") "protocol") (xml_file ∷ [])

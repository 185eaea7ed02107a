-- ===== src/Packaging.antt =====
-- The scripts that generate the protocols when the package is built: the command of setup.py, and
-- doc/protocol_build.py for the documentation.
pub mod Equal
use pywayland_i6ie.Base.{
  String, ◌<>◌, Bool, true, false, Option, none, some, List, [], ◌∷◌, ◌++◌, map, Error, Result, ok,
  err, assertion_error, plain_exception, name_error, ◌>>=◌, map_result, if◌then◌else◌, ◌==◌, ◌||◌,
  String-Eq,
}
use pywayland_i6ie.Scanner.Library.{Library}
use pywayland_i6ie.Scanner.Protocol.{
  Protocol, parse_file, Run, then_run, make_dir, path_join, output_protocols, protocol_imports,
}
use pywayland_i6ie.Scanner.Main.{
  ScannerSystem, on_failure, pkgconfig, get_wayland_protocols, walked_files, sort_reversed,
}

-- A command with its options, and the packages of its distribution.
pub record ProtocolCommand : Type 0 where
  pub xml_file : String
  pub output_dir : String
  pub wayland_protocols : Bool
  pub no_wayland_protocols : Bool
  pub packages : List String

-- What running it does, and the command behind it.
pub record CommandRun : Type 0 where
  pub run : Run
  pub command : ProtocolCommand

module _ (S : ScannerSystem) where
  open S use {walk, load, exists}

  -- `initialize_options`
  unfoldable pub initialize_options : List String → Result ProtocolCommand
  unfolding pkgconfig path_join
  initialize_options packages = do
    xml_file ← on_failure (ok "/usr/share/wayland/wayland.xml") do
      data_dir ← pkgconfig S "wayland-scanner" "pkgdatadir"
      ok (path_join data_dir "wayland.xml")
    ok (record {
      xml_file = xml_file;
      output_dir = "./pywayland/protocol";
      wayland_protocols = false;
      no_wayland_protocols = false;
      packages = packages;
    })

  -- `finalize_options`
  unfoldable pub finalize_options : ProtocolCommand → Result (Unit {0})
  finalize_options c = if exists c.xml_file then ok tt else err assertion_error

  -- Any exception is left alone, unless the protocols were asked for.
  or_none : Bool → Result (List String) → Result (List String)
  or_none asked (ok protocol_files) = ok protocol_files
  or_none true (err e) = err e
  or_none false (err e) = ok []

  unfoldable pub external_files : ProtocolCommand → Result (List String)
  unfolding or_none get_wayland_protocols
  external_files c =
      if c.no_wayland_protocols
      then ok []
      else or_none c.wayland_protocols (get_wayland_protocols S)

  module _ (L : Library) where
    -- The packages are those of the protocols' names, as they stand.
    with_packages : ProtocolCommand → List Protocol → ProtocolCommand
    with_packages c protocols = record c {
      packages = c.packages ++ map (λ (p : Protocol). "pywayland.protocol." <> p.name) protocols;
    }

    failed : ProtocolCommand → Error → CommandRun
    failed c e = record { run = record { effects = []; outcome = err e }; command = c }

    -- The packages are added once all is written.
    packaged : ProtocolCommand → List Protocol → Run → CommandRun
    unfolding with_packages
    packaged c protocols run = elim run.outcome [
      | ok _ ↦ record { run = run; command = with_packages c protocols }
      | err _ ↦ record { run = run; command = c }
    ]

    scan_outputs : ProtocolCommand → (String → Bool) → Result (List Protocol) → CommandRun
    unfolding make_dir then_run output_protocols protocol_imports packaged
    scan_outputs c is_dir (err e) = record {
      run = then_run (make_dir is_dir c.output_dir) (record { effects = []; outcome = err e });
      command = c;
    }
    scan_outputs c is_dir (ok protocols) = packaged c protocols (
        then_run (make_dir is_dir c.output_dir) (
          output_protocols L (λ path. path == c.output_dir || exists path) protocols c.output_dir
            (protocol_imports protocols)))

    scan_files : ProtocolCommand → (String → Bool) → Result (List String) → CommandRun
    unfolding failed scan_outputs parse_file
    scan_files c is_dir (err e) = failed c e
    scan_files c is_dir (ok files) =
        scan_outputs c is_dir (map_result (parse_file L load) (c.xml_file ∷ files))

    -- `run`, up to the command of setuptools that it ends with; `is_dir` is `os.path.isdir`.
    unfoldable pub run_command : ProtocolCommand → (String → Bool) → CommandRun
    unfolding scan_files external_files
    run_command c is_dir = scan_files c is_dir (external_files c)

  -- `_safe_extractall`, by the names of the members: the function that it calls for each of them is
  -- defined under another name.
  unfoldable pub safe_extractall : List String → Result (Unit {0})
  safe_extractall [] = ok tt
  safe_extractall (_ ∷ _) = err name_error

  -- The files that `protocols_build` reads, once the archive is extracted to `protocol_dest`.
  unfoldable pub protocol_files : String → List String
  unfolding walked_files sort_reversed
  protocol_files protocol_dest = "wayland.xml" ∷ sort_reversed (walked_files (walk protocol_dest))

  module _ (L : Library) where
    build_outputs : String → Result (List Protocol) → Run
    unfolding output_protocols protocol_imports
    build_outputs output_dir (err e) = record { effects = []; outcome = err e }
    build_outputs output_dir (ok protocols) =
        output_protocols L exists protocols output_dir (protocol_imports protocols)

    -- `protocols_build`, for the members of the archive that was downloaded.
    unfoldable pub protocols_build : List String → String → Run
    unfolding build_outputs safe_extractall protocol_files parse_file
    protocols_build members output_dir = build_outputs output_dir do
      _ ← safe_extractall members
      map_result (parse_file L load) (protocol_files "wayland-protocols-1.25")

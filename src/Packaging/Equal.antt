-- ===== src/Packaging/Equal.antt =====
-- The command of setup.py writes what the scanner's `main` writes.
use pywayland_i6ie.Base.{
  String, ◌≡◌, refl, sym, ap, ◌∙◌, Bool, true, false, List, [], ◌∷◌, ◌++◌, Result, ok, err,
  map_result, Result-cases, inl, inr, arith,
}
use pywayland_i6ie.Scanner.Library.{Library}
use pywayland_i6ie.Scanner.Protocol.{Protocol, Run, then_run, make_dir, parse_file}
use pywayland_i6ie.Scanner.Main.{
  ScannerSystem, Arguments, get_wayland_protocols, input_files, parse_files, generate, output_all,
}
use pywayland_i6ie.Packaging.{
  ProtocolCommand, external_files, scan_files, scan_outputs, packaged, run_command,
}

make_dir-same :
    (is_dir exists : String → Bool) (dir : String)
    → is_dir dir ≡ exists dir
    → make_dir is_dir dir ≡ make_dir exists dir
unfolding make_dir
make_dir-same is_dir exists dir same = rw same refl

module _ (S : ScannerSystem) (L : Library) where
  run-packaged :
      (c : ProtocolCommand) (protocols : List Protocol) (run : Run)
      → (packaged S L c protocols run).run ≡ run
  unfolding packaged
  run-packaged c protocols run = elim (Result-cases run.outcome) [
    | inl (done, e) ↦ ground (arith, e)
    | inr (x, e) ↦ ground (arith, e)
  ]

  run-scan_outputs :
      (c : ProtocolCommand) (is_dir : String → Bool) (parsed : Result (List Protocol))
      (args : Arguments)
      → args.output_dir ≡ c.output_dir
      → (scan_outputs S L c is_dir parsed).run
        ≡ then_run (make_dir is_dir c.output_dir) (output_all S L args parsed)
  unfolding scan_outputs output_all
  run-scan_outputs c is_dir (err e) args same = refl
  run-scan_outputs c is_dir (ok protocols) args same = rw same (run-packaged c protocols _)

  external_files-ok :
      (c : ProtocolCommand) (files : List String)
      → c.no_wayland_protocols ≡ false
      → get_wayland_protocols S ≡ ok files
      → external_files S c ≡ ok files
  unfolding external_files
  external_files-ok c files wanted found = ground (arith, wanted, found)

  parse_files-ok :
      (args : Arguments) (files : List String)
      → args.with_protocols ≡ true
      → get_wayland_protocols S ≡ ok files
      → parse_files S L args ≡ map_result (parse_file L S.load) (args.input ++ files)
  unfolding parse_files input_files
  parse_files-ok args files wanted found = rw (wanted, found) refl

  -- If the protocols are not disabled and pkg-config finds them, and `os.path.isdir` agrees with
  -- `os.path.exists` on the output directory, then the command of setup.py makes and writes the
  -- same, and ends in the same way, as the scanner's `main` with `--with-protocols`, that directory
  -- and the command's XML file.
  pub run_command-generate :
      (c : ProtocolCommand) (is_dir : String → Bool) (files : List String)
      → c.no_wayland_protocols ≡ false
      → get_wayland_protocols S ≡ ok files
      → is_dir c.output_dir ≡ S.exists c.output_dir
      → (run_command S L c is_dir).run
        ≡ generate S L
            (record { output_dir = c.output_dir; with_protocols = true; input = c.xml_file ∷ [] })
  unfolding run_command generate scan_files
  run_command-generate c is_dir files wanted found same =
      let args : Arguments = record {
        output_dir = c.output_dir;
        with_protocols = true;
        input = c.xml_file ∷ [];
      } in
      let parsed = map_result (parse_file L S.load) (c.xml_file ∷ files) in
      ap (λ found. (scan_files S L c is_dir found).run) (external_files-ok c files wanted found)
      ∙ run-scan_outputs c is_dir parsed args refl
      ∙ ap (λ r. then_run r (output_all S L args parsed))
          (make_dir-same is_dir S.exists c.output_dir same)
      ∙ ap (λ parsed. then_run (make_dir S.exists c.output_dir) (output_all S L args parsed))
          (sym (parse_files-ok args files refl found))

-- ===== src/Scanner/Protocol/Files.antt =====
-- Which files `Protocol.output` writes.
use mathlib.Core.Path.{ap₂}
use pywayland_i6ie.Base.{
  String, ◌<>◌, ◌≡◌, refl, ap, ◌∙◌, Bool, Option, none, some, List, [], ◌∷◌, ◌++◌, map, Result, ok,
  err, Error, sym, All, All-append, Result-cases, Bool-cases, inl, inr,
}
use pywayland_i6ie.Base.Dict.{Dict}
use pywayland_i6ie.Base.Words.{replace_dashes}
use pywayland_i6ie.Scanner.Library.{Library}
use pywayland_i6ie.Scanner.Printer.{Printer, Output, printer}
use pywayland_i6ie.Scanner.Printer.Layout.{
  IsLayout, Extends, line-IsLayout, blank-IsLayout, each-IsLayout, ⨾-IsLayout,
}
use pywayland_i6ie.Scanner.Description.{Copyright, output_copyright-IsLayout}
use pywayland_i6ie.Scanner.Interface.{Interface, output_interface}
use pywayland_i6ie.Scanner.Interface.Layout.{output_interface-Extends}
use pywayland_i6ie.Scanner.Protocol.{
  Protocol, Effect, mkdir, write, Run, then_run, path_join, output_protocol, write_printed,
  write_interface, make_dir, write_init, write_interfaces, output_init, output_notice, init_line,
  output_interface_module,
}

-- The paths of the files that are written, in order.
abbrev pub written_paths : List Effect → List String
written_paths [] = []
written_paths (mkdir _ ∷ effects) = written_paths effects
written_paths (write path _ ∷ effects) = path ∷ written_paths effects

-- A file that is written begins with the lines that every printer begins with.
abbrev pub HasHead : Effect → Type 0
HasHead (mkdir _) = Unit
HasHead (write _ lines) =
    (rest : List String) × (lines
      ≡ "# This file has been autogenerated by the pywayland scanner" ∷ "" ∷ rest)

written_paths-append :
    (xs ys : List Effect) → written_paths (xs ++ ys) ≡ written_paths xs ++ written_paths ys
written_paths-append [] ys = refl
written_paths-append (mkdir _ ∷ xs) ys = written_paths-append xs ys
written_paths-append (write path _ ∷ xs) ys = ap (λ l. path ∷ l) (written_paths-append xs ys)

then_run_after :
    (first second : Run)
    → first.outcome ≡ ok tt
    → then_run first second
      ≡ record { effects = first.effects ++ second.effects; outcome = second.outcome }
unfolding then_run
then_run_after first second e = rw e refl

then_run_stopped :
    (first second : Run) (e : Error) → first.outcome ≡ err e → then_run first second ≡ first
unfolding then_run
then_run_stopped first second e h = rw h refl

-- A run that ends well has made its two parts.
then_run_ok :
    (first second : Run)
    → (then_run first second).outcome ≡ ok tt
    → (first.outcome ≡ ok tt)
      × (second.outcome ≡ ok tt)
      × ((then_run first second).effects ≡ first.effects ++ second.effects)
then_run_ok first second h = elim (Result-cases first.outcome) [
  | inl (tt, e) ↦
      let after = then_run_after first second e in
      (e, ap (λ (r : Run). r.outcome) (sym after) ∙ h, ap (λ (r : Run). r.effects) after)
  | inr (x, e) ↦
      let stopped = ap (λ (r : Run). r.outcome) (then_run_stopped first second x e) in absurd (cc)
]

then_run_paths :
    (first second : Run) {xs ys : List String}
    → (first.outcome ≡ ok tt → written_paths first.effects ≡ xs)
    → (second.outcome ≡ ok tt → written_paths second.effects ≡ ys)
    → (then_run first second).outcome ≡ ok tt
    → written_paths (then_run first second).effects ≡ xs ++ ys
then_run_paths first second f g h =
    let (first_ok, second_ok, effects) = then_run_ok first second h in
    ap written_paths effects
    ∙ written_paths-append first.effects second.effects
    ∙ ap₂ (λ xs ys. xs ++ ys) (f first_ok) (g second_ok)

HasHead-then_run :
    (first second : Run)
    → All HasHead first.effects
    → All HasHead second.effects
    → All HasHead (then_run first second).effects
HasHead-then_run first second a b = elim (Result-cases first.outcome) [
  | inl (tt, e) ↦
      rw (then_run_after first second e) (All-append HasHead first.effects second.effects a b)
  | inr (x, e) ↦ rw (then_run_stopped first second x e) a
]

write_printed_path :
    (path : String) (printed : Result Printer)
    → (write_printed path printed).outcome ≡ ok tt
    → written_paths (write_printed path printed).effects ≡ path ∷ []
unfolding write_printed
write_printed_path path (ok p) h = refl
write_printed_path path (err e) h = absurd (cc)

-- Every file is written by a printer that only added to a new one.
HasHead-write_printed :
    (path : String) {output : Output} (name : String) (interface : Option String)
    (imports : Option (Dict String))
    → ((p q : Printer) → output p ≡ ok q → Extends p q)
    → All HasHead (write_printed path (output (printer name interface imports))).effects
unfolding write_printed printer
HasHead-write_printed path {output} name interface imports extends =
    elim (Result-cases (output (printer name interface imports))) [
      | inl (q, e) ↦
          let x = extends (printer name interface imports) q e in rw e ((x.added, x.lines), tt)
      | inr (e, h) ↦ rw h tt
    ]

output_notice-IsLayout : (copyright : Option Copyright) → IsLayout (output_notice copyright)
unfolding output_notice
output_notice-IsLayout none = ⨾-IsLayout (line-IsLayout _) blank-IsLayout
output_notice-IsLayout (some c) = ⨾-IsLayout (output_copyright-IsLayout c) blank-IsLayout

output_init-IsLayout : (protocol : Protocol) → IsLayout (output_init protocol)
unfolding output_init init_line
output_init-IsLayout protocol =
    ⨾-IsLayout (output_notice-IsLayout protocol.copyright)
      (each-IsLayout init_line _ (λ i. line-IsLayout _))

make_dir_paths :
    (exists : String → Bool) (dir : String) → written_paths (make_dir exists dir).effects ≡ []
unfolding make_dir
make_dir_paths exists dir = elim (Bool-cases (exists dir)) [ inl e ↦ rw e refl | inr e ↦ rw e refl ]

HasHead-make_dir :
    (exists : String → Bool) (dir : String) → All HasHead (make_dir exists dir).effects
unfolding make_dir
HasHead-make_dir exists dir = elim (Bool-cases (exists dir)) [
  | inl e ↦ rw e tt
  | inr e ↦ rw e (tt, tt)
]

write_init_path :
    (protocol : Protocol) (dir : String)
    → (write_init protocol dir).outcome ≡ ok tt
    → written_paths (write_init protocol dir).effects ≡ path_join dir "__init__.py" ∷ []
unfolding write_init
write_init_path protocol dir h = write_printed_path _ _ h

HasHead-write_init :
    (protocol : Protocol) (dir : String) → All HasHead (write_init protocol dir).effects
unfolding write_init
HasHead-write_init protocol dir =
    HasHead-write_printed (path_join dir "__init__.py") (replace_dashes protocol.name) none none
      (output_init-IsLayout protocol).extends

module _ (L : Library) where
  output_interface-IsLayout :
      (i : Interface) (module_imports : Dict String)
      → IsLayout (output_interface L i module_imports)
  output_interface-IsLayout i module_imports = record {
    extends = output_interface-Extends L i module_imports;
  }

  HasHead-write_interface :
      (dir : String) (protocol : Protocol) (module_imports : Dict String) (i : Interface)
      → All HasHead (write_interface L dir protocol module_imports i).effects
  unfolding write_interface output_interface_module
  HasHead-write_interface dir protocol module_imports i =
      HasHead-write_printed (path_join dir (i.name <> ".py")) (replace_dashes protocol.name)
        (some i.name) (some module_imports)
        (⨾-IsLayout (output_notice-IsLayout protocol.copyright)
          (output_interface-IsLayout i module_imports)).extends

  write_interface_path :
      (dir : String) (protocol : Protocol) (module_imports : Dict String) (i : Interface)
      → (write_interface L dir protocol module_imports i).outcome ≡ ok tt
      → written_paths (write_interface L dir protocol module_imports i).effects
        ≡ path_join dir (i.name <> ".py") ∷ []
  unfolding write_interface
  write_interface_path dir protocol module_imports i h = write_printed_path _ _ h

  HasHead-write_interfaces :
      (dir : String) (protocol : Protocol) (module_imports : Dict String)
      (interfaces : List Interface)
      → All HasHead (write_interfaces L dir protocol module_imports interfaces).effects
  unfolding write_interfaces
  HasHead-write_interfaces dir protocol module_imports [] = tt
  HasHead-write_interfaces dir protocol module_imports (i ∷ interfaces) =
      HasHead-then_run (write_interface L dir protocol module_imports i)
        (write_interfaces L dir protocol module_imports interfaces)
        (HasHead-write_interface dir protocol module_imports i)
        (HasHead-write_interfaces dir protocol module_imports interfaces)

  write_interfaces_paths :
      (dir : String) (protocol : Protocol) (module_imports : Dict String)
      (interfaces : List Interface)
      → (write_interfaces L dir protocol module_imports interfaces).outcome ≡ ok tt
      → written_paths (write_interfaces L dir protocol module_imports interfaces).effects
        ≡ map (λ (i : Interface). path_join dir (i.name <> ".py")) interfaces
  unfolding write_interfaces
  write_interfaces_paths dir protocol module_imports [] h = refl
  write_interfaces_paths dir protocol module_imports (i ∷ interfaces) h =
      then_run_paths (write_interface L dir protocol module_imports i)
        (write_interfaces L dir protocol module_imports interfaces)
        (write_interface_path dir protocol module_imports i)
        (write_interfaces_paths dir protocol module_imports interfaces) h

  -- If a protocol is output without an exception, the files that are written are, in this order,
  -- `__init__.py` and one file for each interface, named for it, all in the protocol's directory.
  pub output_protocol_paths :
      (exists : String → Bool) (protocol : Protocol) (output_dir : String)
      (module_imports : Dict String)
      → (output_protocol L exists protocol output_dir module_imports).outcome ≡ ok tt
      → written_paths (output_protocol L exists protocol output_dir module_imports).effects
        ≡ path_join (path_join output_dir (replace_dashes protocol.name)) "__init__.py"
          ∷ map
              (λ (i : Interface).
                path_join (path_join output_dir (replace_dashes protocol.name)) (i.name <> ".py"))
              protocol.interface
  unfolding output_protocol
  output_protocol_paths exists protocol output_dir module_imports h =
      let dir = path_join output_dir (replace_dashes protocol.name) in
      then_run_paths (make_dir exists dir) _ (λ _. make_dir_paths exists dir)
        (then_run_paths (write_init protocol dir) _ (write_init_path protocol dir)
          (write_interfaces_paths dir protocol module_imports protocol.interface))
        h

  -- Whether or not a protocol is output without an exception, each file that is written begins with
  -- the line that says it is generated, and an empty one.
  pub HasHead-output_protocol :
      (exists : String → Bool) (protocol : Protocol) (output_dir : String)
      (module_imports : Dict String)
      → All HasHead (output_protocol L exists protocol output_dir module_imports).effects
  unfolding output_protocol
  HasHead-output_protocol exists protocol output_dir module_imports =
      let dir = path_join output_dir (replace_dashes protocol.name) in
      let interfaces = write_interfaces L dir protocol module_imports protocol.interface in
      HasHead-then_run (make_dir exists dir) (then_run (write_init protocol dir) interfaces)
        (HasHead-make_dir exists dir)
        (HasHead-then_run (write_init protocol dir) interfaces (HasHead-write_init protocol dir)
          (HasHead-write_interfaces dir protocol module_imports protocol.interface))

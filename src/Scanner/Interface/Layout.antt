-- ===== src/Scanner/Interface/Layout.antt =====
-- A generated module is laid out: every line is the printer's own, indented at least to the level
-- that it stands at, and the printer ends at the level where it began.
use pywayland_i6ie.Base.{ℕ, suc, String, ◌<>◌, ◌≡◌, List, [], ◌∷◌, map, ok}
use pywayland_i6ie.Base.Dict.{Dict}
use pywayland_i6ie.Scanner.Library.{Library}
use pywayland_i6ie.Scanner.Printer.{Printer, ◌⨾◌, line, blank, each, when_some}
use pywayland_i6ie.Scanner.Printer.Layout.{
  IsLayout, Extends, line-IsLayout, blank-IsLayout, ok-IsLayout, ⨾-IsLayout, when_some-IsLayout,
  each-IsLayout, bind-IsLayout, indented-IsLayout,
}
use pywayland_i6ie.Scanner.Description.{output_description, output_description-IsLayout}
use pywayland_i6ie.Scanner.Enum.{output_enum, output_enum-IsLayout}
use pywayland_i6ie.Scanner.Method.{MethodClass}
use pywayland_i6ie.Scanner.Method.Request.{Request, request_class}
use pywayland_i6ie.Scanner.Method.Event.{Event, event_class}
use pywayland_i6ie.Scanner.Method.Layout.{
  IsLayoutClass, output_method-IsLayout, request_class-IsLayoutClass, event_class-IsLayoutClass,
}
use pywayland_i6ie.Scanner.Interface.{
  Interface, Import, interface_imports, output_class, output_methods, output_subclass,
  output_module, output_interface, class_name,
}

module _ (L : Library) where
  pub class_body-IsLayout :
      (i : Interface)
      → IsLayout (
          when_some i.description (λ d. output_description L d ⨾ line "\"\"\"" ⨾ blank)
          ⨾ line ("name = \"" <> i.name <> "\"")
          ⨾ line ("version = " <> i.version)
          ⨾ each (λ e. blank ⨾ output_enum e) i.enum)
  class_body-IsLayout i =
      ⨾-IsLayout
        (⨾-IsLayout
          (⨾-IsLayout
            (when_some-IsLayout i.description _ (λ d.
              ⨾-IsLayout (⨾-IsLayout (output_description-IsLayout L d) (line-IsLayout _))
                blank-IsLayout))
            (line-IsLayout _))
          (line-IsLayout _))
        (each-IsLayout _ i.enum (λ e. ⨾-IsLayout blank-IsLayout (output_enum-IsLayout e)))

  output_class-IsLayout : (i : Interface) (cls : String) → IsLayout (output_class L i cls)
  unfolding output_class
  output_class-IsLayout i cls =
      ⨾-IsLayout (line-IsLayout _) (indented-IsLayout (class_body-IsLayout i))

  pub data Classes : List MethodClass → Type 0 where
    nil : Classes []
    cons :
        {c : MethodClass} {classes : List MethodClass}
        → IsLayoutClass L c
        → Classes classes
        → Classes (c ∷ classes)

  output_methods-IsLayout :
      (cls : String) (opcode : ℕ) {classes : List MethodClass}
      → Classes classes
      → IsLayout (output_methods L cls opcode classes)
  unfolding output_methods
  output_methods-IsLayout cls opcode nil = ok-IsLayout
  output_methods-IsLayout cls opcode (cons {c} h hs) =
      ⨾-IsLayout (⨾-IsLayout blank-IsLayout (output_method-IsLayout L c opcode cls h))
        (output_methods-IsLayout cls (suc opcode) hs)

  pub subclass_body-IsLayout :
      (cls : String) {classes : List MethodClass}
      → Classes classes
      → IsLayout (line ("interface = " <> cls) ⨾ output_methods L cls 0 classes)
  subclass_body-IsLayout cls hs = ⨾-IsLayout (line-IsLayout _) (output_methods-IsLayout cls 0 hs)

  output_subclass-IsLayout :
      (title cls : String) {classes : List MethodClass}
      → Classes classes
      → IsLayout (output_subclass L title cls classes)
  unfolding output_subclass
  output_subclass-IsLayout title cls hs =
      ⨾-IsLayout (⨾-IsLayout (⨾-IsLayout blank-IsLayout blank-IsLayout) (line-IsLayout _))
        (indented-IsLayout (subclass_body-IsLayout cls hs))

  pub request_class-Classes : (requests : List Request) → Classes (map (request_class L) requests)
  request_class-Classes [] = nil
  request_class-Classes (r ∷ requests) =
      cons (request_class-IsLayoutClass L r) (request_class-Classes requests)

  pub event_class-Classes : (events : List Event) → Classes (map (event_class L) events)
  event_class-Classes [] = nil
  event_class-Classes (e ∷ events) =
      cons (event_class-IsLayoutClass L e) (event_class-Classes events)

  output_module-IsLayout :
      (i : Interface) (cls : String) (found : List Import) → IsLayout (output_module L i cls found)
  unfolding output_module
  output_module-IsLayout i cls found =
      ⨾-IsLayout
        (⨾-IsLayout
          (⨾-IsLayout
            (⨾-IsLayout
              (⨾-IsLayout (each-IsLayout line _ line-IsLayout) (output_class-IsLayout i cls))
              (output_subclass-IsLayout _ cls (request_class-Classes i.request)))
            (output_subclass-IsLayout _ cls (event_class-Classes i.event)))
          (output_subclass-IsLayout _ cls nil))
        (each-IsLayout line _ line-IsLayout)

  -- If an interface is printed without an exception, the printer has its old lines, then new ones
  -- that are each empty or indented at least to its level, and its level and names are as before.
  pub output_interface-Extends :
      (i : Interface) (module_imports : Dict String) (p q : Printer)
      → output_interface L i module_imports p ≡ ok q
      → Extends p q
  unfolding output_interface
  output_interface-Extends i module_imports p q e =
      (bind-IsLayout (λ _. interface_imports i module_imports) (output_module L i (class_name i))
          (output_module-IsLayout i (class_name i))).extends
        p q e

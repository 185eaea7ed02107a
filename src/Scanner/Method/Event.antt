-- ===== src/Scanner/Method/Event.antt =====
-- pywayland/scanner/event.py: an event, which servers send.
use pywayland_i6ie.Base.{
  ℕ, String, ◌<>◌, Bool, true, false, none, some, List, ◌∷◌, map, Result, ok, ◌>>=◌, ◌&&◌, ◌||◌,
  any,
}
use pywayland_i6ie.Base.Text.{join, str}
use pywayland_i6ie.Scanner.ArgumentType.{is_new_id, is_object}
use pywayland_i6ie.Scanner.Library.{Library}
use pywayland_i6ie.Scanner.Printer.{Output, line, each}
use pywayland_i6ie.Scanner.Xml.{Xml, present}
use pywayland_i6ie.Scanner.Argument.{Argument, argument_signature}
use pywayland_i6ie.Scanner.Argument.Docs.{output_doc_param}
use pywayland_i6ie.Scanner.Method.{Method, MethodClass, parse_method}

pub record Event : Type 0 where
  pub method : Method

unfoldable pub parse_event : Library → Xml → Result Event
unfolding parse_method
parse_event L x = do m ← parse_method L x; ok (record { method = m })

-- The values that the generated body passes on: every argument's name.
unfoldable pub event_args : List Argument → List String
event_args arg = map (λ (a : Argument). a.name) arg

unfoldable pub event_body : Event → ℕ → Output
unfolding event_args str
event_body e opcode =
    line ("self._post_event(" <> join ", " (str opcode ∷ event_args e.method.arg) <> ")")

unfoldable pub event_class : Library → Event → MethodClass
unfolding event_body argument_signature output_doc_param
event_class L e = record {
  method = e.method;
  method_type = "event";
  method_args = map argument_signature e.method.arg;
  return_type = "None";
  output_doc_params = each (output_doc_param L) e.method.arg;
  output_body = event_body e;
}

unfoldable pub event_needs_any : Event → Bool
event_needs_any e =
    any
      (λ (a : Argument).
        (is_object a.type || is_new_id a.type)
        && (elim (present a.interface) [ none ↦ true | some _ ↦ false ]))
      e.method.arg

-- ===== src/Scanner/Method/Layout.antt =====
-- Requests and events print lines of their own, and leave the level as it was.
use pywayland_i6ie.Base.{
  ℕ, String, ◌<>◌, Bool, true, false, Option, none, some, List, [], ◌∷◌, ok, if◌then◌else◌,
}
use pywayland_i6ie.Scanner.ArgumentType.{is_new_id}
use pywayland_i6ie.Scanner.Library.{Library}
use pywayland_i6ie.Scanner.Printer.{Output, ◌⨾◌, line, blank}
use pywayland_i6ie.Scanner.Printer.Layout.{
  IsLayout, line-IsLayout, blank-IsLayout, ok-IsLayout, ⨾-IsLayout, when_some-IsLayout,
  when-IsLayout, each-IsLayout, indented-IsLayout,
}
use pywayland_i6ie.Scanner.Xml.{present}
use pywayland_i6ie.Scanner.Description.{
  Description, output_description, output_description-IsLayout,
}
use pywayland_i6ie.Scanner.Argument.{Argument}
use pywayland_i6ie.Scanner.Argument.Docs.{output_doc_param-IsLayout, output_doc_ret-IsLayout}
use pywayland_i6ie.Scanner.Method.{MethodClass, output_docs, output_decorator, output_method}
use pywayland_i6ie.Scanner.Method.Request.{
  Request, request_body, request_doc_params, doc_request_arg, request_class, last_new_id,
  request_doc_rets,
}
use pywayland_i6ie.Scanner.Method.Event.{Event, event_body, event_class}

module _ (L : Library) where
  -- A subclass whose docs and body are laid out.
  pub record IsLayoutClass (c : MethodClass) : Type 0 where
    pub doc_params : IsLayout c.output_doc_params
    pub body : (opcode : ℕ) → IsLayout (c.output_body opcode)

  docs_head :
      (name : String) (d : Option Description)
      → IsLayout (elim d [
        | none ↦ line ("\"\"\"" <> name)
        | some description ↦ output_description L description
      ])
  docs_head name none = line-IsLayout _
  docs_head name (some d) = output_description-IsLayout L d

  docs_params :
      (arg : List Argument) (params : Output)
      → IsLayout params
      → IsLayout (elim arg [ [] ↦ ok | _ ∷ _ ↦ blank ⨾ params ])
  docs_params [] params h = ok-IsLayout
  docs_params (a ∷ arg) params h = ⨾-IsLayout blank-IsLayout h

  output_docs-IsLayout : (c : MethodClass) → IsLayoutClass c → IsLayout (output_docs L c)
  unfolding output_docs
  output_docs-IsLayout c h =
      ⨾-IsLayout
        (⨾-IsLayout (docs_head c.method.name c.method.description)
          (docs_params c.method.arg c.output_doc_params h.doc_params))
        (line-IsLayout _)

  output_decorator-IsLayout :
      (c : MethodClass) (in_class : String) (arg : List Argument) (since : Option String)
      → IsLayout (output_decorator L c in_class arg since)
  unfolding output_decorator
  output_decorator-IsLayout c in_class [] none = line-IsLayout _
  output_decorator-IsLayout c in_class [] (some since) = line-IsLayout _
  output_decorator-IsLayout c in_class (a ∷ arg) since =
      ⨾-IsLayout
        (⨾-IsLayout (line-IsLayout _) (
          indented-IsLayout (
            ⨾-IsLayout (each-IsLayout _ (a ∷ arg) (λ x. line-IsLayout _))
              (when_some-IsLayout since _ (λ version. line-IsLayout _)))))
        (line-IsLayout _)

  pub output_method-IsLayout :
      (c : MethodClass) (opcode : ℕ) (in_class : String)
      → IsLayoutClass c
      → IsLayout (output_method L c opcode in_class)
  unfolding output_method
  output_method-IsLayout c opcode in_class h =
      ⨾-IsLayout
        (⨾-IsLayout (output_decorator-IsLayout c in_class c.method.arg (present c.method.since))
          (line-IsLayout _))
        (indented-IsLayout (⨾-IsLayout (output_docs-IsLayout c h) (h.body opcode)))

  request_body-IsLayout : (r : Request) (opcode : ℕ) → IsLayout (request_body r opcode)
  unfolding request_body
  request_body-IsLayout r opcode = each-IsLayout line _ line-IsLayout

  arg_docs :
      (new : Bool) (interface : Option String) {x y : Output}
      → IsLayout x
      → IsLayout y
      → IsLayout (if new then (elim interface [ some _ ↦ ok | none ↦ x ]) else y)
  arg_docs true (some _) hx hy = ok-IsLayout
  arg_docs true none hx hy = hx
  arg_docs false interface hx hy = hy

  doc_request_arg-IsLayout : (a : Argument) → IsLayout (doc_request_arg L a)
  unfolding doc_request_arg
  doc_request_arg-IsLayout a =
      arg_docs (is_new_id a.type) (present a.interface) (each-IsLayout line _ line-IsLayout)
        (output_doc_param-IsLayout L a)

  pub request_class-IsLayoutClass : (r : Request) → IsLayoutClass (request_class L r)
  unfolding request_class request_doc_params
  request_class-IsLayoutClass r = record {
    doc_params =
        ⨾-IsLayout (each-IsLayout _ r.method.arg doc_request_arg-IsLayout)
          (when_some-IsLayout (last_new_id none r.method.arg) _ (output_doc_ret-IsLayout L));
    body = request_body-IsLayout r;
  }

  pub event_class-IsLayoutClass : (e : Event) → IsLayoutClass (event_class L e)
  unfolding event_class event_body
  event_class-IsLayoutClass e = record {
    doc_params = each-IsLayout _ e.method.arg (output_doc_param-IsLayout L);
    body = λ opcode. line-IsLayout _;
  }

  request_doc_rets-IsLayout : (arg : List Argument) → IsLayout (request_doc_rets L arg)
  unfolding request_doc_rets
  request_doc_rets-IsLayout arg =
      each-IsLayout _ arg (λ a. when-IsLayout (is_new_id a.type) (output_doc_ret-IsLayout L a))

-- ===== src/Scanner/Method/Request.antt =====
-- pywayland/scanner/request.py: a request, which clients send.
use pywayland_i6ie.Base.{
  ℕ, String, ◌<>◌, Bool, true, false, Option, none, some, List, [], ◌∷◌, ◌++◌, Result, ok, ◌>>=◌,
  if◌then◌else◌, ◌==◌, String-Eq, ◌&&◌, any,
}
use pywayland_i6ie.Base.Text.{join, str}
use pywayland_i6ie.Base.Words.{camel_case}
use pywayland_i6ie.Scanner.ArgumentType.{is_new_id, is_object}
use pywayland_i6ie.Scanner.Library.{Library}
use pywayland_i6ie.Scanner.Printer.{Output, ◌⨾◌, line, each, when_some, when}
use pywayland_i6ie.Scanner.Xml.{Xml, parse_optional_attribute, present}
use pywayland_i6ie.Scanner.Argument.{Argument, argument_signature}
use pywayland_i6ie.Scanner.Argument.Docs.{output_doc_param, output_doc_ret}
use pywayland_i6ie.Scanner.Method.{Method, MethodClass, parse_method}

pub record Request : Type 0 where
  pub method : Method
  pub type : Option String

unfoldable pub parse_request : Library → Xml → Result Request
unfolding parse_method parse_optional_attribute
parse_request L x = do
  m ← parse_method L x
  ok (record { method = m; type = parse_optional_attribute x "type" })

-- The property `new_id`: the first argument of the type.
unfoldable pub first_new_id : List Argument → Option Argument
first_new_id [] = none
first_new_id (a ∷ arg) = if is_new_id a.type then some a else first_new_id arg

-- `method_args`: a new id of a known interface is no parameter, one of any interface is two.
unfoldable pub request_args : List Argument → List String
unfolding argument_signature
request_args [] = []
request_args (a ∷ arg) =
    (if is_new_id a.type
      then (elim (present a.interface) [
        | some _ ↦ []
        | none ↦ "interface: Type[T]" ∷ "version: int" ∷ []
      ])
      else argument_signature a ∷ [])
    ++ request_args arg

-- `marshal_args`: the values that the generated body passes on.
unfoldable pub marshal_args : List Argument → List String
marshal_args [] = []
marshal_args (a ∷ arg) =
    (if is_new_id a.type
      then (elim (present a.interface) [ some _ ↦ [] | none ↦ "interface.name" ∷ "version" ∷ [] ])
      else a.name ∷ [])
    ++ marshal_args arg

new_id_return : Option String → String
new_id_return none = "Proxy[T]"
new_id_return (some interface) = "Proxy[" <> camel_case interface <> "]"

request_return_type : Option Argument → String
unfolding new_id_return
request_return_type none = "None"
request_return_type (some a) = new_id_return (present a.interface)

id_class : Option String → String
id_class none = "interface"
id_class (some interface) = camel_case interface

abbrev is_destructor : Option String → Bool
is_destructor none = false
is_destructor (some type) = type == "destructor"

-- The lines of the body: a constructor returns the new object, and a destructor that makes none
-- destroys the proxy.
body_lines : Request → ℕ → Option Argument → List String
body_lines r opcode (some a) =
    (a.name
      <> " = self._marshal_constructor("
      <> join ", " (str opcode ∷ id_class (present a.interface) ∷ marshal_args r.method.arg)
      <> ")")
    ∷ ("return " <> a.name)
    ∷ []
body_lines r opcode none =
    ("self._marshal(" <> join ", " (str opcode ∷ marshal_args r.method.arg) <> ")")
    ∷ (if is_destructor r.type then "self._destroy()" ∷ [] else [])

unfoldable pub request_body : Request → ℕ → Output
unfolding body_lines first_new_id marshal_args id_class str
request_body r opcode = each line (body_lines r opcode (first_new_id r.method.arg))

untyped_new_id_docs : List String
untyped_new_id_docs =
    ":param interface:" ∷ "    Interface name" ∷ ":type interface:" ∷ "    `string`"
    ∷ ":param version:" ∷ "    Interface version" ∷ ":type version:" ∷ "    `int`" ∷ []

-- The argument that is documented as returned: the last new id.
unfoldable pub last_new_id : Option Argument → List Argument → Option Argument
last_new_id ret [] = ret
last_new_id ret (a ∷ arg) = last_new_id (if is_new_id a.type then some a else ret) arg

module _ (L : Library) where
  unfoldable pub doc_request_arg : Argument → Output
  unfolding untyped_new_id_docs output_doc_param
  doc_request_arg a =
      if is_new_id a.type
      then (elim (present a.interface) [ some _ ↦ ok | none ↦ each line untyped_new_id_docs ])
      else output_doc_param L a

  unfoldable pub request_doc_params : List Argument → Output
  unfolding doc_request_arg last_new_id output_doc_ret
  request_doc_params arg =
      each doc_request_arg arg ⨾ when_some (last_new_id none arg) (output_doc_ret L)

  -- `output_doc_ret`, which documents every new id.
  unfoldable pub request_doc_rets : List Argument → Output
  unfolding output_doc_ret
  request_doc_rets arg = each (λ (a : Argument). when (is_new_id a.type) (output_doc_ret L a)) arg

  unfoldable pub request_class : Request → MethodClass
  unfolding request_args request_return_type request_doc_params request_body
  request_class r = record {
    method = r.method;
    method_type = "request";
    method_args = request_args r.method.arg;
    return_type = request_return_type (first_new_id r.method.arg);
    output_doc_params = request_doc_params r.method.arg;
    output_body = request_body r;
  }

-- An object of any interface is annotated with `Any`.
abbrev is_untyped : Option String → Bool
is_untyped interface = elim (present interface) [ none ↦ true | some _ ↦ false ]

unfoldable pub request_needs_any : Request → Bool
request_needs_any r =
    any (λ (a : Argument). is_object a.type && is_untyped a.interface) r.method.arg

-- `req.new_id and not req.new_id.interface`
unfoldable pub defines_t : Request → Bool
unfolding first_new_id
defines_t r = elim (first_new_id r.method.arg) [ none ↦ false | some a ↦ is_untyped a.interface ]

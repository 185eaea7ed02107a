-- ===== src/Scanner/Argument/Docs.antt =====
-- `output_doc_param` and `output_doc_ret` of pywayland/scanner/argument.py.
use pywayland_i6ie.Base.{String, ◌<>◌, Option, none, some, if◌then◌else◌}
use pywayland_i6ie.Scanner.ArgumentType.{member_name}
use pywayland_i6ie.Scanner.Library.{Library}
use pywayland_i6ie.Scanner.Printer.{Output, ◌⨾◌, indented, when_some}
use pywayland_i6ie.Scanner.Printer.Docs.{doc, docstring}
use pywayland_i6ie.Scanner.Printer.Layout.{
  IsLayout, layout_rules, when_some-IsLayout, indented-IsLayout, docstring-IsLayout, doc-IsLayout,
  ⨾-IsLayout,
}
use pywayland_i6ie.Scanner.Xml.{present}
use pywayland_i6ie.Scanner.Argument.{Argument}

abbrev or_else : Option String → String → String
or_else none text = text
or_else (some found) text = found

abbrev with_summary : String → Option String → String
with_summary arg_type none = arg_type
with_summary arg_type (some summary) = arg_type <> " -- " <> summary

module _ (L : Library) where
  unfoldable pub output_doc_param : Argument → Output
  unfolding member_name
  output_doc_param a =
      let arg_type =
        or_else (present a.interface) ("`ArgumentType." <> member_name a.type <> "`") in
      doc L (":param " <> a.name <> ":")
      ⨾ when_some (present a.summary) (λ summary. indented (docstring L summary))
      ⨾ doc L (":type " <> a.name <> ":")
      ⨾ indented (doc L (if a.allow_null then arg_type <> " or `None`" else arg_type))

  unfoldable pub output_doc_ret : Argument → Output
  output_doc_ret a =
      let arg_type =
        or_else (present a.interface)
          ":class:`pywayland.client.proxy.Proxy` of specified Interface" in
      doc L ":returns:" ⨾ indented (docstring L (with_summary arg_type (present a.summary)))

  pub output_doc_param-IsLayout : (a : Argument) → IsLayout (output_doc_param a)
  unfolding output_doc_param
  output_doc_param-IsLayout a =
      ⨾-IsLayout
        (⨾-IsLayout
          (⨾-IsLayout (doc-IsLayout L _) (
            when_some-IsLayout (present a.summary) (λ summary. indented (docstring L summary))
              (λ s. indented-IsLayout (docstring-IsLayout L s))))
          (doc-IsLayout L _))
        (indented-IsLayout (doc-IsLayout L _))

  pub output_doc_ret-IsLayout : (a : Argument) → IsLayout (output_doc_ret a)
  unfolding output_doc_ret
  output_doc_ret-IsLayout a = search layout_rules

-- ===== src/Scanner/Description.antt =====
-- pywayland/scanner/description.py and pywayland/scanner/copyright.py
use pywayland_i6ie.Base.{
  String, ◌<>◌, Option, none, some, Result, ok, err, assertion_error, ◌>>=◌, if◌then◌else◌,
}
use pywayland_i6ie.Base.Text.{is_empty}
use pywayland_i6ie.Base.Words.{split, rstrip, capitalize}
use pywayland_i6ie.Scanner.Library.{Library}
use pywayland_i6ie.Scanner.Printer.{Output, ◌⨾◌, line, blank, each, when_some}
use pywayland_i6ie.Scanner.Printer.Docs.{doc, docstring}
use pywayland_i6ie.Scanner.Printer.Layout.{
  IsLayout, layout_rules, ⨾-IsLayout, blank-IsLayout, doc-IsLayout, docstring-IsLayout,
  each-IsLayout, when_some-IsLayout,
}
use pywayland_i6ie.Scanner.Xml.{Xml, parse_attribute, parse_pcdata, present}

pub record Description : Type 0 where
  pub summary : String
  pub text : Option String

pub record Copyright : Type 0 where
  pub text : String

copyright_of : Option String → Result Copyright
copyright_of none = err assertion_error
copyright_of (some text) = ok (record { text = text })

copyright_line : String → Output
copyright_line text = if is_empty text then line "#" else line ("# " <> rstrip text)

module _ (L : Library) where
  unfoldable pub parse_description : Xml → Result Description
  unfolding parse_attribute parse_pcdata
  parse_description x = do
    summary ← parse_attribute x "summary"
    ok (record { summary = summary; text = parse_pcdata L x })

  unfoldable pub output_description : Description → Output
  output_description d =
      doc L ("\"\"\"" <> capitalize d.summary)
      ⨾ when_some (present d.text) (λ text. blank ⨾ docstring L text)

  unfoldable pub parse_copyright : Xml → Result Copyright
  unfolding copyright_of parse_pcdata
  parse_copyright x = copyright_of (parse_pcdata L x)

  pub output_description-IsLayout : (d : Description) → IsLayout (output_description d)
  unfolding output_description
  output_description-IsLayout d = ⨾-IsLayout (doc-IsLayout L _) (
      when_some-IsLayout (present d.text) (λ text. blank ⨾ docstring L text)
        (λ text. ⨾-IsLayout blank-IsLayout (docstring-IsLayout L text)))

unfoldable pub output_copyright : Copyright → Output
unfolding copyright_line split
output_copyright c = each copyright_line (split 10 c.text)

copyright_line-IsLayout : (text : String) → IsLayout (copyright_line text)
unfolding copyright_line
copyright_line-IsLayout text = search layout_rules

pub output_copyright-IsLayout : (c : Copyright) → IsLayout (output_copyright c)
unfolding output_copyright
output_copyright-IsLayout c = each-IsLayout copyright_line _ copyright_line-IsLayout

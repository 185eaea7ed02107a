-- ===== src/Scanner/Printer/Docs.antt =====
-- `docstring` and `doc`: docs with the interfaces linked, wrapped to the width that is left.
use Prim.Native.Nat.{◌*◌}
use Prim.Native.String.{count}
use pywayland_i6ie.Base.{
  ℕ, ◌-◌, ℤ, pos, negsuc, String, Option, none, some, List, [], ◌∷◌, ◌++◌, Result, ok, ◌>>=◌,
  if◌then◌else◌, ltb, map_result,
}
use pywayland_i6ie.Base.Text.{join}
use pywayland_i6ie.Base.Words.{spaces, split, split_paragraphs, lstrip, strip, starts_with}
use pywayland_i6ie.Scanner.Library.{Library}
use pywayland_i6ie.Scanner.Printer.{Output, line, each, doc_width, tab_stop}
use pywayland_i6ie.Scanner.Printer.Names.{parse_doc_line}

-- The match of `RE_DOC_LIST` at the start of a paragraph.
abbrev list_head : String → Option String
list_head paragraph =
    if starts_with paragraph "* "
    then some "* "
    else if starts_with paragraph "- "
    then some "- "
    else none

-- `DOC_WIDTH - TAB_STOP * level`, which is negative on deep levels.
unfoldable pub base_width : ℕ → ℤ
base_width level =
    let indent = tab_stop * level in
    if ltb doc_width indent then negsuc (indent - doc_width - 1) else pos (doc_width - indent)

-- The loop over the lines behind the first: a line that starts with the list's head closes the
-- current item.
list_items : String → List String → List String → List String
list_items head current [] = join " " current ∷ []
list_items head current (text ∷ texts) =
    let closed = join " " current ∷ list_items head (strip text ∷ []) texts in
    let longer = list_items head (current ++ strip text ∷ []) texts in
    if starts_with (strip text) head then closed else longer

items_of : String → List String → List String
unfolding list_items
items_of head [] = []
items_of head (text ∷ texts) = list_items head (strip text ∷ []) texts

module _ (L : Library) where
  paragraphs_of : ℤ → String → Option String → Result (List String)
  paragraphs_of width paragraph none = do text ← L.fill width paragraph ""; ok (text ∷ [])
  paragraphs_of width paragraph (some head) =
      map_result (λ item. L.fill width item (spaces (count head)))
        (items_of head (split 10 paragraph))

  append_paragraphs : ℤ → List String → Result (List String)
  unfolding paragraphs_of items_of
  append_paragraphs width [] = ok []
  append_paragraphs width (paragraph ∷ rest) = do
    texts ← paragraphs_of width paragraph (list_head (lstrip paragraph))
    more ← append_paragraphs width rest
    ok (texts ++ more)

  unfoldable pub docstring : String → Output
  unfolding append_paragraphs parse_doc_line base_width
  docstring text p = do
    linked ← parse_doc_line L p text
    paragraphs ← append_paragraphs (base_width p.level) (split_paragraphs linked)
    each line (split 10 (join "\n\n" paragraphs)) p

  unfoldable pub doc : String → Output
  unfolding parse_doc_line
  doc text p = do linked ← parse_doc_line L p text; line linked p

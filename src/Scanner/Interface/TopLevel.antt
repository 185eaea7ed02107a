-- ===== src/Scanner/Interface/TopLevel.antt =====
-- The statements at the top level of a generated module (pywayland/scanner/interface.py).
use Prim.Native.Nat.{◌*◌}
use Prim.Native.Char.{code}
use mathlib.Core.Path.{subst}
use mathlib.Core.List.{append_assoc, append-nil}
use text.Mathlib.TextLemmas
use pywayland_i6ie.Base.{
  String, ◌+◌, ◌<>◌, ◌≡◌, refl, sym, ap, ◌∙◌, inl, inr, Bool, true, false, List, [], ◌∷◌, ◌++◌, All,
  ok, >>=-eq-ok, ok-injective, if◌then◌else◌, arith, ◌==◌, ℕ-Eq,
}
use pywayland_i6ie.Base.Text.{is_empty}
use pywayland_i6ie.Base.Words.{spaces}
use pywayland_i6ie.Scanner.Printer.{Printer, Output, ◌⨾◌, line, blank, each, indented, tab_stop}
use pywayland_i6ie.Scanner.Printer.Layout.{IsLayout, IsIndented}

-- Whether a line of Python is neither empty nor indented.
abbrev pub is_top : String → Bool
is_top String.[] = false
is_top (String.◌∷◌ c s) = if code c == 32 then false else true

abbrev pub top_lines : List String → List String
top_lines [] = []
top_lines (text ∷ texts) = let rest = top_lines texts in if is_top text then text ∷ rest else rest

top_lines-append : (xs ys : List String) → top_lines (xs ++ ys) ≡ top_lines xs ++ top_lines ys
top_lines-append [] ys = refl
top_lines-append (x ∷ xs) ys = ground (arith, top_lines-append xs ys)

-- An output that, at level 0 and if it does not raise, adds these statements and ends at level 0.
pub record AddsTop (output : Output) (texts : List String) : Type 0 where
  pub added :
      (p q : Printer)
      → p.level ≡ 0
      → output p ≡ ok q
      → (q.level ≡ 0) × (top_lines q.lines ≡ top_lines p.lines ++ texts)

top_lines-line :
    (text : String)
    → top_lines ((if is_empty text then "" else spaces (tab_stop * 0) <> text) ∷ [])
      ≡ top_lines (text ∷ [])
top_lines-line String.[] = refl
top_lines-line (String.◌∷◌ c s) =
    ap (λ t. top_lines (t ∷ [])) (TextLemmas.nil-append (String.◌∷◌ c s))

-- A text that is not empty decides by its first character.
pub is_top-append :
    (first rest : String) → is_empty first ≡ false → is_top (first <> rest) ≡ is_top first
is_top-append String.[] rest h = absurd (cc)
is_top-append (String.◌∷◌ c s) rest h = ap is_top (TextLemmas.cons-append c s rest)

top_lines-indented : (texts : List String) → All (IsIndented 1) texts → top_lines texts ≡ []
top_lines-indented [] h = refl
top_lines-indented (x ∷ texts) (inl e, hs) = rw e (top_lines-indented texts hs)
top_lines-indented (x ∷ texts) (inr (rest, e), hs) =
    rw (e, is_top-append "    " rest refl) (top_lines-indented texts hs)

pub line-AddsTop : (text : String) → AddsTop (line text) (top_lines (text ∷ []))
unfolding line
line-AddsTop text = record {
  added = λ p q at e. rw (sym (ok-injective e)) (
    at,
    rw at (top_lines-append p.lines _ ∙ ap (λ l. top_lines p.lines ++ l) (top_lines-line text)),
  );
}

pub blank-AddsTop : AddsTop blank []
unfolding blank
blank-AddsTop = line-AddsTop ""

pub ⨾-AddsTop :
    {a b : Output} {xs ys : List String} → AddsTop a xs → AddsTop b ys → AddsTop (a ⨾ b) (xs ++ ys)
⨾-AddsTop {a} {b} {xs} {ys} ha hb = record {
  added = λ p q at e.
      let (m, first, second) = >>=-eq-ok (a p) b e in
      let (there, lines) = ha.added p m at first in
      let (back, more) = hb.added m q there second in
      (back, more ∙ ap (λ l. l ++ ys) lines ∙ append_assoc (top_lines p.lines) xs ys);
}

pub each-AddsTop : (texts : List String) → AddsTop (each line texts) (top_lines texts)
unfolding each
each-AddsTop [] = record {
  added = λ p q at e. rw (sym (ok-injective e)) (at, sym (append-nil (top_lines p.lines)));
}
each-AddsTop (text ∷ texts) =
    subst (AddsTop (each line (text ∷ texts))) (sym (top_lines-append (text ∷ []) texts))
      (⨾-AddsTop (line-AddsTop text) (each-AddsTop texts))

pub indented-AddsTop : {body : Output} → IsLayout body → AddsTop (indented body) []
unfolding indented
indented-AddsTop {body} h = record {
  added = λ p q at e.
      let (r, ran, same) = >>=-eq-ok (body (record p { level = p.level + 1 })) _ e in
      let x = h.extends (record p { level = p.level + 1 }) r ran in
      let none = top_lines-indented x.added (rw at at x.indented) in
      rw (sym (ok-injective same)) (
        omega (arith, x.level, at),
        rw x.lines (top_lines-append p.lines x.added ∙ ap (λ l. top_lines p.lines ++ l) none),
      );
}

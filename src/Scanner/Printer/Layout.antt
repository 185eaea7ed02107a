-- ===== src/Scanner/Printer/Layout.antt =====
-- What printing does to a printer, whatever is printed: lines are only added, each of them empty or
-- indented at least to the level, and the level is what it was.
use Prim.Native.Nat.{◌*◌}
use mathlib.Core.List.{append_assoc, append-nil}
use mathlib.Core.Path.{subst}
use text.Mathlib.TextLemmas
use pywayland_i6ie.Base.{
  ℕ, zero, suc, Error, ◌+◌, String, ◌<>◌, ◌≡◌, refl, sym, ap, ◌∙◌, ◌⊎◌, inl, inr, Bool, true, false,
  Option, none, some, List, [], ◌∷◌, ◌++◌, All, All-append, Result, ok, err, arith, ◌>>=◌,
  >>=-eq-ok, ok-injective, if◌then◌else◌, Bool-cases,
}
use pywayland_i6ie.Base.Text.{is_empty, join}
use pywayland_i6ie.Base.Words.{spaces, split}
use pywayland_i6ie.Scanner.Library.{Library}
use pywayland_i6ie.Scanner.Printer.{
  Printer, Output, ◌⨾◌, line, blank, each, indented, when_some, when, tab_stop,
}
use pywayland_i6ie.Scanner.Printer.Names.{parse_doc_line}
use pywayland_i6ie.Scanner.Printer.Docs.{docstring, doc}

abbrev pub IsIndented : ℕ → String → Type 0
IsIndented level text = (text ≡ "") ⊎ ((rest : String) × (text ≡ spaces (tab_stop * level) <> rest))

-- `q` is `p` with more lines, indented as said.
pub record Extends (p q : Printer) : Type 0 where
  pub level : q.level ≡ p.level
  pub protocol_name : q.protocol_name ≡ p.protocol_name
  pub interface_name : q.interface_name ≡ p.interface_name
  pub interface_imports : q.interface_imports ≡ p.interface_imports
  pub added : List String
  pub lines : q.lines ≡ p.lines ++ added
  pub indented : All (IsIndented p.level) added

-- An output that, if it does not raise, only extends.
pub record IsLayout (output : Output) : Type 0 where
  pub extends : (p q : Printer) → output p ≡ ok q → Extends p q

Extends-refl : (p : Printer) → Extends p p
Extends-refl p = record {
  level = refl;
  protocol_name = refl;
  interface_name = refl;
  interface_imports = refl;
  added = [];
  lines = sym (append-nil _);
  indented = tt;
}

Extends-trans : {p q r : Printer} → Extends p q → Extends q r → Extends p r
Extends-trans {p} a b = record {
  level = b.level ∙ a.level;
  protocol_name = b.protocol_name ∙ a.protocol_name;
  interface_name = b.interface_name ∙ a.interface_name;
  interface_imports = b.interface_imports ∙ a.interface_imports;
  added = a.added ++ b.added;
  lines = b.lines ∙ ap (λ l. l ++ b.added) a.lines ∙ append_assoc p.lines a.added b.added;
  indented = All-append (IsIndented p.level) _ _ a.indented (rw a.level at b.indented);
}

line_text-IsIndented :
    (level : ℕ) (text : String)
    → IsIndented level (if is_empty text then "" else spaces (tab_stop * level) <> text)
line_text-IsIndented level text = elim (Bool-cases (is_empty text)) [
  | inl empty ↦ rw empty (inl refl)
  | inr full ↦ rw full (inr (text, refl))
]

pub line-IsLayout : (text : String) → IsLayout (line text)
unfolding line
line-IsLayout text = record {
  extends = λ p q e.
      subst (λ (r : Printer). Extends p r) (ok-injective e)
        (record {
          level = refl;
          protocol_name = refl;
          interface_name = refl;
          interface_imports = refl;
          added = (if is_empty text then "" else spaces (tab_stop * p.level) <> text) ∷ [];
          lines = refl;
          indented = (line_text-IsIndented p.level text, tt);
        });
}

pub blank-IsLayout : IsLayout blank
unfolding blank
blank-IsLayout = line-IsLayout ""

pub ⨾-IsLayout : {a b : Output} → IsLayout a → IsLayout b → IsLayout (a ⨾ b)
⨾-IsLayout {a} {b} la lb = record {
  extends = λ p q e.
      let (m, first, second) = >>=-eq-ok (a p) b e in
      Extends-trans (la.extends p m first) (lb.extends m q second);
}

pub ok-IsLayout : IsLayout ok
ok-IsLayout = record {
  extends = λ p q e. subst (λ (r : Printer). Extends p r) (ok-injective e) (Extends-refl p);
}

pub err-IsLayout : (x : Error) → IsLayout (λ _. err x)
err-IsLayout x = record { extends = λ p q e. absurd (cc) }

-- A value that is computed first, and may raise.
pub bind-IsLayout {ℓ} :
    {A : Type ℓ} (f : Printer → Result A) (g : A → Output)
    → ((a : A) → IsLayout (g a))
    → IsLayout (λ p. f p >>= λ a. g a p)
bind-IsLayout f g h = record {
  extends = λ p q e. let (a, _, rest) = >>=-eq-ok (f p) (λ a. g a p) e in (h a).extends p q rest;
}

pub each-IsLayout {ℓ} :
    {A : Type ℓ} (output : A → Output) (xs : List A)
    → ((x : A) → IsLayout (output x))
    → IsLayout (each output xs)
unfolding each
each-IsLayout output [] h = ok-IsLayout
each-IsLayout output (x ∷ xs) h = ⨾-IsLayout (h x) (each-IsLayout output xs h)

pub when_some-IsLayout {ℓ} :
    {A : Type ℓ} (o : Option A) (output : A → Output)
    → ((x : A) → IsLayout (output x))
    → IsLayout (when_some o output)
unfolding when_some
when_some-IsLayout none output h = ok-IsLayout
when_some-IsLayout (some x) output h = h x

pub when-IsLayout : (b : Bool) {output : Output} → IsLayout output → IsLayout (when b output)
unfolding when
when-IsLayout true h = h
when-IsLayout false h = ok-IsLayout

pub if-IsLayout :
    (b : Bool) {x y : Output} → IsLayout x → IsLayout y → IsLayout (if b then x else y)
if-IsLayout true hx hy = hx
if-IsLayout false hx hy = hy

spaces-add : (m n : ℕ) → spaces (m + n) ≡ spaces m <> spaces n
spaces-add zero n = ap spaces (omega arith) ∙ sym (TextLemmas.nil-append (spaces n))
spaces-add (suc m) n =
    let step : suc m + n ≡ suc (m + n) = omega arith in
    ap spaces step
    ∙ ap (λ s. " " <> s) (spaces-add m n)
    ∙ sym (TextLemmas.append_assoc " " (spaces m) (spaces n))

IsIndented-pred : (level : ℕ) (text : String) → IsIndented (level + 1) text → IsIndented level text
IsIndented-pred level text (inl e) = inl e
IsIndented-pred level text (inr (rest, e)) = inr (
  spaces tab_stop <> rest,
  e
      ∙ ap (λ k. spaces k <> rest) (omega arith)
      ∙ ap (λ s. s <> rest) (spaces-add (tab_stop * level) tab_stop)
      ∙ TextLemmas.append_assoc (spaces (tab_stop * level)) (spaces tab_stop) rest,
)

All-IsIndented-pred :
    (level : ℕ) (texts : List String)
    → All (IsIndented (level + 1)) texts
    → All (IsIndented level) texts
All-IsIndented-pred level [] h = tt
All-IsIndented-pred level (t ∷ texts) (h, hs) =
    (IsIndented-pred level t h, All-IsIndented-pred level texts hs)

pub indented-IsLayout : {body : Output} → IsLayout body → IsLayout (indented body)
unfolding indented
indented-IsLayout {body} h = record {
  extends = λ p q e.
      let (r, ran, same) = >>=-eq-ok (body (record p { level = p.level + 1 })) _ e in
      let x = h.extends (record p { level = p.level + 1 }) r ran in
      subst (λ (q : Printer). Extends p q) (ok-injective same)
        (record {
          level = omega (arith, x.level);
          protocol_name = x.protocol_name;
          interface_name = x.interface_name;
          interface_imports = x.interface_imports;
          added = x.added;
          lines = x.lines;
          indented = All-IsIndented-pred p.level x.added x.indented;
        });
}

module _ (L : Library) where
  pub doc-IsLayout : (text : String) → IsLayout (doc L text)
  unfolding doc
  doc-IsLayout text = bind-IsLayout (λ p. parse_doc_line L p text) line line-IsLayout

  pub docstring-IsLayout : (text : String) → IsLayout (docstring L text)
  unfolding docstring
  docstring-IsLayout text =
      bind-IsLayout (λ p. parse_doc_line L p text) _
        λ linked.
          bind-IsLayout _ (λ paragraphs. each line (split 10 (join "\n\n" paragraphs)))
            (λ paragraphs. each-IsLayout line _ line-IsLayout)

pub ruleset layout_rules = (
  line-IsLayout, blank-IsLayout, ⨾-IsLayout, ok-IsLayout, when-IsLayout, if-IsLayout,
  indented-IsLayout, doc-IsLayout, docstring-IsLayout,
)

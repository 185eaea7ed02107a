-- ===== src/Documentation/Pages/Written.antt =====
-- What the output directory holds once the pages have been written.
use mathlib.Core.Path.{subst}
use text.Mathlib.TextLemmas.{append_cancel_right}
use pywayland_i6ie.Base.{
  String, ◌≡◌, ◌≢◌, refl, sym, ap, ◌∙◌, Bool, Option, none, some, List, [], ◌∷◌, Result, ok, err,
  Bool-cases, any, inl, inr, In, if◌then◌else◌, ◌==◌, String-Eq, eq_iff, arith,
}
use pywayland_i6ie.Base.Dict.{lookup, insert, lookup-insert}
use pywayland_i6ie.Documentation.{
  Entry, text_file, directory, Pages, DocSystem, page_name, modules, stale_files, generated_index,
  protocol_output,
}
use pywayland_i6ie.Documentation.Pages.{
  after, remove_files, write_over, write_page, write_output, write_modules, protocol_doc,
}
use pywayland_i6ie.Documentation.Pages.Removed.{after-ok, lookup-remove_files}

-- The page has the text, and all others are as before.
abbrev Written : String → String → Pages → Pages → Type 0
Written name text pages later =
    (lookup name later ≡ some (text_file text))
    × ((j : String) → j ≢ name → lookup j later ≡ lookup j pages)

insert-Written :
    (name text : String) (pages : Pages)
    → Written name text pages (insert name (text_file text) pages)
insert-Written name text pages = (
  lookup-insert name name (text_file text) pages ∙ ground (arith, eq_iff name name),
  λ j other. lookup-insert name j (text_file text) pages ∙ ground (arith, eq_iff name j, other),
)

write_over-Written :
    (name text : String) (entry : Option Entry) (pages later : Pages)
    → lookup name pages ≡ entry
    → write_over name text entry pages ≡ (ok tt, later)
    → Written name text pages later
unfolding write_over
write_over-Written name text none pages later there e =
    subst (λ p. Written name text pages p) (ap (λ r. r.1) e) (insert-Written name text pages)
write_over-Written name text (some directory) pages later there e =
    absurd (let e = ap (λ r. r.0) e in cc)
write_over-Written name text (some (text_file existing)) pages later there e =
    let ends : Bool → Result (Unit {0}) × Pages =
      λ b. if b then (ok tt, pages) else (ok tt, insert name (text_file text) pages) in
    elim (Bool-cases (existing == text)) [
      | inl same ↦
          subst (λ p. Written name text pages p) (ap (λ r. r.1) (ap ends (sym same) ∙ e))
            (there ∙ ap (λ t. some (text_file t)) ((eq_iff existing text).0 same), λ j other. refl)
      | inr differs ↦
          subst (λ p. Written name text pages p) (ap (λ r. r.1) (ap ends (sym differs) ∙ e))
            (insert-Written name text pages)
    ]

write_page-Written :
    (name text : String) (pages later : Pages)
    → write_page name text pages ≡ (ok tt, later)
    → Written name text pages later
unfolding write_page
write_page-Written name text pages later e =
    write_over-Written name text (lookup name pages) pages later refl e

module _ (S : DocSystem) where
  write_output-Written :
      (m : String) (r : Result String) (pages later : Pages)
      → write_output m r pages ≡ (ok tt, later)
      → (text : String) × (r ≡ ok text) × Written (page_name m) text pages later
  unfolding write_output
  write_output-Written m (err e) pages later same = absurd (let e = ap (λ r. r.0) same in cc)
  write_output-Written m (ok text) pages later same =
      (text, refl, write_page-Written (page_name m) text pages later same)

  -- The page of this module is there, with its text.
  abbrev pub HasPage : Pages → String → Type 0
  HasPage pages m =
      (text : String) × (protocol_output S m ≡ ok text)
      × (lookup (page_name m) pages ≡ some (text_file text))

  Written-HasPage :
      (m n text : String) (pages later : Pages)
      → protocol_output S n ≡ ok text
      → Written (page_name n) text pages later
      → HasPage pages m
      → HasPage later m
  Written-HasPage m n text pages later made (at, others) (old, made_old, there) =
      elim (Bool-cases (m == n)) [
        | inl same ↦
            let e : m ≡ n = (eq_iff m n).0 same in
            (text, ap (protocol_output S) e ∙ made, ap (λ n. lookup (page_name n) later) e ∙ at)
        | inr differs ↦
            let other : page_name m ≢ page_name n =
              λ e. let e = append_cancel_right m n ".rst" e in ground (arith, eq_iff m n) in
            (old, made_old, others (page_name m) other ∙ there)
      ]

  write_modules-HasPage :
      (names : List String) (pages later : Pages)
      → write_modules S names pages ≡ (ok tt, later)
      → ((m : String) → In m names → HasPage later m)
        × ((m : String) → HasPage pages m → HasPage later m)
        × ((j : String)
            → ((m : String) → In m names → j ≢ page_name m)
            → lookup j later ≡ lookup j pages)
  unfolding write_modules
  write_modules-HasPage [] pages later e =
      let same : pages ≡ later = ap (λ r. r.1) e in
      (
        λ m at. absurd at,
        λ m has. subst (λ p. HasPage p m) same has,
        λ j others. ap (lookup j) (sym same),
      )
  write_modules-HasPage (n ∷ names) pages later e =
      let (between, first, rest) =
        after-ok (write_output n (protocol_output S n) pages) (write_modules S names) later e in
      let (text, made, written) =
        write_output-Written n (protocol_output S n) pages between first in
      let (all, kept, others) = write_modules-HasPage names between later rest in
      (
        λ m at. elim at [
          | inl same ↦ subst (HasPage later) (sym same) (kept n (text, made, written.0))
          | inr at' ↦ all m at'
        ],
        λ m has. kept m (Written-HasPage m n text pages between made written has),
        λ j different.
            others j (λ m at. different m (inr at)) ∙ written.1 j (different n (inl refl)),
      )

  -- If `protocol_doc` returns and no module is named `index`, then whatever the output directory
  -- was before, `index.rst` has the generated index, and every module has a page with the text that
  -- is generated for it; of the other entries, those of no module are gone, and the rest are as
  -- they were.
  pub lookup-protocol_doc :
      (pages later : Pages)
      → (In "index" (modules S) → ⊥)
      → protocol_doc S pages ≡ (ok tt, later)
      → (lookup "index.rst" later ≡ some (text_file (generated_index S)))
        × ((m : String) → In m (modules S) → HasPage later m)
        × ((j : String)
            → j ≢ "index.rst"
            → ((m : String) → In m (modules S) → j ≢ page_name m)
            → lookup j later
              ≡ (if any (λ n. n == j) (stale_files S pages) then none else lookup j pages))
  unfolding protocol_doc
  lookup-protocol_doc pages later no_index e =
      let (between, indexed, rest) =
        after-ok
          (after (remove_files S (stale_files S pages) pages)
            (write_page "index.rst" (generated_index S)))
          (write_modules S (modules S)) later e in
      let (cleared, removed, written) =
        after-ok (remove_files S (stale_files S pages) pages)
          (write_page "index.rst" (generated_index S)) between indexed in
      let (at, unchanged) =
        write_page-Written "index.rst" (generated_index S) cleared between written in
      let (all, _, others) = write_modules-HasPage (modules S) between later rest in
      (
        others "index.rst" (λ m there same. no_index (
              subst (λ n. In n (modules S)) (sym (append_cancel_right "index" m ".rst" same))
                there))
            ∙ at,
        all,
        λ j no_index_page no_page.
            others j no_page
            ∙ unchanged j no_index_page
            ∙ lookup-remove_files S (stale_files S pages) pages cleared j removed,
      )

-- ===== src/Tests/Documentations.antt =====
-- One module with one interface, in a directory that has a page of another module.
use pywayland_i6ie.Base.{
  String, ◌≡◌, ◌≢◌, refl, any, if◌then◌else◌, none, false, not, some, [], ◌∷◌, ok, err, io_error,
  In, ◌==◌, String-Eq, eq_iff, arith, inl, inr,
}
use pywayland_i6ie.Base.Dict.{lookup, insert}
use pywayland_i6ie.Base.Words.{camel_case, split, capitalize}
use pywayland_i6ie.Documentation.{
  page_name, text_file, directory, Pages, DocSystem, modules, splitext, sort_names, generated_index,
  stale_files, doc_files, protocol_output,
}
use pywayland_i6ie.Documentation.Pages.{
  without, remove_files, write_page, write_modules, protocol_doc,
}
use pywayland_i6ie.Documentation.Pages.Written.{HasPage, lookup-protocol_doc}

abbrev doc_system : DocSystem
doc_system = record {
  input_names = "__init__.py" ∷ "wayland" ∷ "__pycache__" ∷ [];
  is_input_dir = λ name. not (name == "__init__.py");
  module_files = λ m. "__init__.py" ∷ "wl_display.py" ∷ "notes.txt" ∷ [];
  import_names = λ m f. ok ("Argument" ∷ "WlDisplay" ∷ []);
  is_dir = λ name. false;
  wayland_version = "1.18.0";
  protocols_version = "1.20";
}

abbrev old_pages : Pages
old_pages = ("index.rst", text_file "") ∷ ("old.rst", text_file "") ∷ []

abbrev index_text : String
index_text =
    ".. _protocol:\n\nProtocol Modules\n================\n\nWayland protocols built against Wayland 1.18.0 and Wayland Protocols 1.20.\n\n.. toctree::\n   :maxdepth: 2\n\n   wayland\n"

abbrev module_text : String
module_text =
    ".. module:: pywayland.protocol.wayland\n\nwayland Module\n==============\n\nWlDisplay\n---------\n\n.. wl_protocol:: pywayland.protocol.wayland WlDisplay"

abbrev new_pages : Pages
new_pages = ("index.rst", text_file index_text) ∷ ("wayland.rst", text_file module_text) ∷ []

pages_written : protocol_doc doc_system old_pages ≡ (ok tt, new_pages)
unfolding protocol_doc remove_files write_modules write_page stale_files modules splitext sort_names
    generated_index doc_files protocol_output camel_case split capitalize lookup insert without
pages_written = refl

-- The second time nothing is left to do.
pages_kept : protocol_doc doc_system new_pages ≡ (ok tt, new_pages)
unfolding protocol_doc remove_files write_modules write_page stale_files modules splitext sort_names
    generated_index doc_files protocol_output camel_case split capitalize lookup insert without
pages_kept = refl

-- A directory that is left over is taken for a file, unless the working directory has one as well.
left_over :
    protocol_doc doc_system (("old", directory) ∷ []) ≡ (err io_error, ("old", directory) ∷ [])
unfolding protocol_doc remove_files stale_files modules splitext lookup
left_over = refl

one_module : modules doc_system ≡ "wayland" ∷ []
unfolding modules
one_module = refl

no_index : In "index" (modules doc_system) → ⊥
unfolding modules
no_index (inl e) = ground (arith, eq_iff "index" "wayland")
no_index (inr m) = m

lookup-protocol_doc_example :
    (lookup "index.rst" new_pages ≡ some (text_file (generated_index doc_system)))
    × ((m : String) → In m (modules doc_system) → HasPage doc_system new_pages m)
    × ((j : String)
        → j ≢ "index.rst"
        → ((m : String) → In m (modules doc_system) → j ≢ page_name m)
        → lookup j new_pages ≡ (
            if any (λ n. n == j) (stale_files doc_system old_pages)
            then none
            else lookup j old_pages))
lookup-protocol_doc_example =
    lookup-protocol_doc doc_system old_pages new_pages no_index pages_written

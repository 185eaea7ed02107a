-- ===== src/Documentation/Pages.antt =====
-- doc/conf.py: `protocol_doc`, on the output directory.
pub mod Removed
pub mod Written
use pywayland_i6ie.Base.{
  String, ◌<>◌, Bool, true, false, Option, none, some, List, [], ◌∷◌, Result, ok, err, io_error,
  if◌then◌else◌, ◌==◌, String-Eq,
}
use pywayland_i6ie.Base.Dict.{lookup, insert}
use pywayland_i6ie.Documentation.{
  Entry, text_file, directory, Pages, DocSystem, page_name, modules, stale_files, generated_index,
  protocol_output,
}

-- An entry is no longer there.
unfoldable pub without : String → Pages → Pages
without name [] = []
without name ((k, entry) ∷ pages) =
    let rest = without name pages in if k == name then rest else (k, entry) ∷ rest

-- What is done with the directory, and how it ends.
abbrev pub Step : Type 0
Step = Pages → Result (Unit {0}) × Pages

pub after : Result (Unit {0}) × Pages → Step → Result (Unit {0}) × Pages
after (err e, pages) next = (err e, pages)
after (ok _, pages) next = next pages

-- `shutil.rmtree`, of a name that is there, or `os.remove`: each refuses what the other takes.
remove_found : Bool → String → Option Entry → Step
unfolding without
remove_found true name (some directory) pages = (ok tt, without name pages)
remove_found false name (some (text_file _)) pages = (ok tt, without name pages)
remove_found _ name _ pages = (err io_error, pages)

module _ (S : DocSystem) where
  -- The directory test is of the name, not of the path below the output directory.
  unfoldable pub remove_files : List String → Step
  unfolding after remove_found
  remove_files [] pages = (ok tt, pages)
  remove_files (name ∷ names) pages =
      after (remove_found (S.is_dir name) name (lookup name pages) pages) (remove_files names)

-- A page is written unless it is there with this text; what cannot be opened raises.
write_over : String → String → Option Entry → Step
write_over name text none pages = (ok tt, insert name (text_file text) pages)
write_over name text (some directory) pages = (err io_error, pages)
write_over name text (some (text_file existing)) pages =
    if existing == text then (ok tt, pages) else (ok tt, insert name (text_file text) pages)

unfoldable pub write_page : String → String → Step
unfolding write_over
write_page name text pages = write_over name text (lookup name pages) pages

-- A page whose text cannot be made raises before anything is written.
write_output : String → Result String → Step
unfolding write_page
write_output m (err e) pages = (err e, pages)
write_output m (ok text) pages = write_page (page_name m) text pages

module _ (S : DocSystem) where
  unfoldable pub write_modules : List String → Step
  unfolding after write_output protocol_output
  write_modules [] pages = (ok tt, pages)
  write_modules (m ∷ names) pages =
      after (write_output m (protocol_output S m) pages) (write_modules names)

  unfoldable pub protocol_doc : Step
  unfolding after remove_files write_modules stale_files modules generated_index write_page
  protocol_doc pages =
      after
        (after (remove_files S (stale_files S pages) pages)
          (write_page "index.rst" (generated_index S)))
        (write_modules (modules S))

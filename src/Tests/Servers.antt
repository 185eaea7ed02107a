-- ===== src/Tests/Servers.antt =====
-- An event loop with three sources: before it is destroyed, one is removed and one is discarded.
use pywayland_i6ie.Base.{◌+◌, pos, ◌≡◌, refl, true, some, List, [], ◌∷◌, Result, err, value_error}
use pywayland_i6ie.Server.{
  fd, timer, signal, collect_source, add, remove, destroy_loop, event_loop, add_source,
  remove_source, destroy_event_loop,
}
use pywayland_i6ie.Server.Counts.{count_discarded, count_added, count_removed, count_present}
use pywayland_i6ie.Server.Sources.{
  Operation, adds, removes, collects, perform_all, count_added-perform_all,
  count_removed-destroy_event_loop,
}

-- What cffi raises for a pointer without a destructor.
abbrev refused : Result (Unit {0})
refused = err value_error

abbrev steps : List Operation
steps =
    adds (fd (pos 3) (pos 1)) 1 40
    ∷ adds timer 2 50
    ∷ adds (signal (pos 10)) 3 60
    ∷ removes 0
    ∷ removes 0
    ∷ collects 2
    ∷ []

count_added-perform_all_example :
    count_added 40 (perform_all refused steps (event_loop true 30)).calls
    ≡ count_removed 40 (perform_all refused steps (event_loop true 30)).calls
      + count_present 40 (perform_all refused steps (event_loop true 30)).sources
      + count_discarded 40 (perform_all refused steps (event_loop true 30)).discarded
count_added-perform_all_example = count_added-perform_all refused true 30 40 steps

still_there : (perform_all refused steps (event_loop true 30)).ptr ≡ some 30
unfolding event_loop add_source remove_source collect_source
still_there = refl

count_removed-destroy_event_loop_example :
    count_removed 60
        (destroy_event_loop refused (perform_all refused steps (event_loop true 30))).1.calls
      + count_discarded 60 (perform_all refused steps (event_loop true 30)).discarded
    ≡ count_added 60
        (destroy_event_loop refused (perform_all refused steps (event_loop true 30))).1.calls
count_removed-destroy_event_loop_example =
    count_removed-destroy_event_loop refused true 30 30 60 steps still_there

calls_of_destroy :
    (destroy_event_loop refused (perform_all refused steps (event_loop true 30))).1.calls
    ≡ add 30 (fd (pos 3) (pos 1)) 40
      ∷ add 30 timer 50
      ∷ add 30 (signal (pos 10)) 60
      ∷ remove 40
      ∷ remove 50
      ∷ destroy_loop 30
      ∷ []
unfolding event_loop add_source remove_source collect_source destroy_event_loop
calls_of_destroy = refl

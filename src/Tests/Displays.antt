-- ===== src/Tests/Displays.antt =====
-- A display with clients, listeners on its signals, and a global that a client binds.
use pywayland_i6ie.Base.{
  pos, ◌≡◌, refl, true, false, none, some, List, [], ◌∷◌, Result, ok, err, value_error, All, ℕ-Eq,
  arith,
}
use pywayland_i6ie.Server.Display.{
  display_created, display_destroy_clients, display_destroyed, client_created, client_destroyed,
  Display, new_display, destroy_display, new_client, destroy_client,
}
use pywayland_i6ie.Server.Display.Contract.{Served, nothing_served, serve}
use pywayland_i6ie.Server.Display.Matching.{start}
use pywayland_i6ie.Server.Display.Safety.{
  Operation, creates, destroys, destroys_display, Succeeds, operate_all, serve-operate_all,
  serve-destroy_display,
}

abbrev refused : Result (Unit {0})
refused = err value_error

abbrev served_display : Display
served_display = record { ptr = some 30; clients = []; calls = display_created 30 ∷ []; logged = 0 }

served_display_made : new_display none 30 ≡ ok served_display
unfolding new_display
served_display_made = refl

-- Two clients are made, and one is given; the first is destroyed twice.
abbrev clients_come : List Operation
clients_come =
    creates true (some (pos 7)) none 40
    ∷ creates true (some (pos 8)) none 50
    ∷ creates false none (some 60) 1
    ∷ destroys 0
    ∷ destroys 0
    ∷ []

-- The second one is destroyed when the display is gone.
abbrev clients_go : List Operation
clients_go = destroys 1 ∷ creates true (some (pos 9)) none 70 ∷ destroys_display ∷ []

clients_come_made : All Succeeds clients_come
clients_come_made = ground arith

serve-operate_all_example :
    (served : Served) × (serve (operate_all refused clients_come served_display).calls (start none)
      ≡ some served)
serve-operate_all_example =
    serve-operate_all refused none 30 served_display clients_come served_display_made
      clients_come_made

clients_go_made : All Succeeds clients_go
clients_go_made = ground arith

serve-destroy_display_example :
    serve
      (operate_all refused clients_go
        (destroy_display (operate_all refused clients_come served_display))).calls
      (start none)
    ≡ some nothing_served
serve-destroy_display_example =
    serve-destroy_display refused none 30 served_display clients_come clients_go served_display_made
      clients_come_made clients_go_made

calls_of_the_display :
    (operate_all refused clients_go
      (destroy_display (operate_all refused clients_come served_display))).calls
    ≡ display_created 30
      ∷ client_created 30 40
      ∷ client_created 30 50
      ∷ client_destroyed 40
      ∷ display_destroy_clients 30
      ∷ display_destroyed 30
      ∷ []
unfolding destroy_display new_client destroy_client
calls_of_the_display = refl

-- `wl_client_create` gives NULL, and the client is destroyed: there is no such client.
null_client_destroyed :
    serve
      (operate_all refused
        (creates true (some (pos 7)) none 0 ∷ destroys 0 ∷ [])
        served_display).calls
      (start none)
    ≡ none
unfolding new_client destroy_client
null_client_destroyed = refl

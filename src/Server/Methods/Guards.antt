-- ===== src/Server/Methods/Guards.antt =====
-- What the guards and the error checks of the server's methods keep.
use pywayland_i6ie.Base.{ℤ, true, String, Option, none, err, value_error, ◌≡◌, refl}
use pywayland_i6ie.ProtocolCore.Message.{Ptr}
use pywayland_i6ie.Server.Display.{Display, destroy_display, new_client}
use pywayland_i6ie.Server.Display.Agreement.{
  ptr-destroy_display, new_client_destroyed, destroy_display_again,
}
use pywayland_i6ie.Server.Methods.{
  ServerLibrary, valid, add_socket, get_serial, next_serial, display_event_loop, terminate,
  run_display, init_shm, add_shm_format, flush_clients, flush_client, client_credentials,
  client_destroy_listener, client_object, check_source, timer_update, loop_destroy_listener,
  dispatch_loop, dispatch_idle, resource_destroy_listener, post_error,
}

module _ (L : ServerLibrary) where
  open L use {World, call}

  pub destroyed_methods :
      (name : Option String) (n m : ℤ) (msg : String) (listener : Option Ptr) (w : World)
      → (add_socket L none name w ≡ (err value_error, w))
        × (get_serial L none w ≡ (err value_error, w))
        × (next_serial L none w ≡ (err value_error, w))
        × (display_event_loop L none w ≡ (err value_error, w))
        × (terminate L none w ≡ (err value_error, w))
        × (run_display L none w ≡ (err value_error, w))
        × (init_shm L none w ≡ (err value_error, w))
        × (add_shm_format L none n w ≡ (err value_error, w))
        × (flush_clients L none w ≡ (err value_error, w))
        × (flush_client L none w ≡ (err value_error, w))
        × (client_credentials L none w ≡ (err value_error, w))
        × (client_destroy_listener L none listener w ≡ (err value_error, w))
        × (client_object L none n w ≡ (err value_error, w))
        × (check_source L none w ≡ (err value_error, w))
        × (timer_update L none n w ≡ (err value_error, w))
        × (loop_destroy_listener L none listener w ≡ (err value_error, w))
        × (dispatch_loop L none n w ≡ (err value_error, w))
        × (dispatch_idle L none w ≡ (err value_error, w))
        × (resource_destroy_listener L none listener w ≡ (err value_error, w))
        × (post_error L none m msg w ≡ (err value_error, w))
  unfolding add_socket get_serial next_serial display_event_loop terminate run_display init_shm
      add_shm_format flush_clients flush_client client_credentials client_destroy_listener
      client_object check_source timer_update loop_destroy_listener dispatch_loop dispatch_idle
      resource_destroy_listener post_error valid
  destroyed_methods name n m msg listener w = (
    refl, refl, refl, refl, refl, refl, refl, refl, refl, refl, refl, refl, refl, refl, refl, refl,
    refl, refl, refl, refl,
  )

  pub destroy_display-methods :
      (d : Display) (name : Option String) (shm_format : ℤ) (w : World) (fd : Option ℤ)
      → (created : Ptr)
      → let gone = destroy_display d in
        (add_socket L gone.ptr name w ≡ (err value_error, w))
        × (get_serial L gone.ptr w ≡ (err value_error, w))
        × (next_serial L gone.ptr w ≡ (err value_error, w))
        × (display_event_loop L gone.ptr w ≡ (err value_error, w))
        × (terminate L gone.ptr w ≡ (err value_error, w))
        × (run_display L gone.ptr w ≡ (err value_error, w))
        × (init_shm L gone.ptr w ≡ (err value_error, w))
        × (add_shm_format L gone.ptr shm_format w ≡ (err value_error, w))
        × (flush_clients L gone.ptr w ≡ (err value_error, w))
        × (new_client true fd none created gone ≡ (err value_error, gone))
        × (destroy_display gone ≡ gone)
  destroy_display-methods d name shm_format w fd created =
      let gone = ptr-destroy_display d in
      let methods = destroyed_methods name shm_format shm_format "" none w in
      (
        rw gone methods.0,
        rw gone methods.1,
        rw gone methods.2,
        rw gone methods.3,
        rw gone methods.4,
        rw gone methods.5,
        rw gone methods.6,
        rw gone methods.7,
        rw gone methods.8,
        new_client_destroyed (destroy_display d) fd created gone,
        destroy_display_again (destroy_display d) gone,
      )

-- ===== src/Client/Events/Guards.antt =====
-- What the guards and the error checks of the display's methods keep.
use pywayland_i6ie.Base.{
  ℕ, zero, suc, ℤ, pos, negsuc, Bool, Option, none, some, Result, ok, err, value_error, ◌≡◌, ◌≢◌,
  refl, arith,
}
use pywayland_i6ie.ProtocolCore.Message.{Ptr}
use pywayland_i6ie.Client.Events.{
  Libwayland, QueueArgument, ensure_valid, check_dispatched, call_dispatch, dispatch_events,
  display_dispatch, display_get_fd, display_flush, display_roundtrip, display_read,
}

module _ (W : Libwayland) where
  open W use {World, call}

  -- On a display without a pointer, not connected or disconnected, `dispatch`, `get_fd`, `flush`,
  -- `roundtrip` and `read` raise a ValueError and leave the world alone: libwayland is not called.
  pub destroyed_display :
      (block : Bool) (queue : QueueArgument) (w : World)
      → (display_ptr : World → Option Ptr) (queue_of : World → QueueArgument) (rounds : ℕ)
      → display_ptr w ≡ none
      → (display_dispatch W (display_ptr w) block queue w ≡ (err value_error, w))
        × (display_get_fd W (display_ptr w) w ≡ (err value_error, w))
        × (display_flush W (display_ptr w) w ≡ (err value_error, w))
        × (display_roundtrip W (display_ptr w) queue w ≡ (err value_error, w))
        × (display_read W display_ptr queue_of rounds w ≡ some (err value_error, w))
  unfolding display_dispatch display_get_fd display_flush display_roundtrip display_read
      ensure_valid
  destroyed_display block queue w display_ptr queue_of rounds gone =
      rw gone (refl, refl, refl, refl, refl)

  check_dispatched-ne :
      (ptr : Ptr) (r : Result ℤ) (w w' : World)
      → check_dispatched W ptr (r, w) ≢ (ok (negsuc 0), w')
  unfolding check_dispatched
  check_dispatched-ne ptr (err x) w w' e = ground arith
  check_dispatched-ne ptr (ok (negsuc zero)) w w' e = ground arith
  check_dispatched-ne ptr (ok (negsuc (suc n))) w w' e = ground arith
  check_dispatched-ne ptr (ok (pos n)) w w' e = ground arith

  -- `dispatch` never returns the -1 by which libwayland tells of an error.
  pub display_dispatch-ne :
      (ptr : Option Ptr) (block : Bool) (queue : QueueArgument) (w w' : World)
      → display_dispatch W ptr block queue w ≢ (ok (negsuc 0), w')
  unfolding display_dispatch ensure_valid dispatch_events
  display_dispatch-ne none block queue w w' e = ground arith
  display_dispatch-ne (some ptr) block queue w w' e =
      let (ret, after) = call_dispatch W block queue ptr w in check_dispatched-ne ptr ret after w' e

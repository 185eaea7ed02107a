-- ===== src/Client/Events.antt =====
-- The methods of pywayland/client/display.py that read, dispatch and send, and `ensure_valid` of
-- pywayland/utils.py, which guards them.
pub mod Guards
pub mod Reading
use pywayland_i6ie.Base.{
  ℕ, zero, suc, ℤ, pos, negsuc, Bool, true, false, Option, none, some, Result, ok, err, value_error,
  runtime_error, assertion_error, type_error,
}
use pywayland_i6ie.ProtocolCore.Message.{Ptr}

-- The functions of libwayland that are called, with their pointers: the display's, then the
-- queue's.
pub data Request : Type 0 where
  get_fd dispatch dispatch_pending get_error roundtrip prepare_read read_events flush :
      Ptr → Request
  dispatch_queue dispatch_queue_pending roundtrip_queue prepare_read_queue : Ptr → Ptr → Request

-- libwayland on a world of its own: every function that is called returns an int.
pub record Libwayland : Type 1 where
  pub World : Type 0
  pub call : Request → World → ℤ × World

-- A queue is not given, or it is, with a `_ptr` that is `None` once it is destroyed.
abbrev pub QueueArgument : Type 0
QueueArgument = Option (Option Ptr)

module _ (W : Libwayland) where
  open W use {World, call}

  abbrev pub Action : Type 0
  Action = World → Result ℤ × World

  lib : Request → Action
  lib request w = let (ret, w') = call request w in (ok ret, w')

  -- The decorator, around a method that then has a pointer.
  unfoldable pub ensure_valid : Option Ptr → (Ptr → Action) → Action
  ensure_valid none method w = (err value_error, w)
  ensure_valid (some ptr) method w = method ptr w

  -- `if queue is None: … else: assert queue._ptr is not None; …`
  abbrev on_queue : QueueArgument → Action → (Ptr → Action) → Action
  on_queue none default with_queue w = default w
  on_queue (some none) default with_queue w = (err assertion_error, w)
  on_queue (some (some q)) default with_queue w = with_queue q w

  call_dispatch : Bool → QueueArgument → Ptr → Action
  unfolding lib
  call_dispatch true queue ptr =
      on_queue queue (lib (dispatch ptr)) (λ q. lib (dispatch_queue ptr q))
  call_dispatch false queue ptr =
      on_queue queue (lib (dispatch_pending ptr)) (λ q. lib (dispatch_queue_pending ptr q))

  -- -1 is an error; the display's error is asked for, for the exception's text.
  check_dispatched : Ptr → Result ℤ × World → Result ℤ × World
  check_dispatched ptr (err e, w) = (err e, w)
  check_dispatched ptr (ok (negsuc zero), w) =
      let (_, w') = call (get_error ptr) w in (err runtime_error, w')
  check_dispatched ptr (ok ret, w) = (ok ret, w)

  dispatch_events : Bool → QueueArgument → Ptr → Action
  unfolding call_dispatch check_dispatched
  dispatch_events block queue ptr w = check_dispatched ptr (call_dispatch block queue ptr w)

  unfoldable pub display_dispatch : Option Ptr → Bool → QueueArgument → Action
  unfolding ensure_valid dispatch_events
  display_dispatch ptr block queue = ensure_valid ptr (dispatch_events block queue)

  unfoldable pub display_get_fd : Option Ptr → Action
  unfolding ensure_valid lib
  display_get_fd ptr = ensure_valid ptr (λ p. lib (get_fd p))

  unfoldable pub display_flush : Option Ptr → Action
  unfolding ensure_valid lib
  display_flush ptr = ensure_valid ptr (λ p. lib (flush p))

  unfoldable pub display_roundtrip : Option Ptr → QueueArgument → Action
  unfolding ensure_valid lib
  display_roundtrip ptr queue =
      ensure_valid ptr (λ p. on_queue queue (lib (roundtrip p)) (λ q. lib (roundtrip_queue p q)))

  -- A call of libwayland with `self._ptr`, which cffi refuses if it is `None`.
  pub lib_at : Option Ptr → (Ptr → Request) → Action
  unfolding lib
  lib_at none request w = (err type_error, w)
  lib_at (some ptr) request w = lib (request ptr) w

  call_prepare : Option Ptr → QueueArgument → Action
  unfolding lib_at
  call_prepare ptr queue =
      on_queue queue (lib_at ptr prepare_read) (λ q. lib_at ptr (λ p. prepare_read_queue p q))

  -- A status other than 0 is an error.
  pub checked_status : Result ℤ × World → Result (Unit {0}) × World
  checked_status (err e, w) = (err e, w)
  checked_status (ok (pos zero), w) = (ok tt, w)
  checked_status (ok _, w) = (err runtime_error, w)

  -- What `read` ends with.
  abbrev pub Finished : Type 0
  Finished = Result (Unit {0}) × World

  -- The loop of `read`. The callbacks that it dispatches may destroy the display or the queue, so
  -- their pointers are read from the world.
  module _ (display_ptr : World → Option Ptr) (queue_of : World → QueueArgument) where
    finish_read : World → Finished
    unfolding lib_at checked_status
    finish_read w = checked_status (lib_at (display_ptr w) read_events w)

    after_dispatch : (World → Option Finished) → Result ℤ × World → Option Finished
    after_dispatch continue (err e, w) = some (err e, w)
    after_dispatch continue (ok _, w) = continue w

    unfoldable pub dispatch_pending_events : World → Result ℤ × World
    unfolding display_dispatch
    dispatch_pending_events w = display_dispatch (display_ptr w) false (queue_of w) w

    after_prepare : (World → Option Finished) → Result ℤ × World → Option Finished
    unfolding finish_read after_dispatch dispatch_pending_events
    after_prepare continue (err e, w) = some (err e, w)
    after_prepare continue (ok (pos zero), w) = some (finish_read w)
    after_prepare continue (ok _, w) = after_dispatch continue (dispatch_pending_events w)

    unfoldable pub prepare_events : World → Result ℤ × World
    unfolding call_prepare
    prepare_events w = call_prepare (display_ptr w) (queue_of w) w

    -- At most this many rounds; `none` if the loop has not ended then.
    unfoldable pub read_rounds : ℕ → World → Option Finished
    unfolding after_prepare prepare_events
    read_rounds zero w = none
    read_rounds (suc rounds) w = after_prepare (read_rounds rounds) (prepare_events w)

    guarded_read : ℕ → Option Ptr → World → Option Finished
    unfolding read_rounds
    guarded_read rounds none w = some (err value_error, w)
    guarded_read rounds (some _) w = read_rounds rounds w

    unfoldable pub display_read : ℕ → World → Option Finished
    unfolding guarded_read
    display_read rounds w = guarded_read rounds (display_ptr w) w

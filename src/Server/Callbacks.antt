-- ===== src/Server/Callbacks.antt =====
-- The functions of pywayland/server/eventloop.py that libwayland calls for the sources of a loop.
use pywayland_i6ie.Base.{ℤ, pos, List, [], ◌∷◌, Result, ok, err}

-- What a callback is called with: numbers, and the data that was given with it.
pub data LoopArgument (Data : Type 0) : Type 0 where
  number : ℤ → LoopArgument Data
  user_data : Data → LoopArgument Data

-- What a callback returns, as far as `isinstance(ret, int)` tells.
pub data Returned : Type 0 where
  int_result : ℤ → Returned
  other_result : Returned

-- Python callbacks on a world of their own, which may raise.
pub record LoopCallbacks : Type 1 where
  pub Callback : Type 0
  pub Data : Type 0
  pub World : Type 0
  pub call : Callback → List (LoopArgument Data) → World → Result Returned × World

-- The named tuple.
pub record CallbackInfo (P : LoopCallbacks) : Type 0 where
  pub callback : P.Callback
  pub info_data : P.Data

module _ (P : LoopCallbacks) where
  open P use {World, call}

  returned_int : Result Returned × World → Result ℤ × World
  returned_int (err e, w) = (err e, w)
  returned_int (ok (int_result ret), w) = (ok ret, w)
  returned_int (ok other_result, w) = (ok (pos 0), w)

  ignored : Result Returned × World → Result (Unit {0}) × World
  ignored (err e, w) = (err e, w)
  ignored (ok _, w) = (ok tt, w)

  unfoldable pub event_loop_fd_func : ℤ → ℤ → CallbackInfo P → World → Result ℤ × World
  unfolding returned_int
  event_loop_fd_func fd mask info w =
      returned_int (call info.callback (number fd ∷ number mask ∷ user_data info.info_data ∷ []) w)

  unfoldable pub event_loop_signal_func : ℤ → CallbackInfo P → World → Result ℤ × World
  unfolding returned_int
  event_loop_signal_func signal_number info w =
      returned_int (call info.callback (number signal_number ∷ user_data info.info_data ∷ []) w)

  unfoldable pub event_loop_timer_func : CallbackInfo P → World → Result ℤ × World
  unfolding returned_int
  event_loop_timer_func info w = returned_int (call info.callback (user_data info.info_data ∷ []) w)

  unfoldable pub event_loop_idle_func : CallbackInfo P → World → Result (Unit {0}) × World
  unfolding ignored
  event_loop_idle_func info w = ignored (call info.callback (user_data info.info_data ∷ []) w)

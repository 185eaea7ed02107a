-- ===== src/Dispatcher/Dispatch.antt =====
-- `dispatcher_func` and `resource_destroy_func` of pywayland/dispatcher.py: the calls that
-- libwayland makes for a message that came in, and for a resource that goes.
use pywayland_i6ie.Base.{
  ℕ, ℤ, pos, ◌≡◌, refl, ◌∙◌, sym, Option, none, some, List, [], get_elem?, Result, ok, err,
  index_error, attribute_error, if◌then◌else◌,
}
use pywayland_i6ie.ProtocolCore.Message.{Ptr, Message}
use pywayland_i6ie.ProtocolCore.Message.Wire.{ObjectId, Value, WlArgument, Cffi, Objects}
use pywayland_i6ie.ProtocolCore.Message.ToPython.{c_to_arguments}
use pywayland_i6ie.Dispatcher.{Dispatcher, Key, by_opcode, get_item, set_item, resolve}
use pywayland_i6ie.Dispatcher.Keys.{
  get_item-set_item_self, messages-set_item, resolve-set_item, get_item-resolve,
}

-- Python callbacks: `call f target args w` runs one on the world `w`; it returns an int or `None`,
-- or raises.
pub record Callbacks (Float : Type 0) : Type 1 where
  pub Callback : Type 0
  pub World : Type 0
  pub call : Callback → ObjectId → List (Value Float) → World → Result (Option ℤ) × World

-- What `dispatcher_func` returns for the outcome of the callback: the traceback of an exception is
-- printed, and 0 is returned.
unfoldable pub returned : Result (Option ℤ) → ℤ
returned (ok none) = pos 0
returned (ok (some ret)) = ret
returned (err _) = pos 0

module _ (C : Cffi) (env : Objects) (P : Callbacks C.Float) where
  open P use {Callback, World, call}

  run : Callback → ObjectId → Result (List (Value C.Float)) → World → Result ℤ × World
  run func target (err e) w = (err e, w)
  run func target (ok args) w = let (ret, w') = call func target args w in (ok (returned ret), w')

  converted : Option Message → (ℕ → WlArgument) → Result (List (Value C.Float))
  converted none c_args = err index_error
  converted (some m) c_args = c_to_arguments C env m c_args

  unfoldable pub dispatch_callback :
      Result (Option Callback)
      → ObjectId
      → Option Message
      → (ℕ → WlArgument)
      → World
      → Result ℤ × World
  unfolding run converted
  dispatch_callback (err e) target m c_args w = (err e, w)
  dispatch_callback (ok none) target m c_args w = (ok (pos 0), w)
  dispatch_callback (ok (some func)) target m c_args w = run func target (converted m c_args) w

  -- For the object that a handle leads to, with its dispatcher.
  dispatch_to :
      Result (ObjectId × Dispatcher Callback) → ℕ → (ℕ → WlArgument) → World → Result ℤ × World
  unfolding dispatch_callback
  dispatch_to (err e) opcode c_args w = (err e, w)
  dispatch_to (ok (target, d)) opcode c_args w =
      dispatch_callback (get_item Callback d (by_opcode (pos opcode))) target
        (get_elem? d.messages opcode) c_args w

  -- `dispatcher_func`: `data`, here `handed`, is the `implementation` that the dispatcher was set
  -- with, and `from_handle` is `ffi.from_handle`, by the object and its dispatcher.
  unfoldable pub dispatcher_func :
      (Ptr → Result (ObjectId × Dispatcher Callback))
      → Ptr
      → ℕ
      → (ℕ → WlArgument)
      → World
      → Result ℤ × World
  unfolding dispatch_to
  dispatcher_func from_handle handed opcode c_args w =
      dispatch_to (from_handle handed) opcode c_args w

  -- `resource_destroy_func`
  destroy_callback : Option Callback → ObjectId → World → Result (Unit {0}) × World
  destroy_callback none target w = (ok tt, w)
  destroy_callback (some func) target w = let (_, w') = call func target [] w in (ok tt, w')

  unfoldable pub resource_destroy_func :
      Dispatcher Callback → ObjectId → World → Result (Unit {0}) × World
  unfolding destroy_callback
  resource_destroy_func d target w =
      if d.has_destructor then destroy_callback d.destructor target w else (err attribute_error, w)

  run_cases :
      (func : Callback) (target : ObjectId) (args : Result (List (Value C.Float))) (w : World)
      → run func target args w ≡ (elim args [
        | ok args ↦ (ok (returned (call func target args w).0), (call func target args w).1)
        | err e ↦ (err e, w)
      ])
  unfolding run
  run_cases func target (ok args) w = refl
  run_cases func target (err e) w = refl

  -- If the handle that libwayland hands back leads to an object, a callback set in its dispatcher
  -- under a key is what is called for the opcode that the key stands for, with the arguments that
  -- the message converts to; its result is handed on, `None` and exceptions as 0, and if the
  -- arguments do not convert it is not called and the exception leaves `dispatcher_func`.
  pub dispatcher_func-set_item :
      (d d' : Dispatcher Callback) (key : Key) (func : Callback) (target : ObjectId) (opcode : ℕ)
      → (m : Message) (c_args : ℕ → WlArgument) (w : World)
      → (from_handle : Ptr → Result (ObjectId × Dispatcher Callback)) (handed : Ptr)
      → from_handle handed ≡ ok (target, d')
      → set_item Callback d key func ≡ ok d'
      → resolve Callback d key ≡ ok (pos opcode)
      → get_elem? d.messages opcode ≡ some m
      → dispatcher_func from_handle handed opcode c_args w ≡ (elim (c_to_arguments C env m c_args) [
        | ok args ↦ (ok (returned (call func target args w).0), (call func target args w).1)
        | err e ↦ (err e, w)
      ])
  unfolding dispatcher_func resolve
  dispatcher_func-set_item d d' key func target opcode m c_args w from_handle handed leads e at
        found =
      let (kept, _) = messages-set_item Callback d d' key func e in
      let stored =
        get_item-resolve Callback d' (by_opcode (pos opcode)) key
          (sym (resolve-set_item Callback d d' key func key e ∙ at))
        ∙ get_item-set_item_self Callback d d' key func e in
      rw (leads, stored, kept, found) (run_cases func target (c_to_arguments C env m c_args) w)

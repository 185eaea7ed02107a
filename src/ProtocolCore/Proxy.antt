-- ===== src/ProtocolCore/Proxy.antt =====
-- How messages are sent: `_marshal` and `_marshal_constructor` of pywayland/protocol_core/proxy.py,
-- and `_post_event` of pywayland/protocol_core/resource.py.
pub mod Registry
use pywayland_i6ie.Base.{
  ℕ, Option, none, some, List, Result, ok, err, ◌>>=◌, index_error, type_error, value_error,
  get_elem?,
}
use pywayland_i6ie.ProtocolCore.Argument.{ClassName}
use pywayland_i6ie.ProtocolCore.Message.{Ptr, Message}
use pywayland_i6ie.ProtocolCore.Message.Wire.{Value, Cffi, Objects}
use pywayland_i6ie.ProtocolCore.Message.ToC.{CArguments, arguments_to_c}

-- The call of libwayland that sends a message: on which pointer, with which opcode and array, and
-- for a constructor the interface of the new object.
pub data Sent : Type 0 where
  marshal_array : Ptr → ℕ → CArguments → Sent
  marshal_array_constructor : Ptr → ℕ → CArguments → ClassName → Sent
  post_event_array : Ptr → ℕ → CArguments → Sent

nth_message : Option Message → Result Message
nth_message none = err index_error
nth_message (some m) = ok m

-- `ensure_valid`
guarded : Option Ptr → (Ptr → Result Sent) → Result Sent
guarded none method = err value_error
guarded (some ptr) method = method ptr

-- `ffi.cast("struct wl_proxy *", self._ptr)`
cast : Option Ptr → Result Ptr
cast none = err type_error
cast (some ptr) = ok ptr

module _ (C : Cffi) (env : Objects) (messages : List Message) where
  -- `messages[opcode].arguments_to_c(*args)`
  convert : ℕ → List (Value C.Float) → Result CArguments
  unfolding nth_message
  convert opcode args = do m ← nth_message (get_elem? messages opcode); arguments_to_c C env m args

  unfoldable pub marshal : Option Ptr → ℕ → List (Value C.Float) → Result Sent
  unfolding convert guarded
  marshal ptr opcode args =
      guarded ptr
        (λ proxy. do args_ptr ← convert opcode args; ok (marshal_array proxy opcode args_ptr))

  -- Without the guard: a destroyed proxy is refused by the cast, once the values are converted.
  unfoldable pub marshal_constructor :
      Option Ptr → ℕ → ClassName → List (Value C.Float) → Result Sent
  unfolding convert cast
  marshal_constructor ptr opcode interface args = do
    args_ptr ← convert opcode args
    proxy ← cast ptr
    ok (marshal_array_constructor proxy opcode args_ptr interface)

  unfoldable pub post_event : Option Ptr → ℕ → List (Value C.Float) → Result Sent
  unfolding convert guarded
  post_event ptr opcode args = guarded ptr (λ resource. do
    args_ptr ← convert opcode args
    ok (post_event_array resource opcode args_ptr))

-- ===== src/ProtocolCore/Message/ToC.antt =====
-- `arguments_to_c` of pywayland/protocol_core/message.py.
use pywayland_i6ie.Base.{
  Bool, true, false, Option, none, some, List, [], ◌∷◌, ◌++◌, Result, ok, err, length,
  plain_exception, type_error, attribute_error, stop_iteration, ◌>>=◌, if◌then◌else◌,
}
use pywayland_i6ie.Base.Text.{codes}
use pywayland_i6ie.Scanner.ArgumentType.{
  ArgumentType, int, uint, fixed, string, object, new_id, array, file_descriptor, is_new_id,
}
use pywayland_i6ie.ProtocolCore.Argument.{Argument}
use pywayland_i6ie.ProtocolCore.Message.{Ptr, null, Message, marshaled_arguments}
use pywayland_i6ie.ProtocolCore.Message.Wire.{
  Value, none_value, int_value, text_value, bytes_value, object_value, WlArgument, i, u, f, h, s, o,
  Ref, chars, object_pointer, Cffi, Objects,
}

-- The union that was stored for an argument, and the refs that the branch appended.
abbrev pub Stored : Type 0
Stored = WlArgument × List Ref

-- The array that is returned, and the refs kept alive under it in `weakkeydict`.
pub record CArguments : Type 0 where
  pub cells : List WlArgument
  pub refs : List Ref

module _ (C : Cffi) (env : Objects) where
  store_fixed : Value C.Float → Result Stored
  store_fixed (int_value z) = do v ← C.wl_fixed_from_int (int_value z); ok (f v, [])
  store_fixed arg = do v ← C.wl_fixed_from_double arg; ok (f v, [])

  store_string : Bool → Value C.Float → Result Stored
  store_string nullable none_value = if nullable then ok (s none, []) else err plain_exception
  store_string nullable (text_value t) = ok (s (some t), chars t ∷ [])
  store_string nullable _ = err attribute_error

  -- `ffi.cast("struct wl_object *", arg._ptr)`; a destroyed object has `None` for its pointer.
  cast_pointer : Option Ptr → Result Stored
  cast_pointer none = err type_error
  cast_pointer (some ptr) = ok (o ptr, object_pointer ptr ∷ [])

  store_object : Bool → Value C.Float → Result Stored
  unfolding cast_pointer
  store_object nullable none_value = if nullable then ok (o null, []) else err plain_exception
  store_object nullable (object_value x) = cast_pointer (env.pointer x)
  store_object nullable _ = err attribute_error

  -- The branch ends where the array of `void` is made; `len` refuses a value without a length.
  store_array : Value C.Float → Result Stored
  store_array (bytes_value b) = err (C.new_void_array (length b))
  store_array (text_value t) = err (C.new_void_array (length (codes t)))
  store_array _ = err type_error

  unfoldable pub store_as : ArgumentType → Bool → Value C.Float → Result Stored
  unfolding store_fixed store_string store_object store_array
  store_as int nullable arg = do z ← C.to_int32 arg; ok (i z, [])
  store_as uint nullable arg = do z ← C.to_uint32 arg; ok (u z, [])
  store_as fixed nullable arg = store_fixed arg
  store_as file_descriptor nullable arg = do z ← C.to_int32 arg; ok (h z, [])
  store_as string nullable arg = store_string nullable arg
  store_as object nullable arg = store_object nullable arg
  store_as array nullable arg = store_array arg
  store_as new_id nullable arg = ok (o null, [])

  -- The loop over `_marshaled_arguments`: a new id takes no value from the iterator.
  unfoldable pub fill_arguments : List Argument → List (Value C.Float) → Result CArguments
  fill_arguments [] args = ok (record { cells = []; refs = [] })
  fill_arguments (argument ∷ arguments) args = elim (is_new_id argument.argument_type) [
    | true ↦ do
      rest ← fill_arguments arguments args
      ok (record rest { cells = o null ∷ rest.cells })
    | false ↦ elim args [
      | [] ↦ err stop_iteration
      | arg ∷ more ↦ do
        (cell, refs) ← store_as argument.argument_type argument.nullable arg
        rest ← fill_arguments arguments more
        ok (record { cells = cell ∷ rest.cells; refs = refs ++ rest.refs })
    ]
  ]

  unfoldable pub arguments_to_c : Message → List (Value C.Float) → Result CArguments
  arguments_to_c m args = fill_arguments (marshaled_arguments m.arguments) args

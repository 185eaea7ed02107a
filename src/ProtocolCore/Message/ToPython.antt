-- ===== src/ProtocolCore/Message/ToPython.antt =====
-- `c_to_arguments` of pywayland/protocol_core/message.py.
use pywayland_i6ie.Base.{
  ℕ, suc, Bool, Option, none, some, List, [], ◌∷◌, Result, ok, err, plain_exception,
  attribute_error, runtime_error, not_implemented_error, ◌>>=◌, if◌then◌else◌, ◌==◌, ℕ-Eq,
}
use pywayland_i6ie.Scanner.ArgumentType.{
  ArgumentType, int, uint, fixed, string, object, new_id, array, file_descriptor,
}
use pywayland_i6ie.ProtocolCore.Argument.{Argument, ClassName}
use pywayland_i6ie.ProtocolCore.Message.{Ptr, null, Message}
use pywayland_i6ie.ProtocolCore.Message.Wire.{
  ObjectId, Value, none_value, int_value, float_value, text_value, bytes_value, object_value,
  WlArgument, WlArray, Cffi, Objects,
}

module _ (C : Cffi) (env : Objects) where
  -- The test is on the union and not on its member `s`.
  load_string : Bool → WlArgument → Result (Value C.Float)
  load_string nullable cell =
      let text : Result (Value C.Float) = (do
        t ← C.ffi_string (C.read_s cell)
        ok (text_value t)) in
      if C.is_null cell then (if nullable then ok none_value else err plain_exception) else text

  -- `registry.get` finds nothing where the object is gone.
  found_object : Option ObjectId → Result (Value C.Float)
  found_object none = err runtime_error
  found_object (some x) = ok (object_value x)

  -- `iface.registry`, where `iface` is `None`, has no such attribute.
  look_up : Option ClassName → Ptr → Result (Value C.Float)
  unfolding found_object
  look_up none ptr = err attribute_error
  look_up (some interface) ptr = found_object (env.registry interface ptr)

  load_object : Bool → Option ClassName → Ptr → Result (Value C.Float)
  unfolding look_up
  load_object nullable interface ptr =
      if ptr == null
      then (if nullable then ok none_value else err runtime_error)
      else look_up interface ptr

  load_array : WlArray → Result (Value C.Float)
  load_array w = do b ← C.read_buffer w.content w.size; ok (bytes_value b)

  unfoldable pub load_as :
      ArgumentType → Bool → Option ClassName → WlArgument → Result (Value C.Float)
  unfolding load_string load_object load_array
  load_as int nullable interface cell = ok (int_value (C.read_i cell))
  load_as uint nullable interface cell = ok (int_value (C.read_u cell))
  load_as fixed nullable interface cell = ok (float_value (C.wl_fixed_to_double (C.read_f cell)))
  load_as file_descriptor nullable interface cell = ok (int_value (C.read_h cell))
  load_as string nullable interface cell = load_string nullable cell
  load_as object nullable interface cell = load_object nullable interface (C.read_o cell)
  load_as new_id nullable interface cell = err not_implemented_error
  load_as array nullable interface cell = load_array (C.read_a cell)

  -- `args_ptr` is C memory: any index can be read.
  unfoldable pub load_arguments :
      List Argument → ℕ → (ℕ → WlArgument) → Result (List (Value C.Float))
  load_arguments [] index args_ptr = ok []
  load_arguments (argument ∷ arguments) index args_ptr = do
    arg ← load_as argument.argument_type argument.nullable argument.interface (args_ptr index)
    rest ← load_arguments arguments (suc index) args_ptr
    ok (arg ∷ rest)

  unfoldable pub c_to_arguments : Message → (ℕ → WlArgument) → Result (List (Value C.Float))
  c_to_arguments m args_ptr = load_arguments m.arguments 0 args_ptr

-- ===== src/Tests/Messages.antt =====
-- Messages: a cffi whose floats are integers, and a few messages of the core protocol.
use pywayland_i6ie.Base.{
  ℤ, pos, negsuc, ◌≡◌, refl, ◌≢◌, ◌≤◌, Bool, true, false, Option, none, some, List, [], ◌∷◌, ◌++◌,
  ok, err, any, arith, length, All, runtime_error, attribute_error, stop_iteration, ℕ-Eq, inr,
}
use pywayland_i6ie.Base.Text.{codes, read_digits, str, strip_underscores}
use pywayland_i6ie.Scanner.ArgumentType.{
  ArgumentType, int, uint, fixed, string, object, new_id, array, is_array,
}
use pywayland_i6ie.ProtocolCore.Argument.{Argument, ClassName, signature}
use pywayland_i6ie.ProtocolCore.Argument.Signature.{read_types}
use pywayland_i6ie.ProtocolCore.Message.{
  Ptr, Message, WlMessage, message, marshaled_arguments, message_signature, build_message_struct,
}
use pywayland_i6ie.ProtocolCore.Message.Signature.{
  argument_types, read_types-message_signature, build_message_struct_slots,
}
use pywayland_i6ie.ProtocolCore.Message.Wire.{
  Value, none_value, int_value, float_value, text_value, bytes_value, object_value, WlArgument, Ref,
  memory,
}
use pywayland_i6ie.ProtocolCore.Message.ToC.{CArguments, store_as, fill_arguments, arguments_to_c}
use pywayland_i6ie.ProtocolCore.Message.ToPython.{c_to_arguments, load_arguments, load_as}
use pywayland_i6ie.ProtocolCore.Message.RoundTrip.{Fits, c_to_arguments-arguments_to_c}
use pywayland_i6ie.ProtocolCore.Message.Slots.{
  value_slots, IsKept, arguments_to_c_slots, arguments_to_c-IsKept,
}
use pywayland_i6ie.ProtocolCore.Message.Faults.{arguments_to_c_array, c_to_arguments_new_id}
use pywayland_i6ie.Tests.SampleCffi.{sample_cffi, sample_cffi-IsLawful, sample_objects}

abbrev pub argument_of : ArgumentType → Bool → Option ClassName → Argument
argument_of t n i = record { argument_type = t; nullable = n; interface = i }

-- `wl_registry.bind`, with a version in front.
abbrev bind : Message
bind = record {
  name = "bind";
  arguments = argument_of uint false none ∷ argument_of new_id false none ∷ [];
  version = some 12;
}

abbrev pub attach : Message
attach = record {
  name = "attach";
  arguments =
      argument_of object true (some "WlSurface")
      ∷ argument_of int false none
      ∷ argument_of string true none
      ∷ argument_of fixed false none
      ∷ [];
  version = none;
}

abbrev pub attach_values : List (Value ℤ)
attach_values = object_value 7 ∷ int_value (negsuc 4) ∷ text_value "left" ∷ float_value (pos 3) ∷ []

abbrev pointers : ClassName → Option Ptr
pointers _ = some 64

bind_signature : message_signature bind ≡ "12usun"
unfolding message_signature signature str
bind_signature = refl

abbrev bind_struct : WlMessage
bind_struct = record { name = "bind"; signature = "12usun"; types = 0 ∷ 0 ∷ 0 ∷ 0 ∷ [] }

bind_built : build_message_struct pointers bind ≡ ok bind_struct
unfolding build_message_struct message_signature marshaled_arguments signature str
bind_built = refl

stripped_name : (message "global_" [] none).name ≡ "global"
unfolding message strip_underscores
stripped_name = refl

read_types-message_signature_example :
    read_types (codes (message_signature bind)) ≡ uint ∷ string ∷ uint ∷ new_id ∷ []
unfolding marshaled_arguments
read_types-message_signature_example = read_types-message_signature bind

build_message_struct_slots_example :
    (read_types (codes "12usun") ≡ argument_types (marshaled_arguments bind.arguments))
    × (read_digits 0 (codes "12usun") ≡ 12)
    × (length bind_struct.types ≡ length (read_types (codes "12usun")))
build_message_struct_slots_example = build_message_struct_slots pointers bind bind_struct bind_built

pub attach_values-Fits : Fits sample_cffi sample_objects attach.arguments attach_values
attach_values-Fits = (
  inr (7, 100, "WlSurface", refl, refl, refl, omega arith, refl),
  ((negsuc 4, refl, refl), (("left", refl, refl), ((pos 3, pos 3, refl, refl, refl), tt))),
)

c_to_arguments-arguments_to_c_example :
    (r : CArguments) × (arguments_to_c sample_cffi sample_objects attach attach_values ≡ ok r)
    × (c_to_arguments sample_cffi sample_objects attach (memory r.cells) ≡ ok attach_values)
c_to_arguments-arguments_to_c_example =
    c_to_arguments-arguments_to_c sample_cffi sample_objects sample_cffi-IsLawful attach
      attach_values attach_values-Fits

-- The slots of `attach`, as `arguments_to_c` fills them.
abbrev pub attach_slots : CArguments
attach_slots = record {
  cells =
      WlArgument.o 100
      ∷ WlArgument.i (negsuc 4)
      ∷ WlArgument.s (some "left")
      ∷ WlArgument.f (pos 3)
      ∷ [];
  refs = Ref.object_pointer 100 ∷ Ref.chars "left" ∷ [];
}

attach_filled : arguments_to_c sample_cffi sample_objects attach attach_values ≡ ok attach_slots
unfolding arguments_to_c fill_arguments store_as marshaled_arguments
attach_filled = refl

arguments_to_c_slots_example :
    (length attach_slots.cells ≡ length (marshaled_arguments attach.arguments))
    × (value_slots (marshaled_arguments attach.arguments) ≤ length attach_values)
    × (arguments_to_c sample_cffi sample_objects attach (attach_values ++ none_value ∷ [])
        ≡ ok attach_slots)
arguments_to_c_slots_example =
    arguments_to_c_slots sample_cffi sample_objects attach attach_values (none_value ∷ [])
      attach_slots attach_filled

arguments_to_c-IsKept_example : All (IsKept attach_slots.refs) attach_slots.cells
arguments_to_c-IsKept_example =
    arguments_to_c-IsKept sample_cffi sample_objects attach attach_values attach_slots attach_filled

too_few_values :
    arguments_to_c sample_cffi sample_objects attach (object_value 7 ∷ []) ≡ err stop_iteration
unfolding arguments_to_c fill_arguments store_as marshaled_arguments
too_few_values = refl

abbrev of_one : Argument → Message
of_one argument = record { name = "m"; arguments = argument ∷ []; version = none }

-- A NULL text is not read as `None`, also where the argument is nullable.
null_text :
    c_to_arguments sample_cffi sample_objects
      (of_one (argument_of string true none))
      (memory (WlArgument.s none ∷ []))
    ≡ err runtime_error
unfolding c_to_arguments load_arguments load_as
null_text = refl

-- The text behind a NUL is not read.
cut_text :
    c_to_arguments sample_cffi sample_objects
      (of_one (argument_of string false none))
      (memory (WlArgument.s (some "left\0right") ∷ []))
    ≡ ok (text_value "left" ∷ [])
unfolding c_to_arguments load_arguments load_as
cut_text = refl

-- An object is not found for an argument that names no interface.
no_interface :
    c_to_arguments sample_cffi sample_objects
      (of_one (argument_of object false none))
      (memory (WlArgument.o 100 ∷ []))
    ≡ err attribute_error
unfolding c_to_arguments load_arguments load_as
no_interface = refl

abbrev keys : Message
keys = of_one (argument_of array false none)

keys_array :
    any (λ (x : Argument). is_array x.argument_type) (marshaled_arguments keys.arguments) ≡ true
unfolding marshaled_arguments
keys_array = refl

arguments_to_c_array_example :
    arguments_to_c sample_cffi sample_objects keys (bytes_value (1 ∷ 2 ∷ []) ∷ []) ≢ ok attach_slots
arguments_to_c_array_example =
    arguments_to_c_array sample_cffi sample_objects keys (bytes_value (1 ∷ 2 ∷ []) ∷ [])
      attach_slots keys_array

c_to_arguments_new_id_example : c_to_arguments sample_cffi sample_objects bind (memory []) ≢ ok []
c_to_arguments_new_id_example =
    c_to_arguments_new_id sample_cffi sample_objects bind (memory []) [] refl

-- ===== src/Tests/SampleCffi.antt =====
-- A cffi that converts the numbers in range, and the pointers of a few objects.
use pywayland_i6ie.Base.{
  ℕ, ℤ, pos, negsuc, String, refl, false, Option, none, some, List, Result, ok, err, type_error,
  overflow_error, runtime_error, if◌then◌else◌, ltb, ◌==◌, ℕ-Eq,
}
use pywayland_i6ie.Scanner.ArgumentType.{}
use pywayland_i6ie.ProtocolCore.Message.{Ptr}
use pywayland_i6ie.ProtocolCore.Message.Signature.{}
use pywayland_i6ie.ProtocolCore.Message.Wire.{
  Value, int_value, float_value, WlArgument, WlArray, Cffi, Objects, IsLawful, until_nul,
}
use pywayland_i6ie.ProtocolCore.Message.Slots.{}
use pywayland_i6ie.ProtocolCore.Message.Faults.{}

abbrev in_int32 : ℤ → Result ℤ
in_int32 (pos n) = if ltb n 2147483648 then ok (pos n) else err overflow_error
in_int32 (negsuc n) = if ltb n 2147483648 then ok (negsuc n) else err overflow_error

abbrev in_uint32 : ℤ → Result ℤ
in_uint32 (pos n) = if ltb n 4294967296 then ok (pos n) else err overflow_error
in_uint32 (negsuc n) = err overflow_error

abbrev as_int : (ℤ → Result ℤ) → Value ℤ → Result ℤ
as_int f (int_value z) = f z
as_int f _ = err type_error

abbrev as_float : Value ℤ → Result ℤ
as_float (int_value z) = ok z
as_float (float_value d) = ok d
as_float _ = err type_error

abbrev number : WlArgument → ℤ
number (WlArgument.i z) = z
number (WlArgument.u z) = z
number (WlArgument.f z) = z
number (WlArgument.h z) = z
number _ = pos 0

abbrev text : WlArgument → Option String
text (WlArgument.s t) = t
text _ = none

abbrev pointer : WlArgument → Ptr
pointer (WlArgument.o p) = p
pointer _ = 0

abbrev empty_array : WlArray
empty_array = record { size = 0; alloc = 0; content = none }

abbrev array_of : WlArgument → WlArray
array_of (WlArgument.a w) = w
array_of _ = empty_array

abbrev string_at : Option String → Result String
string_at none = err runtime_error
string_at (some t) = ok (until_nul t)

abbrev buffer_at : Option (List ℕ) → ℕ → Result (List ℕ)
buffer_at none n = err runtime_error
buffer_at (some b) n = ok b

abbrev pub sample_cffi : Cffi
sample_cffi = record {
  Float = ℤ;
  to_int32 = as_int in_int32;
  to_uint32 = as_int in_uint32;
  wl_fixed_from_int = as_float;
  wl_fixed_from_double = as_float;
  wl_fixed_to_double = λ z. z;
  read_i = number;
  read_u = number;
  read_f = number;
  read_h = number;
  read_s = text;
  read_o = pointer;
  read_a = array_of;
  is_null = λ _. false;
  ffi_string = string_at;
  new_void_array = λ _. type_error;
  read_buffer = buffer_at;
}

pub sample_cffi-IsLawful : IsLawful sample_cffi
sample_cffi-IsLawful = record {
  read_i-i = λ z. refl;
  read_u-u = λ z. refl;
  read_f-f = λ z. refl;
  read_h-h = λ z. refl;
  read_s-s = λ t. refl;
  read_o-o = λ p. refl;
  read_a-a = λ w. refl;
  ffi_string-some = λ t. refl;
  is_null_false = λ c. refl;
}

-- Object 7 is alive at the pointer 100, on the interface `WlSurface`.
abbrev pub sample_objects : Objects
sample_objects = record {
  pointer = λ x. if x == 7 then some 100 else none;
  registry = λ _ p. if p == 100 then some 7 else none;
}

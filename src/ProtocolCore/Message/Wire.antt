-- ===== src/ProtocolCore/Message/Wire.antt =====
-- The Python values and the C unions that messages are converted between, and what the conversion
-- takes from cffi and from libwayland's inline functions.
use Prim.Native.Char.{code}
use pywayland_i6ie.Base.{
  ℕ, zero, suc, ℤ, String, ◌≡◌, Bool, false, Error, if◌then◌else◌, ◌==◌, ℕ-Eq, Option, some, List,
  [], ◌∷◌, Result, ok,
}
use pywayland_i6ie.ProtocolCore.Argument.{ClassName}
use pywayland_i6ie.ProtocolCore.Message.{Ptr, null}

-- A Proxy or Resource object, by its identity.
abbrev pub ObjectId : Type 0
ObjectId = ℕ

-- The Python values that are passed as arguments, over the type of floats.
pub data Value (Float : Type 0) : Type 0 where
  none_value : Value Float
  int_value : ℤ → Value Float
  float_value : Float → Value Float
  text_value : String → Value Float
  bytes_value : List ℕ → Value Float
  object_value : ObjectId → Value Float

-- `struct wl_array`. A `data` of `none` is NULL; else it is the buffer that it points to.
pub record WlArray : Type 0 where
  pub size : ℕ
  pub alloc : ℕ
  pub content : Option (List ℕ)

-- `union wl_argument`, by the member that was stored last. A `char *` is the text that it points
-- to (`none` for NULL), and an array pointer is the struct that it points to.
pub data WlArgument : Type 0 where
  i u f h : ℤ → WlArgument
  s : Option String → WlArgument
  o : Ptr → WlArgument
  a : WlArray → WlArgument

-- A union as `ffi.new` leaves it, all zeros.
abbrev pub zeroed : WlArgument
zeroed = o null

-- What cffi has allocated and what has to be kept alive.
pub data Ref : Type 0 where
  chars : String → Ref
  object_pointer : Ptr → Ref
  array_struct : WlArray → Ref

-- What stands in a text before its first NUL character.
abbrev pub until_nul : String → String
until_nul String.[] = ""
until_nul (String.◌∷◌ c text) =
    let rest = until_nul text in if code c == 0 then "" else String.◌∷◌ c rest

-- The conversions of cffi that may raise, the reads of a union's member, and the arithmetic of
-- fixed-point numbers.
pub record Cffi : Type 1 where
  pub Float : Type 0
  -- assignments to members of type int32_t, uint32_t
  pub to_int32 : Value Float → Result ℤ
  pub to_uint32 : Value Float → Result ℤ
  -- `wl_fixed_from_int(arg)`, `wl_fixed_from_double(arg)`, with cffi's conversion of the argument
  pub wl_fixed_from_int : Value Float → Result ℤ
  pub wl_fixed_from_double : Value Float → Result ℤ
  pub wl_fixed_to_double : ℤ → Float
  pub read_i : WlArgument → ℤ
  pub read_u : WlArgument → ℤ
  pub read_f : WlArgument → ℤ
  pub read_h : WlArgument → ℤ
  pub read_s : WlArgument → Option String
  pub read_o : WlArgument → Ptr
  pub read_a : WlArgument → WlArray
  -- whether the union itself, compared with NULL, is equal to it
  pub is_null : WlArgument → Bool
  -- `ffi.string(ptr)`, for the text in the array that the pointer leads to
  pub ffi_string : Option String → Result String
  -- what `ffi.new("void []", n)` raises: `void` has no size
  pub new_void_array : ℕ → Error
  -- `ffi.buffer(data, size)[:]`
  pub read_buffer : Option (List ℕ) → ℕ → Result (List ℕ)

-- A member that was stored reads back, a text that a pointer leads to is read up to its first NUL,
-- and a union that lies in an array is no null pointer.
pub record IsLawful (C : Cffi) : Type 0 where
  pub read_i-i : (z : ℤ) → C.read_i (i z) ≡ z
  pub read_u-u : (z : ℤ) → C.read_u (u z) ≡ z
  pub read_f-f : (z : ℤ) → C.read_f (f z) ≡ z
  pub read_h-h : (z : ℤ) → C.read_h (h z) ≡ z
  pub read_s-s : (t : Option String) → C.read_s (s t) ≡ t
  pub read_o-o : (p : Ptr) → C.read_o (o p) ≡ p
  pub read_a-a : (w : WlArray) → C.read_a (a w) ≡ w
  pub ffi_string-some : (t : String) → C.ffi_string (some t) ≡ ok (until_nul t)
  pub is_null_false : (c : WlArgument) → C.is_null c ≡ false

-- What the conversions ask of the program's objects: the pointer of an object, and the registry of
-- an interface class, from pointers to the objects that are alive.
pub record Objects : Type 0 where
  pub pointer : ObjectId → Option Ptr
  pub registry : ClassName → Ptr → Option ObjectId

-- C memory that holds the cells from index 0 on; what lies behind them is a zero.
abbrev pub memory : List WlArgument → ℕ → WlArgument
memory [] n = zeroed
memory (cell ∷ cells) zero = cell
memory (cell ∷ cells) (suc n) = memory cells n

-- ===== src/ProtocolCore/Interface/Memory.antt =====
-- pywayland/protocol_core/interface.py and message.py: the objects of C that `_gen_c` makes, and
-- those that it keeps. `cdata` of the classes' own, to which `types` points, is kept by the
-- classes.
pub mod Filled
pub mod Frames
pub mod Kept
use pywayland_i6ie.Base.{
  ℕ, zero, suc, ℤ, Bool, String, Option, none, some, List, [], ◌∷◌, ◌++◌, Result, ok, ◌>>=◌, length,
  get_elem?, set, replicate, if◌then◌else◌, ◌==◌, ℕ-Eq,
}
use pywayland_i6ie.ProtocolCore.Argument.{ClassName}
use pywayland_i6ie.ProtocolCore.Message.{
  Ptr, null, Message, marshaled_arguments, message_signature, slot_pointers,
}
use pywayland_i6ie.ProtocolCore.Message.Wire.{int_value, Cffi}
use pywayland_i6ie.ProtocolCore.Interface.{InterfaceClass}

-- A `wl_message` by its pointers, and what `ffi.new` makes here.
pub record MessageStruct : Type 0 where
  pub name : Ptr
  pub signature : Ptr
  pub types : Ptr

pub data Cdata : Type 0 where
  char_array : String → Cdata
  pointer_array : List Ptr → Cdata
  struct_array : List MessageStruct → Cdata

-- The objects that are there, by their addresses; of two for an address, the first counts.
abbrev pub Memory : Type 0
Memory = List (Ptr × Cdata)

unfoldable pub read : Ptr → Memory → Option Cdata
read p [] = none
read p ((q, c) ∷ memory) = let rest = read p memory in if q == p then some c else rest

-- An array of structs is zeroed at first.
abbrev pub zeroed : MessageStruct
zeroed = record { name = null; signature = null; types = null }

-- The struct at place `i` of an array is assigned.
unfoldable pub write_struct : Ptr → ℕ → MessageStruct → Memory → Memory
write_struct p i struct memory = elim (read p memory) [
  | some (struct_array found) ↦ (p, struct_array (set found i struct)) ∷ memory
  | _ ↦ memory
]

-- The tuple that `build_message_struct` returns.
abbrev pub kept_by : MessageStruct → List Ptr
kept_by struct = struct.name ∷ struct.signature ∷ struct.types ∷ []

-- The struct at a class's `_ptr`.
pub record InterfaceStruct : Type 0 where
  pub name : Ptr
  pub version : ℤ
  pub method_count : ℕ
  pub methods : Ptr
  pub event_count : ℕ
  pub events : Ptr

-- `fresh` is the address at which cffi allocates.
module _ (C : Cffi) (interface_ptr : ClassName → Option Ptr) (fresh : Memory → Ptr) where
  unfoldable pub new : Cdata → Memory → Ptr × Memory
  new object memory = (fresh memory, (fresh memory, object) ∷ memory)

  unfoldable pub new_struct : String → String → List Ptr → Memory → MessageStruct × Memory
  unfolding new
  new_struct text signature_text type_pointers memory =
      let (name, named) = new (char_array text) memory in
      let (signature, signed) = new (char_array signature_text) named in
      let (types, typed) = new (pointer_array type_pointers) signed in
      (record { name = name; signature = signature; types = types }, typed)

  -- `build_message_struct`, by the struct that it fills in.
  unfoldable pub build_struct : Message → Memory → Result (MessageStruct × Memory)
  unfolding new_struct
  build_struct m memory = do
    type_pointers ← slot_pointers interface_ptr (marshaled_arguments m.arguments)
    ok (new_struct m.name (message_signature m) type_pointers memory)

  -- The loop over the messages, from place `i`, by what it adds to `keep_alive`.
  unfoldable pub fill_structs : Ptr → ℕ → List Message → Memory → Result (List Ptr × Memory)
  unfolding build_struct write_struct
  fill_structs p i [] memory = ok ([], memory)
  fill_structs p i (m ∷ messages) memory = do
    built ← build_struct m memory
    rest ← fill_structs p (suc i) messages (write_struct p i built.0 built.1)
    ok (kept_by built.0 ++ rest.0, rest.1)

  unfoldable pub new_structs : List Message → Memory → Result (Ptr × (List Ptr × Memory))
  unfolding new fill_structs
  new_structs messages memory = do
    let (p, made) = new (struct_array (replicate (length messages) zeroed)) memory
    filled ← fill_structs p 0 messages made
    ok (p, filled)

  -- `_gen_c`, by the struct, what the weak dict holds for it, and the memory that it leaves.
  unfoldable pub gen_c_objects :
      InterfaceClass → Memory → Result (InterfaceStruct × (List Ptr × Memory))
  unfolding new new_structs
  gen_c_objects cls memory = do
    let (name, named) = new (char_array cls.name) memory
    version ← C.to_int32 (int_value cls.version)
    (methods, (keep_alive, made)) ← new_structs cls.requests named
    (events, (kept_too, all_made)) ← new_structs cls.events made
    ok (
      record {
        name = name;
        version = version;
        method_count = length cls.requests;
        methods = methods;
        event_count = length cls.events;
        events = events;
      },
      (name ∷ methods ∷ events ∷ (keep_alive ++ kept_too), all_made),
    )

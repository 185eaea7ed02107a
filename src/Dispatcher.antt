-- ===== src/Dispatcher.antt =====
-- pywayland/dispatcher.py: the callbacks of a proxy or a resource, and their calls.
pub mod Keys
pub mod Dispatch
use pywayland_i6ie.Base.{
  ℕ, suc, ℤ, pos, position, String, Option, none, some, List, [], ◌∷◌, length, get_elem?, set,
  replicate, Bool, Result, ok, err, key_error, index_error, ◌>>=◌,
}
use pywayland_i6ie.Base.Dict.{Dict, lookup, insert}
use pywayland_i6ie.ProtocolCore.Message.{Message}
use pywayland_i6ie.ProtocolCore.Message.Wire.{ObjectId, Value, WlArgument, Cffi, Objects}
use pywayland_i6ie.ProtocolCore.Message.ToPython.{c_to_arguments}

-- `opcode_or_name : str | int`
pub data Key : Type 0 where
  by_name : String → Key
  by_opcode : ℤ → Key

-- The names of the messages from opcode `n` on; a later message of a name takes it over.
unfoldable pub add_names : Dict ℕ → ℕ → List Message → Dict ℕ
add_names names n [] = names
add_names names n (m ∷ messages) = add_names (insert m.name n names) (suc n) messages

module _ (Callback : Type 0) where
  -- `destructor` is an attribute of a resource's dispatcher alone.
  pub record Dispatcher : Type 0 where
    pub messages : List Message
    pub names : Dict ℕ
    pub callbacks : List (Option Callback)
    pub has_destructor : Bool
    pub destructor : Option Callback

  -- `Dispatcher(messages, destructor)`
  unfoldable pub dispatcher : List Message → Bool → Dispatcher
  unfolding add_names
  dispatcher messages has_destructor = record {
    messages = messages;
    names = add_names [] 0 messages;
    callbacks = replicate (length messages) none;
    has_destructor = has_destructor;
    destructor = none;
  }

  named : Option ℕ → Result ℤ
  named none = err key_error
  named (some opcode) = ok (pos opcode)

  unfoldable pub resolve : Dispatcher → Key → Result ℤ
  unfolding named
  resolve d (by_name name) = named (lookup name d.names)
  resolve d (by_opcode opcode) = ok opcode

  -- `list[index]`, and the place that `list[index] = x` writes to.
  at_index : ℕ → ℤ → Result ℕ
  at_index n index = elim (position n index) [ none ↦ err index_error | some i ↦ ok i ]

  unfoldable pub callback_index : Dispatcher → Key → Result ℕ
  unfolding resolve at_index
  callback_index d key = do opcode ← resolve d key; at_index (length d.callbacks) opcode

  item {ℓ} : {A : Type ℓ} → Option A → Result A
  item none = err index_error
  item (some x) = ok x

  -- `__getitem__`
  unfoldable pub get_item : Dispatcher → Key → Result (Option Callback)
  unfolding callback_index item
  get_item d key = do i ← callback_index d key; item (get_elem? d.callbacks i)

  -- `__setitem__`
  unfoldable pub set_item : Dispatcher → Key → Callback → Result Dispatcher
  unfolding callback_index
  set_item d key function = do
    i ← callback_index d key
    ok (record d { callbacks = set d.callbacks i (some function) })

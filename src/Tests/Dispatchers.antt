-- ===== src/Tests/Dispatchers.antt =====
-- Dispatchers: two messages of one name, and callbacks that add up what they are called with.
use pywayland_i6ie.Base.{
  ℕ, ℤ, pos, negsuc, ◌+◌, ◌≡◌, refl, ◌≤◌, false, Option, none, some, List, [], ◌∷◌, Result, ok, err,
  if◌then◌else◌, ◌==◌, ℕ-Eq, length, get_elem?, key_error, index_error, runtime_error,
}
use pywayland_i6ie.Base.Dict.{lookup, insert}
use pywayland_i6ie.ProtocolCore.Message.{Ptr, Message}
use pywayland_i6ie.ProtocolCore.Message.Wire.{Value, memory, ObjectId}
use pywayland_i6ie.ProtocolCore.Message.ToPython.{c_to_arguments, load_arguments, load_as}
use pywayland_i6ie.Dispatcher.{
  Dispatcher, dispatcher, by_name, by_opcode, callback_index, resolve, get_item, set_item,
}
use pywayland_i6ie.Dispatcher.Keys.{resolve-dispatcher, get_item-set_item}
use pywayland_i6ie.Dispatcher.Dispatch.{
  Callbacks, dispatcher_func, dispatcher_func-set_item, returned,
}
use pywayland_i6ie.Tests.Messages.{attach, attach_slots}
use pywayland_i6ie.Tests.SampleCffi.{sample_cffi, sample_objects}

-- A callback is a number; it adds it, and the number of arguments, to the world.
abbrev call : ℕ → ObjectId → List (Value ℤ) → ℕ → Result (Option ℤ) × ℕ
call f target args w = (ok none, w + f + length args)

abbrev counters : Callbacks ℤ
counters = record { Callback = ℕ; World = ℕ; call = call }

abbrev done : Message
done = record { name = "done"; arguments = []; version = none }

abbrev messages : List Message
messages = done ∷ attach ∷ done ∷ []

abbrev fresh : Dispatcher ℕ
fresh = record {
  messages = messages;
  names = ("done", 2) ∷ ("attach", 1) ∷ [];
  callbacks = none ∷ none ∷ none ∷ [];
  has_destructor = false;
  destructor = none;
}

fresh-dispatcher : dispatcher ℕ messages false ≡ fresh
unfolding dispatcher insert
fresh-dispatcher = refl

abbrev handled : Dispatcher ℕ
handled = record fresh { callbacks = none ∷ some 5 ∷ none ∷ [] }

handled_set : set_item ℕ fresh (by_name "attach") 5 ≡ ok handled
unfolding set_item lookup
handled_set = refl

-- A negative opcode counts from the end, as in any Python list.
negative_opcode : set_item ℕ fresh (by_opcode (negsuc 1)) 5 ≡ ok handled
unfolding set_item
negative_opcode = refl

unknown_keys :
    (get_item ℕ fresh (by_name "enter") ≡ err key_error)
    × (get_item ℕ fresh (by_opcode (pos 3)) ≡ err index_error)
unfolding get_item lookup
unknown_keys = (refl, refl)

resolve-dispatcher_example :
    (j : ℕ) × (m' : Message) × (resolve ℕ (dispatcher ℕ messages false) (by_name "done")
      ≡ ok (pos j))
    × (0 ≤ j)
    × (get_elem? messages j ≡ some m')
    × (m'.name ≡ "done")
resolve-dispatcher_example = resolve-dispatcher ℕ messages false 0 done refl

-- The message of the name has opcode 1, which names the same place, and opcode 2 another one.
attach_place : callback_index ℕ fresh (by_name "attach") ≡ ok 1
unfolding callback_index lookup
attach_place = refl

get_item-set_item_example :
    get_item ℕ handled (by_opcode (pos 1)) ≡ (elim (callback_index ℕ fresh (by_opcode (pos 1))) [
      | ok j ↦ if 1 == j then ok (some 5) else get_item ℕ fresh (by_opcode (pos 1))
      | err e ↦ err e
    ])
get_item-set_item_example =
    get_item-set_item ℕ fresh handled (by_name "attach") (by_opcode (pos 1)) 5 1 handled_set
      attach_place

-- The handle 600 leads to object 7, and nothing else leads anywhere.
abbrev handles : Ptr → Result (ObjectId × Dispatcher ℕ)
handles handed = if handed == 600 then ok (7, handled) else err runtime_error

attach_resolves : resolve ℕ fresh (by_name "attach") ≡ ok (pos 1)
unfolding resolve lookup
attach_resolves = refl

dispatcher_func-set_item_example :
    dispatcher_func sample_cffi sample_objects counters handles 600 1 (memory attach_slots.cells) 3
    ≡ (ok (pos 0), 12)
unfolding returned c_to_arguments load_arguments load_as
dispatcher_func-set_item_example =
    dispatcher_func-set_item sample_cffi sample_objects counters fresh handled (by_name "attach") 5
      7 1 attach (memory attach_slots.cells) 3 handles 600 refl handled_set attach_resolves refl

-- ===== src/Tests/Interfaces.antt =====
-- An interface with a request and an event, in a memory that is empty at first.
use pywayland_i6ie.Base.{suc, ◌+◌, ◌<◌, ◌≡◌, refl, pos, none, List, [], ◌∷◌, ok, arith}
use pywayland_i6ie.Base.Text.{strip_underscores}
use pywayland_i6ie.ProtocolCore.Message.{
  Ptr, build_message_struct, message_signature, marshaled_arguments,
}
use pywayland_i6ie.ProtocolCore.Interface.{
  InterfaceClass, WlInterface, interface_class, request, event, gen_c,
}
use pywayland_i6ie.ProtocolCore.Interface.Memory.{Memory, read, InterfaceStruct, gen_c_objects}
use pywayland_i6ie.ProtocolCore.Interface.Memory.Frames.{IsFresh, collect, ReadsInterface}
use pywayland_i6ie.ProtocolCore.Interface.Memory.Kept.{ReadsInterface-gen_c_objects}
use pywayland_i6ie.Tests.SampleCffi.{sample_cffi}

-- Behind every address that is there.
abbrev behind : Memory → Ptr
behind [] = 1
behind ((p, c) ∷ memory) = p + behind memory

unread : (p : Ptr) (memory : Memory) → behind memory < suc p → read p memory ≡ none
unfolding read
unread p [] far = refl
unread p ((q, c) ∷ memory) far = ground (arith, unread p memory (omega (arith, far)), one memory)
  where
    one : (memory : Memory) → 0 < behind memory
    one [] = omega arith
    one ((q, c) ∷ memory) = omega (arith, one memory)

behind-IsFresh : IsFresh behind
behind-IsFresh memory = unread (behind memory) memory (omega arith)

abbrev callback : InterfaceClass
callback = event "done" [] none (request "sync" [] none (interface_class "wl_display" (pos 1)))

abbrev described : WlInterface
described = record {
  name = "wl_display";
  version = pos 1;
  method_count = 1;
  methods = record { name = "sync"; signature = ""; types = [] } ∷ [];
  event_count = 1;
  events = record { name = "done"; signature = ""; types = [] } ∷ [];
}

callback_described : gen_c sample_cffi (λ _. none) callback ≡ ok described
unfolding gen_c interface_class request event build_message_struct message_signature
    marshaled_arguments strip_underscores
callback_described = refl

ReadsInterface-gen_c_objects_example :
    (s : InterfaceStruct) × (kept : List Ptr) × (later : Memory) × (gen_c_objects sample_cffi
        (λ _. none)
        behind
        callback
        []
      ≡ ok (s, (kept, later)))
    × ReadsInterface (collect kept later) s described
ReadsInterface-gen_c_objects_example =
    ReadsInterface-gen_c_objects sample_cffi (λ _. none) behind behind-IsFresh callback described []
      callback_described

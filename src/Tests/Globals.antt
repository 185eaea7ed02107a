-- ===== src/Tests/Globals.antt =====
-- A global that a client binds with a newer version than the server's.
use pywayland_i6ie.Base.{
  ℕ, suc, ℤ, pos, negsuc, ◌≡◌, refl, none, some, [], ◌∷◌, Result, ok, err, overflow_error, arith,
  int_min, ◌≤ℤ◌, ◌⊎◌, Error, true,
}
use pywayland_i6ie.Base.Text.{strip_underscores}
use pywayland_i6ie.ProtocolCore.Message.{Ptr, marshaled_arguments, message_signature}
use pywayland_i6ie.ProtocolCore.Interface.{
  InterfaceClass, interface_class, request, WlInterface, gen_c,
}
use pywayland_i6ie.ProtocolCore.Resource.{ResourceLibrary, Resource, client_cdata, new_resource}
use pywayland_i6ie.ProtocolCore.Resource.Made.{get_item-new_resource}
use pywayland_i6ie.ProtocolCore.Global.{GlobalLibrary, BindInfo, call_bind, global_bind_func}
use pywayland_i6ie.ProtocolCore.Global.Bound.{version-global_bind_func}
use pywayland_i6ie.Dispatcher.{dispatcher, by_opcode, get_item}
use pywayland_i6ie.Tests.SampleCffi.{sample_cffi}

-- Two requests without arguments.
abbrev cls : InterfaceClass
unfolding interface_class request
cls = request "release" [] none (request "bind" [] none (interface_class "wl_seat" (pos 5)))

-- The world is the number of calls; a negative version does not fit.
abbrev create : ℤ → ℕ → Result Ptr × ℕ
create (pos version) w = (ok 90, suc w)
create (negsuc version) w = (err overflow_error, w)

abbrev resources : ResourceLibrary
resources = record {
  World = ℕ;
  resource_create = λ client interface version id w. create version w;
  resource_get_id = λ ptr w. (pos 3, suc w);
  new_handle = λ w. (700, w);
  resource_set_dispatcher = λ ptr implementation handle w. suc w;
  resource_destroy = λ ptr w. suc w;
}

abbrev globals : GlobalLibrary
globals = record {
  resources = resources;
  global_create = λ display interface version w. (ok 91, suc w);
}

abbrev bind : ℕ → Resource ℕ → ℕ → Result (Unit {0}) × ℕ
bind func r w = (ok tt, w)

abbrev info : BindInfo ℕ
info = record { interface = cls; bind_func = some 1 }

version-global_bind_func_example :
    ((r : Resource ℕ) × (w' : ℕ) × (global_bind_func globals ℕ ℕ bind info 40 (pos 7) (pos 3) 0
        ≡ call_bind globals ℕ ℕ bind (some 1) r w')
      × (r.version ≤ℤ pos 5)
      × (r.version ≤ℤ pos 7)
      × ((r.version ≡ pos 5) ⊎ (r.version ≡ pos 7)))
    ⊎ ((e : Error) × (w' : ℕ) × (create (int_min (pos 5) (pos 7)) 0 ≡ (err e, w'))
        × (global_bind_func globals ℕ ℕ bind info 40 (pos 7) (pos 3) 0 ≡ (err e, w')))
unfolding cls
version-global_bind_func_example =
    version-global_bind_func globals ℕ ℕ bind info 40 (pos 7) (pos 3) 0

abbrev struct : WlInterface
struct = record {
  name = "wl_seat";
  version = pos 5;
  method_count = 2;
  methods =
      record { name = "bind"; signature = ""; types = [] }
      ∷ record { name = "release"; signature = ""; types = [] }
      ∷ [];
  event_count = 0;
  events = [];
}

struct_made : gen_c sample_cffi (λ name. none) cls ≡ ok struct
unfolding cls gen_c marshaled_arguments strip_underscores message_signature
struct_made = refl

abbrev seat : Resource ℕ
unfolding cls dispatcher
seat = record {
  ptr = some 90;
  id = pos 3;
  version = pos 5;
  dispatcher = dispatcher ℕ cls.requests true;
}

seat_made : new_resource resources ℕ cls (client_cdata 40) none (pos 3) 0 ≡ (ok seat, 3)
unfolding new_resource seat cls
seat_made = refl

get_item-new_resource_example : get_item ℕ seat.dispatcher (by_opcode (pos 1)) ≡ ok none
get_item-new_resource_example =
    get_item-new_resource resources ℕ sample_cffi (λ name. none) cls struct (client_cdata 40) none
      (pos 3) 0 3 seat 1 struct_made seat_made (omega arith)

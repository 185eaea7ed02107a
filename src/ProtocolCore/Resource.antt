-- ===== src/ProtocolCore/Resource.antt =====
-- pywayland/protocol_core/resource.py: a resource of a client, as it is made and destroyed.
pub mod Made
use pywayland_i6ie.Base.{
  ℤ, true, Option, none, some, Result, ok, err, assertion_error, if◌then◌else◌, ◌==◌, ℕ-Eq,
}
use pywayland_i6ie.ProtocolCore.Message.{Ptr, null}
use pywayland_i6ie.ProtocolCore.Interface.{InterfaceClass}
use pywayland_i6ie.Dispatcher.{Dispatcher, dispatcher}
use pywayland_i6ie.Server.Display.{ClientCdata}
use pywayland_i6ie.Server.Methods.{address}

-- The calls of libwayland that a resource makes, on a world of their own. cffi raises if a number
-- does not fit. `new_handle` is `ffi.new_handle(self)`; `resource_set_dispatcher` has the resource,
-- the `implementation` and the `data`, and the functions that it is given are always the same two.
pub record ResourceLibrary : Type 1 where
  pub World : Type 0
  pub resource_create : Ptr → InterfaceClass → ℤ → ℤ → World → Result Ptr × World
  pub resource_get_id : Ptr → World → ℤ × World
  pub new_handle : World → Ptr × World
  pub resource_set_dispatcher : Ptr → Ptr → Ptr → World → World
  pub resource_destroy : Ptr → World → World

pub record Resource (Callback : Type 0) : Type 0 where
  pub ptr : Option Ptr
  pub id : ℤ
  pub version : ℤ
  pub dispatcher : Dispatcher Callback

-- `client`: a `Client`, a pointer, or `None`.
pub data ClientArgument : Type 0 where
  client_object : Option ClientCdata → ClientArgument
  client_cdata : Ptr → ClientArgument
  no_client : ClientArgument

unfoldable pub client_pointer : ClientArgument → Option Ptr
client_pointer (client_object client) = address client
client_pointer (client_cdata ptr) = some ptr
client_pointer no_client = none

-- The version of the interface, if none is given.
unfoldable pub or_version : Option ℤ → InterfaceClass → ℤ
or_version none cls = cls.version
or_version (some version) cls = version

module _ (R : ResourceLibrary) (Callback : Type 0) where
  open R use {World}

  -- The resource that libwayland made, with its dispatcher set.
  made : InterfaceClass → ℤ → Result Ptr × World → Result (Resource Callback) × World
  unfolding dispatcher
  made cls version (err e, w) = (err e, w)
  made cls version (ok ptr, w) =
      let (id, w') = R.resource_get_id ptr w in
      let (handle, w'') = R.new_handle w' in
      (
        ok (record {
          ptr = some ptr;
          id = id;
          version = version;
          dispatcher = dispatcher Callback cls.requests true;
        }),
        R.resource_set_dispatcher ptr null handle w'',
      )

  create_at : InterfaceClass → ℤ → ℤ → Option Ptr → World → Result (Resource Callback) × World
  unfolding made
  create_at cls version id none w = (err assertion_error, w)
  create_at cls version id (some client) w =
      made cls version (R.resource_create client cls version id w)

  -- `Resource(client, version, id)` of an interface.
  unfoldable pub new_resource :
      InterfaceClass → ClientArgument → Option ℤ → ℤ → World → Result (Resource Callback) × World
  unfolding client_pointer or_version create_at
  new_resource cls client version id w =
      create_at cls (or_version version cls) id (client_pointer client) w

  -- `Resource.destroy`; `None` and NULL are left alone.
  unfoldable pub destroy_resource : Resource Callback → World → Resource Callback × World
  destroy_resource r w = elim r.ptr [
    | none ↦ (r, w)
    | some ptr ↦ if ptr == null then (r, w) else (record r { ptr = none }, R.resource_destroy ptr w)
  ]

-- ===== src/ProtocolCore/Global.antt =====
-- pywayland/protocol_core/globals.py: a global of a display, and what happens when a client binds
-- it.
pub mod Bound
use pywayland_i6ie.Base.{
  ℤ, int_min, Bool, true, false, Option, none, some, Result, ok, err, value_error, if◌then◌else◌,
  ◌==◌, ℕ-Eq,
}
use pywayland_i6ie.ProtocolCore.Message.{Ptr, null}
use pywayland_i6ie.ProtocolCore.Interface.{InterfaceClass}
use pywayland_i6ie.ProtocolCore.Resource.{
  ResourceLibrary, Resource, client_cdata, or_version, new_resource,
}

-- `wl_global_create`, with the display, the interface and the version.
pub record GlobalLibrary : Type 1 where
  pub resources : ResourceLibrary
  pub global_create : Ptr → InterfaceClass → ℤ → resources.World → Result Ptr × resources.World

-- The dict that the handle leads to.
pub record BindInfo (BindFunc : Type 0) : Type 0 where
  pub interface : InterfaceClass
  pub bind_func : Option BindFunc

-- `keeps_display` tells whether `_display` is there, which keeps the display as the weak dict does.
pub record Global (BindFunc : Type 0) : Type 0 where
  pub ptr : Option Ptr
  pub callback_info : BindInfo BindFunc
  pub keeps_display : Bool

module _ (G : GlobalLibrary) (BindFunc : Type 0) where
  open G use {resources}
  open resources use {World}

  -- `display._ptr is None or display._ptr == ffi.NULL`
  usable : Option Ptr → Option Ptr
  usable none = none
  usable (some display) = if display == null then none else some display

  registered : InterfaceClass → Result Ptr × World → Result (Global BindFunc) × World
  registered cls (err e, w) = (err e, w)
  registered cls (ok ptr, w) = (
    ok (record {
      ptr = some ptr;
      callback_info = record { interface = cls; bind_func = none };
      keeps_display = true;
    }),
    w,
  )

  -- `Global(display, version)` of an interface, for the display's pointer.
  unfoldable pub new_global :
      InterfaceClass → Option Ptr → Option ℤ → World → Result (Global BindFunc) × World
  unfolding usable registered or_version
  new_global cls display version w = elim (usable display) [
    | none ↦ (err value_error, w)
    | some ptr ↦ registered cls (G.global_create ptr cls (or_version version cls) w)
  ]

  -- The property `bind_func`, and its setter.
  unfoldable pub bind_func : Global BindFunc → Option BindFunc
  bind_func g = g.callback_info.bind_func

  unfoldable pub set_bind_func : Option BindFunc → Global BindFunc → Global BindFunc
  set_bind_func value g = record g { callback_info = record g.callback_info { bind_func = value } }

  -- `_global_destroy`, for the pointer that the display has now, does nothing in either case.
  unfoldable pub global_destroy : Option Ptr → World → World
  global_destroy none w = w
  global_destroy (some display) w = w

  -- `Global.destroy`, for the pointer that the display has now; the destructor is removed.
  unfoldable pub destroy_global : Option Ptr → Global BindFunc → World → Global BindFunc × World
  unfolding global_destroy
  destroy_global display g w = elim g.ptr [
    | none ↦ (g, w)
    | some ptr ↦ (record g { ptr = none; keeps_display = false }, global_destroy display w)
  ]

  module _ (Callback : Type 0)
      (call : BindFunc → Resource Callback → World → Result (Unit {0}) × World) where
    unfoldable pub call_bind :
        Option BindFunc → Resource Callback → World → Result (Unit {0}) × World
    call_bind none r w = (ok tt, w)
    call_bind (some func) r w = call func r w

    bound : Option BindFunc → Result (Resource Callback) × World → Result (Unit {0}) × World
    unfolding call_bind
    bound func (err e, w) = (err e, w)
    bound func (ok r, w) = call_bind func r w

    -- For the dict that the handle leads to, and the client that binds.
    unfoldable pub global_bind_func :
        BindInfo BindFunc → Ptr → ℤ → ℤ → World → Result (Unit {0}) × World
    unfolding bound new_resource
    global_bind_func info client version id w = bound info.bind_func (
        new_resource resources Callback info.interface (client_cdata client)
          (some (int_min info.interface.version version)) id w)

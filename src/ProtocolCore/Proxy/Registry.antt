-- ===== src/ProtocolCore/Proxy/Registry.antt =====
-- `Proxy.__init__` and `_destroy` of pywayland/protocol_core/proxy.py, with the registries of the
-- interfaces, which lead from the pointers of proxies to the objects.
pub mod Entries
pub mod Found
use pywayland_i6ie.Base.{
  ℕ, Bool, false, Option, none, some, List, [], ◌∷◌, ◌++◌, Result, ok, err, value_error,
  runtime_error, length, get_elem?, set, if◌then◌else◌, ◌==◌, ◌&&◌, ℕ-Eq, String-Eq,
}
use pywayland_i6ie.ProtocolCore.Argument.{ClassName}
use pywayland_i6ie.ProtocolCore.Message.{Ptr, null}
use pywayland_i6ie.ProtocolCore.Message.Wire.{ObjectId, Objects}
use pywayland_i6ie.ProtocolCore.Interface.{InterfaceClass}
use pywayland_i6ie.Dispatcher.{Dispatcher, dispatcher}

-- The display that a proxy is of: itself, or another object.
pub data Parent : Type 0 where
  itself : Parent
  child_of : ObjectId → Parent

pub record Proxy (Callback : Type 0) : Type 0 where
  pub interface : ClassName
  pub ptr : Option Ptr
  pub parent : Parent
  pub dispatcher : Dispatcher Callback

-- The entries of the registries, each with its interface, one for a pointer. The registries hold
-- their objects weakly.
abbrev pub Registry : Type 0
Registry = List (ClassName × Ptr × ObjectId)

abbrev pub registered : ClassName → Ptr → Registry → Option ObjectId
registered i p [] = none
registered i p ((j, q, x) ∷ registry) =
    let rest = registered i p registry in if j == i && q == p then some x else rest

-- The entry of a pointer is written over.
abbrev pub drop_entry : ClassName → Ptr → Registry → Registry
drop_entry i p [] = []
drop_entry i p ((j, q, x) ∷ registry) =
    let rest = drop_entry i p registry in if j == i && q == p then rest else (j, q, x) ∷ rest

abbrev pub forget : ObjectId → Registry → Registry
forget x [] = []
forget x ((j, q, y) ∷ registry) =
    let rest = forget x registry in if y == x then rest else (j, q, y) ∷ rest

-- An object is known by its place; `handles` are the pointers with their handles, in the order in
-- which libwayland was given them.
pub record Proxies (Callback : Type 0) : Type 0 where
  pub proxies : List (Proxy Callback)
  pub registry : Registry
  pub handles : List (Ptr × ObjectId)

module _ (Callback : Type 0) where
  unmade : InterfaceClass → Option Ptr → Parent → Proxy Callback
  unfolding dispatcher
  unmade cls ptr parent = record {
    interface = cls.name;
    ptr = ptr;
    parent = parent;
    dispatcher = dispatcher Callback cls.events false;
  }

  -- NULL is refused; the object is in no registry then.
  made_at : InterfaceClass → Ptr → ObjectId → Proxies Callback → Result ObjectId × Proxies Callback
  unfolding unmade
  made_at cls ptr display s = if ptr == null then (err runtime_error, s) else (
    ok (length s.proxies),
    record {
      proxies = s.proxies ++ unmade cls (some ptr) (child_of display) ∷ [];
      registry = (cls.name, ptr, length s.proxies) ∷ drop_entry cls.name ptr s.registry;
      handles = s.handles ++ (ptr, length s.proxies) ∷ [];
    },
  )

  -- `Proxy(ptr, display)` of an interface.
  unfoldable pub new_proxy :
      InterfaceClass
      → Option Ptr
      → Option ObjectId
      → Proxies Callback
      → Result ObjectId × Proxies Callback
  unfolding unmade made_at
  new_proxy cls none display s =
      (ok (length s.proxies), record s { proxies = s.proxies ++ unmade cls none itself ∷ [] })
  new_proxy cls (some ptr) none s = (err value_error, s)
  new_proxy cls (some ptr) (some display) s = made_at cls ptr display s

  abbrev no_pointer : Proxy Callback → Proxy Callback
  no_pointer proxy = record proxy { ptr = none }

  -- `_destroy` leaves `_ptr` at `None`; the object stays in the registry as long as it is there.
  unfoldable pub destroy_proxy : ObjectId → Proxies Callback → Proxies Callback
  destroy_proxy x s = elim (get_elem? s.proxies x) [
    | none ↦ s
    | some proxy ↦ record s { proxies = set s.proxies x (no_pointer proxy) }
  ]

  -- An object that nothing refers to is collected, with its pointer and its entry.
  unfoldable pub collect_proxy : ObjectId → Proxies Callback → Proxies Callback
  collect_proxy x s = elim (get_elem? s.proxies x) [
    | none ↦ s
    | some proxy ↦ record s {
      proxies = set s.proxies x (no_pointer proxy);
      registry = forget x s.registry;
    }
  ]

  abbrev pub ptr_of : Option (Proxy Callback) → Option Ptr
  ptr_of none = none
  ptr_of (some proxy) = proxy.ptr

  -- What messages know of the objects.
  abbrev pub objects_of : Proxies Callback → Objects
  objects_of s = record {
    pointer = λ x. ptr_of (get_elem? s.proxies x);
    registry = λ i p. registered i p s.registry;
  }

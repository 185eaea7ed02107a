-- ===== src/ProtocolCore/Global/Bound.antt =====
-- The version of a resource that a client binds.
use pywayland_i6ie.Base.{
  ℤ, int_min, int_min_bounds, int_min_cases, ◌≤ℤ◌, ◌≡◌, refl, sym, ◌⊎◌, inl, inr, Result, err,
  Error,
}
use mathlib.Core.Path.{subst}
use pywayland_i6ie.ProtocolCore.Message.{Ptr}
use pywayland_i6ie.ProtocolCore.Resource.{Resource}
use pywayland_i6ie.ProtocolCore.Resource.Made.{new_resource-Created}
use pywayland_i6ie.ProtocolCore.Global.{GlobalLibrary, BindInfo, call_bind, bound, global_bind_func}

module _ (G : GlobalLibrary) (BindFunc Callback : Type 0) where
  open G use {resources}
  open resources use {World}

  module _ (call : BindFunc → Resource Callback → World → Result (Unit {0}) × World) where
    -- When a client binds a global, the callback of the global gets a resource whose version is at
    -- most that of the interface and at most the one that the client asked for, and is one of the
    -- two; or `wl_resource_create` raised for that version, and the exception leaves
    -- `global_bind_func`.
    pub version-global_bind_func :
        (info : BindInfo BindFunc) (client : Ptr) (version id : ℤ) (w : World)
        → ((r : Resource Callback) × (w' : World) × (global_bind_func G BindFunc Callback call info
                client version id w
              ≡ call_bind G BindFunc Callback call info.bind_func r w')
            × (r.version ≤ℤ info.interface.version)
            × (r.version ≤ℤ version)
            × ((r.version ≡ info.interface.version) ⊎ (r.version ≡ version)))
          ⊎ ((e : Error) × (w' : World) × (resources.resource_create client info.interface
                  (int_min info.interface.version version)
                  id
                  w
                ≡ (err e, w'))
              × (global_bind_func G BindFunc Callback call info client version id w ≡ (err e, w')))
    unfolding global_bind_func bound
    version-global_bind_func info client version id w =
        let asked = int_min info.interface.version version in
        let (below, below') = int_min_bounds info.interface.version version in
        elim (new_resource-Created resources Callback info.interface client asked id w) [
          | inl (r, w', created, same, _) ↦ inl (
            r,
            w',
            rw (created, global_bind_func) refl,
            subst (λ v. v ≤ℤ info.interface.version) (sym same) below,
            subst (λ v. v ≤ℤ version) (sym same) below',
            subst (λ v. (v ≡ info.interface.version) ⊎ (v ≡ version)) (sym same)
                (int_min_cases info.interface.version version),
          )
          | inr (e, w', failed, raised) ↦ inr (e, w', failed, rw (raised, global_bind_func) refl)
        ]

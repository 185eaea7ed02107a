-- ===== src/Tests/Proxies.antt =====
-- Proxies of two interfaces, one of which is destroyed and has its pointer taken over.
use pywayland_i6ie.Base.{
  ℕ, zero, suc, ◌≡◌, refl, false, none, some, List, [], ◌∷◌, ok, arith, pos, ap, All, String,
}
use pywayland_i6ie.Scanner.ArgumentType.{object}
use pywayland_i6ie.ProtocolCore.Message.Wire.{object_value, WlArgument, Ref}
use pywayland_i6ie.ProtocolCore.Message.ToC.{store_as}
use pywayland_i6ie.ProtocolCore.Message.ToPython.{load_as}
use pywayland_i6ie.ProtocolCore.Interface.{InterfaceClass}
use pywayland_i6ie.ProtocolCore.Proxy.Registry.{
  Proxy, new_proxy, destroy_proxy, collect_proxy, objects_of,
}
use pywayland_i6ie.ProtocolCore.Proxy.Registry.Found.{
  Has, Operation, makes, destroys, collects, AreAllowed, operate_all, no_proxies,
  load_as-store_as_proxy,
}
use pywayland_i6ie.Tests.SampleCffi.{sample_cffi, sample_cffi-IsLawful}

abbrev surface_class : InterfaceClass
surface_class = record { name = "wl_surface"; version = pos 4; events = []; requests = [] }

abbrev display_class : InterfaceClass
display_class = record { name = "wl_display"; version = pos 1; events = []; requests = [] }

abbrev makes_display : Operation ℕ
makes_display = makes display_class none none

abbrev makes_surface : Operation ℕ
makes_surface = makes surface_class (some 40) (some 0)

abbrev steps : List (Operation ℕ)
steps = makes_display ∷ makes_surface ∷ destroys 1 ∷ makes_surface ∷ collects 1 ∷ []

abbrev proxies_after : List (Operation ℕ) → List (Proxy ℕ)
proxies_after operations = (operate_all ℕ operations (no_proxies ℕ)).proxies

-- Proxies without pointers have none.
no_pointers :
    (proxies : List (Proxy ℕ)) (x : ℕ) (i : String)
    → All (λ (q : Proxy ℕ). q.ptr ≡ none) proxies
    → Has ℕ proxies x i 40
    → ⊥
no_pointers [] x i all has = absurd (ground (arith, has.1))
no_pointers (q ∷ proxies) zero i (gone, all) (proxy, at, same, there) =
    let e : q ≡ proxy = ground (arith, at) in
    absurd (ground (arith, ap (λ (q : Proxy ℕ). q.ptr) e, gone, there))
no_pointers (q ∷ proxies) (suc x) i (gone, all) has = no_pointers proxies x i all has

steps_allowed : AreAllowed ℕ steps (no_proxies ℕ)
unfolding new_proxy destroy_proxy collect_proxy
steps_allowed = (
  tt,
  (
    (λ x has. no_pointers (proxies_after (makes_display ∷ [])) x "wl_surface" (refl, tt) has),
    (
      tt,
      (
        (λ x has.
            no_pointers (proxies_after (makes_display ∷ makes_surface ∷ destroys 1 ∷ [])) x
              "wl_surface" (refl, (refl, tt)) has),
        (tt, tt),
      ),
    ),
  ),
)

newest : Has ℕ (operate_all ℕ steps (no_proxies ℕ)).proxies 2 "wl_surface" 40
unfolding new_proxy destroy_proxy collect_proxy
newest = (_, refl, refl, refl)

load_as-store_as_proxy_example :
    (cell : WlArgument) × (refs : List Ref) × (store_as sample_cffi
        (objects_of ℕ (operate_all ℕ steps (no_proxies ℕ)))
        object
        false
        (object_value 2)
      ≡ ok (cell, refs))
    × (load_as sample_cffi
          (objects_of ℕ (operate_all ℕ steps (no_proxies ℕ)))
          object
          false
          (some "wl_surface")
          cell
        ≡ ok (object_value 2))
load_as-store_as_proxy_example =
    load_as-store_as_proxy ℕ sample_cffi sample_cffi-IsLawful steps 2 "wl_surface" 40 false
      steps_allowed newest

-- ===== src/ProtocolCore/Proxy/Registry/Found.antt =====
-- Every proxy that has its pointer is found by it.
use pywayland_i6ie.Base.{
  ℕ, zero, suc, ◌≡◌, ◌≢◌, refl, sym, ap, ◌∙◌, Bool, Option, none, some, List, [], ◌∷◌, ◌++◌, ok,
  length, get_elem?, set, ◌==◌, ◌&&◌, ℕ-Eq, String-Eq, arith, Option-cases, Bool-cases, inl, inr,
  ◌⊎◌,
}
use pywayland_i6ie.ProtocolCore.Argument.{ClassName}
use pywayland_i6ie.ProtocolCore.Message.{Ptr, null}
use pywayland_i6ie.ProtocolCore.Message.Wire.{
  ObjectId, object_value, WlArgument, Ref, Cffi, IsLawful,
}
use pywayland_i6ie.ProtocolCore.Message.ToC.{store_as}
use pywayland_i6ie.ProtocolCore.Message.ToPython.{load_as}
use pywayland_i6ie.ProtocolCore.Message.RoundTrip.{store-load}
use pywayland_i6ie.Scanner.ArgumentType.{object}
use pywayland_i6ie.ProtocolCore.Interface.{InterfaceClass}
use pywayland_i6ie.ProtocolCore.Proxy.Registry.{
  itself, child_of, Proxy, Registry, registered, drop_entry, Proxies, unmade, made_at, new_proxy,
  destroy_proxy, collect_proxy, no_pointer, ptr_of, objects_of,
}
use pywayland_i6ie.ProtocolCore.Proxy.Registry.Entries.{
  registered-forget, is_same_entry, same_entry, registered-drop_entry,
}

module _ (Callback : Type 0) where
  -- The proxy at this place has this interface and this pointer.
  abbrev pub Has : List (Proxy Callback) → ObjectId → ClassName → Ptr → Type 0
  Has proxies x i p =
      (proxy : Proxy Callback) × (get_elem? proxies x ≡ some proxy)
      × (proxy.interface ≡ i)
      × (proxy.ptr ≡ some p)

  -- A proxy with a pointer is found by it, and its pointer is not NULL.
  abbrev AreFound : List (Proxy Callback) → Registry → Type 0
  AreFound proxies registry =
      (x : ObjectId) (i : ClassName) (p : Ptr)
      → Has proxies x i p
      → (registered i p registry ≡ some x) × (p ≢ null)

  get_elem?-append :
      (xs : List (Proxy Callback)) (y z : Proxy Callback) (k : ℕ)
      → get_elem? (xs ++ y ∷ []) k ≡ some z
      → (get_elem? xs k ≡ some z) ⊎ ((k ≡ length xs) × (y ≡ z))
  get_elem?-append [] y z zero at = inr (refl, ground arith)
  get_elem?-append [] y z (suc k) at = absurd (cc)
  get_elem?-append (x ∷ xs) y z zero at = inl at
  get_elem?-append (x ∷ xs) y z (suc k) at = elim (get_elem?-append xs y z k at) [
    | inl there ↦ inl there
    | inr (last, same) ↦ inr (ap suc last, same)
  ]

  -- A proxy that loses its pointer leaves the others as they are.
  Has-set :
      (proxies : List (Proxy Callback)) (k x : ObjectId) (proxy : Proxy Callback) (i : ClassName)
      (p : Ptr)
      → get_elem? proxies k ≡ some proxy
      → Has (set proxies k (no_pointer Callback proxy)) x i p
      → (k ≢ x) × Has proxies x i p
  Has-set [] k x proxy i p at has = absurd (cc)
  Has-set (y ∷ proxies) zero zero proxy i p at (found, there, same, ptr) =
      absurd (ground (arith, there, ptr))
  Has-set (y ∷ proxies) zero (suc x) proxy i p at has = (λ e. absurd (omega arith), has)
  Has-set (y ∷ proxies) (suc k) zero proxy i p at has = (λ e. absurd (omega arith), has)
  Has-set (y ∷ proxies) (suc k) (suc x) proxy i p at has =
      let (differs, before) = Has-set proxies k x proxy i p at has in
      (λ e. differs (omega arith), before)

  -- No proxy of the same interface has the pointer.
  abbrev pub IsFresh : List (Proxy Callback) → ClassName → Ptr → Type 0
  IsFresh proxies i p = (x : ObjectId) → Has proxies x i p → ⊥

  added-AreFound :
      (proxies : List (Proxy Callback)) (registry : Registry) (new : Proxy Callback) (ptr : Ptr)
      → new.ptr ≡ some ptr
      → ptr ≢ null
      → IsFresh proxies new.interface ptr
      → AreFound proxies registry
      → AreFound
          (proxies ++ new ∷ [])
          ((new.interface, ptr, length proxies) ∷ drop_entry new.interface ptr registry)
  added-AreFound proxies registry new ptr has_ptr not_null fresh found x i p
        (proxy, at, same, there) =
      elim (get_elem?-append proxies new proxy x at) [
        | inl before ↦
            let (later, below) = found x i p (proxy, before, same, there) in
            (elim (Bool-cases (new.interface == i && ptr == p)) [
              | inl e ↦
                  let (e1, e2) = is_same_entry new.interface i ptr p e in
                  absurd (fresh x (proxy, before, same ∙ sym e1, there ∙ ap some (sym e2)))
              | inr e ↦
                  (rw e (registered-drop_entry registry new.interface i ptr p e ∙ later), below)
            ])
        | inr (last, made) ↦
            let interface_same : new.interface ≡ i =
              ap (λ (q : Proxy Callback). q.interface) made ∙ same in
            let ptr_same : ptr ≡ p =
              ground (arith, has_ptr, ap (λ (q : Proxy Callback). q.ptr) made, there) in
            (
              rw (same_entry new.interface i ptr p interface_same ptr_same) (ap some (sym last)),
              λ e. not_null (ptr_same ∙ e),
            )
      ]

  made_at-AreFound :
      (cls : InterfaceClass) (ptr : Ptr) (display : ObjectId) (s : Proxies Callback)
      → IsFresh s.proxies cls.name ptr
      → AreFound s.proxies s.registry
      → AreFound
          (made_at Callback cls ptr display s).1.proxies
          (made_at Callback cls ptr display s).1.registry
  unfolding made_at unmade
  made_at-AreFound cls ptr display s fresh found = elim (Bool-cases (ptr == null)) [
    | inl e ↦ rw (e, made_at) found
    | inr e ↦
        rw (e, made_at)
          (added-AreFound s.proxies s.registry (unmade Callback cls (some ptr) (child_of display))
            ptr refl (λ same. ground (arith, e, same)) fresh found)
  ]

  pub data Operation : Type 0 where
    makes : InterfaceClass → Option Ptr → Option ObjectId → Operation
    destroys collects : ObjectId → Operation

  abbrev pub operate : Operation → Proxies Callback → Proxies Callback
  operate (makes cls ptr display) s = (new_proxy Callback cls ptr display s).1
  operate (destroys x) s = destroy_proxy Callback x s
  operate (collects x) s = collect_proxy Callback x s

  -- libwayland gives no pointer that a proxy has.
  abbrev pub IsAllowed : Operation → Proxies Callback → Type 0
  IsAllowed (makes cls none display) s = Unit
  IsAllowed (makes cls (some ptr) display) s = IsFresh s.proxies cls.name ptr
  IsAllowed _ s = Unit

  abbrev pub AreAllowed : List Operation → Proxies Callback → Type 0
  AreAllowed [] s = Unit
  AreAllowed (operation ∷ operations) s =
      IsAllowed operation s × AreAllowed operations (operate operation s)

  abbrev pub operate_all : List Operation → Proxies Callback → Proxies Callback
  operate_all [] s = s
  operate_all (operation ∷ operations) s = operate_all operations (operate operation s)

  abbrev AllFound : Proxies Callback → Type 0
  AllFound s = AreFound s.proxies s.registry

  no_pointer-AreFound :
      (cls : InterfaceClass) (proxies : List (Proxy Callback)) (registry : Registry)
      → AreFound proxies registry
      → AreFound (proxies ++ unmade Callback cls none itself ∷ []) registry
  unfolding unmade
  no_pointer-AreFound cls proxies registry found x i p (proxy, at, same, there) =
      elim (get_elem?-append proxies (unmade Callback cls none itself) proxy x at) [
        | inl before ↦ found x i p (proxy, before, same, there)
        | inr (last, made) ↦
            let gone : proxy.ptr ≡ none = sym (ap (λ (q : Proxy Callback). q.ptr) made) in
            absurd (ground (arith, gone, there))
      ]

  operate-AreFound :
      (operation : Operation) (s : Proxies Callback)
      → IsAllowed operation s
      → AllFound s
      → AllFound (operate operation s)
  unfolding new_proxy destroy_proxy collect_proxy
  operate-AreFound (makes cls none display) s allowed found =
      no_pointer-AreFound cls s.proxies s.registry found
  operate-AreFound (makes cls (some ptr) none) s allowed found = found
  operate-AreFound (makes cls (some ptr) (some display)) s allowed found =
      made_at-AreFound cls ptr display s allowed found
  operate-AreFound (destroys k) s allowed found = elim (Option-cases (get_elem? s.proxies k)) [
    | inl nothing ↦ rw (nothing, destroy_proxy) found
    | inr (proxy, at) ↦
        rw (at, destroy_proxy) (λ x i p has. found x i p (Has-set s.proxies k x proxy i p at has).1)
  ]
  operate-AreFound (collects k) s allowed found = elim (Option-cases (get_elem? s.proxies k)) [
    | inl nothing ↦ rw (nothing, collect_proxy) found
    | inr (proxy, at) ↦
        rw (at, collect_proxy)
          (λ x i p has.
            let (differs, before) = Has-set s.proxies k x proxy i p at has in
            let (there, below) = found x i p before in
            (registered-forget s.registry i p x k there differs, below))
  ]

  operate_all-AllFound :
      (operations : List Operation) (s : Proxies Callback)
      → AreAllowed operations s
      → AllFound s
      → AllFound (operate_all operations s)
  operate_all-AllFound [] s allowed found = found
  operate_all-AllFound (operation ∷ operations) s (first, allowed) found =
      operate_all-AllFound operations (operate operation s) allowed
        (operate-AreFound operation s first found)

  abbrev pub no_proxies : Proxies Callback
  no_proxies = record { proxies = []; registry = []; handles = [] }

  module _ (C : Cffi) (L : IsLawful C) where
    -- After any makings, destructions and collections of proxies, where libwayland gives no pointer
    -- that a proxy of the interface still has, a proxy that has its pointer can be sent as an
    -- object argument of its interface and is read back as the same object: the registry finds it,
    -- also where its pointer was that of an earlier proxy.
    pub load_as-store_as_proxy :
        (operations : List Operation) (x : ObjectId) (i : ClassName) (p : Ptr) (nullable : Bool)
        → AreAllowed operations no_proxies
        → Has (operate_all operations no_proxies).proxies x i p
        → let env = objects_of Callback (operate_all operations no_proxies) in
          (cell : WlArgument) × (refs : List Ref) × (store_as C env object nullable (object_value x)
            ≡ ok (cell, refs))
          × (load_as C env object nullable (some i) cell ≡ ok (object_value x))
    load_as-store_as_proxy operations x i p nullable allowed has =
        let s = operate_all operations no_proxies in
        let nothing : AllFound no_proxies = λ x i p has. absurd (ground (arith, has.1)) in
        let (found, not_null) =
          operate_all-AllFound operations no_proxies allowed nothing x i p has in
        let (proxy, at, _, there) = has in
        let pointer : ptr_of Callback (get_elem? s.proxies x) ≡ some p =
          ap (ptr_of Callback) at ∙ there in
        store-load C (objects_of Callback s) L object nullable (some i) (object_value x)
          (inr (x, p, i, refl, refl, pointer, not_null, found))

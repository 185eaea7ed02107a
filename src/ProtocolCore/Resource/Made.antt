-- ===== src/ProtocolCore/Resource/Made.antt =====
-- What a new resource is: its version, and a callback to set for every request that arrives.
use pywayland_i6ie.Base.{
  ℕ, ◌<◌, ℤ, pos, ◌≡◌, refl, sym, ap, ◌∙◌, ◌⊎◌, inl, inr, Option, none, some, List, length,
  get_elem?-replicate, length-replicate, Result, ok, err, arith, true, >>=-eq-ok, ok-injective,
  Error, map_result,
}
use mathlib.Core.Path.{subst}
use pywayland_i6ie.ProtocolCore.Message.{Ptr, Message, build_message_struct}
use pywayland_i6ie.ProtocolCore.Message.Wire.{Cffi, int_value}
use pywayland_i6ie.ProtocolCore.Argument.{ClassName}
use pywayland_i6ie.ProtocolCore.Interface.{InterfaceClass, WlInterface, gen_c}
use pywayland_i6ie.ProtocolCore.Resource.{
  ResourceLibrary, Resource, ClientArgument, client_cdata, client_pointer, or_version, made,
  create_at, new_resource,
}
use pywayland_i6ie.Dispatcher.{dispatcher, by_opcode, get_item, callback_index, resolve}

method_count-gen_c :
    (C : Cffi) (interface_ptr : ClassName → Option Ptr) (cls : InterfaceClass) (s : WlInterface)
    → gen_c C interface_ptr cls ≡ ok s
    → s.method_count ≡ length cls.requests
unfolding gen_c
method_count-gen_c C interface_ptr cls s e =
    let (version, _, e) = >>=-eq-ok (C.to_int32 (int_value cls.version)) _ e in
    let (methods, _, e) =
      >>=-eq-ok (map_result (build_message_struct interface_ptr) cls.requests) _ e in
    let (events, _, e) =
      >>=-eq-ok (map_result (build_message_struct interface_ptr) cls.events) _ e in
    ap (λ (s : WlInterface). s.method_count) (sym (ok-injective e))

module _ (R : ResourceLibrary) (Callback : Type 0) where
  open R use {World}

  -- A new resource, or the exception of `wl_resource_create`.
  abbrev pub Created :
      InterfaceClass → ℤ → Result Ptr × World → Result (Resource Callback) × World → Type 0
  Created cls version made result =
      ((r : Resource Callback) × (w' : World) × (result ≡ (ok r, w'))
        × (r.version ≡ version)
        × (r.dispatcher ≡ dispatcher Callback cls.requests true))
      ⊎ ((e : Error) × (w' : World) × (made ≡ (err e, w')) × (result ≡ (err e, w')))

  made-Created :
      (cls : InterfaceClass) (version : ℤ) (found : Result Ptr) (w : World)
      → Created cls version (found, w) (made R Callback cls version (found, w))
  unfolding made
  made-Created cls version (ok ptr) w = inl (_, _, refl, refl, refl)
  made-Created cls version (err e) w = inr (e, w, refl, refl)

  pub new_resource-Created :
      (cls : InterfaceClass) (client : Ptr) (version id : ℤ) (w : World)
      → Created cls version
          (R.resource_create client cls version id w)
          (new_resource R Callback cls (client_cdata client) (some version) id w)
  unfolding new_resource create_at client_pointer or_version
  new_resource-Created cls client version id w =
      let (found, w') = R.resource_create client cls version id w in
      made-Created cls version found w'

  create_at-dispatcher :
      (cls : InterfaceClass) (version id : ℤ) (client : Option Ptr) (w w' : World)
      → (r : Resource Callback) → create_at R Callback cls version id client w ≡ (ok r, w')
      → r.dispatcher ≡ dispatcher Callback cls.requests true
  unfolding create_at
  create_at-dispatcher cls version id none w w' r e = absurd (ground (arith, e))
  create_at-dispatcher cls version id (some client) w w' r e =
      let (found, w'') = R.resource_create client cls version id w in
      elim (made-Created cls version found w'') [
        | inl (r', _, same, _, given) ↦
            ap (λ (r : Resource Callback). r.dispatcher)
              (ok-injective (ap (λ p. p.0) (sym e ∙ same)))
            ∙ given
        | inr (_, _, _, same) ↦ absurd (ground (arith, sym e ∙ same))
      ]

  get_item-dispatcher :
      (messages : List Message) (opcode : ℕ)
      → opcode < length messages
      → get_item Callback (dispatcher Callback messages true) (by_opcode (pos opcode)) ≡ ok none
  unfolding get_item callback_index resolve dispatcher
  get_item-dispatcher messages opcode small = ground (
    arith,
    length-replicate {A = Option Callback} (length messages) none,
    get_elem?-replicate {A = Option Callback} (length messages) opcode none small,
  )

  -- If `_gen_c` and the making of a resource return, the dispatcher of the resource has a place,
  -- without a callback as yet, for every opcode below the method count of the interface struct: no
  -- such request raises an IndexError.
  pub get_item-new_resource :
      (C : Cffi) (interface_ptr : ClassName → Option Ptr) (cls : InterfaceClass) (s : WlInterface)
      → (client : ClientArgument) (version : Option ℤ) (id : ℤ) (w w' : World)
      → (r : Resource Callback) (opcode : ℕ) → gen_c C interface_ptr cls ≡ ok s
      → new_resource R Callback cls client version id w ≡ (ok r, w')
      → opcode < s.method_count
      → get_item Callback r.dispatcher (by_opcode (pos opcode)) ≡ ok none
  unfolding new_resource
  get_item-new_resource C interface_ptr cls s client version id w w' r opcode struct created small =
      let d =
        create_at-dispatcher cls (or_version version cls) id (client_pointer client) w w' r
          created in
      ap (λ d. get_item Callback d (by_opcode (pos opcode))) d
      ∙ get_item-dispatcher cls.requests opcode
          (subst (λ n. opcode < n) (method_count-gen_c C interface_ptr cls s struct) small)

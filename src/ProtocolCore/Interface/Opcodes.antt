-- ===== src/ProtocolCore/Interface/Opcodes.antt =====
-- The opcode of a message is its index among those of its kind, in the order of registration.
use mathlib.Core.Path.{subst}
use mathlib.Core.List.{append_assoc, append-nil}
use pywayland_i6ie.Base.{
  ℕ, suc, ℤ, String, ◌≡◌, refl, ap, sym, ◌∙◌, Option, List, [], ◌∷◌, ◌++◌, ok, map_result, length,
  >>=-eq-ok, ok-injective,
}
use pywayland_i6ie.ProtocolCore.Argument.{Argument, ClassName}
use pywayland_i6ie.ProtocolCore.Message.{Ptr, Message, message, WlMessage, build_message_struct}
use pywayland_i6ie.ProtocolCore.Message.Wire.{int_value, Cffi}
use pywayland_i6ie.ProtocolCore.Interface.{
  InterfaceClass, interface_class, event, request, WlInterface, gen_c,
}

-- A decorated function of a generated module.
pub data Decorated : Type 0 where
  as_request : String → List Argument → Option ℕ → Decorated
  as_event : String → List Argument → Option ℕ → Decorated

-- The module's functions are decorated one after the other.
abbrev pub register : List Decorated → InterfaceClass → InterfaceClass
register [] cls = cls
register (as_request func arguments version ∷ decorated) cls =
    register decorated (request func arguments version cls)
register (as_event func arguments version ∷ decorated) cls =
    register decorated (event func arguments version cls)

abbrev pub requests_of : List Decorated → List Message
requests_of [] = []
requests_of (as_request func arguments version ∷ decorated) =
    message func arguments version ∷ requests_of decorated
requests_of (as_event _ _ _ ∷ decorated) = requests_of decorated

abbrev pub events_of : List Decorated → List Message
events_of [] = []
events_of (as_request _ _ _ ∷ decorated) = events_of decorated
events_of (as_event func arguments version ∷ decorated) =
    message func arguments version ∷ events_of decorated

requests-register :
    (decorated : List Decorated) (cls : InterfaceClass)
    → (register decorated cls).requests ≡ cls.requests ++ requests_of decorated
unfolding request event
requests-register [] cls = sym (append-nil _)
requests-register (as_request func arguments version ∷ decorated) cls =
    requests-register decorated _
    ∙ append_assoc cls.requests (message func arguments version ∷ []) (requests_of decorated)
requests-register (as_event func arguments version ∷ decorated) cls = requests-register decorated _

events-register :
    (decorated : List Decorated) (cls : InterfaceClass)
    → (register decorated cls).events ≡ cls.events ++ events_of decorated
unfolding request event
events-register [] cls = sym (append-nil _)
events-register (as_request func arguments version ∷ decorated) cls = events-register decorated _
events-register (as_event func arguments version ∷ decorated) cls =
    events-register decorated _
    ∙ append_assoc cls.events (message func arguments version ∷ []) (events_of decorated)

module _ (C : Cffi) (interface_ptr : ClassName → Option Ptr) where
  -- Index by index, the structs are those that the messages build.
  abbrev pub AreBuilt : List Message → List WlMessage → Type 0
  AreBuilt [] [] = Unit
  AreBuilt (m ∷ messages) (w ∷ structs) =
      (build_message_struct interface_ptr m ≡ ok w) × AreBuilt messages structs
  AreBuilt _ _ = ⊥

  map_result-AreBuilt :
      (messages : List Message) (structs : List WlMessage)
      → map_result (build_message_struct interface_ptr) messages ≡ ok structs
      → AreBuilt messages structs × (length messages ≡ length structs)
  map_result-AreBuilt [] structs e =
      subst (λ (x : List WlMessage). AreBuilt [] x × (0 ≡ length x)) (ok-injective e) (tt, refl)
  map_result-AreBuilt (m ∷ messages) structs e =
      let (first, built, e') = >>=-eq-ok (build_message_struct interface_ptr m) _ e in
      let (rest, others, e'') =
        >>=-eq-ok (map_result (build_message_struct interface_ptr) messages) _ e' in
      let (ih, lengths) = map_result-AreBuilt messages rest others in
      subst (λ (x : List WlMessage). AreBuilt (m ∷ messages) x × (length (m ∷ messages) ≡ length x))
        (ok-injective e'') ((built, ih), ap suc lengths)

  gen_c-lists :
      (cls : InterfaceClass) (w : WlInterface)
      → gen_c C interface_ptr cls ≡ ok w
      → AreBuilt cls.requests w.methods
        × AreBuilt cls.events w.events
        × (w.method_count ≡ length w.methods)
        × (w.event_count ≡ length w.events)
  unfolding gen_c
  gen_c-lists cls w e =
      let (version, _, e1) = >>=-eq-ok (C.to_int32 (int_value cls.version)) _ e in
      let (methods, built, e2) =
        >>=-eq-ok (map_result (build_message_struct interface_ptr) cls.requests) _ e1 in
      let (events, built', e3) =
        >>=-eq-ok (map_result (build_message_struct interface_ptr) cls.events) _ e2 in
      let (are, counts) = map_result-AreBuilt cls.requests methods built in
      let (are', counts') = map_result-AreBuilt cls.events events built' in
      subst
        (λ (x : WlInterface).
          AreBuilt cls.requests x.methods
          × AreBuilt cls.events x.events
          × (x.method_count ≡ length x.methods)
          × (x.event_count ≡ length x.events))
        (ok-injective e3) (are, are', counts, counts')

  -- If `_gen_c` returns after a module's functions were decorated, the struct at index k of the
  -- interface's methods is built from the k-th request that was decorated, that of its events from
  -- the k-th event, and the counts are those of the two arrays.
  pub gen_c-AreBuilt :
      (name : String) (version : ℤ) (decorated : List Decorated) (w : WlInterface)
      → gen_c C interface_ptr (register decorated (interface_class name version)) ≡ ok w
      → AreBuilt (requests_of decorated) w.methods
        × AreBuilt (events_of decorated) w.events
        × (w.method_count ≡ length w.methods)
        × (w.event_count ≡ length w.events)
  unfolding interface_class
  gen_c-AreBuilt name version decorated w e =
      let cls = interface_class name version in
      let (are, are', methods, events) = gen_c-lists (register decorated cls) w e in
      (
        subst (λ (x : List Message). AreBuilt x w.methods) (requests-register decorated cls) are,
        subst (λ (x : List Message). AreBuilt x w.events) (events-register decorated cls) are',
        methods,
        events,
      )

-- ===== src/ProtocolCore/Interface/Memory/Kept.antt =====
-- What is reached from an interface's struct, and what the weak dict keeps alive.
use mathlib.Core.Path.{subst}
use pywayland_i6ie.Base.{
  ℤ, ◌≡◌, refl, ◌∙◌, String, Option, some, List, ◌∷◌, ◌++◌, ok, >>=-eq-ok, ok-injective, map_result,
  length, inl, inr, In-append_left, In-append_right,
}
use pywayland_i6ie.ProtocolCore.Argument.{ClassName}
use pywayland_i6ie.ProtocolCore.Message.{Ptr, WlMessage, build_message_struct}
use pywayland_i6ie.ProtocolCore.Message.Wire.{int_value, Cffi}
use pywayland_i6ie.ProtocolCore.Interface.{InterfaceClass, WlInterface, gen_c}
use pywayland_i6ie.ProtocolCore.Interface.Memory.{
  MessageStruct, char_array, struct_array, Memory, read, InterfaceStruct, new, new_structs,
  gen_c_objects,
}
use pywayland_i6ie.ProtocolCore.Interface.Memory.Frames.{
  IsFresh, collect, read-collect, AllRead, all_kept, ReadsInterface, AllRead-KeepsLeaves,
  AllRead-collect, read-new,
}
use pywayland_i6ie.ProtocolCore.Interface.Memory.Filled.{new_structs-AllRead}

module _ (C : Cffi) (interface_ptr : ClassName → Option Ptr) (fresh : Memory → Ptr)
    (is_fresh : IsFresh fresh) where
  abbrev struct_of : InterfaceClass → ℤ → Ptr → Ptr → Ptr → InterfaceStruct
  struct_of cls version name methods events = record {
    name = name;
    version = version;
    method_count = length cls.requests;
    methods = methods;
    event_count = length cls.events;
    events = events;
  }

  gen_c_objects-made :
      (cls : InterfaceClass) (memory between later : Memory) (version : ℤ) (p q : Ptr)
      → (of_requests of_events : List Ptr) → C.to_int32 (int_value cls.version) ≡ ok version
      → new_structs C interface_ptr fresh cls.requests
          (new C interface_ptr fresh (char_array cls.name) memory).1
        ≡ ok (p, (of_requests, between))
      → new_structs C interface_ptr fresh cls.events between ≡ ok (q, (of_events, later))
      → gen_c_objects C interface_ptr fresh cls memory
        ≡ ok (
          struct_of cls version (fresh memory) p q,
          (fresh memory ∷ p ∷ q ∷ (of_requests ++ of_events), later),
        )
  unfolding gen_c_objects new
  gen_c_objects-made cls memory between later version p q of_requests of_events fits filled
        filled' =
      rw fits (rw filled (rw filled' refl))

  module _ (memory : Memory) (name p q : Ptr) (text : String) (made made_too : List MessageStruct)
      (methods events : List WlMessage) (cls : InterfaceClass) (version : ℤ)
      (at_name : read name memory ≡ some (char_array text))
      (at_methods : read p memory ≡ some (struct_array made))
      (at_events : read q memory ≡ some (struct_array made_too)) (all : AllRead memory made methods)
      (all_too : AllRead memory made_too events) where
    abbrev kept : List Ptr
    kept = name ∷ p ∷ q ∷ (all_kept made ++ all_kept made_too)

    kept-ReadsInterface :
        ReadsInterface (collect kept memory) (struct_of cls version name p q) (record {
          name = text;
          version = version;
          method_count = length cls.requests;
          methods = methods;
          event_count = length cls.events;
          events = events;
        })
    kept-ReadsInterface = (
      read-collect name kept memory (inl refl) ∙ at_name,
      refl,
      refl,
      refl,
      (
        made,
        read-collect p kept memory (inr (inl refl)) ∙ at_methods,
        AllRead-collect kept memory made methods
            (λ x m. inr (inr (inr (In-append_left x (all_kept made) (all_kept made_too) m)))) all,
      ),
      (
        made_too,
        read-collect q kept memory (inr (inr (inl refl))) ∙ at_events,
        AllRead-collect kept memory made_too events
            (λ x m. inr (inr (inr (In-append_right x (all_kept made) (all_kept made_too) m))))
            all_too,
      ),
    )

  -- If cffi allocates where nothing is, `_gen_c` makes the struct that it describes, with its
  -- arrays and texts, and what it puts into the weak dict is enough: once every other object of the
  -- memory is freed, the struct still leads to its name, and its two arrays to the name, the
  -- signature and the types of every message, in order.
  pub ReadsInterface-gen_c_objects :
      (cls : InterfaceClass) (w : WlInterface) (memory : Memory)
      → gen_c C interface_ptr cls ≡ ok w
      → (s : InterfaceStruct) × (kept : List Ptr) × (later : Memory) × (gen_c_objects C
            interface_ptr fresh cls memory
          ≡ ok (s, (kept, later)))
        × ReadsInterface (collect kept later) s w
  unfolding gen_c new
  ReadsInterface-gen_c_objects cls w memory e =
      let (version, fits, e1) = >>=-eq-ok (C.to_int32 (int_value cls.version)) _ e in
      let (methods, built, e2) =
        >>=-eq-ok (map_result (build_message_struct interface_ptr) cls.requests) _ e1 in
      let (events, built_too, e3) =
        >>=-eq-ok (map_result (build_message_struct interface_ptr) cls.events) _ e2 in
      let at_name = (read-new fresh is_fresh C interface_ptr (char_array cls.name) memory).0 in
      let (p, made, between, filled, at, all, grows) =
        new_structs-AllRead C interface_ptr fresh is_fresh cls.requests methods
          (new C interface_ptr fresh (char_array cls.name) memory).1 built in
      let (q, made_too, later, filled_too, at_too, all_too, grows_too) =
        new_structs-AllRead C interface_ptr fresh is_fresh cls.events events between built_too in
      (
        struct_of cls version (fresh memory) p q,
        fresh memory ∷ p ∷ q ∷ (all_kept made ++ all_kept made_too),
        later,
        gen_c_objects-made cls memory between later version p q (all_kept made) (all_kept made_too)
            fits filled filled_too,
        subst
            (λ (w : WlInterface).
              ReadsInterface
                (collect (fresh memory ∷ p ∷ q ∷ (all_kept made ++ all_kept made_too)) later)
                (struct_of cls version (fresh memory) p q) w)
            (ok-injective e3)
            (kept-ReadsInterface later (fresh memory) p q cls.name made made_too methods events cls
              version (grows_too _ _ (grows _ _ at_name)) (grows_too _ _ at) at_too
              (AllRead-KeepsLeaves between later made methods
                (λ x t there. grows_too x _ there, λ x ptrs there. grows_too x _ there) all)
              all_too),
      )

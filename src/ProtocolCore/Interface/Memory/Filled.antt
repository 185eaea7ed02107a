-- ===== src/ProtocolCore/Interface/Memory/Filled.antt =====
-- The loop of `_gen_c` over messages: what the array of structs leads to.
use mathlib.Core.Path.{subst}
use mathlib.Core.List.{append_assoc}
use pywayland_i6ie.Base.{
  ℕ, zero, suc, ◌≡◌, refl, ap, ◌∙◌, String, Option, some, List, [], ◌∷◌, ◌++◌, ok, >>=-eq-ok,
  ok-injective, map_result, length, set, replicate, arith,
}
use pywayland_i6ie.ProtocolCore.Argument.{ClassName}
use pywayland_i6ie.ProtocolCore.Message.{
  Ptr, Message, WlMessage, build_message_struct, slot_pointers, marshaled_arguments,
  message_signature,
}
use pywayland_i6ie.ProtocolCore.Message.Wire.{Cffi}
use pywayland_i6ie.ProtocolCore.Interface.Memory.{
  MessageStruct, Cdata, char_array, pointer_array, struct_array, Memory, read, zeroed, write_struct,
  new, new_struct, build_struct, fill_structs, new_structs,
}
use pywayland_i6ie.ProtocolCore.Interface.Memory.Frames.{
  IsFresh, Reads, AllRead, all_kept, Frame, AllRead-KeepsLeaves, Frame-KeepsLeaves,
  read-write_struct, read-new,
}

set-append :
    {A : Type 0} (before : List A) (old : A) (after : List A) (i : ℕ) (value : A)
    → i ≡ length before
    → set (before ++ old ∷ after) i value ≡ (before ++ value ∷ []) ++ after
set-append [] old after zero value e = refl
set-append [] old after (suc i) value e = absurd (omega (arith, e))
set-append (x ∷ before) old after zero value e = absurd (omega (arith, e))
set-append (x ∷ before) old after (suc i) value e =
    ap (λ l. x ∷ l) (set-append before old after i value (omega (arith, e)))

length-snoc :
    {A : Type 0} (before : List A) (value : A) (i : ℕ)
    → i ≡ length before
    → suc i ≡ length (before ++ value ∷ [])
length-snoc [] value i e = omega (arith, e)
length-snoc (x ∷ before) value zero e = absurd (omega (arith, e))
length-snoc (x ∷ before) value (suc i) e = ap suc (length-snoc before value i (omega (arith, e)))

module _ (C : Cffi) (interface_ptr : ClassName → Option Ptr) (fresh : Memory → Ptr)
    (is_fresh : IsFresh fresh) where
  -- Whatever is there stays there.
  abbrev pub Grows : Memory → Memory → Type 0
  Grows memory later = (q : Ptr) (c : Cdata) → read q memory ≡ some c → read q later ≡ some c

  new-Grows :
      (object : Cdata) (memory : Memory) → Grows memory (new C interface_ptr fresh object memory).1
  new-Grows object memory q c e =
      ((read-new fresh is_fresh C interface_ptr object memory).1 q c e).0

  new_struct-Reads :
      (name signature : String) (types : List Ptr) (memory : Memory)
      → Reads
          (new_struct C interface_ptr fresh name signature types memory).1
          (new_struct C interface_ptr fresh name signature types memory).0
          (record { name = name; signature = signature; types = types })
        × Grows memory (new_struct C interface_ptr fresh name signature types memory).1
  unfolding new_struct
  new_struct-Reads name signature types memory =
      let named = (new C interface_ptr fresh (char_array name) memory).1 in
      let signed = (new C interface_ptr fresh (char_array signature) named).1 in
      (
        (
          new-Grows (pointer_array types) signed _ _ (
              new-Grows (char_array signature) named _ _
                (read-new fresh is_fresh C interface_ptr (char_array name) memory).0),
          new-Grows (pointer_array types) signed _ _
              (read-new fresh is_fresh C interface_ptr (char_array signature) named).0,
          (read-new fresh is_fresh C interface_ptr (pointer_array types) signed).0,
        ),
        λ q c e.
            new-Grows (pointer_array types) signed q c (
              new-Grows (char_array signature) named q c
                (new-Grows (char_array name) memory q c e)),
      )

  build_struct-Reads :
      (m : Message) (w : WlMessage) (memory : Memory)
      → build_message_struct interface_ptr m ≡ ok w
      → (s : MessageStruct) × (built : Memory) × (build_struct C interface_ptr fresh m memory
          ≡ ok (s, built))
        × Reads built s w
        × Grows memory built
  unfolding build_message_struct build_struct
  build_struct-Reads m w memory e =
      let (types, found, same) =
        >>=-eq-ok (slot_pointers interface_ptr (marshaled_arguments m.arguments)) _ e in
      let built = new_struct C interface_ptr fresh m.name (message_signature m) types memory in
      let (reads, grows) = new_struct-Reads m.name (message_signature m) types memory in
      (
        built.0,
        built.1,
        rw found refl,
        subst (λ (w : WlMessage). Reads built.1 built.0 w) (ok-injective same) reads,
        grows,
      )

  fill_structs-AllRead :
      (messages : List Message) (ws : List WlMessage) (p : Ptr) (i : ℕ)
      → (before found : List MessageStruct) (memory : Memory)
      → read p memory ≡ some (struct_array found)
      → found ≡ before ++ replicate (length messages) zeroed
      → i ≡ length before
      → map_result (build_message_struct interface_ptr) messages ≡ ok ws
      → (made : List MessageStruct) × (later : Memory) × (fill_structs C interface_ptr fresh p i
            messages memory
          ≡ ok (all_kept made, later))
        × (read p later ≡ some (struct_array (before ++ made)))
        × AllRead later made ws
        × Frame p memory later
  unfolding fill_structs
  fill_structs-AllRead [] ws p i before found memory at zeros place e = (
    [],
    memory,
    refl,
    at ∙ ap (λ l. some (struct_array l)) zeros,
    subst (λ ws. AllRead memory [] ws) (ok-injective e) tt,
    λ q c there other. there,
  )
  fill_structs-AllRead (m ∷ messages) ws p i before found memory at zeros place e =
      let (w, first, e') = >>=-eq-ok (build_message_struct interface_ptr m) _ e in
      let (rest, others, e'') =
        >>=-eq-ok (map_result (build_message_struct interface_ptr) messages) _ e' in
      let (s, built, struct_built, reads, grows) = build_struct-Reads m w memory first in
      let at_built = grows p (struct_array found) at in
      let (at_written, written) = read-write_struct p i s built found at_built in
      let (made, later, filled, at_later, all, frame) =
        fill_structs-AllRead messages rest p (suc i) (before ++ s ∷ []) (set found i s)
          (write_struct p i s built) at_written
          (ap (λ l. set l i s) zeros
            ∙ set-append before zeroed (replicate (length messages) zeroed) i s place)
          (length-snoc before s i place) others in
      let after : Frame p built later =
        λ q c there other. frame q c (written q c there other) other in
      (
        s ∷ made,
        later,
        rw struct_built (rw filled refl),
        at_later ∙ ap (λ l. some (struct_array l)) (append_assoc before (s ∷ []) made),
        subst (λ ws. AllRead later (s ∷ made) ws) (ok-injective e'')
            (
              (AllRead-KeepsLeaves built later (s ∷ []) (w ∷ [])
                  (Frame-KeepsLeaves p built later found at_built after) (reads, tt)).0,
              all,
            ),
        λ q c there other. after q c (grows q c there) other,
      )

  pub new_structs-AllRead :
      (messages : List Message) (ws : List WlMessage) (memory : Memory)
      → map_result (build_message_struct interface_ptr) messages ≡ ok ws
      → (p : Ptr) × (made : List MessageStruct) × (later : Memory) × (new_structs C interface_ptr
            fresh messages memory
          ≡ ok (p, (all_kept made, later)))
        × (read p later ≡ some (struct_array made))
        × AllRead later made ws
        × Grows memory later
  unfolding new_structs new
  new_structs-AllRead messages ws memory e =
      let zeros = struct_array (replicate (length messages) zeroed) in
      let (at, keeps) = read-new fresh is_fresh C interface_ptr zeros memory in
      let (made, later, filled, at_later, all, frame) =
        fill_structs-AllRead messages ws (fresh memory) 0 [] _ ((fresh memory, zeros) ∷ memory) at
          refl refl e in
      (
        fresh memory,
        made,
        later,
        rw filled refl,
        at_later,
        all,
        λ q c there. frame q c (keeps q c there).0 (keeps q c there).1,
      )

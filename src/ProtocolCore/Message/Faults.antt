-- ===== src/ProtocolCore/Message/Faults.antt =====
-- Where a conversion of pywayland/protocol_core/message.py does not carry a value over.
use pywayland_i6ie.Base.{
  ℕ, suc, ◌≡◌, refl, ◌≢◌, Bool, true, Option, List, [], ◌∷◌, ok, err, arith, any,
  not_implemented_error, >>=-eq-ok, Bool-cases, inl, inr,
}
use pywayland_i6ie.Scanner.ArgumentType.{ArgumentType, new_id, array, is_new_id, is_array}
use pywayland_i6ie.ProtocolCore.Argument.{Argument, ClassName}
use pywayland_i6ie.ProtocolCore.Message.{Message, marshaled_arguments}
use pywayland_i6ie.ProtocolCore.Message.Wire.{Value, WlArgument, Cffi, Objects}
use pywayland_i6ie.ProtocolCore.Message.ToC.{
  Stored, CArguments, store_as, fill_arguments, arguments_to_c,
}
use pywayland_i6ie.ProtocolCore.Message.Slots.{fill_new, fill_old}
use pywayland_i6ie.ProtocolCore.Message.ToPython.{load_as, load_arguments, c_to_arguments}

array-ne-new_id : (t : ArgumentType) → is_array t ≡ true → is_new_id t ≡ true → ⊥
array-ne-new_id array h new = cc
array-ne-new_id _ h new = cc

module _ (C : Cffi) (env : Objects) where
  store_as-array_ne-ok :
      (t : ArgumentType) (nullable : Bool) (v : Value C.Float) (stored : Stored)
      → is_array t ≡ true
      → store_as C env t nullable v ≢ ok stored
  unfolding store_as
  store_as-array_ne-ok array nullable v stored h e = ground arith
  store_as-array_ne-ok _ nullable v stored h e = cc

  fill_arguments-ne-ok :
      (arguments : List Argument) (vs : List (Value C.Float)) (r : CArguments)
      → any (λ (x : Argument). is_array x.argument_type) arguments ≡ true
      → fill_arguments C env arguments vs ≢ ok r
  fill_arguments-ne-ok [] vs r has e = cc
  fill_arguments-ne-ok (x ∷ arguments) vs r has e = elim (Bool-cases (is_array x.argument_type)) [
    | inl here ↦ elim (Bool-cases (is_new_id x.argument_type)) [
      | inl new ↦ array-ne-new_id x.argument_type here new
      | inr old ↦
          let (v, more, cell, refs, rest, _, stored, _, _) =
            fill_old C env x arguments vs r old e in
          store_as-array_ne-ok x.argument_type x.nullable v (cell, refs) here stored
    ]
    | inr other ↦
        let later : any (λ (x : Argument). is_array x.argument_type) arguments ≡ true =
          ground (arith, other, has) in
        (elim (Bool-cases (is_new_id x.argument_type)) [
          | inl new ↦
              let (rest, e', _) = fill_new C env x arguments vs r new e in
              fill_arguments-ne-ok arguments vs rest later e'
          | inr old ↦
              let (v, more, cell, refs, rest, _, _, e', _) =
                fill_old C env x arguments vs r old e in
              fill_arguments-ne-ok arguments more rest later e'
        ])
  ]

  -- A message with an array among the arguments that are marshaled is never converted by
  -- `arguments_to_c`, whatever the values are.
  pub arguments_to_c_array :
      (m : Message) (vs : List (Value C.Float)) (r : CArguments)
      → any (λ (x : Argument). is_array x.argument_type) (marshaled_arguments m.arguments) ≡ true
      → arguments_to_c C env m vs ≢ ok r
  unfolding arguments_to_c
  arguments_to_c_array m vs r has e =
      fill_arguments-ne-ok (marshaled_arguments m.arguments) vs r has e

  load-new_id :
      (t : ArgumentType) (nullable : Bool) (interface : Option ClassName) (cell : WlArgument)
      → is_new_id t ≡ true
      → load_as C env t nullable interface cell ≡ err not_implemented_error
  unfolding load_as
  load-new_id new_id nullable interface cell h = refl
  load-new_id _ nullable interface cell h = cc

  load-ne-ok :
      (arguments : List Argument) (n : ℕ) (p : ℕ → WlArgument) (vs : List (Value C.Float))
      → any (λ (x : Argument). is_new_id x.argument_type) arguments ≡ true
      → load_arguments C env arguments n p ≢ ok vs
  unfolding load_arguments
  load-ne-ok [] n p vs has e = cc
  load-ne-ok (argument ∷ arguments) n p vs has e =
      let (v, first, e') =
        >>=-eq-ok (load_as C env argument.argument_type argument.nullable argument.interface (p n))
          _ e in
      let (rest, others, _) = >>=-eq-ok (load_arguments C env arguments (suc n) p) _ e' in
      elim (Bool-cases (is_new_id argument.argument_type)) [
        | inl new ↦ cc (load-new_id _ argument.nullable argument.interface (p n) new)
        | inr old ↦ load-ne-ok arguments (suc n) p rest (ground arith) others
      ]

  -- A message with a new id among its arguments is never converted by `c_to_arguments`, whatever
  -- was received.
  pub c_to_arguments_new_id :
      (m : Message) (p : ℕ → WlArgument) (vs : List (Value C.Float))
      → any (λ (x : Argument). is_new_id x.argument_type) m.arguments ≡ true
      → c_to_arguments C env m p ≢ ok vs
  unfolding c_to_arguments
  c_to_arguments_new_id m p vs has = load-ne-ok m.arguments 0 p vs has

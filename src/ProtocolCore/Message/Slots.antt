-- ===== src/ProtocolCore/Message/Slots.antt =====
-- How many slots `arguments_to_c` fills, how many values it takes, and what it keeps alive.
use pywayland_i6ie.Base.{
  ℕ, suc, ◌≤◌, String, ◌≡◌, refl, inl, inr, Bool, true, false, none, some, List, [], ◌∷◌, ◌++◌,
  Result, ok, err, arith, ◌>>=◌, if◌then◌else◌, length, All, In, In-append_left, In-append_right,
  Bool-cases, ok-injective,
}
use mathlib.Core.Path.{subst}
use pywayland_i6ie.Scanner.ArgumentType.{ArgumentType, is_new_id}
use pywayland_i6ie.ProtocolCore.Argument.{Argument}
use pywayland_i6ie.ProtocolCore.Message.{null, Message, marshaled_arguments}
use pywayland_i6ie.ProtocolCore.Message.Wire.{
  Value, WlArgument, s, o, a, WlArray, Ref, chars, array_struct, Cffi, Objects,
}
use pywayland_i6ie.ProtocolCore.Message.ToC.{
  Stored, CArguments, store_as, fill_arguments, arguments_to_c,
}

-- The slots that take a value from the caller: all but the new ids.
unfoldable pub value_slots : List Argument → ℕ
value_slots [] = 0
value_slots (argument ∷ arguments) =
    if is_new_id argument.argument_type then value_slots arguments else suc (value_slots arguments)

-- What a cell points to is kept: the text of a `char *`, and the struct of an array.
abbrev pub IsKept : List Ref → WlArgument → Type 0
IsKept refs (s (some t)) = In (chars t) refs
IsKept refs (a w) = In (array_struct w) refs
IsKept refs _ = Unit

IsKept-append_left : (xs ys : List Ref) (c : WlArgument) → IsKept xs c → IsKept (xs ++ ys) c
IsKept-append_left xs ys (s (some t)) k = In-append_left _ xs ys k
IsKept-append_left xs ys (a w) k = In-append_left _ xs ys k
IsKept-append_left xs ys (s none) k = tt
IsKept-append_left xs ys _ k = tt

All-IsKept-append_right :
    (xs ys : List Ref) (cs : List WlArgument) → All (IsKept ys) cs → All (IsKept (xs ++ ys)) cs
All-IsKept-append_right xs ys [] k = tt
All-IsKept-append_right xs ys (s (some t) ∷ cs) (k, ks) =
    (In-append_right _ xs ys k, All-IsKept-append_right xs ys cs ks)
All-IsKept-append_right xs ys (a w ∷ cs) (k, ks) =
    (In-append_right _ xs ys k, All-IsKept-append_right xs ys cs ks)
All-IsKept-append_right xs ys (s none ∷ cs) (k, ks) = (tt, All-IsKept-append_right xs ys cs ks)
All-IsKept-append_right xs ys (_ ∷ cs) (k, ks) = (tt, All-IsKept-append_right xs ys cs ks)

both_ok :
    (stored : Result Stored) (rest : Result CArguments) (r : CArguments)
    → (do
      (cell, refs) ← stored
      more ← rest
      ok (
          let both : CArguments = record { cells = cell ∷ more.cells; refs = refs ++ more.refs } in
          both))
      ≡ ok r
    → (cell : WlArgument) × (refs : List Ref) × (more : CArguments) × (stored ≡ ok (cell, refs))
      × (rest ≡ ok more)
      × (r ≡ record { cells = cell ∷ more.cells; refs = refs ++ more.refs })
both_ok (ok (cell, refs)) (ok more) r e = (cell, refs, more, refl, refl, cc)
both_ok (ok _) (err _) r e = absurd (cc)
both_ok (err _) rest r e = absurd (cc)

module _ (C : Cffi) (env : Objects) where
  -- What a success of the loop says of its result, for one input.
  record IsFilled (arguments : List Argument) (vs ws : List (Value C.Float)) (r : CArguments)
      : Type 0 where
    pub filled : length r.cells ≡ length arguments
    pub enough : value_slots arguments ≤ length vs
    pub extra : fill_arguments C env arguments (vs ++ ws) ≡ ok r
    pub kept : All (IsKept r.refs) r.cells

  refs-store_text :
      (t : ArgumentType) (n : Bool) (v : Value C.Float) (x : String) (refs : List Ref)
      → store_as C env t n v ≡ ok (s (some x), refs)
      → refs ≡ chars x ∷ []
  unfolding store_as
  refs-store_text t n v x refs e = ground arith

  store_as-ne-array :
      (t : ArgumentType) (n : Bool) (v : Value C.Float) (w : WlArray) (refs : List Ref)
      → store_as C env t n v ≡ ok (a w, refs)
      → ⊥
  unfolding store_as
  store_as-ne-array t n v w refs e = ground arith

  store-IsKept :
      (t : ArgumentType) (n : Bool) (v : Value C.Float) (c : WlArgument) (refs : List Ref)
      → store_as C env t n v ≡ ok (c, refs)
      → IsKept refs c
  store-IsKept t n v (s none) refs e = tt
  store-IsKept t n v (s (some x)) refs e = rw (refs-store_text t n v x refs e) (inl refl)
  store-IsKept t n v (a w) refs e = absurd (store_as-ne-array t n v w refs e)
  store-IsKept t n v _ refs e = tt

  pub fill_new :
      (argument : Argument) (arguments : List Argument) (vs : List (Value C.Float)) (r : CArguments)
      → is_new_id argument.argument_type ≡ true
      → fill_arguments C env (argument ∷ arguments) vs ≡ ok r
      → (rest : CArguments) × (fill_arguments C env arguments vs ≡ ok rest)
        × (r ≡ record rest { cells = o null ∷ rest.cells })
  unfolding fill_arguments
  fill_new argument arguments vs r new e = ground arith

  pub fill_old :
      (argument : Argument) (arguments : List Argument) (vs : List (Value C.Float)) (r : CArguments)
      → is_new_id argument.argument_type ≡ false
      → fill_arguments C env (argument ∷ arguments) vs ≡ ok r
      → (v : Value C.Float) × (more : List (Value C.Float)) × (cell : WlArgument) × (refs : List
          Ref)
        × (rest : CArguments) × (vs ≡ v ∷ more)
        × (store_as C env argument.argument_type argument.nullable v ≡ ok (cell, refs))
        × (fill_arguments C env arguments more ≡ ok rest)
        × (r ≡ record { cells = cell ∷ rest.cells; refs = refs ++ rest.refs })
  unfolding fill_arguments
  fill_old argument arguments [] r old e = absurd (ground arith)
  fill_old argument arguments (v ∷ more) r old e =
      let stored = store_as C env argument.argument_type argument.nullable v in
      let (cell, refs, rest, p, q, same) =
        both_ok stored (fill_arguments C env arguments more) r (ground arith) in
      (v, more, cell, refs, rest, refl, p, q, same)

  fill-IsFilled :
      (arguments : List Argument) (vs ws : List (Value C.Float)) (r : CArguments)
      → fill_arguments C env arguments vs ≡ ok r
      → IsFilled arguments vs ws r
  unfolding fill_arguments value_slots
  fill-IsFilled [] vs ws r e = record {
    filled = ground arith;
    enough = omega arith;
    extra = e;
    kept = subst (λ (x : CArguments). All (IsKept x.refs) x.cells) (ok-injective e) tt;
  }
  fill-IsFilled (argument ∷ arguments) vs ws r e =
      elim (Bool-cases (is_new_id argument.argument_type)) [
        | inl new ↦
            let (rest, e', same) = fill_new argument arguments vs r new e in
            let ih = fill-IsFilled arguments vs ws rest e' in
            record {
              filled = ground (arith, ih.filled);
              enough = ground (arith, ih.enough);
              extra = ground (arith, ih.extra);
              kept = rw same (tt, ih.kept);
            }
        | inr old ↦
            let (v, more, cell, refs, rest, split, stored, e', same) =
              fill_old argument arguments vs r old e in
            let ih = fill-IsFilled arguments more ws rest e' in
            record {
              filled = ground (arith, ih.filled);
              enough = ground (arith, ih.enough);
              extra = ground (arith, ih.extra);
              kept = rw same (
                IsKept-append_left refs rest.refs cell (store-IsKept _ _ v cell refs stored),
                All-IsKept-append_right refs rest.refs rest.cells ih.kept,
              );
            }
      ]

  -- If `arguments_to_c` returns, it has one slot for each argument that `_marshaled_arguments`
  -- yields, it was given at least as many values as there are slots that are no new ids, and
  -- further values would have been ignored.
  pub arguments_to_c_slots :
      (m : Message) (vs ws : List (Value C.Float)) (r : CArguments)
      → arguments_to_c C env m vs ≡ ok r
      → (length r.cells ≡ length (marshaled_arguments m.arguments))
        × (value_slots (marshaled_arguments m.arguments) ≤ length vs)
        × (arguments_to_c C env m (vs ++ ws) ≡ ok r)
  unfolding arguments_to_c
  arguments_to_c_slots m vs ws r e =
      let f = fill-IsFilled (marshaled_arguments m.arguments) vs ws r e in
      (f.filled, f.enough, f.extra)

  -- If `arguments_to_c` returns, every text or array struct that a cell of the array points to is
  -- among the refs that are kept alive with it.
  pub arguments_to_c-IsKept :
      (m : Message) (vs : List (Value C.Float)) (r : CArguments)
      → arguments_to_c C env m vs ≡ ok r
      → All (IsKept r.refs) r.cells
  unfolding arguments_to_c
  arguments_to_c-IsKept m vs r e = (fill-IsFilled (marshaled_arguments m.arguments) vs [] r e).kept

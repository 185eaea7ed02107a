-- ===== src/ProtocolCore/Message/RoundTrip.antt =====
-- What one side of a connection converts to C, the other converts back.
use pywayland_i6ie.Base.{
  ℕ, suc, ℤ, String, ◌≡◌, refl, ◌≢◌, ◌⊎◌, inl, inr, Bool, true, false, Option, some, List, [], ◌∷◌,
  ◌++◌, ok, arith, ℕ-Eq,
}
use pywayland_i6ie.Scanner.ArgumentType.{
  ArgumentType, int, uint, fixed, string, object, new_id, array, file_descriptor, is_new_id,
}
use pywayland_i6ie.ProtocolCore.Argument.{Argument, ClassName}
use pywayland_i6ie.ProtocolCore.Message.{
  Ptr, null, Message, marshaled_argument, marshaled_arguments,
}
use pywayland_i6ie.ProtocolCore.Message.Wire.{
  ObjectId, Value, none_value, int_value, float_value, text_value, object_value, WlArgument, Ref,
  Cffi, Objects, IsLawful, memory, until_nul,
}
use pywayland_i6ie.ProtocolCore.Message.ToC.{CArguments, store_as, fill_arguments, arguments_to_c}
use pywayland_i6ie.ProtocolCore.Message.ToPython.{load_as, load_arguments, c_to_arguments}

-- From index `n` on, C memory holds the cells.
abbrev pub Holds : (ℕ → WlArgument) → ℕ → List WlArgument → Type 0
Holds args_ptr n [] = Unit
Holds args_ptr n (cell ∷ cells) = (args_ptr n ≡ cell) × Holds args_ptr (suc n) cells

Holds-tail :
    (p : ℕ → WlArgument) (n : ℕ) (cells : List WlArgument)
    → Holds (λ k. p (suc k)) n cells
    → Holds p (suc n) cells
Holds-tail p n [] h = tt
Holds-tail p n (c ∷ cells) (e, h) = (e, Holds-tail p (suc n) cells h)

Holds-memory : (cells : List WlArgument) → Holds (memory cells) 0 cells
Holds-memory [] = tt
Holds-memory (c ∷ cells) = (refl, Holds-tail (memory (c ∷ cells)) 0 cells (Holds-memory cells))

module _ (C : Cffi) (env : Objects) where
  -- The values of each type that survive a message: numbers in range, floats that fixed-point
  -- numbers represent, texts without a NUL, objects that are alive on the interface that is named,
  -- and `None` for an object that may be missing.
  abbrev pub FitsAs : ArgumentType → Bool → Option ClassName → Value C.Float → Type 0
  FitsAs int nullable c v = (z : ℤ) × (v ≡ int_value z) × (C.to_int32 v ≡ ok z)
  FitsAs uint nullable c v = (z : ℤ) × (v ≡ int_value z) × (C.to_uint32 v ≡ ok z)
  FitsAs file_descriptor nullable c v = (z : ℤ) × (v ≡ int_value z) × (C.to_int32 v ≡ ok z)
  FitsAs fixed nullable c v =
      (d : C.Float) × (z : ℤ) × (v ≡ float_value d)
      × (C.wl_fixed_from_double v ≡ ok z)
      × (C.wl_fixed_to_double z ≡ d)
  FitsAs string nullable c v = (t : String) × (v ≡ text_value t) × (until_nul t ≡ t)
  FitsAs object nullable c v =
      ((v ≡ none_value) × (nullable ≡ true))
      ⊎ ((x : ObjectId) × (p : Ptr) × (i : ClassName) × (v ≡ object_value x)
          × (c ≡ some i)
          × (env.pointer x ≡ some p)
          × (p ≢ null)
          × (env.registry i p ≡ some x))
  FitsAs _ nullable c v = ⊥

  abbrev pub Fits : List Argument → List (Value C.Float) → Type 0
  Fits [] [] = Unit
  Fits (a ∷ arguments) (v ∷ vs) =
      FitsAs a.argument_type a.nullable a.interface v × Fits arguments vs
  Fits _ _ = ⊥

  module _ (L : IsLawful C) where
    pub store-load :
        (t : ArgumentType) (nullable : Bool) (c : Option ClassName) (v : Value C.Float)
        → FitsAs t nullable c v
        → (cell : WlArgument) × (refs : List Ref) × (store_as C env t nullable v ≡ ok (cell, refs))
          × (load_as C env t nullable c cell ≡ ok v)
    unfolding store_as load_as
    store-load int nullable c v (z, e, r) =
        (WlArgument.i z, [], ground arith, ground (arith, L.read_i-i z))
    store-load uint nullable c v (z, e, r) =
        (WlArgument.u z, [], ground arith, ground (arith, L.read_u-u z))
    store-load file_descriptor nullable c v (z, e, r) =
        (WlArgument.h z, [], ground arith, ground (arith, L.read_h-h z))
    store-load fixed nullable c v (d, z, e, r, b) =
        (WlArgument.f z, [], ground arith, ground (arith, L.read_f-f z))
    store-load string nullable c v (t, e, whole) = (
      WlArgument.s (some t),
      Ref.chars t ∷ [],
      ground arith,
      ground (
        arith,
        L.read_s-s (some t),
        L.ffi_string-some t,
        L.is_null_false (WlArgument.s (some t)),
      ),
    )
    store-load object nullable c v (inl (e, n)) =
        (WlArgument.o null, [], ground arith, ground (arith, L.read_o-o null))
    store-load object nullable c v (inr (x, p, i, e, ec, ep, np, er)) =
        (WlArgument.o p, Ref.object_pointer p ∷ [], ground arith, ground (arith, L.read_o-o p))
    store-load new_id nullable c v h = absurd h
    store-load array nullable c v h = absurd h

    FitsAs-slot :
        (t : ArgumentType) (nullable : Bool) (c : Option ClassName) (v : Value C.Float)
        (a : Argument)
        → FitsAs t nullable c v
        → (marshaled_argument t c a ≡ a ∷ []) × (is_new_id t ≡ false)
    unfolding marshaled_argument
    FitsAs-slot new_id n c v a h = absurd h
    FitsAs-slot _ n c v a h = (refl, refl)

    fill-load :
        (arguments : List Argument) (vs : List (Value C.Float))
        → Fits arguments vs
        → (r : CArguments) × (fill_arguments C env (marshaled_arguments arguments) vs ≡ ok r)
          × ((p : ℕ → WlArgument) (n : ℕ)
              → Holds p n r.cells
              → load_arguments C env arguments n p ≡ ok vs)
    unfolding fill_arguments load_arguments marshaled_arguments
    fill-load [] [] h = (record { cells = []; refs = [] }, refl, λ p n q. refl)
    fill-load (a ∷ arguments) (v ∷ vs) (h, hs) =
        let (cell, refs, stored, loaded) = store-load a.argument_type a.nullable a.interface v h in
        let (r, filled, loads) = fill-load arguments vs hs in
        let slot = FitsAs-slot a.argument_type a.nullable a.interface v a h in
        (
          record { cells = cell ∷ r.cells; refs = refs ++ r.refs },
          rw slot.0 (ground (arith, slot.1, stored, filled)),
          λ p n q. ground (arith, loaded, loads p (suc n) q.1),
        )
    fill-load [] (v ∷ vs) h = absurd h
    fill-load (a ∷ arguments) [] h = absurd h

    -- If the values fit the arguments of a message (numbers in range, floats that fixed-point
    -- numbers represent, texts without a NUL, objects that are alive on the interface that is
    -- named, `None` for an object that may be missing), `arguments_to_c` converts them and
    -- `c_to_arguments` converts the array back into the same values.
    pub c_to_arguments-arguments_to_c :
        (m : Message) (vs : List (Value C.Float))
        → Fits m.arguments vs
        → (r : CArguments) × (arguments_to_c C env m vs ≡ ok r)
          × (c_to_arguments C env m (memory r.cells) ≡ ok vs)
    unfolding arguments_to_c c_to_arguments
    c_to_arguments-arguments_to_c m vs h =
        let (r, filled, loads) = fill-load m.arguments vs h in
        (r, filled, loads _ 0 (Holds-memory r.cells))

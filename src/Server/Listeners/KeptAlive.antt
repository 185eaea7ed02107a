-- ===== src/Server/Listeners/KeptAlive.antt =====
-- What libwayland may call is kept alive: a listener in the list of a signal is held by a signal.
use pywayland_i6ie.Base.{
  ℕ, zero, suc, ◌≡◌, refl, sym, ap, ◌∙◌, Bool, true, false, Option, none, some, List, [], ◌∷◌, ◌++◌,
  get_elem?, set, arith, Option-cases, Bool-cases, inl, inr, In, In-append_left, In-append_right,
  ℕ-Eq, ◌⊎◌,
}
use mathlib.Core.Path.{subst}
use pywayland_i6ie.ProtocolCore.Message.{Ptr}
use pywayland_i6ie.Server.Listeners.{
  SignalLibrary, Listener, Signal, State, make_listener, make_signal, noted, linked, add_noted,
  add_listener, unlinked, remove_listener,
}

-- What is asked of the lists of libwayland: a list that is initialised is empty, a listener that is
-- in no list is added to the one list that it is added to, and removal adds nothing.
pub record IsLawful (L : SignalLibrary) : Type 0 where
  pub init_in :
      (p q x : Ptr) (w : L.World) → In x (L.members q (L.signal_init p w)) → In x (L.members q w)
  pub add_in :
      (p q x y : Ptr) (w : L.World)
      → ((r : Ptr) → In y (L.members r w) → ⊥)
      → In x (L.members q (L.signal_add p y w))
      → ((x ≡ y) × (q ≡ p)) ⊎ In x (L.members q w)
  pub remove_in :
      (q x y : Ptr) (w : L.World) → In x (L.members q (L.list_remove y w)) → In x (L.members q w)

-- A signal at this place has this pointer, and holds this listener.
abbrev pub Holds : {Wrapper : Type 0} → List (Signal Wrapper) → Ptr → Ptr → Type 0
Holds [] p x = ⊥
Holds (signal ∷ signals) p x = ((signal.ptr ≡ p) × In x signal.link) ⊎ Holds signals p x

Holds-append :
    {Wrapper : Type 0} (xs ys : List (Signal Wrapper)) (p x : Ptr)
    → Holds xs p x
    → Holds (xs ++ ys) p x
Holds-append [] ys p x h = absurd h
Holds-append (signal ∷ xs) ys p x (inl h) = inl h
Holds-append (signal ∷ xs) ys p x (inr h) = inr (Holds-append xs ys p x h)

abbrev held : {Wrapper : Type 0} → Signal Wrapper → Ptr → Signal Wrapper
held signal y = record signal { link = signal.link ++ y ∷ [] }

-- A signal that holds one listener more holds what it held.
Holds-set :
    {Wrapper : Type 0} (signals : List (Signal Wrapper)) (i : ℕ) (signal : Signal Wrapper)
    (y p x : Ptr)
    → get_elem? signals i ≡ some signal
    → Holds signals p x
    → Holds (set signals i (held signal y)) p x
Holds-set [] i signal y p x at h = absurd h
Holds-set (s ∷ signals) zero signal y p x at (inl (same, m)) =
    let e : s ≡ signal = ground arith in
    inl (
      ap (λ t. t.ptr) (sym e) ∙ same,
      In-append_left x signal.link (y ∷ []) (subst (λ t. In x t.link) e m),
    )
Holds-set (s ∷ signals) zero signal y p x at (inr h) = inr h
Holds-set (s ∷ signals) (suc i) signal y p x at (inl h) = inl h
Holds-set (s ∷ signals) (suc i) signal y p x at (inr h) =
    inr (Holds-set signals i signal y p x at h)

Holds-set_self :
    {Wrapper : Type 0} (signals : List (Signal Wrapper)) (i : ℕ) (signal : Signal Wrapper) (y : Ptr)
    → get_elem? signals i ≡ some signal
    → Holds (set signals i (held signal y)) signal.ptr y
Holds-set_self [] i signal y at = absurd (cc)
Holds-set_self (s ∷ signals) zero signal y at =
    inl (refl, In-append_right y signal.link (y ∷ []) (inl refl))
Holds-set_self (s ∷ signals) (suc i) signal y at = inr (Holds-set_self signals i signal y at)

pub data Operation (Callback Wrapper : Type 0) : Type 0 where
  makes_listener : Ptr → Callback → Operation Callback Wrapper
  makes_signal : Option Ptr → Ptr → Option Wrapper → Operation Callback Wrapper
  adds : ℕ → ℕ → Operation Callback Wrapper
  removes : ℕ → Operation Callback Wrapper

module _ (L : SignalLibrary) (Callback Wrapper : Type 0) where
  abbrev pub operate :
      Operation Callback Wrapper → State L Callback Wrapper → State L Callback Wrapper
  operate (makes_listener address function) s = make_listener L Callback Wrapper address function s
  operate (makes_signal ptr fresh wrapper) s = make_signal L Callback Wrapper ptr fresh wrapper s
  operate (adds i k) s = (add_listener L Callback Wrapper i k s).1
  operate (removes k) s = remove_listener L Callback Wrapper k s

  abbrev pub operate_all :
      List (Operation Callback Wrapper) → State L Callback Wrapper → State L Callback Wrapper
  operate_all [] s = s
  operate_all (operation ∷ operations) s = operate_all operations (operate operation s)

  -- A listener is in one list at a time: one that is added is in no list.
  abbrev pub IsAllowed : Operation Callback Wrapper → State L Callback Wrapper → Type 0
  IsAllowed (adds i k) s =
      (listener : Listener Callback)
      → get_elem? s.listeners k ≡ some listener
      → (r : Ptr) → In listener.address (L.members r s.world)
      → ⊥
  IsAllowed _ s = Unit

  abbrev pub AreAllowed : List (Operation Callback Wrapper) → State L Callback Wrapper → Type 0
  AreAllowed [] s = Unit
  AreAllowed (operation ∷ operations) s =
      IsAllowed operation s × AreAllowed operations (operate operation s)

  abbrev pub AreHeld : State L Callback Wrapper → Type 0
  AreHeld s = (p x : Ptr) → In x (L.members p s.world) → Holds s.signals p x

  -- No object, and lists that are left to C.
  abbrev pub nothing_made : L.World → State L Callback Wrapper
  nothing_made w = record { listeners = []; signals = []; world = w }

module _ (L : SignalLibrary) (lawful : IsLawful L) (Callback Wrapper : Type 0) where
  open lawful use {init_in, add_in, remove_in}

  make_signal-AreHeld :
      (ptr : Option Ptr) (fresh : Ptr) (wrapper : Option Wrapper) (s : State L Callback Wrapper)
      → AreHeld L Callback Wrapper s
      → AreHeld L Callback Wrapper (make_signal L Callback Wrapper ptr fresh wrapper s)
  unfolding make_signal
  make_signal-AreHeld none fresh wrapper s h p x m =
      Holds-append s.signals _ p x (h p x (init_in fresh p x s.world m))
  make_signal-AreHeld (some ptr) fresh wrapper s h p x m = Holds-append s.signals _ p x (h p x m)

  linked-AreHeld :
      (active : Bool) (i : ℕ) (signal : Signal Wrapper) (y : Ptr) (s : State L Callback Wrapper)
      → AreHeld L Callback Wrapper s
      → ((r : Ptr) → In y (L.members r s.world) → ⊥)
      → Holds s.signals signal.ptr y
      → AreHeld L Callback Wrapper (linked L Callback Wrapper active signal.ptr y s).1
  unfolding linked
  linked-AreHeld false i signal y s h free holds p x m = h p x m
  linked-AreHeld true i signal y s h free holds p x m =
      elim (add_in signal.ptr p x y s.world free m) [
        | inl (same, at) ↦ rw (same, at) holds
        | inr before ↦ h p x before
      ]

  add_noted-AreHeld :
      (i k : ℕ) (signal : Signal Wrapper) (listener : Listener Callback)
      → (s : State L Callback Wrapper) → get_elem? s.signals i ≡ some signal
      → AreHeld L Callback Wrapper s
      → ((r : Ptr) → In listener.address (L.members r s.world) → ⊥)
      → AreHeld L Callback Wrapper (add_noted L Callback Wrapper i k signal listener s).1
  unfolding add_noted noted
  add_noted-AreHeld i k signal listener s at h free =
      linked-AreHeld listener.active i signal listener.address
        (noted L Callback Wrapper i k signal listener s)
        (λ p x m. Holds-set s.signals i signal listener.address p x at (h p x m)) free
        (Holds-set_self s.signals i signal listener.address at)

  add_listener-AreHeld :
      (i k : ℕ) (s : State L Callback Wrapper)
      → AreHeld L Callback Wrapper s
      → IsAllowed L Callback Wrapper (adds i k) s
      → AreHeld L Callback Wrapper (add_listener L Callback Wrapper i k s).1
  unfolding add_listener
  add_listener-AreHeld i k s h allowed = elim (Option-cases (get_elem? s.signals i)) [
    | inl nothing ↦ rw (nothing, add_listener) h
    | inr (signal, at) ↦ (elim (Option-cases (get_elem? s.listeners k)) [
      | inl nothing ↦ rw (at, add_listener) (rw nothing h)
      | inr (listener, found) ↦
          rw (at, add_listener)
            (rw found (add_noted-AreHeld i k signal listener s at h (allowed listener found)))
    ])
  ]

  remove_listener-AreHeld :
      (k : ℕ) (s : State L Callback Wrapper)
      → AreHeld L Callback Wrapper s
      → AreHeld L Callback Wrapper (remove_listener L Callback Wrapper k s)
  unfolding remove_listener unlinked
  remove_listener-AreHeld k s h = elim (Option-cases (get_elem? s.listeners k)) [
    | inl nothing ↦ rw (nothing, remove_listener) h
    | inr (listener, found) ↦ (elim (Bool-cases listener.active) [
      | inr gone ↦ rw (found, remove_listener) (rw gone h)
      | inl there ↦ (elim (Bool-cases (L.link_ne_null listener.address s.world)) [
        | inr null ↦ rw (found, remove_listener) (rw there (rw null h))
        | inl linked ↦
            rw (found, remove_listener)
              (rw there (rw linked (λ p x m. h p x (remove_in p x listener.address s.world m))))
      ])
    ])
  ]

  operate_all-AreHeld :
      (operations : List (Operation Callback Wrapper)) (s : State L Callback Wrapper)
      → AreHeld L Callback Wrapper s
      → AreAllowed L Callback Wrapper operations s
      → AreHeld L Callback Wrapper (operate_all L Callback Wrapper operations s)
  unfolding make_listener
  operate_all-AreHeld [] s h allowed = h
  operate_all-AreHeld (makes_listener address function ∷ operations) s h (allowed, rest) =
      operate_all-AreHeld operations _ h rest
  operate_all-AreHeld (makes_signal ptr fresh wrapper ∷ operations) s h (allowed, rest) =
      operate_all-AreHeld operations _ (make_signal-AreHeld ptr fresh wrapper s h) rest
  operate_all-AreHeld (adds i k ∷ operations) s h (allowed, rest) =
      operate_all-AreHeld operations _ (add_listener-AreHeld i k s h allowed) rest
  operate_all-AreHeld (removes k ∷ operations) s h (allowed, rest) =
      operate_all-AreHeld operations _ (remove_listener-AreHeld k s h) rest

  -- If no list of libwayland has a listener at first, the lists keep their laws, and a listener is
  -- added only while it is in no list, then after any makings, additions and removals of signals
  -- and listeners each listener that is in the list of a signal is held by a signal object with
  -- that pointer.
  pub Holds-operate_all :
      (operations : List (Operation Callback Wrapper)) (w : L.World) (p x : Ptr)
      → ((q y : Ptr) → In y (L.members q w) → ⊥)
      → AreAllowed L Callback Wrapper operations (nothing_made L Callback Wrapper w)
      → In x (
          L.members p
            (operate_all L Callback Wrapper operations (nothing_made L Callback Wrapper w)).world)
      → Holds
          (operate_all L Callback Wrapper operations (nothing_made L Callback Wrapper w)).signals
          p
          x
  Holds-operate_all operations w p x nothing allowed m =
      operate_all-AreHeld operations (nothing_made L Callback Wrapper w)
        (λ q y n. absurd (nothing q y n)) allowed p x m

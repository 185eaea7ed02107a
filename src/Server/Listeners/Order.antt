-- ===== src/Server/Listeners/Order.antt =====
-- The order in which a signal's listeners are notified.
use mathlib.Core.List.{append_assoc}
use pywayland_i6ie.Base.{
  ℕ, zero, suc, ◌≡◌, ◌≢◌, refl, sym, ap, ◌∙◌, true, Option, none, some, List, [], ◌∷◌, ◌++◌, Result,
  get_elem?, set, if◌then◌else◌, ◌==◌, ℕ-Eq, nat_eq_iff, arith, Bool-cases, inl, inr, In,
}
use pywayland_i6ie.ProtocolCore.Message.{Ptr}
use pywayland_i6ie.Server.Listeners.{
  SignalLibrary, Listener, Signal, State, Notifications, wrapper_of, wrapped, notified, notify_func,
  notify_all, listener_at, notify_at, data_pointer, emit,
}

-- A listener is taken out of a list.
abbrev pub drop_member : Ptr → List Ptr → List Ptr
drop_member y [] = []
drop_member y (x ∷ members) = let rest = drop_member y members in if x == y then rest else x ∷ rest

-- Something is done for each member, in order.
abbrev pub for_each : {W : Type 0} → (Ptr → W → W) → List Ptr → W → W
for_each notify [] w = w
for_each notify (x ∷ members) w = for_each notify members (notify x w)

-- libwayland adds a listener at the end of a list that does not have it, removes it from a list that
-- has it, and a listener that was added has a link; an emission notifies the members in order.
pub record IsOrdered (L : SignalLibrary) : Type 1 where
  pub members-signal_add :
      (p y : Ptr) (w : L.World)
      → (In y (L.members p w) → ⊥)
      → L.members p (L.signal_add p y w) ≡ L.members p w ++ y ∷ []
  pub members-list_remove :
      (p y : Ptr) (w : L.World)
      → In y (L.members p w)
      → L.members p (L.list_remove y w) ≡ drop_member y (L.members p w)
  pub link_added : (p y : Ptr) (w : L.World) → L.link_ne_null y (L.signal_add p y w) ≡ true
  pub emitted :
      {W : Type 0} (notify : Ptr → W → W) (p : Ptr) (lists : L.World) (w : W)
      → L.signal_emit notify p lists w ≡ for_each notify (L.members p lists) w

pub drop_member-append :
    (y : Ptr) (members : List Ptr)
    → (In y members → ⊥)
    → drop_member y (members ++ y ∷ []) ≡ members
drop_member-append y [] absent = ground arith
drop_member-append y (x ∷ members) absent =
    ground
      (arith, drop_member-append y members (λ m. absent (inr m)), λ (e : y ≡ x). absent (inl e))

module _ (L : SignalLibrary) (N : Notifications) where
  open N use {World, Data, Callback, Wrapper}

  -- The listeners of a list of libwayland, in its order; those of C are left out.
  unfoldable pub listeners_in : List Ptr → List (Listener Callback) → List (Listener Callback)
  unfolding listener_at
  listeners_in [] listeners = []
  listeners_in (address ∷ members) listeners =
      listener_at L N address listeners ++ listeners_in members listeners

  pub listeners_in-append :
      (xs ys : List Ptr) (listeners : List (Listener Callback))
      → listeners_in (xs ++ ys) listeners ≡ listeners_in xs listeners ++ listeners_in ys listeners
  unfolding listeners_in
  listeners_in-append [] ys listeners = refl
  listeners_in-append (x ∷ xs) ys listeners =
      ap (λ l. listener_at L N x listeners ++ l) (listeners_in-append xs ys listeners)
      ∙ sym (
          append_assoc (listener_at L N x listeners) (listeners_in xs listeners)
            (listeners_in ys listeners))

  listener_at-set_ne :
      (a : Ptr) (listeners : List (Listener Callback)) (k : ℕ) (old new : Listener Callback)
      → get_elem? listeners k ≡ some old
      → old.address ≡ new.address
      → a ≢ new.address
      → listener_at L N a (set listeners k new) ≡ listener_at L N a listeners
  unfolding listener_at
  listener_at-set_ne a [] k old new at same differs = refl
  listener_at-set_ne a (x ∷ listeners) zero old new at same differs =
      let e : x ≡ old = ground (arith, at) in
      ground (arith, ap (λ (l : Listener Callback). l.address) e, same, differs)
  listener_at-set_ne a (x ∷ listeners) (suc k) old new at same differs =
      rw (listener_at-set_ne a listeners k old new at same differs) refl

  pub listeners_in-set :
      (members : List Ptr) (listeners : List (Listener Callback)) (k : ℕ)
      (old new : Listener Callback)
      → get_elem? listeners k ≡ some old
      → old.address ≡ new.address
      → (In new.address members → ⊥)
      → listeners_in members (set listeners k new) ≡ listeners_in members listeners
  unfolding listeners_in
  listeners_in-set [] listeners k old new at same absent = refl
  listeners_in-set (a ∷ members) listeners k old new at same absent =
      rw
        (
          listener_at-set_ne a listeners k old new at same (λ e. absent (inl (sym e))),
          listeners_in-set members listeners k old new at same (λ m. absent (inr m)),
        )
        refl

  -- The listener at this place is the only one with its address.
  pub listener_at-set_self :
      (listeners : List (Listener Callback)) (k : ℕ) (old new : Listener Callback)
      → get_elem? listeners k ≡ some old
      → old.address ≡ new.address
      → ((j : ℕ) (l : Listener Callback)
          → get_elem? listeners j ≡ some l
          → l.address ≡ new.address
          → j ≡ k)
      → listener_at L N new.address (set listeners k new) ≡ new ∷ []
  unfolding listener_at
  listener_at-set_self [] k old new at same unique = absurd (cc)
  listener_at-set_self (x ∷ listeners) zero old new at same unique = ground arith
  listener_at-set_self (x ∷ listeners) (suc k) old new at same unique =
      elim (Bool-cases (x.address == new.address)) [
        | inl e ↦
            let first : 0 ≡ suc k = unique 0 x refl ((nat_eq_iff x.address new.address).0 e) in
            absurd (omega arith)
        | inr e ↦ rw e (
            listener_at-set_self listeners k old new at same (λ j l at' same'.
              let later : suc j ≡ suc k = unique (suc j) l at' same' in omega arith))
      ]

  wrapper_of-set :
      (signals : List (Signal Wrapper)) (i : ℕ) (old new : Signal Wrapper) (place : Option ℕ)
      → get_elem? signals i ≡ some old
      → old.data_wrapper ≡ new.data_wrapper
      → wrapper_of N place (set signals i new) ≡ wrapper_of N place signals
  unfolding wrapper_of
  wrapper_of-set signals i old new none at same = refl
  wrapper_of-set [] i old new (some j) at same = absurd (cc)
  wrapper_of-set (x ∷ signals) zero old new (some zero) at same =
      let e : x ≡ old = ground (arith, at) in
      sym same ∙ ap (λ (t : Signal Wrapper). t.data_wrapper) (sym e)
  wrapper_of-set (x ∷ signals) zero old new (some (suc j)) at same = refl
  wrapper_of-set (x ∷ signals) (suc i) old new (some zero) at same = refl
  wrapper_of-set (x ∷ signals) (suc i) old new (some (suc j)) at same =
      wrapper_of-set signals i old new (some j) at same

  pub notify_all-set :
      (signals : List (Signal Wrapper)) (i : ℕ) (old new : Signal Wrapper)
      → (listeners : List (Listener Callback)) (ptr : Ptr) (w : World)
      → get_elem? signals i ≡ some old
      → old.data_wrapper ≡ new.data_wrapper
      → notify_all N (set signals i new) listeners ptr w ≡ notify_all N signals listeners ptr w
  unfolding notify_all notify_func
  notify_all-set signals i old new [] ptr w at same = refl
  notify_all-set signals i old new (l ∷ listeners) ptr w at same =
      let once =
        ap (λ o. notified N l.notify l.address (wrapped N o ptr w))
          (wrapper_of-set signals i old new l.signal at same) in
      ap (λ (r : Result (Unit {0}) × World). notify_all N (set signals i new) listeners ptr r.1)
        once
      ∙ notify_all-set signals i old new listeners ptr _ at same

  pub notify_all-append :
      (signals : List (Signal Wrapper)) (xs ys : List (Listener Callback)) (ptr : Ptr) (w : World)
      → notify_all N signals (xs ++ ys) ptr w
        ≡ notify_all N signals ys ptr (notify_all N signals xs ptr w)
  unfolding notify_all
  notify_all-append signals [] ys ptr w = refl
  notify_all-append signals (x ∷ xs) ys ptr w =
      notify_all-append signals xs ys ptr (notify_func N signals x ptr w).1

  pub last_notified :
      (signals : List (Signal Wrapper)) (l : Listener Callback) (ptr : Ptr) (w : World)
      → notify_all N signals (l ∷ []) ptr w ≡ (notify_func N signals l ptr w).1
  unfolding notify_all
  last_notified signals l ptr w = refl

  notify_at-members :
      (signals : List (Signal Wrapper)) (listeners : List (Listener Callback)) (ptr : Ptr)
      → (members : List Ptr) (w : World)
      → for_each (notify_at L N signals listeners ptr) members w
        ≡ notify_all N signals (listeners_in members listeners) ptr w
  unfolding notify_at notify_all listeners_in
  notify_at-members signals listeners ptr [] w = refl
  notify_at-members signals listeners ptr (x ∷ members) w =
      notify_at-members signals listeners ptr members _
      ∙ sym (
          notify_all-append signals (listener_at L N x listeners) (listeners_in members listeners)
            ptr w)

  pub emit_at :
      (ordered : IsOrdered L) (s : State L Callback Wrapper) (i : ℕ) (signal : Signal Wrapper)
      → (handle : Option Ptr) (w : World) → get_elem? s.signals i ≡ some signal
      → emit L N i handle s w
        ≡ notify_all N s.signals
            (listeners_in (L.members signal.ptr s.world) s.listeners)
            (data_pointer handle)
            w
  unfolding emit
  emit_at ordered s i signal handle w there =
      rw (there, emit) refl
      ∙ ordered.emitted (notify_at L N s.signals s.listeners (data_pointer handle)) signal.ptr
          s.world w
      ∙ notify_at-members s.signals s.listeners (data_pointer handle) (L.members signal.ptr s.world)
          w

  pub get_elem?-set :
      {A : Type 0} (xs : List A) (i : ℕ) (old new : A)
      → get_elem? xs i ≡ some old
      → get_elem? (set xs i new) i ≡ some new
  get_elem?-set [] i old new at = absurd (cc)
  get_elem?-set (x ∷ xs) zero old new at = refl
  get_elem?-set (x ∷ xs) (suc i) old new at = get_elem?-set xs i old new at

-- ===== src/Server/Listeners/Notified.antt =====
-- A listener that raises does not keep the others from being called.
use pywayland_i6ie.Base.{
  ℕ, get_elem?, Option-cases, inl, inr, ◌≡◌, refl, ap, ◌∙◌, Option, none, some, List, [], ◌∷◌,
  Result, ok, err,
}
use pywayland_i6ie.ProtocolCore.Message.{Ptr}
use pywayland_i6ie.Server.Listeners.{
  Notifications, Listener, Signal, wrapper_of, wrapped, notified, notify_func, notify_all,
}

-- The same callbacks, with other results.
abbrev pub with_results :
    (N : Notifications) → (N.Callback → Ptr → N.Data → N.World → Result (Unit {0})) → Notifications
with_results N results = record N {
  call = λ callback listener found w.
      (results callback listener found w, (N.call callback listener found w).1);
}

module _ (N : Notifications) where
  open N use {World, Data, Callback, Wrapper}

  module _ (results : Callback → Ptr → Data → World → Result (Unit {0})) where
    notified-with_results :
        (callback : Callback) (listener : Ptr) (found : Result Data × World)
        → notified (with_results N results) callback listener found
          ≡ notified N callback listener found
    unfolding notified
    notified-with_results callback listener (err e, w) = refl
    notified-with_results callback listener (ok found, w) = refl

    wrapped-with_results :
        (wrapper : Option Wrapper) (ptr : Ptr) (w : World)
        → wrapped (with_results N results) wrapper ptr w ≡ wrapped N wrapper ptr w
    unfolding wrapped
    wrapped-with_results none ptr w = refl
    wrapped-with_results (some wrapper) ptr w = refl

    wrapper_of-with_results :
        (place : Option ℕ) (signals : List (Signal Wrapper))
        → wrapper_of (with_results N results) place signals ≡ wrapper_of N place signals
    unfolding wrapper_of
    wrapper_of-with_results none signals = refl
    wrapper_of-with_results (some i) signals = elim (Option-cases (get_elem? signals i)) [
      | inl nothing ↦ rw (nothing, wrapper_of) refl
      | inr (signal, at) ↦ rw (at, wrapper_of) refl
    ]

    notify_func-with_results :
        (signals : List (Signal Wrapper)) (listener : Listener Callback) (ptr : Ptr) (w : World)
        → notify_func (with_results N results) signals listener ptr w
          ≡ notify_func N signals listener ptr w
    unfolding notify_func
    notify_func-with_results signals listener ptr w =
        notified-with_results listener.notify listener.address _
        ∙ ap (notified N listener.notify listener.address) (
            wrapped-with_results (wrapper_of (with_results N results) listener.signal signals) ptr w
            ∙ ap (λ o. wrapped N o ptr w) (wrapper_of-with_results listener.signal signals))

    pub notify_all-with_results :
        (signals : List (Signal Wrapper)) (listeners : List (Listener Callback)) (ptr : Ptr)
        → (w : World)
        → notify_all (with_results N results) signals listeners ptr w
          ≡ notify_all N signals listeners ptr w
    unfolding notify_all
    notify_all-with_results signals [] ptr w = refl
    notify_all-with_results signals (listener ∷ listeners) ptr w =
        ap
          (λ (r : Result (Unit {0}) × World).
            notify_all (with_results N results) signals listeners ptr r.1)
          (notify_func-with_results signals listener ptr w)
        ∙ notify_all-with_results signals listeners ptr (notify_func N signals listener ptr w).1

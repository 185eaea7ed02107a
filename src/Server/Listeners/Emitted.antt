-- ===== src/Server/Listeners/Emitted.antt =====
-- Whom a signal notifies: a listener that is added comes last, and one that is removed is left out.
use mathlib.Core.Path.{subst}
use pywayland_i6ie.Base.{
  ℕ, ◌≡◌, refl, sym, ap, ◌∙◌, true, false, Option, some, [], ◌∷◌, ◌++◌, get_elem?, set, ℕ-Eq, In,
  In-append_right, inl,
}
use pywayland_i6ie.ProtocolCore.Message.{Ptr}
use pywayland_i6ie.Server.Listeners.{
  SignalLibrary, Listener, Signal, State, noted, linked, add_noted, add_listener, remove_listener,
  unlinked, Notifications, notify_func, notify_all, data_pointer, emit,
}
use pywayland_i6ie.Server.Listeners.Order.{
  IsOrdered, drop_member, drop_member-append, listeners_in, listeners_in-append, listeners_in-set,
  listener_at-set_self, notify_all-set, notify_all-append, last_notified, get_elem?-set, emit_at,
}

module _ (L : SignalLibrary) (N : Notifications) where
  open N use {World, Data, Callback, Wrapper}

  module _ (ordered : IsOrdered L) (s : State L Callback Wrapper) (i k : ℕ)
      (signal : Signal Wrapper) (listener : Listener Callback) (handle : Option Ptr) (w : World)
      (signal_there : get_elem? s.signals i ≡ some signal)
      (listener_there : get_elem? s.listeners k ≡ some listener) (active : listener.active ≡ true)
      (absent : In listener.address (L.members signal.ptr s.world) → ⊥)
      (unique : (j : ℕ) (l : Listener Callback)
        → get_elem? s.listeners j ≡ some l
        → l.address ≡ listener.address
        → j ≡ k) where
    open ordered use {members-signal_add, members-list_remove, link_added}

    abbrev added : State L Callback Wrapper
    added = (add_listener L Callback Wrapper i k s).1

    abbrev told : Listener Callback
    told = record listener { signal = some i }

    abbrev holding : Signal Wrapper
    holding = record signal { link = signal.link ++ listener.address ∷ [] }

    added_noted :
        add_listener L Callback Wrapper i k s ≡ add_noted L Callback Wrapper i k signal listener s
    unfolding add_listener
    added_noted = rw (signal_there, add_listener) (rw listener_there refl)

    after_add : added ≡ record {
      listeners = set s.listeners k told;
      signals = set s.signals i holding;
      world = L.signal_add signal.ptr listener.address s.world;
    }
    unfolding add_noted noted linked
    after_add =
        ap (λ r. r.1) added_noted
        ∙ ap
            (λ b.
              (linked L Callback Wrapper b signal.ptr listener.address
                (noted L Callback Wrapper i k signal listener s)).1)
            active

    listeners_added :
        listeners_in L N
          (L.members signal.ptr (L.signal_add signal.ptr listener.address s.world))
          (set s.listeners k told)
        ≡ listeners_in L N (L.members signal.ptr s.world) s.listeners ++ told ∷ []
    unfolding listeners_in
    listeners_added =
        let before = L.members signal.ptr s.world in
        ap (λ members. listeners_in L N members (set s.listeners k told))
          (members-signal_add signal.ptr listener.address s.world absent)
        ∙ listeners_in-append L N before (listener.address ∷ []) (set s.listeners k told)
        ∙ ap (λ l. l ++ listeners_in L N (listener.address ∷ []) (set s.listeners k told))
            (listeners_in-set L N before s.listeners k listener told listener_there refl absent)
        ∙ ap (λ l. listeners_in L N before s.listeners ++ (l ++ []))
            (listener_at-set_self L N s.listeners k listener told listener_there refl unique)

    emit_added :
        emit L N i handle added w
        ≡ (notify_func N s.signals told (data_pointer handle) (emit L N i handle s w)).1
    emit_added =
        let before = L.members signal.ptr s.world in
        let listeners = listeners_in L N before s.listeners in
        ap (λ s. emit L N i handle s w) after_add
        ∙ emit_at L N ordered _ i holding handle w
            (get_elem?-set L N s.signals i signal holding signal_there)
        ∙ notify_all-set L N s.signals i signal holding _ (data_pointer handle) w signal_there refl
        ∙ ap (λ l. notify_all N s.signals l (data_pointer handle) w) listeners_added
        ∙ notify_all-append L N s.signals listeners (told ∷ []) (data_pointer handle) w
        ∙ last_notified L N s.signals told (data_pointer handle)
            (notify_all N s.signals listeners (data_pointer handle) w)
        ∙ ap (λ w. (notify_func N s.signals told (data_pointer handle) w).1)
            (sym (emit_at L N ordered s i signal handle w signal_there))

    abbrev gone : Listener Callback
    gone = record told { active = false }

    -- The state once the listener is removed again.
    abbrev removed : State L Callback Wrapper
    removed = record {
      listeners = set (set s.listeners k told) k gone;
      signals = set s.signals i holding;
      world = L.list_remove listener.address (L.signal_add signal.ptr listener.address s.world);
    }

    after_remove : remove_listener L Callback Wrapper k added ≡ removed
    unfolding remove_listener unlinked
    after_remove =
        ap (remove_listener L Callback Wrapper k) after_add
        ∙ rw (get_elem?-set L N s.listeners k listener told listener_there, remove_listener)
            (rw active (rw (link_added signal.ptr listener.address s.world) refl))

    members_removed : L.members signal.ptr removed.world ≡ L.members signal.ptr s.world
    members_removed =
        let before = L.members signal.ptr s.world in
        let appended = members-signal_add signal.ptr listener.address s.world absent in
        let added_in =
          subst (In listener.address) (sym appended)
            (In-append_right listener.address before (listener.address ∷ []) (inl refl)) in
        members-list_remove signal.ptr listener.address
          (L.signal_add signal.ptr listener.address s.world) added_in
        ∙ ap (drop_member listener.address) appended
        ∙ drop_member-append listener.address (L.members signal.ptr s.world) absent

    emit_removed :
        emit L N i handle (remove_listener L Callback Wrapper k added) w ≡ emit L N i handle s w
    emit_removed =
        let before = L.members signal.ptr s.world in
        ap (λ s. emit L N i handle s w) after_remove
        ∙ emit_at L N ordered removed i holding handle w
            (get_elem?-set L N s.signals i signal holding signal_there)
        ∙ notify_all-set L N s.signals i signal holding _ (data_pointer handle) w signal_there refl
        ∙ ap (λ l. notify_all N s.signals l (data_pointer handle) w)
            (ap (λ members. listeners_in L N members removed.listeners) members_removed
              ∙ listeners_in-set L N before (set s.listeners k told) k told gone
                  (get_elem?-set L N s.listeners k listener told listener_there) refl absent
              ∙ listeners_in-set L N before s.listeners k listener told listener_there refl absent)
        ∙ sym (emit_at L N ordered s i signal handle w signal_there)

    -- If a listener that has its pointer and whose address no other listener has is added to a
    -- signal whose list does not have it, then an emission notifies those that it notified before
    -- and then this listener; and if the listener is then removed, an emission is what it was
    -- before it was added; where libwayland adds at the end of a list and notifies its members in
    -- order.
    pub emit-add_listener :
        (emit L N i handle added w
          ≡ (notify_func N s.signals told (data_pointer handle) (emit L N i handle s w)).1)
        × (emit L N i handle (remove_listener L Callback Wrapper k added) w ≡ emit L N i handle s w)
    emit-add_listener = (emit_added, emit_removed)

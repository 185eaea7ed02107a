-- ===== src/Tests/Listeners.antt =====
-- A listener that is added to a signal with another one, and removed.
use pywayland_i6ie.Base.{
  ℕ, zero, suc, Bool, false, get_elem?, ◌≡◌, refl, true, none, some, List, [], ◌∷◌, ◌++◌, In, ◌==◌,
  ℕ-Eq, if◌then◌else◌, arith,
}
use pywayland_i6ie.ProtocolCore.Message.{Ptr}
use pywayland_i6ie.Server.Listeners.{
  SignalLibrary, add_listener, remove_listener, notify_func, notify_at, emit, data_pointer, Signals,
  Signal, Listener,
}
use pywayland_i6ie.Server.Listeners.Emitted.{emit-add_listener}
use pywayland_i6ie.Server.Listeners.Order.{IsOrdered, drop_member, for_each}
use pywayland_i6ie.Server.Listeners.KeptAlive.{}
use pywayland_i6ie.Tests.Additions.{Links, members_of, drop_signal, drop_listener, notifications}

-- A world of lists, and the listeners that have a link.
abbrev LinksHeld : Type 0
LinksHeld = Links × (List Ptr)

abbrev in_list : Ptr → List Ptr → Bool
in_list y [] = false
in_list y (x ∷ xs) = let rest = in_list y xs in if x == y then true else rest

abbrev held_lists : SignalLibrary
held_lists = record {
  World = LinksHeld;
  members = λ p w. members_of p w.0;
  signal_init = λ p w. (drop_signal p w.0, w.1);
  signal_add = λ p y w. (w.0 ++ (p, y) ∷ [], y ∷ w.1);
  list_remove = λ y w. (drop_listener y w.0, drop_member y w.1);
  link_ne_null = λ y w. in_list y w.1;
  signal_emit = λ notify p lists w. for_each notify (members_of p lists.0) w;
}

members_of-add :
    (p y : Ptr) (links : Links) → members_of p (links ++ (p, y) ∷ []) ≡ members_of p links ++ y ∷ []
members_of-add p y [] = ground arith
members_of-add p y ((q, x) ∷ links) = ground (arith, members_of-add p y links)

members_of-drop_listener :
    (p y : Ptr) (links : Links)
    → members_of p (drop_listener y links) ≡ drop_member y (members_of p links)
members_of-drop_listener p y [] = refl
members_of-drop_listener p y ((q, x) ∷ links) = ground (arith, members_of-drop_listener p y links)

held_lists-IsOrdered : IsOrdered held_lists
held_lists-IsOrdered = record {
  members-signal_add = λ p y w _. members_of-add p y w.0;
  members-list_remove = λ p y w _. members_of-drop_listener p y w.0;
  link_added = λ p y w. ground arith;
  emitted = λ notify p lists w. refl;
}

abbrev one_signal : Signal ℕ
one_signal = record { ptr = 1000; data_wrapper = some 7; link = 24 ∷ [] }

abbrev first_listener : Listener ℕ
first_listener = record { address = 24; active = true; notify = 1; signal = some 0 }

abbrev second_listener : Listener ℕ
second_listener = record { address = 8; active = true; notify = 2; signal = none }

abbrev one_added : Signals held_lists ℕ ℕ
one_added = record {
  listeners = first_listener ∷ second_listener ∷ [];
  signals = one_signal ∷ [];
  world = ((1000, 24) ∷ [], 24 ∷ []);
}

first_emitted : emit held_lists notifications 0 (some 500) one_added [] ≡ 1 ∷ []
unfolding emit notify_at
first_emitted = refl

not_added : In {A = Ptr} 8 (24 ∷ []) → ⊥
not_added m = ground arith

second_alone :
    (j : ℕ) (l : Listener ℕ) → get_elem? one_added.listeners j ≡ some l → l.address ≡ 8 → j ≡ 1
second_alone zero l at same = ground arith
second_alone (suc zero) l at same = refl
second_alone (suc (suc j)) l at same = absurd (cc)

emit-add_listener_example :
    (emit held_lists notifications 0 (some 500) (add_listener held_lists ℕ ℕ 0 1 one_added).1 []
      ≡ (notify_func notifications one_added.signals
          (record second_listener { signal = some 0 })
          500
          (emit held_lists notifications 0 (some 500) one_added [])).1)
    × (emit held_lists notifications 0
          (some 500)
          (remove_listener held_lists ℕ ℕ 1 (add_listener held_lists ℕ ℕ 0 1 one_added).1)
          []
        ≡ emit held_lists notifications 0 (some 500) one_added [])
unfolding data_pointer
emit-add_listener_example =
    emit-add_listener held_lists notifications held_lists-IsOrdered one_added 0 1 one_signal
      second_listener (some 500) [] refl refl refl not_added second_alone

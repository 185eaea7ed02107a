-- ===== src/Tests/Additions.antt =====
-- Two listeners on a signal, one of which is removed, and one that raises.
use pywayland_i6ie.Base.{
  ℕ, ◌≡◌, refl, true, none, some, List, map, [], ◌∷◌, ◌++◌, Result, ok, err, type_error,
  plain_exception, In, ◌==◌, ℕ-Eq, if◌then◌else◌, arith, ◌⊎◌, inl, inr,
}
use pywayland_i6ie.ProtocolCore.Message.{Ptr}
use pywayland_i6ie.Server.Listeners.{
  SignalLibrary, make_listener, make_signal, add_listener, remove_listener, Notifications,
  notify_all,
}
use pywayland_i6ie.Server.Listeners.Order.{for_each}
use pywayland_i6ie.Server.Listeners.KeptAlive.{
  IsLawful, AreAllowed, Holds, Operation, makes_listener, makes_signal, adds, removes, operate_all,
  nothing_made, Holds-operate_all,
}

-- The lists as pairs of a signal and a listener.
abbrev pub Links : Type 0
Links = List (Ptr × Ptr)

abbrev pub members_of : Ptr → Links → List Ptr
members_of p [] = []
members_of p ((q, x) ∷ links) = let rest = members_of p links in if q == p then x ∷ rest else rest

abbrev pub drop_signal : Ptr → Links → Links
drop_signal p [] = []
drop_signal p ((q, x) ∷ links) =
    let rest = drop_signal p links in if q == p then rest else (q, x) ∷ rest

abbrev pub drop_listener : Ptr → Links → Links
drop_listener y [] = []
drop_listener y ((q, x) ∷ links) =
    let rest = drop_listener y links in if x == y then rest else (q, x) ∷ rest

abbrev linked_lists : SignalLibrary
linked_lists = record {
  World = Links;
  members = members_of;
  signal_init = drop_signal;
  signal_add = λ p y links. links ++ (p, y) ∷ [];
  list_remove = drop_listener;
  link_ne_null = λ y links. true;
  signal_emit = λ notify p links w. for_each notify (members_of p links) w;
}

dropped_signal :
    (p q x : Ptr) (links : Links)
    → In x (members_of q (drop_signal p links))
    → In x (members_of q links)
dropped_signal p q x [] m = m
dropped_signal p q x ((r, y) ∷ links) m = ground (arith, dropped_signal p q x links)

dropped_listener :
    (q x y : Ptr) (links : Links)
    → In x (members_of q (drop_listener y links))
    → In x (members_of q links)
dropped_listener q x y [] m = m
dropped_listener q x y ((r, z) ∷ links) m = ground (arith, dropped_listener q x y links)

added_listener :
    (p q x y : Ptr) (links : Links)
    → In x (members_of q (links ++ (p, y) ∷ []))
    → ((x ≡ y) × (q ≡ p)) ⊎ In x (members_of q links)
added_listener p q x y [] m = ground arith
added_listener p q x y ((r, z) ∷ links) m = ground (arith, added_listener p q x y links)

linked_lists-IsLawful : IsLawful linked_lists
linked_lists-IsLawful = record {
  init_in = dropped_signal;
  add_in = λ p q x y links free. added_listener p q x y links;
  remove_in = dropped_listener;
}

-- Callbacks are numbers, and so is the one wrapper of data.
abbrev steps : List (Operation ℕ ℕ)
steps =
    makes_signal none 1000 (some 1)
    ∷ makes_listener 24 1
    ∷ makes_listener 8 2
    ∷ makes_listener 40 3
    ∷ adds 0 0
    ∷ adds 0 1
    ∷ adds 0 2
    ∷ removes 1
    ∷ []

still_linked :
    members_of 1000 (operate_all linked_lists ℕ ℕ steps (nothing_made linked_lists ℕ ℕ [])).world
    ≡ 24 ∷ 40 ∷ []
unfolding make_signal make_listener add_listener remove_listener
still_linked = refl

linked_there :
    In 40 (
      members_of 1000 (operate_all linked_lists ℕ ℕ steps (nothing_made linked_lists ℕ ℕ [])).world)
linked_there = rw still_linked (inr (inl refl))

members_of-linked :
    (r x : Ptr) (links : Links)
    → In x (members_of r links)
    → In x (map (λ (link : Ptr × Ptr). link.1) links)
members_of-linked r x [] m = m
members_of-linked r x ((q, y) ∷ links) m = ground (arith, members_of-linked r x links)

steps-AreAllowed : AreAllowed linked_lists ℕ ℕ steps (nothing_made linked_lists ℕ ℕ [])
unfolding make_signal make_listener add_listener remove_listener
steps-AreAllowed = (
  tt,
  (
    tt,
    (
      tt,
      (
        tt,
        (
          λ listener at r m. m,
          (
            λ listener at r m.
                ground (arith, at, members_of-linked r listener.address ((1000, 24) ∷ []) m),
            (
              λ listener at r m.
                  ground (
                    arith,
                    at,
                    members_of-linked r listener.address ((1000, 24) ∷ (1000, 8) ∷ []) m,
                  ),
              (tt, tt),
            ),
          ),
        ),
      ),
    ),
  ),
)

Holds-operate_all_example :
    Holds (operate_all linked_lists ℕ ℕ steps (nothing_made linked_lists ℕ ℕ [])).signals 1000 40
Holds-operate_all_example =
    Holds-operate_all linked_lists linked_lists-IsLawful ℕ ℕ steps [] 1000 40 (λ q y m. m)
      steps-AreAllowed linked_there

-- A listener that was removed has no pointer: cffi refuses it, but it has been noted by the signal.
added_again :
    (add_listener linked_lists ℕ ℕ 0 1
      (operate_all linked_lists ℕ ℕ steps (nothing_made linked_lists ℕ ℕ []))).0
    ≡ err type_error
unfolding make_signal make_listener add_listener remove_listener
added_again = refl

-- The world is the callbacks that were called; the first one raises.
abbrev called : ℕ → Ptr → ℕ → List ℕ → Result (Unit {0}) × List ℕ
called callback listener found w =
    (if callback == 1 then err plain_exception else ok tt, w ++ callback ∷ [])

abbrev pub notifications : Notifications
notifications = record {
  Callback = ℕ;
  Wrapper = ℕ;
  Data = ℕ;
  World = List ℕ;
  raw = λ ptr. ptr;
  wrap = λ wrapper ptr w. (ok wrapper, w);
  call = called;
}

all_notified :
    notify_all notifications
      (operate_all linked_lists ℕ ℕ steps (nothing_made linked_lists ℕ ℕ [])).signals
      (operate_all linked_lists ℕ ℕ steps (nothing_made linked_lists ℕ ℕ [])).listeners
      0
      []
    ≡ 1 ∷ 2 ∷ 3 ∷ []
unfolding make_signal make_listener add_listener remove_listener notify_all
all_notified = refl

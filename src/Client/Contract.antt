-- ===== src/Client/Contract.antt =====
-- What libwayland asks of the calls that are made to it, replayed on what is alive.
use pywayland_i6ie.Base.{
  Option, none, some, List, [], ◌∷◌, ◌++◌, ◌≡◌, ◌≢◌, refl, ap, ◌∙◌, arith, if◌then◌else◌, ◌==◌,
  ℕ-Eq,
}
use pywayland_i6ie.ProtocolCore.Message.{Ptr}
use pywayland_i6ie.Client.{Call, connected, created, destroy, display_disconnect}

-- The connection, and the proxies and queues that are alive.
pub record Alive : Type 0 where
  pub display : Option Ptr
  pub objects : List Ptr

abbrev pub nothing_alive : Alive
nothing_alive = record { display = none; objects = [] }

abbrev cons_some : Ptr → Option (List Ptr) → Option (List Ptr)
cons_some q none = none
cons_some q (some objects) = some (q ∷ objects)

-- A pointer is freed if it is there.
abbrev pub remove : Ptr → List Ptr → Option (List Ptr)
remove p [] = none
remove p (q ∷ objects) =
    let rest = remove p objects in if q == p then some objects else cons_some q rest

abbrev pub after_remove : Alive → Option (List Ptr) → Option Alive
after_remove alive none = none
after_remove alive (some objects) = some (record alive { objects = objects })

abbrev pub create : Option Ptr → Ptr → List Ptr → Option Alive
create none p objects = none
create (some d) p objects = some (record { display = some d; objects = objects ++ p ∷ [] })

abbrev pub connect_one : Option Ptr → Ptr → List Ptr → Option Alive
connect_one none p objects = some (record { display = some p; objects = objects })
connect_one (some _) p objects = none

abbrev pub disconnect_one : Option Ptr → Ptr → List Ptr → Option Alive
disconnect_one (some d) p [] = if d == p then some nothing_alive else none
disconnect_one _ p objects = none

-- One call: there is one connection at a time, objects are made on a connection, freed once and
-- while it is there, and a connection is closed when its objects are gone.
abbrev pub perform : Call → Alive → Option Alive
perform (connected p) alive = connect_one alive.display p alive.objects
perform (created kind p) alive = create alive.display p alive.objects
perform (destroy kind p) alive = elim alive.display [
  | none ↦ none
  | some _ ↦ after_remove alive (remove p alive.objects)
]
perform (display_disconnect p) alive = disconnect_one alive.display p alive.objects

abbrev pub and_then : Option Alive → (Alive → Option Alive) → Option Alive
and_then none next = none
and_then (some alive) next = next alive

abbrev pub replay : List Call → Alive → Option Alive
replay [] alive = some alive
replay (call ∷ calls) alive = and_then (perform call alive) (replay calls)

and_then_assoc :
    (o : Option Alive) (f g h : Alive → Option Alive)
    → ((alive : Alive) → h alive ≡ and_then (f alive) g)
    → and_then o h ≡ and_then (and_then o f) g
and_then_assoc none f g h same = refl
and_then_assoc (some alive) f g h same = same alive

replay-append :
    (xs ys : List Call) (alive : Alive)
    → replay (xs ++ ys) alive ≡ and_then (replay xs alive) (replay ys)
replay-append [] ys alive = refl
replay-append (x ∷ xs) ys alive =
    and_then_assoc (perform x alive) (replay xs) (replay ys) (replay (xs ++ ys))
      (replay-append xs ys)

-- More calls are replayed from what is alive after the first ones.
pub replay-append-some :
    (xs ys : List Call) (start middle : Alive)
    → replay xs start ≡ some middle
    → replay (xs ++ ys) start ≡ replay ys middle
replay-append-some xs ys start middle e =
    replay-append xs ys start ∙ ap (λ o. and_then o (replay ys)) e

pub remove_self : (p : Ptr) (objects : List Ptr) → remove p (p ∷ objects) ≡ some objects
remove_self p objects = ground arith

pub remove_ne :
    (p q : Ptr) (objects rest : List Ptr)
    → p ≢ q
    → remove p objects ≡ some rest
    → remove p (q ∷ objects) ≡ some (q ∷ rest)
remove_ne p q objects rest differ e = ground arith

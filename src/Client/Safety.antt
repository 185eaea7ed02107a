-- ===== src/Client/Safety.antt =====
-- Every reachable session has kept libwayland's contract.
use mathlib.Core.List.{append-nil}
use pywayland_i6ie.Base.{
  Option, none, some, ok, err, [], ◌∷◌, ◌≡◌, refl, ◌∙◌, In, inl, inr, ◌==◌, ℕ-Eq, Option-cases,
  Bool-cases,
}
use pywayland_i6ie.ProtocolCore.Message.{Ptr, null}
use pywayland_i6ie.Client.{
  Kind, proxy, queue, Child, destroy, Session, connection, add_proxy, add_queue, freeing,
  destroy_calls, collect_calls, destroy_child, collect_child, disconnect, unset, destroyed,
  collected, Walk, destroy_children, disconnected,
}
use pywayland_i6ie.Client.Contract.{nothing_alive, replay}
use pywayland_i6ie.Client.Lifecycle.{
  pointers, Step, connects, gets_proxy, gets_queue, destroys, collects, disconnects, Reachable,
  start, next, alive, IsSound, destroys_display, pointers-append,
}
use pywayland_i6ie.Client.Walk.{WalkedFrom, AllSet, destroy_children-ok}
use pywayland_i6ie.Client.Soundness.{
  session-IsSound, connect-IsSound, add_child-IsSound, update_child-IsSound, same_pointers-IsSound,
}
use pywayland_i6ie.Client.Closing.{
  replay-all_disconnected, walked_from, disconnect-IsSound, destroy_display-IsSound,
}

calls-none : (display : Option Ptr) (c : Child) → c.ptr ≡ none → destroy_calls display c ≡ []
unfolding destroy_calls freeing
calls-none none c e = rw e refl
calls-none (some _) c e = rw e refl

calls-some :
    (display : Option Ptr) (c : Child) (p d : Ptr)
    → c.ptr ≡ some p
    → connection display ≡ some d
    → destroy_calls display c ≡ destroy c.kind p ∷ []
unfolding destroy_calls freeing
calls-some none c p d e on = absurd (cc)
calls-some (some x) c p d e on = rw e refl

collected-none :
    (display : Option Ptr) (kind : Kind) (c : Child)
    → c.kind ≡ kind
    → c.ptr ≡ none
    → collect_calls display c ≡ []
unfolding collect_calls freeing
collected-none display proxy c k e = rw (k, e) refl
collected-none none queue c k e = rw (k, e) refl
collected-none (some _) queue c k e = rw (k, e) refl
collected-none none unset c k e = rw (k, e) refl
collected-none (some _) unset c k e = rw (k, e) refl

collected-some :
    (display : Option Ptr) (kind : Kind) (c : Child) (p d : Ptr)
    → c.kind ≡ kind
    → c.ptr ≡ some p
    → connection display ≡ some d
    → collect_calls display c ≡ destroy c.kind p ∷ []
unfolding collect_calls freeing
collected-some display proxy c p d k e on = rw (k, e) refl
collected-some none queue c p d k e on = absurd (cc)
collected-some (some x) queue c p d k e on = rw (k, e) refl
collected-some none unset c p d k e on = absurd (cc)
collected-some (some x) unset c p d k e on = rw (k, e) refl

add_proxy-IsSound :
    (s : Session) (d found : Ptr)
    → IsSound s
    → connection s.ptr ≡ some d
    → (In found (pointers s.children) → ⊥)
    → IsSound (add_proxy found s).1
unfolding add_proxy
add_proxy-IsSound s d found h on fresh = elim (Bool-cases (found == null)) [
  | inl e ↦
      let same =
        pointers-append s.children (record { kind = unset; ptr = none } ∷ [])
        ∙ append-nil (pointers s.children) in
      rw e (same_pointers-IsSound s _ same h)
  | inr e ↦ rw e (add_child-IsSound s proxy d found h on fresh)
]

add_queue-IsSound :
    (s : Session) (found : Ptr)
    → IsSound s
    → (In found (pointers s.children) → ⊥)
    → IsSound (add_queue found s).1
unfolding add_queue
add_queue-IsSound s found h fresh = elim (Option-cases (connection s.ptr)) [
  | inl off ↦ rw (off, add_queue) h
  | inr (d, on) ↦ rw (on, add_queue) (add_child-IsSound s queue d found h on fresh)
]

Step-IsSound : (s t : Session) → Step s t → IsSound s → IsSound t
unfolding destroy_child collect_child
Step-IsSound s t (connects _ found off) h = connect-IsSound s found h off
Step-IsSound s t (gets_proxy _ d found on fresh) h = add_proxy-IsSound s d found h on fresh
Step-IsSound s t (gets_queue _ found fresh) h = add_queue-IsSound s found h fresh
Step-IsSound s t (destroys _ k) h =
    update_child-IsSound s destroyed (destroy_calls s.ptr) k h (λ c. refl) (calls-none s.ptr)
      (calls-some s.ptr)
Step-IsSound s t (collects _ k) h =
    update_child-IsSound s collected (collect_calls s.ptr) k h (λ c. refl)
      (λ c. collected-none s.ptr c.kind c refl) (λ c p d. collected-some s.ptr c.kind c p d refl)
Step-IsSound s t (disconnects _) h = disconnect-IsSound s h
Step-IsSound s t (destroys_display _ borrowed empty) h = destroy_display-IsSound borrowed s h empty

Reachable-IsSound : (s : Session) → Reachable s → IsSound s
Reachable-IsSound s start = session-IsSound
Reachable-IsSound s (next {s = r} reached step) =
    Step-IsSound r s step (Reachable-IsSound r reached)

all_freed :
    (s : Session) (d : Ptr) (walk : Walk)
    → IsSound s
    → connection s.ptr ≡ some d
    → WalkedFrom d s.children walk
    → walk.0 ≡ ok tt
    → ((disconnected d s walk).0 ≡ ok tt)
      × ((disconnected d s walk).1.ptr ≡ none)
      × (pointers (disconnected d s walk).1.children ≡ [])
      × (replay (disconnected d s walk).1.calls nothing_alive ≡ some nothing_alive)
unfolding disconnected
all_freed s d (ok tt, (rest, calls)) h on (walked, _, empty) e =
    (refl, refl, empty refl, replay-all_disconnected s d rest calls h on walked (empty refl))
all_freed s d (err x, (rest, calls)) h on walk e = absurd (cc)

-- Whatever sequence of steps led to a session, where the client connects only while it is not
-- connected, gets proxies only while it is, calls the `destroy` that the display inherits only when
-- it has no proxy or queue left, and libwayland gives pointers that are not in use, the calls that
-- it made keep what libwayland asks: no pointer is freed twice or after its connection was closed,
-- and no connection is closed before its proxies and queues. What is alive then is the connection
-- and the pointers of the children.
pub replay-Reachable : (s : Session) → Reachable s → replay s.calls nothing_alive ≡ some (alive s)
replay-Reachable s reached = (Reachable-IsSound s reached).replayed

-- When a session that is connected was reached by such steps and none of its children is an object
-- whose `__init__` raised, `disconnect` returns, the display and its children have no pointers, and
-- all that was made has been freed.
pub replay-disconnect_all :
    (s : Session) (d : Ptr)
    → Reachable s
    → connection s.ptr ≡ some d
    → AllSet s.children
    → ((disconnect s).0 ≡ ok tt)
      × ((disconnect s).1.ptr ≡ none)
      × (pointers (disconnect s).1.children ≡ [])
      × (replay (disconnect s).1.calls nothing_alive ≡ some nothing_alive)
unfolding disconnect
replay-disconnect_all s d reached on all =
    rw (on, disconnect)
      (all_freed s d (destroy_children s.ptr s.children) (Reachable-IsSound s reached) on
        (walked_from s d on) (destroy_children-ok s.ptr s.children all))

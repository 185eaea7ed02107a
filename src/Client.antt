-- ===== src/Client.antt =====
-- The client's connection and what hangs on it: `Display.connect` and `Display.disconnect` of
-- pywayland/client/display.py, the proxies of pywayland/protocol_core/proxy.py and the queues of
-- pywayland/client/eventqueue.py, as far as pointers are made and freed.
pub mod Closing
pub mod Walk
pub mod Soundness
pub mod Contract
pub mod Events
pub mod Lifecycle
pub mod Safety
use pywayland_i6ie.Base.{
  ℕ, Bool, Option, none, some, List, [], ◌∷◌, ◌++◌, Result, ok, err, value_error, runtime_error,
  attribute_error, get_elem?, set, if◌then◌else◌, ◌==◌, ℕ-Eq,
}
use pywayland_i6ie.ProtocolCore.Message.{Ptr, null}

-- An object that is `unset` is a Proxy whose `__init__` raised before `_ptr` was assigned.
pub data Kind : Type 0 where
  proxy queue unset : Kind

-- A Proxy or an EventQueue of the display; `_ptr` is `None` once it is destroyed, and for an object
-- that is unset.
pub record Child : Type 0 where
  pub kind : Kind
  pub ptr : Option Ptr

-- What libwayland is asked for: a connection or an object that it gave, or one that it is to free.
pub data Call : Type 0 where
  connected : Ptr → Call
  created : Kind → Ptr → Call
  destroy : Kind → Ptr → Call
  display_disconnect : Ptr → Call

-- A Display, with the calls that were made so far, the first one first.
pub record Session : Type 0 where
  pub ptr : Option Ptr
  pub children : List Child
  pub calls : List Call

-- `Display(name_or_fd)`
unfoldable pub session : Session
session = record { ptr = none; children = []; calls = [] }

-- Whether `_ptr` is truthy: `None` and NULL are not.
abbrev pub connection : Option Ptr → Option Ptr
connection none = none
connection (some p) = if p == null then none else some p

-- The pointer that `connect` overwrites is collected, and `ffi.gc` disconnects it.
dropped : Option Ptr → List Call
dropped none = []
dropped (some p) = display_disconnect p ∷ []

-- `connect`, for the pointer that `wl_display_connect` or `wl_display_connect_to_fd` returned; NULL
-- is stored before it is refused.
unfoldable pub connect : Ptr → Session → Result (Unit {0}) × Session
unfolding dropped
connect found s =
    let old = dropped (connection s.ptr) in
    if found == null
    then (err value_error, record s { ptr = some null; calls = s.calls ++ old })
    else (ok tt, record s { ptr = some found; calls = s.calls ++ connected found ∷ old })

-- `Proxy(ptr, display)`; an object that NULL is given for is among the children as long as it is
-- alive, which it is where the exception leads to it.
unfoldable pub add_proxy : Ptr → Session → Result (Unit {0}) × Session
add_proxy found s =
    if found == null
    then (
      err runtime_error,
      record s { children = s.children ++ record { kind = unset; ptr = none } ∷ [] },
    )
    else (
      ok tt,
      record s {
        children = s.children ++ record { kind = proxy; ptr = some found } ∷ [];
        calls = s.calls ++ created proxy found ∷ [];
      },
    )

-- `EventQueue(display)`, for the pointer that `wl_display_create_queue` returned.
unfoldable pub add_queue : Ptr → Session → Result (Unit {0}) × Session
add_queue found s = elim (connection s.ptr) [
  | none ↦ (err value_error, s)
  | some _ ↦ (
    ok tt,
    record s {
      children = s.children ++ record { kind = queue; ptr = some found } ∷ [];
      calls = s.calls ++ created queue found ∷ [];
    },
  )
]

-- What releasing or collecting a pointer asks for: the destructor of a queue looks at the display
-- first, and a proxy's `_destroy` removes the destructor if the display is gone.
freeing : Option Ptr → Kind → Option Ptr → List Call
freeing display kind none = []
freeing none kind (some p) = []
freeing (some _) kind (some p) = destroy kind p ∷ []

abbrev destroyed : Child → Child
destroyed c = record c { ptr = none }

-- `Proxy._destroy` and `EventQueue.destroy`, by the calls; the child is `destroyed` then. For an
-- object that is unset there is nothing to do but raise.
unfoldable pub destroy_calls : Option Ptr → Child → List Call
unfolding freeing
destroy_calls display c = freeing display c.kind c.ptr

pub update_child : (Child → Child) → (Child → List Call) → ℕ → Session → Session
update_child becomes frees k s = elim (get_elem? s.children k) [
  | none ↦ s
  | some c ↦ record s { children = set s.children k (becomes c); calls = s.calls ++ frees c }
]

unfoldable pub destroy_child : ℕ → Session → Session
unfolding update_child destroy_calls
destroy_child k s = update_child destroyed (destroy_calls s.ptr) k s

-- The cdata of a proxy has `wl_proxy_destroy` for its destructor, whatever the display is.
collect_calls : Option Ptr → Child → List Call
unfolding freeing
collect_calls display c = elim c.kind [
  | proxy ↦ freeing (some null) proxy c.ptr
  | queue ↦ freeing display queue c.ptr
  | unset ↦ freeing display unset c.ptr
]

abbrev pub collected : Child → Child
collected c = record {
  kind = elim c.kind [ proxy ↦ proxy | queue ↦ queue | unset ↦ proxy ];
  ptr = none;
}

-- An object that nothing refers to is collected. It is no longer in `_children`; here it stays
-- there as one that is destroyed, at which nothing looks.
unfoldable pub collect_child : ℕ → Session → Session
unfolding update_child collect_calls
collect_child k s = update_child collected (collect_calls s.ptr) k s

-- What is left of the children, and the calls, when the loop of `disconnect` ends or raises.
abbrev pub Walk : Type 0
Walk = Result (Unit {0}) × (List Child × List Call)

-- `obj.destroyed` raises for an object that is unset; one that is destroyed is left alone.
walk_on : Option Ptr → Kind → Child → List Child → Walk → Walk
unfolding destroy_calls
walk_on display unset c children rest = (err attribute_error, (c ∷ children, []))
walk_on display _ c children (r, (rest, calls)) =
    (r, (destroyed c ∷ rest, destroy_calls display c ++ calls))

pub destroy_children : Option Ptr → List Child → Walk
unfolding walk_on
destroy_children display [] = (ok tt, ([], []))
destroy_children display (c ∷ children) =
    walk_on display c.kind c children (destroy_children display children)

pub disconnected : Ptr → Session → Walk → Result (Unit {0}) × Session
disconnected p s (err e, (children, calls)) =
    (err e, record s { children = children; calls = s.calls ++ calls })
disconnected p s (ok _, (children, calls)) = (
  ok tt,
  record {
    ptr = none;
    children = children;
    calls = s.calls ++ (calls ++ display_disconnect p ∷ []);
  },
)

-- `disconnect`
unfoldable pub disconnect : Session → Result (Unit {0}) × Session
unfolding destroy_children disconnected
disconnect s = elim (connection s.ptr) [
  | none ↦ (ok tt, s)
  | some p ↦ disconnected p s (destroy_children s.ptr s.children)
]

-- `destroy` of a display, which is that of a proxy: the pointer is released, and the children are
-- left as they are. `borrowed` is what `ffi.release` does with NULL, which has no destructor.
unfoldable pub destroy_display : Result (Unit {0}) → Session → Result (Unit {0}) × Session
destroy_display borrowed s = elim s.ptr [
  | none ↦ (ok tt, s)
  | some p ↦
      let unowned : Result (Unit {0}) × Session = elim borrowed [
        | ok _ ↦ (ok tt, record s { ptr = none })
        | err e ↦ (err e, s)
      ] in
      if p == null
      then unowned
      else (ok tt, record s { ptr = none; calls = s.calls ++ display_disconnect p ∷ [] })
]

-- What a `with` statement ends with, for how its body ended and how `__exit__` did.
exited : {A : Type 0} → Result A → Result (Unit {0}) × Session → Result A × Session
exited ret (ok _, s) = (ret, s)
exited ret (err e, s) = (err e, s)

-- `with display: body`, for the pointer that connecting gives: the body runs only if that does not
-- raise, and what it ends with is passed on, unless disconnecting raises.
in_session :
    {A : Type 0} → (Session → Result A × Session) → Result (Unit {0}) × Session → Result A × Session
unfolding disconnect exited
in_session body (err e, s) = (err e, s)
in_session body (ok _, s) = let (ret, s') = body s in exited ret (disconnect s')

unfoldable pub with_session :
    {A : Type 0} → Ptr → (Session → Result A × Session) → Session → Result A × Session
unfolding in_session connect
with_session found body s = in_session body (connect found s)

-- ===== src/Server.antt =====
-- pywayland/server/eventloop.py: an event loop and its sources.
pub mod Display
pub mod Listeners
pub mod Methods
pub mod Callbacks
pub mod Counts
pub mod Sources
use pywayland_i6ie.Base.{
  ℕ, ℤ, Bool, true, false, Option, none, some, List, [], ◌∷◌, ◌++◌, Result, ok, err, value_error,
  get_elem?, set,
}
use pywayland_i6ie.ProtocolCore.Message.{Ptr}

-- What a source waits for: a descriptor with a mask, a signal, a timer, or an idle loop.
pub data Watched : Type 0 where
  fd : ℤ → ℤ → Watched
  signal : ℤ → Watched
  timer idle : Watched

-- The calls of libwayland, with the pointer that a source was added as.
pub data LoopCall : Type 0 where
  add : Ptr → Watched → Ptr → LoopCall
  remove : Ptr → LoopCall
  destroy_loop : Ptr → LoopCall

-- A callback with its data, by its identity.
abbrev pub CallbackInfo : Type 0
CallbackInfo = ℕ

-- `owned` tells whether the pointer is the loop's own, with a destructor, or that of a display's
-- loop; a source is its `_ptr`, which is `None` once it is removed. `event_sources` holds the
-- sources weakly: one that the program discards is missing from it, and here it stays as one
-- without a pointer, with the pointer that nothing removes any more among those that are
-- `discarded`.
pub record EventLoop : Type 0 where
  pub ptr : Option Ptr
  pub owned : Bool
  pub sources : List (Option Ptr)
  pub discarded : List Ptr
  pub handles : List CallbackInfo
  pub calls : List LoopCall

-- `EventLoop()` and `EventLoop(display)`, for the pointer that libwayland returned.
unfoldable pub event_loop : Bool → Ptr → EventLoop
event_loop owned ptr = record {
  ptr = some ptr;
  owned = owned;
  sources = [];
  discarded = [];
  handles = [];
  calls = [];
}

-- `add_fd`, `add_signal`, `add_timer` and `add_idle`, for the pointer of the source.
unfoldable pub add_source : Watched → CallbackInfo → Ptr → EventLoop → Result (Unit {0}) × EventLoop
add_source what callback found e = elim e.ptr [
  | none ↦ (err value_error, e)
  | some loop ↦ (
    ok tt,
    record e {
      sources = e.sources ++ some found ∷ [];
      handles = e.handles ++ callback ∷ [];
      calls = e.calls ++ add loop what found ∷ [];
    },
  )
]

pub removing : Option Ptr → List LoopCall
removing none = []
removing (some p) = remove p ∷ []

-- `EventSource.remove`, of the source at this place.
unfoldable pub remove_source : ℕ → EventLoop → EventLoop
unfolding removing
remove_source k e = elim (get_elem? e.sources k) [
  | none ↦ e
  | some source ↦ record e { sources = set e.sources k none; calls = e.calls ++ removing source }
]

pub discarding : Option Ptr → List Ptr
discarding none = []
discarding (some p) = p ∷ []

-- A source that nothing refers to is collected; no call of libwayland is made for it.
unfoldable pub collect_source : ℕ → EventLoop → EventLoop
unfolding discarding
collect_source k e = elim (get_elem? e.sources k) [
  | none ↦ e
  | some source ↦ record e {
    sources = set e.sources k none;
    discarded = e.discarded ++ discarding source;
  }
]

pub remove_all : List (Option Ptr) → List LoopCall
unfolding removing
remove_all [] = []
remove_all (source ∷ sources) = removing source ++ remove_all sources

pub all_removed : List (Option Ptr) → List (Option Ptr)
all_removed [] = []
all_removed (_ ∷ sources) = none ∷ all_removed sources

-- What is left when `ffi.release` has run the destructor, or raised.
released : Result (Unit {0}) → Ptr → EventLoop → Result (Unit {0}) × EventLoop
released (ok _) ptr e = (ok tt, record e { ptr = none; calls = e.calls ++ destroy_loop ptr ∷ [] })
released (err x) ptr e = (err x, e)

-- `destroy`, over the sources that are not discarded; `borrowed` is what `ffi.release` does with a
-- pointer that has no destructor.
module _ (borrowed : Result (Unit {0})) where
  release : Bool → Ptr → EventLoop → Result (Unit {0}) × EventLoop
  unfolding released
  release true ptr e = released (ok tt) ptr e
  release false ptr e = elim borrowed [
    | ok _ ↦ (ok tt, record e { ptr = none })
    | err x ↦ (err x, e)
  ]

  unfoldable pub destroy_event_loop : EventLoop → Result (Unit {0}) × EventLoop
  unfolding remove_all all_removed release
  destroy_event_loop e = elim e.ptr [
    | none ↦ (ok tt, e)
    | some ptr ↦
        let emptied : EventLoop = record e {
          sources = all_removed e.sources;
          calls = e.calls ++ remove_all e.sources;
        } in
        release e.owned ptr emptied
  ]

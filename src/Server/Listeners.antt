-- ===== src/Server/Listeners.antt =====
-- pywayland/server/listener.py: listeners, signals, and the function that libwayland calls.
pub mod Emitted
pub mod KeptAlive
pub mod Notified
pub mod Order
use pywayland_i6ie.Base.{
  ℕ, suc, Bool, true, false, Option, none, some, List, [], ◌∷◌, ◌++◌, Result, ok, err, type_error,
  get_elem?, set, if◌then◌else◌, ◌==◌, ℕ-Eq,
}
use pywayland_i6ie.ProtocolCore.Message.{Ptr, null}

-- The lists of libwayland on a world of their own: the listeners of the signal at an address, by
-- their addresses, and the functions that change them. `link_ne_null` is what cffi answers when a
-- listener's link is compared with NULL; `signal_emit` is given what a listener's `notify` does.
pub record SignalLibrary : Type 1 where
  pub World : Type 0
  pub members : Ptr → World → List Ptr
  pub signal_init : Ptr → World → World
  pub signal_add : Ptr → Ptr → World → World
  pub list_remove : Ptr → World → World
  pub link_ne_null : Ptr → World → Bool
  pub signal_emit : {W : Type 0} → (Ptr → W → W) → Ptr → World → W → W

-- A listener, at the address of its `wl_listener`; `active` tells whether `_ptr` is that address,
-- or `None`. `signal` is the place of the signal that it was added to last.
pub record Listener (Callback : Type 0) : Type 0 where
  pub address : Ptr
  pub active : Bool
  pub notify : Callback
  pub signal : Option ℕ

-- `Listener(function)`
unfoldable pub new_listener : {Callback : Type 0} → Ptr → Callback → Listener Callback
new_listener address function = record {
  address = address;
  active = true;
  notify = function;
  signal = none;
}

-- `_link` holds the listeners, here by their addresses.
pub record Signal (Wrapper : Type 0) : Type 0 where
  pub ptr : Ptr
  pub data_wrapper : Option Wrapper
  pub link : List Ptr

-- The objects of a program, and the lists of libwayland.
pub record Signals (L : SignalLibrary) (Callback Wrapper : Type 0) : Type 0 where
  pub listeners : List (Listener Callback)
  pub signals : List (Signal Wrapper)
  pub world : L.World

signal_at : {Wrapper : Type 0} → Ptr → Option Wrapper → Signal Wrapper
signal_at ptr wrapper = record { ptr = ptr; data_wrapper = wrapper; link = [] }

module _ (L : SignalLibrary) (Callback Wrapper : Type 0) where
  abbrev pub State : Type 0
  State = Signals L Callback Wrapper

  -- `Listener(function)`, kept by the program.
  unfoldable pub make_listener : Ptr → Callback → State → State
  unfolding new_listener
  make_listener address function s = record s {
    listeners = s.listeners ++ new_listener address function ∷ [];
  }

  -- `Signal(ptr=ptr, data_wrapper=wrapper)`; `fresh` is the struct that is made where none is
  -- given.
  unfoldable pub make_signal : Option Ptr → Ptr → Option Wrapper → State → State
  unfolding signal_at
  make_signal none fresh wrapper s = record s {
    signals = s.signals ++ signal_at fresh wrapper ∷ [];
    world = L.signal_init fresh s.world;
  }
  make_signal (some ptr) fresh wrapper s = record s {
    signals = s.signals ++ signal_at ptr wrapper ∷ [];
  }

  -- The assignments of `add`, which come before the call.
  noted : ℕ → ℕ → Signal Wrapper → Listener Callback → State → State
  noted i k signal listener s = record s {
    listeners = set s.listeners k (record listener { signal = some i });
    signals = set s.signals i (record signal { link = signal.link ++ listener.address ∷ [] });
  }

  -- cffi refuses `None` for the listener's pointer.
  linked : Bool → Ptr → Ptr → State → Result (Unit {0}) × State
  linked false ptr listener s = (err type_error, s)
  linked true ptr listener s = (ok tt, record s { world = L.signal_add ptr listener s.world })

  add_noted : ℕ → ℕ → Signal Wrapper → Listener Callback → State → Result (Unit {0}) × State
  unfolding noted linked
  add_noted i k signal listener s =
      linked listener.active signal.ptr listener.address (noted i k signal listener s)

  -- `Signal.add`, of the listener at place `k` to the signal at place `i`.
  unfoldable pub add_listener : ℕ → ℕ → State → Result (Unit {0}) × State
  unfolding add_noted
  add_listener i k s = elim (get_elem? s.signals i) [
    | none ↦ (ok tt, s)
    | some signal ↦ (elim (get_elem? s.listeners k) [
      | none ↦ (ok tt, s)
      | some listener ↦ add_noted i k signal listener s
    ])
  ]

  unlinked : ℕ → Listener Callback → State → State
  unlinked k listener s = record s {
    listeners = set s.listeners k (record listener { active = false });
    world = L.list_remove listener.address s.world;
  }

  -- `Listener.remove`
  unfoldable pub remove_listener : ℕ → State → State
  unfolding unlinked
  remove_listener k s = elim (get_elem? s.listeners k) [
    | none ↦ s
    | some listener ↦
        if listener.active
        then if L.link_ne_null listener.address s.world then unlinked k listener s else s
        else s
  ]

-- Callbacks and wrappers of data on a world of their own, which may raise; data are pointers at
-- first.
pub record Notifications : Type 1 where
  pub Callback : Type 0
  pub Wrapper : Type 0
  pub Data : Type 0
  pub World : Type 0
  pub raw : Ptr → Data
  pub wrap : Wrapper → Ptr → World → Result Data × World
  pub call : Callback → Ptr → Data → World → Result (Unit {0}) × World

module _ (N : Notifications) where
  open N use {World, Data, Callback, Wrapper}

  -- `_signal` and then `_data_wrapper`, where both are there.
  unfoldable pub wrapper_of : Option ℕ → List (Signal Wrapper) → Option Wrapper
  wrapper_of none signals = none
  wrapper_of (some i) signals = elim (get_elem? signals i) [
    | none ↦ none
    | some signal ↦ signal.data_wrapper
  ]

  unfoldable pub wrapped : Option Wrapper → Ptr → World → Result Data × World
  wrapped none ptr w = (ok (N.raw ptr), w)
  wrapped (some wrapper) ptr w = N.wrap wrapper ptr w

  -- An exception of the callback is logged.
  notified : Callback → Ptr → Result Data × World → Result (Unit {0}) × World
  notified callback listener (err e, w) = (err e, w)
  notified callback listener (ok found, w) =
      let (_, w') = N.call callback listener found w in (ok tt, w')

  -- For the listener that the container's handle leads to.
  unfoldable pub notify_func :
      List (Signal Wrapper) → Listener Callback → Ptr → World → Result (Unit {0}) × World
  unfolding wrapper_of wrapped notified
  notify_func signals listener ptr w =
      notified listener.notify listener.address (wrapped (wrapper_of listener.signal signals) ptr w)

  -- These listeners are notified one after the other; cffi prints an exception and goes on.
  unfoldable pub notify_all : List (Signal Wrapper) → List (Listener Callback) → Ptr → World → World
  unfolding notify_func
  notify_all signals [] ptr w = w
  notify_all signals (listener ∷ listeners) ptr w =
      let (_, w') = notify_func signals listener ptr w in notify_all signals listeners ptr w'

-- The handle of the data, or NULL.
unfoldable pub data_pointer : Option Ptr → Ptr
data_pointer none = null
data_pointer (some handle) = handle

module _ (L : SignalLibrary) (N : Notifications) where
  open N use {Callback, Wrapper}

  pub listener_at : Ptr → List (Listener Callback) → List (Listener Callback)
  listener_at address [] = []
  listener_at address (listener ∷ listeners) =
      let rest = listener_at address listeners in
      if listener.address == address then listener ∷ [] else rest

  -- What cffi does where libwayland notifies the listener at an address; nothing for those of C.
  unfoldable pub notify_at :
      List (Signal Wrapper) → List (Listener Callback) → Ptr → Ptr → N.World → N.World
  unfolding listener_at notify_all
  notify_at signals listeners ptr address w =
      notify_all N signals (listener_at address listeners) ptr w

  -- `Signal.emit`, of the signal at place `i`, by the handle of the data; the callbacks leave the
  -- list as it is.
  unfoldable pub emit : ℕ → Option Ptr → State L Callback Wrapper → N.World → N.World
  unfolding data_pointer
  emit i handle s w = elim (get_elem? s.signals i) [
    | none ↦ w
    | some signal ↦
        L.signal_emit (notify_at s.signals s.listeners (data_pointer handle)) signal.ptr s.world w
  ]

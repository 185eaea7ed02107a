-- ===== src/Server/Display.antt =====
-- pywayland/server/display.py and pywayland/server/client.py, as far as displays and clients are
-- made and freed.
pub mod Matching
pub mod Agreement
pub mod Contract
pub mod Safety
use pywayland_i6ie.Base.{
  ℕ, suc, ℤ, Bool, true, false, Option, none, some, List, [], ◌∷◌, ◌++◌, Result, ok, err,
  value_error, memory_error, get_elem?, set, if◌then◌else◌, ◌==◌, ℕ-Eq,
}
use pywayland_i6ie.ProtocolCore.Message.{Ptr, null}

-- What is asked of libwayland, with the pointers that it gives.
pub data DisplayCall : Type 0 where
  display_created display_destroy_clients display_destroyed : Ptr → DisplayCall
  client_created : Ptr → Ptr → DisplayCall
  client_destroyed : Ptr → DisplayCall

-- The `_ptr` of a client that was made, which has a destructor, and that of one which was given.
pub data ClientCdata : Type 0 where
  own lent : Ptr → ClientCdata

-- A display with the clients of the program, whose `_ptr` is `None` once they are destroyed, the
-- calls so far, the first one first, and the number of errors that were logged.
pub record Display : Type 0 where
  pub ptr : Option Ptr
  pub clients : List (Option ClientCdata)
  pub calls : List DisplayCall
  pub logged : ℕ

abbrev display_at : Ptr → List DisplayCall → Display
display_at ptr calls = record { ptr = some ptr; clients = []; calls = calls; logged = 0 }

-- `Display(ptr)`, for the pointer that `wl_display_create` returns where none is given.
unfoldable pub new_display : Option Ptr → Ptr → Result Display
new_display (some ptr) created = ok (display_at ptr [])
new_display none created =
    if created == null
    then err memory_error
    else ok (display_at created (display_created created ∷ []))

-- The destructor of a display.
full_display_gc : Ptr → List DisplayCall
full_display_gc ptr = display_destroy_clients ptr ∷ display_destroyed ptr ∷ []

-- `Display.destroy`
unfoldable pub destroy_display : Display → Display
unfolding full_display_gc
destroy_display d = elim d.ptr [
  | none ↦ d
  | some ptr ↦ record d { ptr = none; calls = d.calls ++ full_display_gc ptr }
]

-- `with display: body`: the display is destroyed, and what the body ends with is passed on.
unfoldable pub with_display :
    {A : Type 0} → (Display → Result A × Display) → Display → Result A × Display
unfolding destroy_display
with_display body d = let (ret, d') = body d in (ret, destroy_display d')

-- `display` and `fd` of a new client, where they are given.
pub create_client : Bool → Option ℤ → Ptr → Display → Result (Unit {0}) × Display
create_client false fd created d = (err value_error, d)
create_client true none created d = (err value_error, d)
create_client true (some fd) created d = elim d.ptr [
  | none ↦ (err value_error, d)
  | some display ↦ (
    ok tt,
    record d {
      clients = d.clients ++ some (own created) ∷ [];
      calls = d.calls ++ client_created display created ∷ [];
    },
  )
]

-- `Client(display, fd, ptr)`, for the pointer that `wl_client_create` returns; it is not looked at.
unfoldable pub new_client :
    Bool → Option ℤ → Option Ptr → Ptr → Display → Result (Unit {0}) × Display
unfolding create_client
new_client has_display fd none created d = create_client has_display fd created d
new_client has_display fd (some ptr) created d =
    (ok tt, record d { clients = d.clients ++ some (lent ptr) ∷ [] })

-- The destructor of a client.
pub client_destroy : Ptr → Display → Display
client_destroy ptr d = elim d.ptr [
  | none ↦ record d { logged = suc d.logged }
  | some _ ↦ record d { calls = d.calls ++ client_destroyed ptr ∷ [] }
]

abbrev pub forget : ℕ → Display → Display
forget k d = record d { clients = set d.clients k none }

-- A client that nothing refers to is collected; here it stays as one that is destroyed.
collect : ℕ → Option ClientCdata → Display → Display
unfolding client_destroy
collect k none d = d
collect k (some (own ptr)) d = forget k (client_destroy ptr d)
collect k (some (lent ptr)) d = forget k d

unfoldable pub collect_client : ℕ → Display → Display
unfolding collect
collect_client k d = elim (get_elem? d.clients k) [ none ↦ d | some client ↦ collect k client d ]

-- `Client.destroy`, of the client at this place; `borrowed` is what `ffi.release` does with a
-- pointer that has no destructor.
module _ (borrowed : Result (Unit {0})) where
  release : ℕ → Option ClientCdata → Display → Result (Unit {0}) × Display
  unfolding client_destroy
  release k none d = (ok tt, d)
  release k (some (own ptr)) d = (ok tt, forget k (client_destroy ptr d))
  release k (some (lent ptr)) d = elim borrowed [ ok _ ↦ (ok tt, forget k d) | err x ↦ (err x, d) ]

  unfoldable pub destroy_client : ℕ → Display → Result (Unit {0}) × Display
  unfolding release
  destroy_client k d = elim (get_elem? d.clients k) [
    | none ↦ (ok tt, d)
    | some client ↦ release k client d
  ]

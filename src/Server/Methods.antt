-- ===== src/Server/Methods.antt =====
-- The methods of pywayland/server/display.py, client.py and eventloop.py that call libwayland while
-- a pointer is there, and those of pywayland/protocol_core/resource.py.
pub mod Guards
use pywayland_i6ie.Base.{
  ℕ, zero, suc, ℤ, pos, negsuc, Bool, true, false, String, Option, none, some, List, Result, ok,
  err, value_error, runtime_error, assertion_error, type_error, memory_error, plain_exception,
  if◌then◌else◌, ◌==◌, ℕ-Eq,
}
use pywayland_i6ie.ProtocolCore.Message.{Ptr, null}
use pywayland_i6ie.ProtocolCore.Message.Wire.{ObjectId}
use pywayland_i6ie.Server.{EventLoop, event_loop}
use pywayland_i6ie.Server.Display.{ClientCdata, own, lent}

-- The functions that return an int or nothing, with the pointers and numbers that they take.
pub data Request : Type 0 where
  display_add_socket : Ptr → String → Request
  display_get_serial display_next_serial display_terminate display_run : Ptr → Request
  display_init_shm display_flush_clients client_flush : Ptr → Request
  display_add_shm_format : Ptr → ℤ → Request
  client_add_destroy_listener loop_add_destroy_listener resource_add_destroy_listener :
      Ptr → Ptr → Request
  source_check loop_dispatch_idle : Ptr → Request
  source_timer_update loop_dispatch : Ptr → ℤ → Request
  resource_post_error : Ptr → ℤ → String → Request

-- libwayland on a world of its own, called through cffi, which raises if a number does not fit. The
-- other functions give a text or NULL, pointers, three ids, and the object that a handle leads to.
pub record ServerLibrary : Type 1 where
  pub World : Type 0
  pub call : Request → World → Result ℤ × World
  pub add_socket_auto : Ptr → World → Option String × World
  pub get_event_loop : Ptr → World → Ptr × World
  pub get_credentials : Ptr → World → (ℤ × ℤ × ℤ) × World
  pub get_object : Ptr → ℤ → World → Result Ptr × World
  pub get_user_data : Ptr → World → ObjectId × World
  pub get_client : Ptr → World → Ptr × World

-- What `add_socket` returns: the name that it is given, or the bytes that libwayland chose.
pub data SocketName : Type 0 where
  given chosen : String → SocketName

-- The address of a client, with a destructor or without.
abbrev pub address : Option ClientCdata → Option Ptr
address none = none
address (some (own ptr)) = some ptr
address (some (lent ptr)) = some ptr

-- Two pointers are equal if both are `None`, or both have one address.
abbrev pub same_ptr : Option Ptr → Option Ptr → Bool
same_ptr none none = true
same_ptr none (some q) = false
same_ptr (some p) none = false
same_ptr (some p) (some q) = p == q

-- `Client.__eq__`; what it is compared with has no `_ptr`, or this one.
unfoldable pub client_eq : Option ClientCdata → Option (Option ClientCdata) → Bool
client_eq client none = false
client_eq client (some other) = same_ptr (address client) (address other)

module _ (L : ServerLibrary) where
  open L use {World, call}

  abbrev pub Action : Type 0 → Type 0
  Action A = World → Result A × World

  -- `ensure_valid`, around a method with a result of any type.
  unfoldable pub valid : {A : Type 0} → Option Ptr → (Ptr → Action A) → Action A
  valid none method w = (err value_error, w)
  valid (some ptr) method w = method ptr w

  -- A call whose result is not looked at.
  done : Result ℤ × World → Result (Unit {0}) × World
  done (err e, w) = (err e, w)
  done (ok _, w) = (ok tt, w)

  unfoldable pub tell : Request → Action (Unit {0})
  unfolding done
  tell request w = done (call request w)

  ask_name : Option String × World → Result SocketName × World
  ask_name (none, w) = (err runtime_error, w)
  ask_name (some name, w) = (ok (chosen name), w)

  check_name : String → Result ℤ × World → Result SocketName × World
  check_name name (err e, w) = (err e, w)
  check_name name (ok (negsuc zero), w) = (err plain_exception, w)
  check_name name (ok ret, w) = (ok (given name), w)

  socket : Option String → Ptr → Action SocketName
  unfolding ask_name check_name
  socket none ptr w = ask_name (L.add_socket_auto ptr w)
  socket (some name) ptr w = check_name name (call (display_add_socket ptr name) w)

  unfoldable pub add_socket : Option Ptr → Option String → Action SocketName
  unfolding valid socket
  add_socket ptr name = valid ptr (socket name)

  unfoldable pub get_serial : Option Ptr → Action ℤ
  unfolding valid
  get_serial ptr = valid ptr (λ p. call (display_get_serial p))

  unfoldable pub next_serial : Option Ptr → Action ℤ
  unfolding valid
  next_serial ptr = valid ptr (λ p. call (display_next_serial p))

  loop_of : Ptr → Action EventLoop
  unfolding event_loop
  loop_of ptr w = let (loop, w') = L.get_event_loop ptr w in (ok (event_loop false loop), w')

  unfoldable pub display_event_loop : Option Ptr → Action EventLoop
  unfolding valid loop_of
  display_event_loop ptr = valid ptr loop_of

  unfoldable pub terminate : Option Ptr → Action (Unit {0})
  unfolding valid tell
  terminate ptr = valid ptr (λ p. tell (display_terminate p))

  unfoldable pub run_display : Option Ptr → Action (Unit {0})
  unfolding valid tell
  run_display ptr = valid ptr (λ p. tell (display_run p))

  check_shm : Result ℤ × World → Result (Unit {0}) × World
  check_shm (err e, w) = (err e, w)
  check_shm (ok (negsuc zero), w) = (err memory_error, w)
  check_shm (ok ret, w) = (ok tt, w)

  unfoldable pub init_shm : Option Ptr → Action (Unit {0})
  unfolding valid check_shm
  init_shm ptr = valid ptr (λ p w. check_shm (call (display_init_shm p) w))

  -- For the value of the format.
  unfoldable pub add_shm_format : Option Ptr → ℤ → Action (Unit {0})
  unfolding valid tell
  add_shm_format ptr value = valid ptr (λ p. tell (display_add_shm_format p value))

  unfoldable pub flush_clients : Option Ptr → Action (Unit {0})
  unfolding valid tell
  flush_clients ptr = valid ptr (λ p. tell (display_flush_clients p))

  unfoldable pub flush_client : Option ClientCdata → Action (Unit {0})
  unfolding valid tell
  flush_client client = valid (address client) (λ p. tell (client_flush p))

  credentials : Ptr → Action (ℤ × ℤ × ℤ)
  credentials ptr w = let (ids, w') = L.get_credentials ptr w in (ok ids, w')

  unfoldable pub client_credentials : Option ClientCdata → Action (ℤ × ℤ × ℤ)
  unfolding valid credentials
  client_credentials client = valid (address client) credentials

  -- A listener that was removed has no pointer: an assertion of the client, and cffi otherwise.
  asserted : (Ptr → Request) → Option Ptr → Action (Unit {0})
  unfolding tell
  asserted request none w = (err assertion_error, w)
  asserted request (some listener) w = tell (request listener) w

  taken : (Ptr → Request) → Option Ptr → Action (Unit {0})
  unfolding tell
  taken request none w = (err type_error, w)
  taken request (some listener) w = tell (request listener) w

  unfoldable pub client_destroy_listener : Option ClientCdata → Option Ptr → Action (Unit {0})
  unfolding valid asserted
  client_destroy_listener client listener =
      valid (address client) (λ p. asserted (client_add_destroy_listener p) listener)

  -- The object of the handle, or `None` for NULL.
  object_at : Result Ptr × World → Result (Option ObjectId) × World
  object_at (err e, w) = (err e, w)
  object_at (ok res_ptr, w) =
      let (found, w') = L.get_user_data res_ptr w in
      if res_ptr == null then (ok none, w) else (ok (some found), w')

  unfoldable pub client_object : Option ClientCdata → ℤ → Action (Option ObjectId)
  unfolding valid object_at
  client_object client object_id =
      valid (address client) (λ p w. object_at (L.get_object p object_id w))

  -- `Client.from_resource`
  unfoldable pub client_from_resource : Ptr → Action (Option ClientCdata)
  client_from_resource resource w =
      let (client, w') = L.get_client resource w in (ok (some (lent client)), w')

  unfoldable pub check_source : Option Ptr → Action (Unit {0})
  unfolding valid tell
  check_source ptr = valid ptr (λ p. tell (source_check p))

  unfoldable pub timer_update : Option Ptr → ℤ → Action (Unit {0})
  unfolding valid tell
  timer_update ptr timeout = valid ptr (λ p. tell (source_timer_update p timeout))

  unfoldable pub loop_destroy_listener : Option Ptr → Option Ptr → Action (Unit {0})
  unfolding valid taken
  loop_destroy_listener ptr listener = valid ptr (λ p. taken (loop_add_destroy_listener p) listener)

  -- The number of `wl_event_loop_dispatch` is not looked at.
  unfoldable pub dispatch_loop : Option Ptr → ℤ → Action (Unit {0})
  unfolding valid tell
  dispatch_loop ptr timeout = valid ptr (λ p. tell (loop_dispatch p timeout))

  unfoldable pub dispatch_idle : Option Ptr → Action (Unit {0})
  unfolding valid tell
  dispatch_idle ptr = valid ptr (λ p. tell (loop_dispatch_idle p))

  unfoldable pub resource_destroy_listener : Option Ptr → Option Ptr → Action (Unit {0})
  unfolding valid taken
  resource_destroy_listener ptr listener =
      valid ptr (λ p. taken (resource_add_destroy_listener p) listener)

  unfoldable pub post_error : Option Ptr → ℤ → String → Action (Unit {0})
  unfolding valid tell
  post_error ptr code msg = valid ptr (λ p. tell (resource_post_error p code msg))

-- ===== src/Tests/Clients.antt =====
-- A client: a display is connected, gives a proxy and a queue, and is disconnected.
use pywayland_i6ie.Base.{
  pos, ◌≡◌, refl, none, some, List, [], ◌∷◌, ok, err, inl, inr, value_error, attribute_error, Bool,
  true, false, ◌≢◌, length,
}
use pywayland_i6ie.Base.Text.{strip_underscores}
use pywayland_i6ie.ProtocolCore.Message.{
  build_message_struct, message_signature, marshaled_arguments,
}
use pywayland_i6ie.ProtocolCore.Interface.{WlInterface, interface_class, request, event, gen_c}
use pywayland_i6ie.ProtocolCore.Interface.Opcodes.{
  Decorated, as_request, as_event, register, requests_of, events_of, AreBuilt, gen_c-AreBuilt,
}
use pywayland_i6ie.Client.{
  proxy, queue, connected, created, destroy, display_disconnect, Session, session, connection,
  connect, add_proxy, add_queue, destroy_child, disconnect, Kind, unset, collect_child,
  destroy_display,
}
use pywayland_i6ie.Client.Contract.{nothing_alive, replay}
use pywayland_i6ie.Client.Lifecycle.{
  Reachable, start, next, connects, gets_proxy, gets_queue, destroys, alive, pointers,
}
use pywayland_i6ie.Client.Walk.{AllSet}
use pywayland_i6ie.Client.Safety.{replay-Reachable, replay-disconnect_all}
use pywayland_i6ie.Tests.SampleCffi.{sample_cffi}

abbrev is_unset : Kind → Bool
is_unset unset = true
is_unset _ = false

abbrev online : Session
online = (connect 10 session).1

abbrev with_proxy : Session
with_proxy = (add_proxy 20 online).1

abbrev with_queue : Session
with_queue = (add_queue 30 with_proxy).1

abbrev without_proxy : Session
without_proxy = destroy_child 0 with_queue

with_proxy-Reachable : Reachable with_proxy
unfolding connect session
with_proxy-Reachable =
    next (next start (connects session 10 refl)) (gets_proxy online 10 20 refl (λ m. m))

without_proxy-Reachable : Reachable without_proxy
unfolding connect session add_proxy
without_proxy-Reachable =
    next
      (next with_proxy-Reachable (
        gets_queue with_proxy 30 (λ m. elim m [ inl e ↦ absurd (cc) | inr none_left ↦ none_left ])))
      (destroys with_queue 0)

replay-Reachable_example : replay without_proxy.calls nothing_alive ≡ some (alive without_proxy)
replay-Reachable_example = replay-Reachable without_proxy without_proxy-Reachable

without_proxy_connection : connection without_proxy.ptr ≡ some 10
unfolding connect session add_proxy add_queue destroy_child
without_proxy_connection = refl

kinds_differ : (k : Kind) → is_unset k ≡ false → k ≢ unset
kinds_differ proxy e same = absurd (cc)
kinds_differ queue e same = absurd (cc)
kinds_differ unset e same = cc

without_proxy-AllSet : AllSet without_proxy.children
unfolding connect session add_proxy add_queue destroy_child
without_proxy-AllSet = (kinds_differ proxy refl, (kinds_differ queue refl, tt))

replay-disconnect_all_example :
    ((disconnect without_proxy).0 ≡ ok tt)
    × ((disconnect without_proxy).1.ptr ≡ none)
    × (pointers (disconnect without_proxy).1.children ≡ [])
    × (replay (disconnect without_proxy).1.calls nothing_alive ≡ some nothing_alive)
replay-disconnect_all_example =
    replay-disconnect_all without_proxy 10 without_proxy-Reachable without_proxy_connection
      without_proxy-AllSet

-- A proxy that was given NULL: as long as it is alive, disconnecting raises and frees what came
-- before it.
unset_left : disconnect (add_proxy 0 with_proxy).1 ≡ (
  err attribute_error,
  record {
    ptr = some 10;
    children = record { kind = proxy; ptr = none } ∷ record { kind = unset; ptr = none } ∷ [];
    calls = connected 10 ∷ created proxy 20 ∷ destroy proxy 20 ∷ [];
  },
)
unfolding connect session add_proxy disconnect
unset_left = refl

-- `destroy` of a display closes the connection under its proxies, and one that is collected then is
-- freed after it.
closed_first :
    replay (collect_child 0 (destroy_display (err value_error) with_proxy).1).calls nothing_alive
    ≡ none
unfolding connect session add_proxy destroy_display collect_child
closed_first = refl

-- The queue goes before the connection, and the proxy only once.
calls_made :
    (disconnect without_proxy).1.calls
    ≡ connected 10
      ∷ created proxy 20
      ∷ created queue 30
      ∷ destroy proxy 20
      ∷ destroy queue 30
      ∷ display_disconnect 10
      ∷ []
unfolding connect session add_proxy add_queue destroy_child disconnect
calls_made = refl

-- A connection that fails leaves NULL for the pointer.
failed_connection : connect 0 session ≡ (err value_error, record session { ptr = some 0 })
unfolding connect session
failed_connection = refl

abbrev sync_done : List Decorated
sync_done = as_request "sync" [] none ∷ as_event "done" [] none ∷ []

abbrev built_interface : WlInterface
built_interface = record {
  name = "wl_display";
  version = pos 1;
  method_count = 1;
  methods = record { name = "sync"; signature = ""; types = [] } ∷ [];
  event_count = 1;
  events = record { name = "done"; signature = ""; types = [] } ∷ [];
}

built :
    gen_c sample_cffi (λ _. none) (register sync_done (interface_class "wl_display" (pos 1)))
    ≡ ok built_interface
unfolding gen_c interface_class request event build_message_struct message_signature
    marshaled_arguments strip_underscores
built = refl

gen_c-AreBuilt_example :
    AreBuilt sample_cffi (λ _. none) (requests_of sync_done) built_interface.methods
    × AreBuilt sample_cffi (λ _. none) (events_of sync_done) built_interface.events
    × (built_interface.method_count ≡ length built_interface.methods)
    × (built_interface.event_count ≡ length built_interface.events)
gen_c-AreBuilt_example =
    gen_c-AreBuilt sample_cffi (λ _. none) "wl_display" (pos 1) sync_done built_interface built

-- ===== src/Tests/Events.antt =====
-- A display whose queue holds a few events: reading dispatches them first.
use pywayland_i6ie.Base.{
  ℕ, zero, suc, ◌+◌, ℤ, pos, negsuc, ◌≡◌, refl, sym, ap, ok-injective, Option, none, some, ok,
  Result, arith,
}
use pywayland_i6ie.ProtocolCore.Message.{Ptr}
use pywayland_i6ie.Client.Events.{
  Libwayland, Request, dispatch_pending, prepare_read, QueueArgument, Finished, display_read,
  read_rounds, prepare_events, dispatch_pending_events,
}
use pywayland_i6ie.Client.Events.Reading.{Drains, Waited, Ends, display_read-Ends}

-- The world is the number of events; it is not ready to read while there are some.
abbrev prepared : ℕ → ℤ × ℕ
prepared zero = (pos 0, zero)
prepared (suc n) = (negsuc 0, suc n)

abbrev answer : Request → ℕ → ℤ × ℕ
answer (prepare_read _) w = prepared w
answer (dispatch_pending _) w = (pos w, 0)
answer _ w = (pos 0, w)

abbrev events : Libwayland
events = record { World = ℕ; call = answer }

abbrev display_at : ℕ → Option Ptr
display_at w = some 10

abbrev gone : ℕ → Option Ptr
gone w = none

abbrev default : ℕ → QueueArgument
default w = none

events-Drains : Drains events display_at default (λ w. w)
unfolding prepare_events dispatch_pending_events
events-Drains zero w' w'' z ret differ e d =
    absurd (differ (sym (ok-injective (ap (λ (p : Result ℤ × ℕ). p.0) e))))
events-Drains (suc w) w' w'' z ret differ e d =
    let left : 0 ≡ w'' = ap (λ (p : Result ℤ × ℕ). p.1) d in omega arith

display_read-Ends_example :
    (out : Finished events) × (last : ℕ) × (display_read events display_at default (3 + 3) 2
      ≡ some out)
    × Waited events display_at default 2 last
    × Ends events display_at default last out
display_read-Ends_example =
    display_read-Ends events display_at default (λ w. w) events-Drains 3 2 10 refl

read_both : display_read events display_at default 2 2 ≡ some (ok tt, 0)
unfolding display_read read_rounds prepare_events dispatch_pending_events
read_both = refl

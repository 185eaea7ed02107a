-- ===== src/Client/Closing.antt =====
-- Disconnecting, and the `destroy` that a display inherits, keep a session sound.
use mathlib.Core.Path.{subst}
use mathlib.Core.List.{append_assoc}
use pywayland_i6ie.Base.{
  Option, none, some, List, Result, ok, err, Result-cases, [], ◌∷◌, ◌++◌, ◌≡◌, refl, ap, sym, ◌∙◌,
  arith, inl, inr, ◌==◌, ℕ-Eq, Option-cases, Bool-cases,
}
use pywayland_i6ie.ProtocolCore.Message.{Ptr, null}
use pywayland_i6ie.Client.{
  Child, display_disconnect, Session, connection, disconnect, Call, Walk, destroy_children,
  disconnected, destroy_display,
}
use pywayland_i6ie.Client.Contract.{Alive, nothing_alive, replay, replay-append-some}
use pywayland_i6ie.Client.Lifecycle.{pointers, alive, IsSound}
use pywayland_i6ie.Client.Walk.{WalkedFrom, destroy_children-WalkedFrom}
use pywayland_i6ie.Client.Soundness.{}

connection-some : (o : Option Ptr) (d : Ptr) → connection o ≡ some d → o ≡ some d
connection-some none d e = absurd (cc)
connection-some (some p) d e = ground arith

disconnect_last :
    (d : Ptr)
    → replay (display_disconnect d ∷ []) (record { display = some d; objects = [] })
      ≡ some nothing_alive
disconnect_last d = ground arith

replay-disconnected :
    (s : Session) (d : Ptr) (rest : List Child) (calls : List Call)
    → IsSound s
    → connection s.ptr ≡ some d
    → replay calls (record { display = some d; objects = pointers s.children })
      ≡ some (record { display = some d; objects = pointers rest })
    → replay (s.calls ++ calls) nothing_alive
      ≡ some (record { display = some d; objects = pointers rest })
replay-disconnected s d rest calls h on walked =
    replay-append-some s.calls calls nothing_alive (alive s) h.replayed
    ∙ ap
        (λ o.
          replay calls (let r : Alive = record { display = o; objects = pointers s.children } in r))
        on
    ∙ walked

pub replay-all_disconnected :
    (s : Session) (d : Ptr) (rest : List Child) (calls : List Call)
    → IsSound s
    → connection s.ptr ≡ some d
    → replay calls (record { display = some d; objects = pointers s.children })
      ≡ some (record { display = some d; objects = pointers rest })
    → pointers rest ≡ []
    → replay (s.calls ++ (calls ++ display_disconnect d ∷ [])) nothing_alive ≡ some nothing_alive
replay-all_disconnected s d rest calls h on walked empty =
    let before = replay-disconnected s d rest calls h on walked in
    ap (λ all. replay all nothing_alive)
      (sym (append_assoc s.calls calls (display_disconnect d ∷ [])))
    ∙ replay-append-some (s.calls ++ calls) (display_disconnect d ∷ []) nothing_alive _ before
    ∙ ap
        (λ ps.
          replay (display_disconnect d ∷ [])
            (let r : Alive = record { display = some d; objects = ps } in r))
        empty
    ∙ disconnect_last d

disconnected-IsSound :
    (s : Session) (d : Ptr) (walk : Walk)
    → IsSound s
    → connection s.ptr ≡ some d
    → WalkedFrom d s.children walk
    → IsSound (disconnected d s walk).1
unfolding disconnected
disconnected-IsSound s d (ok tt, (rest, calls)) h on (walked, distinct, empty) = record {
  replayed =
      replay-all_disconnected s d rest calls h on walked (empty refl)
      ∙ ap (λ ps. some (let r : Alive = record { display = none; objects = ps } in r))
          (sym (empty refl));
  distinct = distinct h.distinct;
  unconnected = λ _. empty refl;
}
disconnected-IsSound s d (err e, (rest, calls)) h on (walked, distinct, empty) = record {
  replayed =
      replay-disconnected s d rest calls h on walked
      ∙ ap (λ o. some (let r : Alive = record { display = o; objects = pointers rest } in r))
          (sym on);
  distinct = distinct h.distinct;
  unconnected = λ off. absurd (cc);
}

pub walked_from :
    (s : Session) (d : Ptr)
    → connection s.ptr ≡ some d
    → WalkedFrom d s.children (destroy_children s.ptr s.children)
walked_from s d on =
    subst (λ o. WalkedFrom d s.children (destroy_children o s.children))
      (sym (connection-some s.ptr d on)) (destroy_children-WalkedFrom d d s.children)

pub disconnect-IsSound : (s : Session) → IsSound s → IsSound (disconnect s).1
unfolding disconnect
disconnect-IsSound s h = elim (Option-cases (connection s.ptr)) [
  | inl off ↦ rw (off, disconnect) h
  | inr (d, on) ↦
      rw (on, disconnect)
        (disconnected-IsSound s d (destroy_children s.ptr s.children) h on (walked_from s d on))
]

-- With no proxy or queue left, the connection is closed.
closed-IsSound :
    (s : Session) (d : Ptr)
    → IsSound s
    → connection s.ptr ≡ some d
    → pointers s.children ≡ []
    → IsSound (record s { ptr = none; calls = s.calls ++ display_disconnect d ∷ [] })
closed-IsSound s d h on empty = record {
  replayed =
      replay-all_disconnected s d s.children [] h on refl empty
      ∙ ap (λ ps. some (let r : Alive = record { display = none; objects = ps } in r)) (sym empty);
  distinct = h.distinct;
  unconnected = λ _. empty;
}

-- Without a connection, the pointer is given up.
given_up-IsSound :
    (s : Session) → IsSound s → connection s.ptr ≡ none → IsSound (record s { ptr = none })
given_up-IsSound s h off = record {
  replayed =
      h.replayed
      ∙ ap (λ o. some (let r : Alive = record { display = o; objects = pointers s.children } in r))
          off;
  distinct = h.distinct;
  unconnected = λ _. h.unconnected off;
}

pub destroy_display-IsSound :
    (borrowed : Result (Unit {0})) (s : Session)
    → IsSound s
    → pointers s.children ≡ []
    → IsSound (destroy_display borrowed s).1
unfolding destroy_display
destroy_display-IsSound borrowed s h empty = elim (Option-cases s.ptr) [
  | inl gone ↦ rw (gone, destroy_display) h
  | inr (p, there) ↦ elim (Bool-cases (p == null)) [
    | inr other ↦
        let on : connection s.ptr ≡ some p = rw there (rw other refl) in
        rw (there, destroy_display) (rw other (closed-IsSound s p h on empty))
    | inl same ↦
        let off : connection s.ptr ≡ none = rw there (rw same refl) in
        (elim (Result-cases borrowed) [
          | inl (_, released) ↦
              rw (there, destroy_display) (rw (same, released) (given_up-IsSound s h off))
          | inr (x, raised) ↦ rw (there, destroy_display) (rw (same, raised) h)
        ])
  ]
]

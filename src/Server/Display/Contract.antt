-- ===== src/Server/Display/Contract.antt =====
-- What libwayland asks of the calls that a server makes, replayed on what is alive.
use pywayland_i6ie.Base.{
  ℕ, Option, none, some, List, [], ◌∷◌, ◌++◌, ◌≡◌, refl, ◌+◌, ◌<◌, arith, if◌then◌else◌, ◌==◌, ℕ-Eq,
  inl, inr, Bool-cases, nat_eq_iff,
}
use pywayland_i6ie.ProtocolCore.Message.{Ptr, null}
use pywayland_i6ie.Client.Contract.{remove}
use pywayland_i6ie.Server.Display.{
  DisplayCall, display_created, display_destroy_clients, display_destroyed, client_created,
  client_destroyed,
}

-- The display, and the clients that were made on it and are there.
pub record Served : Type 0 where
  pub display : Option Ptr
  pub clients : List Ptr

abbrev pub nothing_served : Served
nothing_served = record { display = none; clients = [] }

abbrev clients_left : Served → Option (List Ptr) → Option Served
clients_left served none = none
clients_left served (some clients) = some (record served { clients = clients })

-- The call is about the display that there is.
abbrev with_display_at : Ptr → Served → Option Served → Option Served
with_display_at ptr served result = elim served.display [
  | none ↦ none
  | some d ↦ if d == ptr then result else none
]

abbrev destroy_empty : List Ptr → Option Served
destroy_empty [] = some nothing_served
destroy_empty (_ ∷ _) = none

-- One call: there is one display at a time, clients are made on it, a client is destroyed while it
-- and the display are there, and a display when its clients are gone. NULL is no client.
abbrev pub serve_call : DisplayCall → Served → Option Served
serve_call (display_created p) served = elim served.display [
  | none ↦ some (record served { display = some p })
  | some _ ↦ none
]
serve_call (display_destroy_clients p) served =
    with_display_at p served (some (record served { clients = [] }))
serve_call (display_destroyed p) served = with_display_at p served (destroy_empty served.clients)
serve_call (client_created d p) served =
    with_display_at d served
      (if p == null then some served else some (record served { clients = p ∷ served.clients }))
serve_call (client_destroyed p) served = elim served.display [
  | none ↦ none
  | some _ ↦ clients_left served (remove p served.clients)
]

abbrev pub serve_after : Option Served → List DisplayCall → Option Served
serve_after none calls = none
serve_after (some served) [] = some served
serve_after (some served) (call ∷ calls) = serve_after (serve_call call served) calls

abbrev pub serve : List DisplayCall → Served → Option Served
serve calls served = serve_after (some served) calls

serve_after-append :
    (o : Option Served) (xs ys : List DisplayCall)
    → serve_after o (xs ++ ys) ≡ serve_after (serve_after o xs) ys
serve_after-append none xs ys = refl
serve_after-append (some served) [] ys = refl
serve_after-append (some served) (x ∷ xs) ys = serve_after-append (serve_call x served) xs ys

-- More calls go on from where the first ones lead.
pub serve-append :
    (xs ys : List DisplayCall) (start middle : Served)
    → serve xs start ≡ some middle
    → serve (xs ++ ys) start ≡ serve ys middle
serve-append xs ys start middle e = rw (serve_after-append (some start) xs ys, e) refl

abbrev pub count_one : Ptr → Ptr → ℕ
count_one p q = if q == p then 1 else 0

abbrev pub count_clients : Ptr → List Ptr → ℕ
count_clients p [] = 0
count_clients p (q ∷ clients) = count_one p q + count_clients p clients

-- A client that is there can be removed, and the others stay.
pub count_clients-remove :
    (p : Ptr) (clients : List Ptr)
    → 0 < count_clients p clients
    → (rest : List Ptr) × (remove p clients ≡ some rest)
      × ((q : Ptr) → count_clients q clients ≡ count_one q p + count_clients q rest)
count_clients-remove p [] there = absurd (omega arith)
count_clients-remove p (x ∷ clients) there = elim (Bool-cases (x == p)) [
  | inl same ↦ let e : x ≡ p = (nat_eq_iff x p).0 same in (clients, rw same refl, λ q. rw e refl)
  | inr differs ↦
      let (rest, removed, counts) = count_clients-remove p clients (ground (arith, differs)) in
      (x ∷ rest, rw differs (rw removed refl), λ q. omega (arith, counts q))
]

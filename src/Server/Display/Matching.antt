-- ===== src/Server/Display/Matching.antt =====
-- How the calls on a display, replayed, match its clients.
use pywayland_i6ie.Base.{
  ℕ, zero, suc, ◌+◌, ◌≡◌, ◌≢◌, refl, sym, ◌∙◌, Option, none, some, List, [], ◌∷◌, ◌++◌, ok,
  get_elem?, set, arith, ◌==◌, ℕ-Eq, Option-cases, inl, inr, ok-injective, Bool-cases,
}
use pywayland_i6ie.ProtocolCore.Message.{Ptr, null}
use pywayland_i6ie.Client.Contract.{remove}
use pywayland_i6ie.Server.Display.{
  DisplayCall, display_created, client_created, client_destroyed, ClientCdata, own, lent, Display,
  new_display, full_display_gc, destroy_display,
}
use pywayland_i6ie.Server.Display.Contract.{
  Served, nothing_served, serve, serve-append, count_one, count_clients,
}

abbrev pub count_own : Ptr → Option ClientCdata → ℕ
count_own p none = 0
count_own p (some (own q)) = count_one p q
count_own p (some (lent q)) = 0

abbrev pub count_owned : Ptr → List (Option ClientCdata) → ℕ
count_owned p [] = 0
count_owned p (client ∷ clients) = count_own p client + count_owned p clients

pub count_owned-append :
    (p : Ptr) (xs ys : List (Option ClientCdata))
    → count_owned p (xs ++ ys) ≡ count_owned p xs + count_owned p ys
count_owned-append p [] ys = omega arith
count_owned-append p (x ∷ xs) ys = omega (arith, count_owned-append p xs ys)

pub count_owned-set :
    (p : Ptr) (clients : List (Option ClientCdata)) (k : ℕ) (client : Option ClientCdata)
    → get_elem? clients k ≡ some client
    → count_owned p clients ≡ count_own p client + count_owned p (set clients k none)
count_owned-set p [] k client at = absurd (cc)
count_owned-set p (x ∷ clients) zero client at =
    let same : x ≡ client = ground arith in rw same (omega arith)
count_owned-set p (x ∷ clients) (suc k) client at =
    omega (arith, count_owned-set p clients k client at)

-- What there was before the program made or took its display.
abbrev pub start : Option Ptr → Served
start ptr = record { display = ptr; clients = [] }

-- The display is there, with as many clients of each pointer as the program has to destroy, or it
-- is gone and nothing is there.
abbrev pub Matches : Option Ptr → List (Option ClientCdata) → Served → Type 0
Matches none clients served = served ≡ nothing_served
Matches (some d) clients served =
    (served.display ≡ some d) × ((q : Ptr) → count_clients q served.clients ≡ count_owned q clients)

abbrev pub Agrees : Served → Display → Type 0
Agrees first d =
    (served : Served) × (serve d.calls first ≡ some served) × Matches d.ptr d.clients served

-- The calls of one more step lead on.
pub Agrees-append :
    (first middle served : Served) (d : Display) (ptr : Option Ptr)
    → (clients : List (Option ClientCdata)) (more : List DisplayCall) (logged : ℕ)
    → serve d.calls first ≡ some middle
    → serve more middle ≡ some served
    → Matches ptr clients served
    → Agrees first
        (record { ptr = ptr; clients = clients; calls = d.calls ++ more; logged = logged })
Agrees-append first middle served d ptr clients more logged before step matches =
    (served, serve-append d.calls more first middle before ∙ step, matches)

-- The same, spelled for a pointer that is known by an equation.
pub Matches-some :
    {ptr : Option Ptr} {p : Ptr} (clients : List (Option ClientCdata)) (served : Served)
    → ptr ≡ some p
    → served.display ≡ some p
    → ((q : Ptr) → count_clients q served.clients ≡ count_owned q clients)
    → Matches ptr clients served
Matches-some clients served there display counts = rw there (display, counts)

pub Matches-none :
    {ptr : Option Ptr} (clients clients' : List (Option ClientCdata)) (served : Served)
    → ptr ≡ none
    → Matches ptr clients served
    → Matches ptr clients' served
Matches-none clients clients' served gone matches =
    let nothing : served ≡ nothing_served = rw gone at matches in rw gone nothing

pub serve-client_created :
    (d p : Ptr) (served : Served)
    → served.display ≡ some d
    → p ≢ null
    → serve (client_created d p ∷ []) served ≡ some (record served { clients = p ∷ served.clients })
serve-client_created d p served there made = ground (arith, there, made)

pub serve-client_destroyed :
    (d p : Ptr) (served : Served) (rest : List Ptr)
    → served.display ≡ some d
    → remove p served.clients ≡ some rest
    → serve (client_destroyed p ∷ []) served ≡ some (record served { clients = rest })
serve-client_destroyed d p served rest there removed = ground (arith, there, removed)

pub new_display-Agrees :
    (given : Option Ptr) (created : Ptr) (d : Display)
    → new_display given created ≡ ok d
    → Agrees (start given) d
unfolding new_display
new_display-Agrees (some ptr) created d e =
    let same = sym (ok-injective e) in rw same (start (some ptr), refl, (refl, λ q. refl))
new_display-Agrees none created d e = elim (Bool-cases (created == null)) [
  | inl failed ↦ absurd (ground (arith, e, failed))
  | inr made ↦
      let same : d ≡ (record {
        ptr = some created;
        clients = [];
        calls = display_created created ∷ [];
        logged = 0;
      }) =
        ground (arith, e, made) in
      rw same (start (some created), refl, (refl, λ q. refl))
]

serve-full_display_gc :
    (p : Ptr) (served : Served)
    → served.display ≡ some p
    → serve (full_display_gc p) served ≡ some nothing_served
unfolding full_display_gc
serve-full_display_gc p served there = ground (arith, there)

pub destroy_display-Agrees :
    (first : Served) (d : Display) → Agrees first d → Agrees first (destroy_display d)
unfolding destroy_display
destroy_display-Agrees first d (middle, before, matches) = elim (Option-cases d.ptr) [
  | inl gone ↦ rw (gone, destroy_display) (middle, before, matches)
  | inr (p, there) ↦
      let (display, _) = rw there at matches in
      rw (there, destroy_display)
        (Agrees-append first middle nothing_served d none d.clients (full_display_gc p) d.logged
          before (serve-full_display_gc p middle display) refl)
]

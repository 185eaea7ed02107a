-- ===== src/Server/Display/Safety.antt =====
-- A server never frees a client or a display that is not there, and destroying its display frees
-- all.
use pywayland_i6ie.Base.{
  ℕ, ◌≡◌, ◌≢◌, refl, ap, ◌∙◌, ℤ, Bool, true, false, Option, none, some, List, [], ◌∷◌, Result, ok,
  get_elem?, ℕ-Eq, Option-cases, inl, inr, Result-cases, All,
}
use pywayland_i6ie.ProtocolCore.Message.{Ptr, null}
use pywayland_i6ie.Server.Display.{
  ClientCdata, own, lent, Display, new_display, destroy_display, create_client, new_client,
  client_destroy, collect, collect_client, release, destroy_client,
}
use pywayland_i6ie.Server.Display.Contract.{Served, nothing_served, serve}
use pywayland_i6ie.Server.Display.Agreement.{
  client_destroy-Agrees, forget-Agrees, collect_client-Agrees, new_client-Agrees,
  ptr-destroy_display,
}
use pywayland_i6ie.Server.Display.Matching.{
  start, Agrees, new_display-Agrees, destroy_display-Agrees,
}

-- What a program may do with a display: `creates has_display fd ptr created` is
-- `Client(display, fd, ptr)`.
pub data Operation : Type 0 where
  creates : Bool → Option ℤ → Option Ptr → Ptr → Operation
  destroys collects : ℕ → Operation
  destroys_display : Operation

-- libwayland did not run out of memory for a client.
abbrev pub Succeeds : Operation → Type 0
Succeeds (creates has_display fd ptr created) = created ≢ null
Succeeds _ = Unit

module _ (borrowed : Result (Unit {0})) where
  release-Agrees :
      (first : Served) (d : Display) (k : ℕ) (client : Option ClientCdata)
      → get_elem? d.clients k ≡ some client
      → Agrees first d
      → Agrees first (release borrowed k client d).1
  unfolding release
  release-Agrees first d k none at agrees = agrees
  release-Agrees first d k (some (own p)) at agrees = client_destroy-Agrees first d k p at agrees
  release-Agrees first d k (some (lent p)) at agrees = elim (Result-cases borrowed) [
    | inl (done, kept) ↦
        rw (kept, release) (forget-Agrees first d k (some (lent p)) at (λ q. refl) agrees)
    | inr (x, raised) ↦ rw (raised, release) agrees
  ]

  destroy_client-Agrees :
      (first : Served) (d : Display) (k : ℕ)
      → Agrees first d
      → Agrees first (destroy_client borrowed k d).1
  unfolding destroy_client
  destroy_client-Agrees first d k agrees = elim (Option-cases (get_elem? d.clients k)) [
    | inl nothing ↦ rw (nothing, destroy_client) agrees
    | inr (client, at) ↦ rw (at, destroy_client) (release-Agrees first d k client at agrees)
  ]

  abbrev pub operate : Operation → Display → Display
  operate (creates has_display fd given created) d = (new_client has_display fd given created d).1
  operate (destroys k) d = (destroy_client borrowed k d).1
  operate (collects k) d = collect_client k d
  operate destroys_display d = destroy_display d

  abbrev pub operate_all : List Operation → Display → Display
  operate_all [] d = d
  operate_all (operation ∷ operations) d = operate_all operations (operate operation d)

  operate-Agrees :
      (first : Served) (operation : Operation) (d : Display)
      → Succeeds operation
      → Agrees first d
      → Agrees first (operate operation d)
  operate-Agrees first (creates has_display fd given created) d made agrees =
      new_client-Agrees first d has_display fd given created made agrees
  operate-Agrees first (destroys k) d made agrees = destroy_client-Agrees first d k agrees
  operate-Agrees first (collects k) d made agrees = collect_client-Agrees first d k agrees
  operate-Agrees first destroys_display d made agrees = destroy_display-Agrees first d agrees

  operate_all-Agrees :
      (first : Served) (operations : List Operation) (d : Display)
      → All Succeeds operations
      → Agrees first d
      → Agrees first (operate_all operations d)
  operate_all-Agrees first [] d made agrees = agrees
  operate_all-Agrees first (operation ∷ operations) d (made, all) agrees =
      operate_all-Agrees first operations (operate operation d) all
        (operate-Agrees first operation d made agrees)

  ptr-client_destroy : (p : Ptr) (d : Display) → (client_destroy p d).ptr ≡ d.ptr
  unfolding client_destroy
  ptr-client_destroy p d = elim (Option-cases d.ptr) [
    | inl gone ↦ rw (gone, client_destroy) gone
    | inr (q, there) ↦ rw (there, client_destroy) there
  ]

  ptr-collect :
      (k : ℕ) (client : Option ClientCdata) (d : Display) → (collect k client d).ptr ≡ d.ptr
  unfolding collect
  ptr-collect k none d = refl
  ptr-collect k (some (own p)) d = ptr-client_destroy p d
  ptr-collect k (some (lent p)) d = refl

  ptr-release :
      (k : ℕ) (client : Option ClientCdata) (d : Display)
      → (release borrowed k client d).1.ptr ≡ d.ptr
  unfolding release
  ptr-release k none d = refl
  ptr-release k (some (own p)) d = ptr-client_destroy p d
  ptr-release k (some (lent p)) d = elim (Result-cases borrowed) [
    | inl (done, kept) ↦ rw (kept, release) refl
    | inr (x, raised) ↦ rw (raised, release) refl
  ]

  ptr-destroy_client : (k : ℕ) (d : Display) → (destroy_client borrowed k d).1.ptr ≡ d.ptr
  unfolding destroy_client
  ptr-destroy_client k d = elim (Option-cases (get_elem? d.clients k)) [
    | inl nothing ↦ rw (nothing, destroy_client) refl
    | inr (client, at) ↦ rw (at, destroy_client) (ptr-release k client d)
  ]

  ptr-collect_client : (k : ℕ) (d : Display) → (collect_client k d).ptr ≡ d.ptr
  unfolding collect_client
  ptr-collect_client k d = elim (Option-cases (get_elem? d.clients k)) [
    | inl nothing ↦ rw (nothing, collect_client) refl
    | inr (client, at) ↦ rw (at, collect_client) (ptr-collect k client d)
  ]

  -- A destroyed display stays so.
  ptr-operate :
      (operation : Operation) (d : Display) → d.ptr ≡ none → (operate operation d).ptr ≡ none
  unfolding new_client create_client
  ptr-operate (creates false fd none created) d gone = gone
  ptr-operate (creates true none none created) d gone = gone
  ptr-operate (creates true (some fd) none created) d gone = rw (gone, create_client) refl
  ptr-operate (creates has_display fd (some ptr) created) d gone = gone
  ptr-operate (destroys k) d gone = ptr-destroy_client k d ∙ gone
  ptr-operate (collects k) d gone = ptr-collect_client k d ∙ gone
  ptr-operate destroys_display d gone = ptr-destroy_display d

  ptr-operate_all :
      (operations : List Operation) (d : Display)
      → d.ptr ≡ none
      → (operate_all operations d).ptr ≡ none
  ptr-operate_all [] d gone = gone
  ptr-operate_all (operation ∷ operations) d gone =
      ptr-operate_all operations (operate operation d) (ptr-operate operation d gone)

  Agrees-gone :
      (first : Served) (d : Display)
      → Agrees first d
      → d.ptr ≡ none
      → serve d.calls first ≡ some nothing_served
  Agrees-gone first d (served, before, matches) gone =
      let nothing : served ≡ nothing_served = rw gone at matches in before ∙ ap some nothing

  -- Whatever a program does with a display, in any order, as long as libwayland gives a pointer for
  -- every client that is made and frees no client by itself: a client is destroyed only while it
  -- and the display are there, once for each time it was made, and the display when its clients are
  -- gone.
  pub serve-operate_all :
      (given : Option Ptr) (created : Ptr) (d : Display) (operations : List Operation)
      → new_display given created ≡ ok d
      → All Succeeds operations
      → (served : Served) × (serve (operate_all operations d).calls (start given) ≡ some served)
  serve-operate_all given created d operations made succeed =
      let (served, replayed, _) =
        operate_all-Agrees (start given) operations d succeed
          (new_display-Agrees given created d made) in
      (served, replayed)

  -- When a display is destroyed, after any operations and with any operations behind it, under the
  -- same conditions, then its clients and the display itself are freed in the end, and nothing is
  -- freed twice.
  pub serve-destroy_display :
      (given : Option Ptr) (created : Ptr) (d : Display) (before after : List Operation)
      → new_display given created ≡ ok d
      → All Succeeds before
      → All Succeeds after
      → serve (operate_all after (destroy_display (operate_all before d))).calls (start given)
        ≡ some nothing_served
  serve-destroy_display given created d before after made succeed succeed' =
      let first =
        operate_all-Agrees (start given) before d succeed
          (new_display-Agrees given created d made) in
      let destroyed = destroy_display-Agrees (start given) (operate_all before d) first in
      Agrees-gone (start given) (operate_all after (destroy_display (operate_all before d)))
        (operate_all-Agrees (start given) after (destroy_display (operate_all before d)) succeed'
          destroyed)
        (ptr-operate_all after (destroy_display (operate_all before d))
          (ptr-destroy_display (operate_all before d)))

-- ===== src/Server/Display/Agreement.antt =====
-- What there is for libwayland agrees with what the display and its clients hold, whatever is done.
use pywayland_i6ie.Base.{
  ℕ, ◌≡◌, ◌≢◌, refl, ℤ, Bool, true, false, Option, none, some, [], ◌∷◌, ◌++◌, get_elem?, set, arith,
  value_error, true, err, ℕ-Eq, Option-cases, inl, inr,
}
use pywayland_i6ie.ProtocolCore.Message.{Ptr, null}
use pywayland_i6ie.Server.Display.{
  client_created, client_destroyed, ClientCdata, own, lent, Display, destroy_display, create_client,
  new_client, forget, client_destroy, collect, collect_client,
}
use pywayland_i6ie.Server.Display.Contract.{Served, count_clients-remove}
use pywayland_i6ie.Server.Display.Matching.{
  count_own, count_owned-append, count_owned-set, Agrees, Agrees-append, Matches-some, Matches-none,
  serve-client_created, serve-client_destroyed,
}

create_client-Agrees :
    (first : Served) (d : Display) (has_display : Bool) (fd : Option ℤ) (created : Ptr)
    → created ≢ null
    → Agrees first d
    → Agrees first (create_client has_display fd created d).1
unfolding create_client
create_client-Agrees first d false fd created made agrees = agrees
create_client-Agrees first d true none created made agrees = agrees
create_client-Agrees first d true (some fd) created made (middle, before, matches) =
    elim (Option-cases d.ptr) [
      | inl gone ↦ rw (gone, create_client) (middle, before, matches)
      | inr (p, there) ↦
          let (display, counts) = rw there at matches in
          rw (there, create_client)
            (Agrees-append first middle (record middle { clients = created ∷ middle.clients }) d
              d.ptr (d.clients ++ some (own created) ∷ []) (client_created p created ∷ []) d.logged
              before (serve-client_created p created middle display made)
              (Matches-some _ _ there display (λ q.
                omega (arith, counts q, count_owned-append q d.clients (some (own created) ∷ [])))))
    ]

pub client_destroy-Agrees :
    (first : Served) (d : Display) (k : ℕ) (p : Ptr)
    → get_elem? d.clients k ≡ some (some (own p))
    → Agrees first d
    → Agrees first (forget k (client_destroy p d))
unfolding client_destroy
client_destroy-Agrees first d k p at (middle, before, matches) = elim (Option-cases d.ptr) [
  | inl gone ↦
      rw (gone, client_destroy)
        (middle, before, Matches-none d.clients (set d.clients k none) middle gone matches)
  | inr (display, there) ↦
      let (same, counts) = rw there at matches in
      let counted = count_owned-set p d.clients k (some (own p)) at in
      let (rest, removed, left) =
        count_clients-remove p middle.clients (ground (arith, counted, counts p)) in
      rw (there, client_destroy)
        (Agrees-append first middle (record middle { clients = rest }) d d.ptr
          (set d.clients k none) (client_destroyed p ∷ []) d.logged before
          (serve-client_destroyed display p middle rest same removed)
          (Matches-some _ _ there same (λ q.
            omega (arith, left q, counts q, count_owned-set q d.clients k (some (own p)) at))))
]

-- What has no destructor, or is destroyed, is forgotten with no effect.
pub forget-Agrees :
    (first : Served) (d : Display) (k : ℕ) (client : Option ClientCdata)
    → get_elem? d.clients k ≡ some client
    → ((q : Ptr) → count_own q client ≡ 0)
    → Agrees first d
    → Agrees first (forget k d)
forget-Agrees first d k client at nothing (middle, before, matches) = elim (Option-cases d.ptr) [
  | inl gone ↦ (middle, before, Matches-none d.clients (set d.clients k none) middle gone matches)
  | inr (p, there) ↦
      let (same, counts) = rw there at matches in
      (
        middle,
        before,
        Matches-some _ _ there same
            (λ q. omega (arith, counts q, nothing q, count_owned-set q d.clients k client at)),
      )
]

collect-Agrees :
    (first : Served) (d : Display) (k : ℕ) (client : Option ClientCdata)
    → get_elem? d.clients k ≡ some client
    → Agrees first d
    → Agrees first (collect k client d)
unfolding collect
collect-Agrees first d k none at agrees = agrees
collect-Agrees first d k (some (own p)) at agrees = client_destroy-Agrees first d k p at agrees
collect-Agrees first d k (some (lent p)) at agrees =
    forget-Agrees first d k (some (lent p)) at (λ q. refl) agrees

pub collect_client-Agrees :
    (first : Served) (d : Display) (k : ℕ) → Agrees first d → Agrees first (collect_client k d)
unfolding collect_client
collect_client-Agrees first d k agrees = elim (Option-cases (get_elem? d.clients k)) [
  | inl nothing ↦ rw (nothing, collect_client) agrees
  | inr (client, at) ↦ rw (at, collect_client) (collect-Agrees first d k client at agrees)
]

pub new_client-Agrees :
    (first : Served) (d : Display) (has_display : Bool) (fd : Option ℤ) (given : Option Ptr)
    → (created : Ptr) → created ≢ null
    → Agrees first d
    → Agrees first (new_client has_display fd given created d).1
unfolding new_client
new_client-Agrees first d has_display fd none created made agrees =
    create_client-Agrees first d has_display fd created made agrees
new_client-Agrees first d has_display fd (some ptr) created made (middle, before, matches) =
    elim (Option-cases d.ptr) [
      | inl gone ↦ (middle, before, Matches-none d.clients _ middle gone matches)
      | inr (p, there) ↦
          let (same, counts) = rw there at matches in
          (
            middle,
            before,
            Matches-some _ _ there same (λ q.
                omega (arith, counts q, count_owned-append q d.clients (some (lent ptr) ∷ []))),
          )
    ]

pub ptr-destroy_display : (d : Display) → (destroy_display d).ptr ≡ none
unfolding destroy_display
ptr-destroy_display d = elim (Option-cases d.ptr) [
  | inl gone ↦ rw (gone, destroy_display) gone
  | inr (p, there) ↦ rw (there, destroy_display) refl
]

pub new_client_destroyed :
    (d : Display) (fd : Option ℤ) (created : Ptr)
    → d.ptr ≡ none
    → new_client true fd none created d ≡ (err value_error, d)
unfolding new_client create_client
new_client_destroyed d none created gone = refl
new_client_destroyed d (some fd) created gone = ground (arith, gone)

pub destroy_display_again : (d : Display) → d.ptr ≡ none → destroy_display d ≡ d
unfolding destroy_display
destroy_display_again d gone = ground (arith, gone)

-- ===== src/Client/Lifecycle.antt =====
-- Whatever a client does with a display, in any order: what libwayland asks is kept.
use mathlib.Core.Path.{subst}
use pywayland_i6ie.Base.{
  ℕ, zero, suc, Result, Option, none, some, List, [], ◌∷◌, ◌++◌, ◌≡◌, refl, ap, sym, ◌∙◌, arith,
  get_elem?, set, In, inl, inr, In-append, ℕ-Eq,
}
use pywayland_i6ie.ProtocolCore.Message.{Ptr}
use pywayland_i6ie.Client.{
  Child, Session, session, connection, connect, add_proxy, add_queue, destroyed, destroy_child,
  collect_child, disconnect, destroy_display,
}
use pywayland_i6ie.Client.Contract.{Alive, nothing_alive, replay, remove, remove_self, remove_ne}

abbrev pub add_pointer : Option Ptr → List Ptr → List Ptr
add_pointer none ps = ps
add_pointer (some p) ps = p ∷ ps

-- The pointers of the children that are not destroyed.
abbrev pub pointers : List Child → List Ptr
pointers [] = []
pointers (c ∷ children) = add_pointer c.ptr (pointers children)

abbrev pub Distinct : List Ptr → Type 0
Distinct [] = Unit
Distinct (p ∷ pointers) = (In p pointers → ⊥) × Distinct pointers

-- One step of a client. libwayland gives out pointers that are not in use, and objects on a
-- connection; the client connects when it is not connected, and calls the `destroy` that a display
-- has from proxies only when no proxy or queue is left.
pub data Step : Session → Session → Type 0 where
  connects : (s : Session) (found : Ptr) → connection s.ptr ≡ none → Step s (connect found s).1
  gets_proxy :
      (s : Session) (d found : Ptr)
      → connection s.ptr ≡ some d
      → (In found (pointers s.children) → ⊥)
      → Step s (add_proxy found s).1
  gets_queue :
      (s : Session) (found : Ptr)
      → (In found (pointers s.children) → ⊥)
      → Step s (add_queue found s).1
  destroys : (s : Session) (k : ℕ) → Step s (destroy_child k s)
  collects : (s : Session) (k : ℕ) → Step s (collect_child k s)
  disconnects : (s : Session) → Step s (disconnect s).1
  destroys_display :
      (s : Session) (borrowed : Result (Unit {0}))
      → pointers s.children ≡ []
      → Step s (destroy_display borrowed s).1

pub data Reachable : Session → Type 0 where
  start : Reachable session
  next : {s t : Session} → Reachable s → Step s t → Reachable t

-- What is alive by the program's own account.
abbrev pub alive : Session → Alive
alive s = record { display = connection s.ptr; objects = pointers s.children }

pub record IsSound (s : Session) : Type 0 where
  pub replayed : replay s.calls nothing_alive ≡ some (alive s)
  pub distinct : Distinct (pointers s.children)
  pub unconnected : connection s.ptr ≡ none → pointers s.children ≡ []

add_pointer-append :
    (o : Option Ptr) (ps qs : List Ptr) → add_pointer o (ps ++ qs) ≡ add_pointer o ps ++ qs
add_pointer-append none ps qs = refl
add_pointer-append (some p) ps qs = refl

pub pointers-append : (xs ys : List Child) → pointers (xs ++ ys) ≡ pointers xs ++ pointers ys
pointers-append [] ys = refl
pointers-append (x ∷ xs) ys =
    ap (add_pointer x.ptr) (pointers-append xs ys)
    ∙ add_pointer-append x.ptr (pointers xs) (pointers ys)

pub Distinct-append :
    (ps : List Ptr) (p : Ptr) → Distinct ps → (In p ps → ⊥) → Distinct (ps ++ p ∷ [])
Distinct-append [] p d fresh = (λ m. m, tt)
Distinct-append (q ∷ ps) p (new, d) fresh = (
  λ m. elim (In-append q ps (p ∷ []) m) [
    | inl old ↦ new old
    | inr last ↦ elim last [ inl same ↦ fresh (inl (sym same)) | inr none_left ↦ absurd none_left ]
  ],
  Distinct-append ps p d (λ m. fresh (inr m)),
)

In-add_pointer : (o : Option Ptr) (p : Ptr) (ps : List Ptr) → In p ps → In p (add_pointer o ps)
In-add_pointer none p ps m = m
In-add_pointer (some q) p ps m = inr m

pub Distinct-tail : (o : Option Ptr) (ps : List Ptr) → Distinct (add_pointer o ps) → Distinct ps
Distinct-tail none ps d = d
Distinct-tail (some q) ps d = d.1

Distinct-add_pointer :
    (o : Option Ptr) (ps qs : List Ptr)
    → ((q : Ptr) → In q qs → In q ps)
    → Distinct qs
    → Distinct (add_pointer o ps)
    → Distinct (add_pointer o qs)
Distinct-add_pointer none ps qs sub dq d = dq
Distinct-add_pointer (some p) ps qs sub dq d = (λ m. d.0 (sub p m), dq)

In-add_pointer_mono :
    (o : Option Ptr) (p : Ptr) (ps qs : List Ptr)
    → (In p qs → In p ps)
    → In p (add_pointer o qs)
    → In p (add_pointer o ps)
In-add_pointer_mono none p ps qs sub m = sub m
In-add_pointer_mono (some q) p ps qs sub (inl e) = inl e
In-add_pointer_mono (some q) p ps qs sub (inr m) = inr (sub m)

remove-add_pointer :
    (o : Option Ptr) (p : Ptr) (ps rest : List Ptr)
    → Distinct (add_pointer o ps)
    → In p ps
    → remove p ps ≡ some rest
    → remove p (add_pointer o ps) ≡ some (add_pointer o rest)
remove-add_pointer none p ps rest d m e = e
remove-add_pointer (some q) p ps rest d m e =
    remove_ne p q ps rest (λ same. d.0 (subst (λ x. In x ps) same m)) e

pub In-pointers :
    (children : List Child) (k : ℕ) (c : Child) (p : Ptr)
    → get_elem? children k ≡ some c
    → c.ptr ≡ some p
    → In p (pointers children)
In-pointers [] k c p at here = absurd (cc)
In-pointers (x ∷ children) zero c p at here =
    let same : x.ptr ≡ some p = ground arith in rw same (inl refl)
In-pointers (x ∷ children) (suc k) c p at here =
    In-add_pointer x.ptr p (pointers children) (In-pointers children k c p at here)

pub pointers-set_gone :
    (children : List Child) (k : ℕ) (c : Child)
    → get_elem? children k ≡ some c
    → c.ptr ≡ none
    → pointers (set children k (destroyed c)) ≡ pointers children
pointers-set_gone [] k c at here = refl
pointers-set_gone (x ∷ children) zero c at here =
    let same : x.ptr ≡ none = ground arith in rw same refl
pointers-set_gone (x ∷ children) (suc k) c at here =
    ap (add_pointer x.ptr) (pointers-set_gone children k c at here)

pub remove-pointers :
    (children : List Child) (k : ℕ) (c : Child) (p : Ptr)
    → get_elem? children k ≡ some c
    → c.ptr ≡ some p
    → Distinct (pointers children)
    → remove p (pointers children) ≡ some (pointers (set children k (destroyed c)))
remove-pointers [] k c p at here d = absurd (cc)
remove-pointers (x ∷ children) zero c p at here d =
    let same : x.ptr ≡ some p = ground arith in rw same (remove_self p (pointers children))
remove-pointers (x ∷ children) (suc k) c p at here d =
    remove-add_pointer x.ptr p (pointers children) _ d (In-pointers children k c p at here)
      (remove-pointers children k c p at here (Distinct-tail x.ptr (pointers children) d))

In-set :
    (children : List Child) (k : ℕ) (c : Child) (q : Ptr)
    → In q (pointers (set children k (destroyed c)))
    → In q (pointers children)
In-set [] k c q m = m
In-set (x ∷ children) zero c q m = In-add_pointer x.ptr q (pointers children) m
In-set (x ∷ children) (suc k) c q m =
    In-add_pointer_mono x.ptr q (pointers children) (pointers (set children k (destroyed c)))
      (In-set children k c q) m

pub Distinct-set :
    (children : List Child) (k : ℕ) (c : Child)
    → Distinct (pointers children)
    → Distinct (pointers (set children k (destroyed c)))
Distinct-set [] k c d = d
Distinct-set (x ∷ children) zero c d = Distinct-tail x.ptr (pointers children) d
Distinct-set (x ∷ children) (suc k) c d =
    Distinct-add_pointer x.ptr (pointers children) (pointers (set children k (destroyed c)))
      (In-set children k c) (Distinct-set children k c (Distinct-tail x.ptr (pointers children) d))
      d

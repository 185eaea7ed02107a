-- ===== src/Client/Walk.antt =====
-- What the loop of `Display.disconnect` (pywayland/client/display.py) does to the children.
use pywayland_i6ie.Base.{ok, ◌≢◌, Option, none, some, List, [], ◌∷◌, ◌++◌, ◌≡◌, refl, ◌∙◌, ℕ-Eq}
use pywayland_i6ie.ProtocolCore.Message.{Ptr}
use pywayland_i6ie.Client.{
  Kind, Child, Call, destroyed, freeing, destroy_calls, Walk, walk_on, destroy_children, unset,
}
use pywayland_i6ie.Client.Contract.{replay, remove_self}
use pywayland_i6ie.Client.Lifecycle.{add_pointer, pointers, Distinct, Distinct-tail}

replay-freeing :
    (ptr d : Ptr) (kind : Kind) (o : Option Ptr) (ps : List Ptr) (calls : List Call)
    → replay
        (freeing (some ptr) kind o ++ calls)
        (record { display = some d; objects = add_pointer o ps })
      ≡ replay calls (record { display = some d; objects = ps })
unfolding freeing
replay-freeing ptr d kind none ps calls = refl
replay-freeing ptr d kind (some p) ps calls = rw (remove_self p ps) refl

-- What the loop of `disconnect` leaves is what the replay of its calls leaves, and it leaves
-- nothing if it does not raise.
abbrev pub WalkedFrom : Ptr → List Child → Walk → Type 0
WalkedFrom d children (r, (rest, calls)) =
    (replay calls (record { display = some d; objects = pointers children })
      ≡ some (record { display = some d; objects = pointers rest }))
    × (Distinct (pointers children) → Distinct (pointers rest))
    × (r ≡ ok tt → pointers rest ≡ [])

freed_first :
    (ptr d : Ptr) (c : Child) (children : List Child) (walk : Walk)
    → WalkedFrom d children walk
    → WalkedFrom d
        (c ∷ children)
        (walk.0, (destroyed c ∷ walk.1.0, freeing (some ptr) c.kind c.ptr ++ walk.1.1))
freed_first ptr d c children (r, (rest, calls)) (replayed, distinct, empty) = (
  replay-freeing ptr d c.kind c.ptr (pointers children) calls ∙ replayed,
  λ all. distinct (Distinct-tail c.ptr (pointers children) all),
  empty,
)

walk_on-WalkedFrom :
    (ptr d : Ptr) (kind : Kind) (c : Child) (children : List Child) (walk : Walk)
    → WalkedFrom d children walk
    → WalkedFrom d (c ∷ children) (walk_on (some ptr) kind c children walk)
unfolding walk_on destroy_calls
walk_on-WalkedFrom ptr d unset c children walk h = (refl, λ all. all, λ e. absurd (cc))
walk_on-WalkedFrom ptr d _ c children walk h = freed_first ptr d c children walk h

pub destroy_children-WalkedFrom :
    (ptr d : Ptr) (children : List Child)
    → WalkedFrom d children (destroy_children (some ptr) children)
unfolding destroy_children
destroy_children-WalkedFrom ptr d [] = (refl, λ all. all, λ e. refl)
destroy_children-WalkedFrom ptr d (c ∷ children) =
    walk_on-WalkedFrom ptr d c.kind c children (destroy_children (some ptr) children)
      (destroy_children-WalkedFrom ptr d children)

-- No child is an object that is unset.
abbrev pub AllSet : List Child → Type 0
AllSet [] = Unit
AllSet (c ∷ children) = (c.kind ≢ unset) × AllSet children

walk_on-ok :
    (display : Option Ptr) (kind : Kind) (c : Child) (children : List Child) (walk : Walk)
    → kind ≢ unset
    → walk.0 ≡ ok tt
    → (walk_on display kind c children walk).0 ≡ ok tt
unfolding walk_on
walk_on-ok display unset c children walk other e = absurd (other refl)
walk_on-ok display _ c children walk other e = e

pub destroy_children-ok :
    (display : Option Ptr) (children : List Child)
    → AllSet children
    → (destroy_children display children).0 ≡ ok tt
unfolding destroy_children
destroy_children-ok display [] all = refl
destroy_children-ok display (c ∷ children) (first, all) =
    walk_on-ok display c.kind c children (destroy_children display children) first
      (destroy_children-ok display children all)

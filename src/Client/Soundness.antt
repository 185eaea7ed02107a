-- ===== src/Client/Soundness.antt =====
-- Connecting, and the making and freeing of children, keep a session sound.
use mathlib.Core.Path.{subst}
use mathlib.Core.List.{append-nil}
use pywayland_i6ie.Base.{
  ℕ, zero, suc, none, some, List, [], ◌∷◌, ◌++◌, ◌≡◌, refl, ap, sym, ◌∙◌, get_elem?, set, In, inl,
  inr, ◌==◌, ℕ-Eq, Option-cases, Bool-cases,
}
use pywayland_i6ie.ProtocolCore.Message.{Ptr, null}
use pywayland_i6ie.Client.{
  Kind, Child, Call, connected, created, destroy, Session, session, connection, connect, destroyed,
  update_child, dropped,
}
use pywayland_i6ie.Client.Contract.{Alive, nothing_alive, replay, replay-append-some}
use pywayland_i6ie.Client.Lifecycle.{
  pointers, Distinct, alive, IsSound, pointers-append, Distinct-append, In-pointers,
  pointers-set_gone, remove-pointers, Distinct-set,
}

pub session-IsSound : IsSound session
unfolding session
session-IsSound = record { replayed = refl; distinct = tt; unconnected = λ e. refl }

pub connect-IsSound :
    (s : Session) (found : Ptr) → IsSound s → connection s.ptr ≡ none → IsSound (connect found s).1
unfolding connect dropped
connect-IsSound s found h off = elim (Bool-cases (found == null)) [
  | inl e ↦
      rw (e, off)
        (record {
          replayed =
              ap (λ calls. replay calls nothing_alive) (append-nil s.calls)
              ∙ h.replayed
              ∙ ap
                  (λ o.
                    some
                      (let r : Alive = record { display = o; objects = pointers s.children } in r))
                  off;
          distinct = h.distinct;
          unconnected = λ _. h.unconnected off;
        })
  | inr e ↦
      rw (e, off)
        (record {
          replayed =
              replay-append-some s.calls (connected found ∷ []) nothing_alive (alive s) h.replayed
              ∙ rw (off, e) refl;
          distinct = h.distinct;
          unconnected = λ q. absurd (cc);
        })
]

pub add_child-IsSound :
    (s : Session) (kind : Kind) (d found : Ptr)
    → IsSound s
    → connection s.ptr ≡ some d
    → (In found (pointers s.children) → ⊥)
    → IsSound (record s {
      children = s.children ++ record { kind = kind; ptr = some found } ∷ [];
      calls = s.calls ++ created kind found ∷ [];
    })
add_child-IsSound s kind d found h on fresh =
    let added = pointers-append s.children (record { kind = kind; ptr = some found } ∷ []) in
    record {
      replayed =
          replay-append-some s.calls (created kind found ∷ []) nothing_alive (alive s) h.replayed
          ∙ rw (on, added) refl;
      distinct =
          subst Distinct (sym added) (Distinct-append (pointers s.children) found h.distinct fresh);
      unconnected = λ off. absurd (cc);
    }

free_child-IsSound :
    (s : Session) (frees : Child → List Call) (k : ℕ) (c : Child)
    → IsSound s
    → get_elem? s.children k ≡ some c
    → (c.ptr ≡ none → frees c ≡ [])
    → ((p d : Ptr) → c.ptr ≡ some p → connection s.ptr ≡ some d → frees c ≡ destroy c.kind p ∷ [])
    → IsSound (record s { children = set s.children k (destroyed c); calls = s.calls ++ frees c })
free_child-IsSound s frees k c h at gone there = elim (Option-cases c.ptr) [
  | inl none_left ↦
      let same = pointers-set_gone s.children k c at none_left in
      record {
        replayed = rw (gone none_left, append-nil, same) h.replayed;
        distinct = Distinct-set s.children k c h.distinct;
        unconnected = λ off. same ∙ h.unconnected off;
      }
  | inr (p, here) ↦ elim (Option-cases (connection s.ptr)) [
    | inl off ↦ absurd (subst (In p) (h.unconnected off) (In-pointers s.children k c p at here))
    | inr (d, on) ↦ record {
      replayed =
          ap (λ calls. replay (s.calls ++ calls) nothing_alive) (there p d here on)
          ∙ replay-append-some s.calls (destroy c.kind p ∷ []) nothing_alive (alive s) h.replayed
          ∙ rw (on, remove-pointers s.children k c p at here h.distinct) refl;
      distinct = Distinct-set s.children k c h.distinct;
      unconnected = λ off. absurd (cc);
    }
  ]
]

-- Other children with the same pointers.
pub same_pointers-IsSound :
    (s : Session) (children : List Child)
    → pointers children ≡ pointers s.children
    → IsSound s
    → IsSound (record s { children = children })
same_pointers-IsSound s children same h = record {
  replayed =
      h.replayed
      ∙ ap (λ ps. some (let r : Alive = record { display = connection s.ptr; objects = ps } in r))
          (sym same);
  distinct = subst Distinct (sym same) h.distinct;
  unconnected = λ off. same ∙ h.unconnected off;
}

pointers-set :
    (children : List Child) (k : ℕ) (c d : Child)
    → c.ptr ≡ d.ptr
    → pointers (set children k c) ≡ pointers (set children k d)
pointers-set [] k c d same = refl
pointers-set (x ∷ children) zero c d same = rw same refl
pointers-set (x ∷ children) (suc k) c d same = rw (pointers-set children k c d same) refl

pub update_child-IsSound :
    (s : Session) (becomes : Child → Child) (frees : Child → List Call) (k : ℕ)
    → IsSound s
    → ((c : Child) → (becomes c).ptr ≡ none)
    → ((c : Child) → c.ptr ≡ none → frees c ≡ [])
    → ((c : Child) (p d : Ptr)
        → c.ptr ≡ some p
        → connection s.ptr ≡ some d
        → frees c ≡ destroy c.kind p ∷ [])
    → IsSound (update_child becomes frees k s)
unfolding update_child
update_child-IsSound s becomes frees k h none_left gone there =
    elim (Option-cases (get_elem? s.children k)) [
      | inl nothing ↦ rw (nothing, update_child) h
      | inr (c, at) ↦
          rw (at, update_child)
            (same_pointers-IsSound
              (record s { children = set s.children k (destroyed c); calls = s.calls ++ frees c })
              (set s.children k (becomes c))
              (pointers-set s.children k (becomes c) (destroyed c) (none_left c))
              (free_child-IsSound s frees k c h at (gone c) (there c)))
    ]

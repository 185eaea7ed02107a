-- ===== src/ProtocolCore/Proxy/Registry/Entries.antt =====
-- What a registry (`Interface.registry`, which pywayland/protocol_core/proxy.py writes) has under a
-- pointer, after an entry was written over or an object is gone.
use pywayland_i6ie.Base.{
  ◌≡◌, ◌≢◌, refl, true, false, some, [], ◌∷◌, ◌==◌, ◌&&◌, ℕ-Eq, String-Eq, eq_iff, arith,
  Bool-cases, inl, inr,
}
use pywayland_i6ie.ProtocolCore.Argument.{ClassName}
use pywayland_i6ie.ProtocolCore.Message.{Ptr}
use pywayland_i6ie.ProtocolCore.Message.Wire.{ObjectId}
use pywayland_i6ie.ProtocolCore.Proxy.Registry.{Registry, registered, drop_entry, forget}

pub registered-forget :
    (registry : Registry) (i : ClassName) (p : Ptr) (x k : ObjectId)
    → registered i p registry ≡ some x
    → k ≢ x
    → registered i p (forget k registry) ≡ some x
registered-forget [] i p x k found differs = absurd (cc)
registered-forget ((j, q, y) ∷ registry) i p x k found differs =
    elim (Bool-cases (j == i && q == p)) [
      | inl here ↦
          let same : y ≡ x = ground (arith, found, here) in ground (arith, here, same, differs)
      | inr other ↦
          let later : registered i p registry ≡ some x = ground (arith, found, other) in
          let kept = registered-forget registry i p x k later differs in ground (arith, other, kept)
    ]

pub is_same_entry : (j i : ClassName) (q p : Ptr) → (j == i && q == p) ≡ true → (j ≡ i) × (q ≡ p)
is_same_entry j i q p e = ground (arith, e, eq_iff j i)

pub same_entry : (j i : ClassName) (q p : Ptr) → j ≡ i → q ≡ p → (j == i && q == p) ≡ true
same_entry j i q p e e' = ground (arith, e, e', eq_iff j i)

pub registered-drop_entry :
    (registry : Registry) (j i : ClassName) (q p : Ptr)
    → (j == i && q == p) ≡ false
    → registered i p (drop_entry j q registry) ≡ registered i p registry
registered-drop_entry [] j i q p other = refl
registered-drop_entry ((k, r, y) ∷ registry) j i q p other =
    let rest = registered-drop_entry registry j i q p other in
    elim (Bool-cases (k == j && r == q)) [
      | inl here ↦
          let (e1, e2) = is_same_entry k j r q here in
          let differs : (k == i && r == p) ≡ false = rw (e1, e2) other in rw (here, differs) rest
      | inr there ↦ rw (there, rest) refl
    ]

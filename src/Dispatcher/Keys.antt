-- ===== src/Dispatcher/Keys.antt =====
-- Which callback a key of a dispatcher names, and what a write to it changes.
use pywayland_i6ie.Base.{
  sym, ℕ, zero, suc, ◌+◌, ◌≤◌, ◌<◌, ℤ, pos, negsuc, String, ◌≡◌, refl, ap, ◌∙◌, ◌≢◌, Option, some,
  List, [], ◌∷◌, length, get_elem?, get_elem?-set_self, get_elem?-set_ne, length-set, set, Bool, ok,
  arith, ◌==◌, String-Eq, ℕ-Eq, nat_eq_iff, if◌then◌else◌, err, Error, eq_iff, ◌⊎◌, inl, inr,
  Result-cases, Bool-cases, >>=-eq-ok, ok-injective,
}
use pywayland_i6ie.Base.Dict.{Dict, lookup, insert, lookup-insert}
use pywayland_i6ie.ProtocolCore.Message.{Message}
use pywayland_i6ie.Dispatcher.{
  Dispatcher, dispatcher, Key, by_name, by_opcode, add_names, resolve, at_index, callback_index,
  get_item, set_item,
}

-- A name that is in the dict stays, or is taken over by one of the messages.
kept-add_names :
    (messages : List Message) (name : String) (d : Dict ℕ) (n k : ℕ)
    → lookup name d ≡ some k
    → (lookup name (add_names d n messages) ≡ some k)
      ⊎ ((j : ℕ) × (m : Message) × (lookup name (add_names d n messages) ≡ some (n + j))
          × (get_elem? messages j ≡ some m)
          × (m.name ≡ name))
unfolding add_names
kept-add_names [] name d n k h = inl h
kept-add_names (x ∷ messages) name d n k h = elim (Bool-cases (x.name == name)) [
  | inl same ↦
      elim (kept-add_names messages name (insert x.name n d) (suc n) n (rw (lookup-insert, same))) [
        | inl found ↦ inr (0, x, found ∙ ap some (omega arith), refl, (eq_iff _ _).0 same)
        | inr (j, m, found, at, named) ↦ inr (suc j, m, found ∙ ap some (omega arith), at, named)
      ]
  | inr differs ↦
      elim (kept-add_names messages name (insert x.name n d) (suc n) k
        (rw (lookup-insert, differs) h)) [
          | inl found ↦ inl found
          | inr (j, m, found, at, named) ↦ inr (suc j, m, found ∙ ap some (omega arith), at, named)
        ]
]

-- Every name is found, at the last message that has it.
lookup-add_names :
    (messages : List Message) (name : String) (d : Dict ℕ) (n i : ℕ) (m : Message)
    → get_elem? messages i ≡ some m
    → m.name ≡ name
    → (j : ℕ) × (m' : Message) × (lookup name (add_names d n messages) ≡ some (n + j))
      × (i ≤ j)
      × (get_elem? messages j ≡ some m')
      × (m'.name ≡ name)
unfolding add_names
lookup-add_names [] name d n i m at same = absurd (cc)
lookup-add_names (x ∷ messages) name d n zero m at same =
    let here : x.name ≡ name = ground arith in
    elim (kept-add_names messages name (insert x.name n d) (suc n) n
      (rw (lookup-insert, (eq_iff _ _).1 here))) [
        | inl found ↦ (0, x, found ∙ ap some (omega arith), omega arith, refl, here)
        | inr (j, m', found, at', named) ↦
            (suc j, m', found ∙ ap some (omega arith), omega arith, at', named)
      ]
lookup-add_names (x ∷ messages) name d n (suc i) m at same =
    let (j, m', found, le, at', same') =
      lookup-add_names messages name (insert x.name n d) (suc n) i m at same in
    (suc j, m', found ∙ ap some (omega arith), omega arith, at', same')

module _ (Callback : Type 0) where
  -- In a new dispatcher the name of a message resolves to the opcode of a message of that name, and
  -- no message of the name stands behind it.
  pub resolve-dispatcher :
      (messages : List Message) (has_destructor : Bool) (i : ℕ) (m : Message)
      → get_elem? messages i ≡ some m
      → (j : ℕ) × (m' : Message) × (resolve Callback
            (dispatcher Callback messages has_destructor)
            (by_name m.name)
          ≡ ok (pos j))
        × (i ≤ j)
        × (get_elem? messages j ≡ some m')
        × (m'.name ≡ m.name)
  unfolding resolve dispatcher
  resolve-dispatcher messages has_destructor i m at =
      let (j, m', found, le, at', same) = lookup-add_names messages m.name [] 0 i m at refl in
      (j, m', ground arith, le, at', same)

  at_index-lt : (n : ℕ) (z : ℤ) (i : ℕ) → at_index Callback n z ≡ ok i → i < n
  unfolding at_index
  at_index-lt n (pos k) i e = ground arith
  at_index-lt n (negsuc k) i e = ground arith

  callback_index-lt :
      (d : Dispatcher Callback) (key : Key) (i : ℕ)
      → callback_index Callback d key ≡ ok i
      → i < length d.callbacks
  unfolding callback_index
  callback_index-lt d key i e =
      let (z, _, e') = >>=-eq-ok (resolve Callback d key) _ e in
      at_index-lt (length d.callbacks) z i e'

  callback_index-set :
      (d : Dispatcher Callback) (i : ℕ) (x : Option Callback) (key : Key)
      → callback_index Callback (record d { callbacks = set d.callbacks i x }) key
        ≡ callback_index Callback d key
  unfolding callback_index resolve
  callback_index-set d i x (by_name name) = rw length-set
  callback_index-set d i x (by_opcode z) = rw length-set

  -- After `dispatcher[key] = f` the same key gives `f`.
  pub get_item-set_item_self :
      (d d' : Dispatcher Callback) (key : Key) (f : Callback)
      → set_item Callback d key f ≡ ok d'
      → get_item Callback d' key ≡ ok (some f)
  unfolding get_item set_item
  get_item-set_item_self d d' key f e =
      let (i, at, e') = >>=-eq-ok (callback_index Callback d key) _ e in
      rw (← ok-injective e', callback_index-set, at)
        (rw (get_elem?-set_self d.callbacks i (some f) (callback_index-lt d key i at)))

  -- After `dispatcher[key] = f` a key of another place, or of none, gives what it gave before.
  pub get_item-set_item_ne :
      (d d' : Dispatcher Callback) (key other : Key) (f : Callback)
      → set_item Callback d key f ≡ ok d'
      → callback_index Callback d key ≢ callback_index Callback d other
      → get_item Callback d' other ≡ get_item Callback d other
  unfolding get_item set_item
  get_item-set_item_ne d d' key other f e differ =
      let (i, at, e') = >>=-eq-ok (callback_index Callback d key) _ e in
      rw (← ok-injective e', callback_index-set)
        (elim (Result-cases (callback_index Callback d other)) [
          | inl (j, q) ↦
              rw q (
                rw (get_elem?-set_ne d.callbacks i j (some f) (λ p. differ (at ∙ ap ok p ∙ sym q))))
          | inr (_, q) ↦ rw q
        ])

  callback_index-set_item :
      (d d' : Dispatcher Callback) (key other : Key) (f : Callback)
      → set_item Callback d key f ≡ ok d'
      → callback_index Callback d' other ≡ callback_index Callback d other
  unfolding set_item
  callback_index-set_item d d' key other f e =
      let (i, at, e') = >>=-eq-ok (callback_index Callback d key) _ e in
      rw (← ok-injective e') (callback_index-set d i (some f) other)

  get_item-same_place :
      (d : Dispatcher Callback) (key other : Key)
      → callback_index Callback d key ≡ callback_index Callback d other
      → get_item Callback d other ≡ get_item Callback d key
  unfolding get_item
  get_item-same_place d key other same = rw same refl

  get_item-nowhere :
      (d : Dispatcher Callback) (key : Key) (x : Error)
      → callback_index Callback d key ≡ err x
      → get_item Callback d key ≡ err x
  unfolding get_item
  get_item-nowhere d key x nowhere = rw nowhere refl

  -- After `dispatcher[key] = f`, where the key is that of place i: a key of the same place, by
  -- name, opcode or negative index, gives `f`; a key of another place gives what it gave before;
  -- and a key of no place raises what it raises.
  pub get_item-set_item :
      (d d' : Dispatcher Callback) (key other : Key) (f : Callback) (i : ℕ)
      → set_item Callback d key f ≡ ok d'
      → callback_index Callback d key ≡ ok i
      → get_item Callback d' other ≡ (elim (callback_index Callback d other) [
        | ok j ↦ if i == j then ok (some f) else get_item Callback d other
        | err e ↦ err e
      ])
  unfolding get_item set_item
  get_item-set_item d d' key other f i e at =
      elim (Result-cases (callback_index Callback d other)) [
        | inl (j, q) ↦ (elim (Bool-cases (i == j)) [
          | inl same ↦
              let together = at ∙ ap ok ((nat_eq_iff i j).0 same) ∙ sym q in
              rw (q, same)
                (get_item-same_place d' key other (
                    callback_index-set_item d d' key key f e
                    ∙ together
                    ∙ sym (callback_index-set_item d d' key other f e))
                  ∙ get_item-set_item_self d d' key f e)
          | inr differs ↦
              rw (q, differs)
                (get_item-set_item_ne d d' key other f e (λ p.
                  let same : i ≡ j = ok-injective (sym at ∙ p ∙ q) in
                  ground (arith, differs, same)))
        ])
        | inr (x, q) ↦ rw q (
            get_item-set_item_ne d d' key other f e
              (λ p. let never : ok i ≡ err x = sym at ∙ p ∙ q in absurd (ground (arith, never)))
            ∙ get_item-nowhere d other x q)
      ]

  pub messages-set_item :
      (d d' : Dispatcher Callback) (key : Key) (f : Callback)
      → set_item Callback d key f ≡ ok d'
      → (d'.messages ≡ d.messages) × (d'.names ≡ d.names)
  unfolding set_item
  messages-set_item d d' key f e =
      let (i, at, e') = >>=-eq-ok (callback_index Callback d key) _ e in
      rw (← ok-injective e') (refl, refl)

  pub resolve-set_item :
      (d d' : Dispatcher Callback) (key : Key) (f : Callback) (other : Key)
      → set_item Callback d key f ≡ ok d'
      → resolve Callback d' other ≡ resolve Callback d other
  unfolding resolve
  resolve-set_item d d' key f (by_name name) e = rw ((messages-set_item d d' key f e).1)
  resolve-set_item d d' key f (by_opcode z) e = refl

  pub get_item-resolve :
      (d : Dispatcher Callback) (key other : Key)
      → resolve Callback d key ≡ resolve Callback d other
      → get_item Callback d key ≡ get_item Callback d other
  unfolding get_item callback_index
  get_item-resolve d key other e = rw e

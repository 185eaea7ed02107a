-- ===== src/Base/Results.antt =====
-- Python's exceptions, by class, and functions that may raise one.
use mathlib.Core.Path.{◌≡◌, refl, ap}
use mathlib.Core.Logic.{◌⊎◌, inl, inr}
use mathlib.Core.List.{List, [], ◌∷◌}

pub data Error : Type 0 where
  plain_exception value_error key_error index_error type_error attribute_error : Error
  runtime_error stop_iteration not_implemented_error assertion_error overflow_error : Error
  memory_error io_error unbound_local_error called_process_error name_error parse_error : Error

pub data Result {ℓ} (A : Type ℓ) : Type ℓ where
  ok : A → Result A
  err : Error → Result A

infixl 10 ◌>>=◌ ◌>>◌
abbrev pub ◌>>=◌ {ℓ ℓ₂} : {X : Type ℓ} {Y : Type ℓ₂} → Result X → (X → Result Y) → Result Y
ok x >>= next = next x
err raised >>= next = err raised

abbrev pub ◌>>◌ {ℓ} : {Y : Type ℓ} → Result (Unit {0}) → Result Y → Result Y
first >> second = first >>= λ _. second

pub >>=-eq-ok {ℓ ℓ₂} :
    {X : Type ℓ} {Y : Type ℓ₂} (first : Result X) (next : X → Result Y) {y : Y}
    → (first >>= next) ≡ ok y
    → (x : X) × (first ≡ ok x) × (next x ≡ ok y)
>>=-eq-ok (ok x) next same = (x, refl, same)
>>=-eq-ok (err raised) next same = cc

-- `[f(x) for x in xs]`, where `f` may raise.
abbrev pub map_result {ℓ κ} : {A : Type ℓ} {B : Type κ} → (A → Result B) → List A → Result (List B)
map_result f [] = ok []
map_result f (x ∷ xs) = do y ← f x; ys ← map_result f xs; ok (y ∷ ys)

pub ok-injective {ℓ} : {A : Type ℓ} {a b : A} → ok a ≡ ok b → a ≡ b
ok-injective {a} p = ap (λ r. elim r [ ok x ↦ x | err e ↦ a ]) p

pub Result-cases {ℓ} :
    {A : Type ℓ} (r : Result A) → ((a : A) × (r ≡ ok a)) ⊎ ((e : Error) × (r ≡ err e))
Result-cases (ok a) = inl (a, refl)
Result-cases (err e) = inr (e, refl)

-- ===== src/Generated.antt =====
-- The generated code beside the code that it calls: the values that a generated method passes on
-- (pywayland/scanner/request.py, pywayland/scanner/event.py), and the values that `arguments_to_c`
-- takes for the message that its decorator builds (pywayland/protocol_core/message.py).
use pywayland_i6ie.Base.{
  ℕ, suc, ◌+◌, String, ◌≡◌, ◌≢◌, refl, ap, sym, ◌∙◌, ◌++◌, Bool, true, false, Option, none, some,
  List, [], ◌∷◌, map, length, All, arith, if◌then◌else◌, length-append,
}
use Prim.Native.Nat.{◌*◌}
use mathlib.Core.Path.{ap₂}
use mathlib.Core.Option.{map as map_option}
use pywayland_i6ie.Base.Words.{camel_case}
use pywayland_i6ie.Scanner.ArgumentType.{ArgumentType, new_id, is_new_id}
use pywayland_i6ie.Scanner.Xml.{present}
use pywayland_i6ie.Scanner.Argument.{Argument}
use pywayland_i6ie.Scanner.Method.Request.{marshal_args}
use pywayland_i6ie.Scanner.Method.Event.{event_args}
use pywayland_i6ie.ProtocolCore.Argument.{Argument as RuntimeArgument}
use pywayland_i6ie.ProtocolCore.Message.{marshaled_arguments, marshaled_argument}
use pywayland_i6ie.ProtocolCore.Message.Slots.{value_slots}

-- The argument that the text of `argument_text` builds.
abbrev pub built : Argument → RuntimeArgument
built a = record {
  argument_type = a.type;
  nullable = a.allow_null;
  interface = map_option camel_case a.interface;
}

abbrev pub HasNamedInterface : Argument → Type 0
HasNamedInterface a = a.interface ≢ some ""

-- How many arguments are new ids, and how many are new ids of any interface.
abbrev pub new_ids : List Argument → ℕ
new_ids [] = 0
new_ids (a ∷ arg) = if is_new_id a.type then suc (new_ids arg) else new_ids arg

abbrev pub untyped_new_ids : List Argument → ℕ
untyped_new_ids [] = 0
untyped_new_ids (a ∷ arg) =
    let rest = untyped_new_ids arg in
    elim a.interface [ none ↦ if is_new_id a.type then suc rest else rest | some _ ↦ rest ]

present-some : (o : Option String) → o ≢ some "" → present o ≡ o
present-some none h = refl
present-some (some String.[]) h = absurd (h refl)
present-some (some (String.◌∷◌ c s)) h = refl

-- The values that one argument takes, in front of the others.
slots_of : ArgumentType → Bool → ℕ
slots_of new_id false = 2
slots_of new_id true = 0
slots_of _ typed = 1

is_some : Option String → Bool
is_some none = false
is_some (some _) = true

value_slots-marshaled_argument :
    (t : ArgumentType) (n : Bool) (o : Option String) (rest : List RuntimeArgument)
    → value_slots (
        marshaled_argument t
          (map_option camel_case o)
          (record { argument_type = t; nullable = n; interface = map_option camel_case o })
        ++ rest)
      ≡ slots_of t (is_some o) + value_slots rest
unfolding value_slots marshaled_argument slots_of is_some
value_slots-marshaled_argument new_id n none rest = ground arith
value_slots-marshaled_argument new_id n (some i) rest = ground arith
value_slots-marshaled_argument _ n o rest = ground arith

length-marshal_args_one :
    (a : Argument) (t : ArgumentType) (o : Option String)
    → o ≢ some ""
    → length (
        if is_new_id t
        then (elim (present o) [ some _ ↦ [] | none ↦ "interface.name" ∷ "version" ∷ [] ])
        else a.name ∷ [])
      ≡ slots_of t (is_some o)
unfolding slots_of is_some
length-marshal_args_one a new_id none h = refl
length-marshal_args_one a new_id (some i) h = rw (present-some (some i) h) refl
length-marshal_args_one a _ o h = refl

-- A generated request passes on exactly as many values as the slots of its message take, if no
-- argument's interface is named by an empty text.
pub length-marshal_args :
    (arg : List Argument)
    → All HasNamedInterface arg
    → length (marshal_args arg) ≡ value_slots (marshaled_arguments (map built arg))
unfolding marshal_args marshaled_arguments value_slots
length-marshal_args [] h = refl
length-marshal_args (a ∷ arg) (h, hs) =
    length-append _ (marshal_args arg)
    ∙ ap₂ (λ m n. m + n) (length-marshal_args_one a a.type a.interface h)
        (length-marshal_args arg hs)
    ∙ sym (
        value_slots-marshaled_argument a.type a.allow_null a.interface
          (marshaled_arguments (map built arg)))

event_step :
    (t : ArgumentType) (o : Option String) (len untyped slots new : ℕ)
    → len + 2 * untyped ≡ slots + new
    → suc len
        + 2 * (elim o [ none ↦ if is_new_id t then suc untyped else untyped | some _ ↦ untyped ])
      ≡ (slots_of t (is_some o) + slots) + (if is_new_id t then suc new else new)
unfolding slots_of is_some
event_step new_id none len untyped slots new h = omega arith
event_step new_id (some i) len untyped slots new h = omega arith
event_step _ none len untyped slots new h = omega arith
event_step _ (some i) len untyped slots new h = omega arith

-- A generated event passes on a value for every argument, new ids too, where the slots of its
-- message take none for a new id and two before one of any interface.
pub length-event_args :
    (arg : List Argument)
    → length (event_args arg) + 2 * untyped_new_ids arg
      ≡ value_slots (marshaled_arguments (map built arg)) + new_ids arg
unfolding event_args marshaled_arguments value_slots
length-event_args [] = refl
length-event_args (a ∷ arg) =
    event_step a.type a.interface (length (event_args arg)) (untyped_new_ids arg)
      (value_slots (marshaled_arguments (map built arg))) (new_ids arg) (length-event_args arg)
    ∙ ap (λ n. n + new_ids (a ∷ arg))
        (sym (
          value_slots-marshaled_argument a.type a.allow_null a.interface
            (marshaled_arguments (map built arg))))

-- ===== src/ProtocolCore/Message/Signature.antt =====
-- What libwayland reads from the signature that `build_message_struct` writes.
use pywayland_i6ie.Base.{
  ℕ, String, ◌≡◌, refl, sym, Bool, true, false, Option, none, some, List, [], ◌∷◌, ◌++◌, map,
  length, length-map, arith, ok, Result, map_result, >>=-eq-ok,
}
use mathlib.Core.List.{append_assoc, map-append}
use pywayland_i6ie.Base.Text.{
  codes, codes-append, concat, StartsNoDigit, str-IsDigits, IsDigits, read_digits, read_digits-str,
}
use pywayland_i6ie.Scanner.ArgumentType.{ArgumentType, new_id}
use pywayland_i6ie.ProtocolCore.Argument.{Argument, ClassName, signature}
use pywayland_i6ie.ProtocolCore.Argument.Signature.{read_types}
use pywayland_i6ie.ProtocolCore.Message.{
  Message, Ptr, WlMessage, marshaled_argument, marshaled_arguments, message_signature,
  build_message_struct, slot_pointers, type_pointer, version_prefix, slot_pointers, type_pointer,
}

read_types-append : (cs ds : List ℕ) → read_types (cs ++ ds) ≡ read_types cs ++ read_types ds
unfolding read_types
read_types-append [] ds = refl
read_types-append (c ∷ cs) ds = rw (read_types-append cs ds) (rw append_assoc)

abbrev pub argument_types : List Argument → List ArgumentType
argument_types = map (λ (a : Argument). a.argument_type)

read_types-digits : (cs : List ℕ) → IsDigits cs → read_types cs ≡ []
unfolding read_types
read_types-digits [] h = refl
read_types-digits (c ∷ cs) (d, h) = ground (arith, read_types-digits cs h)

read_types-signature :
    (t : ArgumentType) (nullable : Bool) (interface : Option ClassName)
    → let a : Argument = record { argument_type = t; nullable = nullable; interface = interface } in
      read_types (codes (signature a)) ≡ argument_types (marshaled_argument t interface a)
unfolding read_types signature marshaled_argument
read_types-signature new_id true none = refl
read_types-signature new_id false none = refl
read_types-signature new_id true (some c) = refl
read_types-signature new_id false (some c) = refl
read_types-signature _ true i = refl
read_types-signature _ false i = refl

read_types-concat :
    (args : List Argument)
    → read_types (codes (concat (map signature args))) ≡ argument_types (marshaled_arguments args)
unfolding read_types marshaled_arguments
read_types-concat [] = refl
read_types-concat (a ∷ args) =
    rw
      (
        codes-append,
        read_types-append,
        read_types-signature a.argument_type a.nullable a.interface,
        read_types-concat args,
      )
      (sym (map-append _ _ _))

-- Reading the letters of a signature gives the types of the arguments that `_marshaled_arguments`
-- yields, in order, whatever the version and the nullable marks are.
pub read_types-message_signature :
    (m : Message)
    → read_types (codes (message_signature m)) ≡ argument_types (marshaled_arguments m.arguments)
unfolding message_signature
read_types-message_signature m = go m.version
  where
    go :
        (v : Option ℕ)
        → read_types (codes (version_prefix v (concat (map signature m.arguments))))
          ≡ argument_types (marshaled_arguments m.arguments)
    go none = read_types-concat m.arguments
    go (some v) =
        rw (codes-append, read_types-append, read_types-digits _ (str-IsDigits v))
          (read_types-concat m.arguments)

signature-StartsNoDigit :
    (t : ArgumentType) (nullable : Bool) (interface : Option ClassName) (rest : List ℕ)
    → StartsNoDigit (
        codes (signature (record { argument_type = t; nullable = nullable; interface = interface }))
        ++ rest)
unfolding signature
signature-StartsNoDigit new_id true none r = refl
signature-StartsNoDigit new_id true (some c) r = refl
signature-StartsNoDigit new_id false none r = refl
signature-StartsNoDigit new_id false (some c) r = refl
signature-StartsNoDigit _ false i r = refl
signature-StartsNoDigit _ true i r = refl

concat-StartsNoDigit : (args : List Argument) → StartsNoDigit (codes (concat (map signature args)))
concat-StartsNoDigit [] = tt
concat-StartsNoDigit (a ∷ args) =
    rw codes-append (signature-StartsNoDigit a.argument_type a.nullable a.interface _)

read_digits_none : (cs : List ℕ) → StartsNoDigit cs → read_digits 0 cs ≡ 0
unfolding read_digits
read_digits_none [] h = refl
read_digits_none (c ∷ cs) h = rw h

abbrev pub version_or_zero : Option ℕ → ℕ
version_or_zero none = 0
version_or_zero (some v) = v

read_digits-version_prefix :
    (v : Option ℕ) (text : String)
    → StartsNoDigit (codes text)
    → read_digits 0 (codes (version_prefix v text)) ≡ version_or_zero v
unfolding version_prefix
read_digits-version_prefix none text h = read_digits_none _ h
read_digits-version_prefix (some v) text h = rw codes-append (read_digits-str v _ h)

-- The digits in front of a signature read back as the version of the message, and as 0 where it has
-- none.
pub read_digits-message_signature :
    (m : Message) → read_digits 0 (codes (message_signature m)) ≡ version_or_zero m.version
unfolding message_signature
read_digits-message_signature m =
    read_digits-version_prefix m.version _ (concat-StartsNoDigit m.arguments)

length-map_result {ℓ κ} :
    {A : Type ℓ} {B : Type κ} (f : A → Result B) (xs : List A) (ys : List B)
    → map_result f xs ≡ ok ys
    → length ys ≡ length xs
length-map_result f [] ys h = ground arith
length-map_result f (x ∷ xs) ys h =
    let (y, _, h1) = >>=-eq-ok (f x) _ h in
    let (zs, e, h2) = >>=-eq-ok (map_result f xs) _ h1 in
    ground (arith, length-map_result f xs zs e)

-- If `build_message_struct` returns, the letters of the signature read as the types of the
-- arguments that `_marshaled_arguments` yields, its digits read as the version of the message, or
-- as 0 where it has none, and there is one interface pointer for each of those arguments.
pub build_message_struct_slots :
    (interface_ptr : ClassName → Option Ptr) (m : Message) (w : WlMessage)
    → build_message_struct interface_ptr m ≡ ok w
    → (read_types (codes w.signature) ≡ argument_types (marshaled_arguments m.arguments))
      × (read_digits 0 (codes w.signature) ≡ version_or_zero m.version)
      × (length w.types ≡ length (read_types (codes w.signature)))
unfolding build_message_struct
build_message_struct_slots interface_ptr m w h =
    let (ts, e, h') =
      >>=-eq-ok (slot_pointers interface_ptr (marshaled_arguments m.arguments)) _ h in
    ground (
      arith,
      h',
      read_types-message_signature m,
      read_digits-message_signature m,
      length-map_result (λ (a : Argument). type_pointer interface_ptr a.interface)
          (marshaled_arguments m.arguments) ts e,
      length-map {0, 0} (λ (a : Argument). a.argument_type) (marshaled_arguments m.arguments),
    )

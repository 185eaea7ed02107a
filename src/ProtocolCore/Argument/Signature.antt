-- ===== src/ProtocolCore/Argument/Signature.antt =====
-- The wire format of a signature, as libwayland reads it: a letter for each argument, `?` before a
-- nullable one, and the version's digits in front.
use pywayland_i6ie.Base.{ℕ, List, [], ◌∷◌, ◌++◌, ◌==◌, ℕ-Eq, if◌then◌else◌}
use pywayland_i6ie.Scanner.ArgumentType.{
  ArgumentType, int, uint, fixed, string, object, new_id, array, file_descriptor,
}

abbrev pub letter_types : ℕ → List ArgumentType
letter_types c =
    if c == b'i'
    then int ∷ []
    else if c == b'u'
    then uint ∷ []
    else if c == b'f'
    then fixed ∷ []
    else if c == b's'
    then string ∷ []
    else if c == b'o'
    then object ∷ []
    else if c == b'n'
    then new_id ∷ []
    else if c == b'a'
    then array ∷ []
    else if c == b'h'
    then file_descriptor ∷ []
    else []

-- The types that a signature lists.
unfoldable pub read_types : List ℕ → List ArgumentType
read_types [] = []
read_types (c ∷ cs) = letter_types c ++ read_types cs

-- ===== src/ProtocolCore/Interface/Memory/Frames.antt =====
-- What is read in a memory, and what allocations, writes and collections leave as it is.
use pywayland_i6ie.Base.{
  ℕ, ◌≡◌, ◌≢◌, refl, ◌∙◌, true, String, Option, none, some, List, [], ◌∷◌, ◌++◌, set, any,
  if◌then◌else◌, ◌==◌, ℕ-Eq, arith, In, inl, inr,
}
use pywayland_i6ie.ProtocolCore.Argument.{ClassName}
use pywayland_i6ie.ProtocolCore.Message.{Ptr, WlMessage}
use pywayland_i6ie.ProtocolCore.Message.Wire.{Cffi}
use pywayland_i6ie.ProtocolCore.Interface.{WlInterface}
use pywayland_i6ie.ProtocolCore.Interface.Memory.{
  MessageStruct, Cdata, char_array, pointer_array, struct_array, Memory, read, write_struct,
  kept_by, InterfaceStruct, new,
}

-- cffi allocates where nothing is.
abbrev pub IsFresh : (Memory → Ptr) → Type 0
IsFresh fresh = (memory : Memory) → read (fresh memory) memory ≡ none

-- Every object but these is freed.
abbrev pub collect : List Ptr → Memory → Memory
collect kept [] = []
collect kept ((p, object) ∷ memory) =
    let rest = collect kept memory in if any (λ q. q == p) kept then (p, object) ∷ rest else rest

any-In : (p : Ptr) (kept : List Ptr) → In p kept → any (λ q. q == p) kept ≡ true
any-In p [] m = absurd m
any-In p (q ∷ kept) m = ground (arith, any-In p kept)

pub read-collect :
    (p : Ptr) (kept : List Ptr) (memory : Memory)
    → In p kept
    → read p (collect kept memory) ≡ read p memory
unfolding read
read-collect p kept [] m = refl
read-collect p kept ((q, object) ∷ memory) m =
    ground (arith, any-In p kept m, read-collect p kept memory m)

-- The struct's pointers lead to what the message builds.
abbrev pub Reads : Memory → MessageStruct → WlMessage → Type 0
Reads memory s w =
    (read s.name memory ≡ some (char_array w.name))
    × (read s.signature memory ≡ some (char_array w.signature))
    × (read s.types memory ≡ some (pointer_array w.types))

abbrev pub AllRead : Memory → List MessageStruct → List WlMessage → Type 0
AllRead memory [] [] = Unit
AllRead memory (s ∷ found) (w ∷ ws) = Reads memory s w × AllRead memory found ws
AllRead memory _ _ = ⊥

abbrev pub all_kept : List MessageStruct → List Ptr
all_kept [] = []
all_kept (s ∷ found) = kept_by s ++ all_kept found

-- The struct's pointers, and those of the arrays, lead to what `_gen_c` describes.
abbrev pub ReadsInterface : Memory → InterfaceStruct → WlInterface → Type 0
ReadsInterface memory s w =
    (read s.name memory ≡ some (char_array w.name))
    × (s.version ≡ w.version)
    × (s.method_count ≡ w.method_count)
    × (s.event_count ≡ w.event_count)
    × ((found : List MessageStruct) × (read s.methods memory ≡ some (struct_array found))
        × AllRead memory found w.methods)
    × ((found : List MessageStruct) × (read s.events memory ≡ some (struct_array found))
        × AllRead memory found w.events)

-- Whatever is at another address than this one is still there.
abbrev pub Frame : Ptr → Memory → Memory → Type 0
Frame p memory later =
    (q : Ptr) (object : Cdata) → read q memory ≡ some object → q ≢ p → read q later ≡ some object

-- Whatever is there is still there, but for structs.
abbrev pub KeepsLeaves : Memory → Memory → Type 0
KeepsLeaves memory later =
    ((q : Ptr) (text : String)
      → read q memory ≡ some (char_array text)
      → read q later ≡ some (char_array text))
    × ((q : Ptr) (ptrs : List Ptr)
        → read q memory ≡ some (pointer_array ptrs)
        → read q later ≡ some (pointer_array ptrs))

pub AllRead-KeepsLeaves :
    (memory later : Memory) (found : List MessageStruct) (ws : List WlMessage)
    → KeepsLeaves memory later
    → AllRead memory found ws
    → AllRead later found ws
AllRead-KeepsLeaves memory later [] [] keeps reads = tt
AllRead-KeepsLeaves memory later (s ∷ found) (w ∷ ws) (texts, ptrs)
      ((name, signature, types), rest) =
    (
      (texts _ _ name, texts _ _ signature, ptrs _ _ types),
      AllRead-KeepsLeaves memory later found ws (texts, ptrs) rest,
    )
AllRead-KeepsLeaves memory later [] (w ∷ ws) keeps reads = absurd reads
AllRead-KeepsLeaves memory later (s ∷ found) [] keeps reads = absurd reads

pub AllRead-collect :
    (kept : List Ptr) (memory : Memory) (found : List MessageStruct) (ws : List WlMessage)
    → ((q : Ptr) → In q (all_kept found) → In q kept)
    → AllRead memory found ws
    → AllRead (collect kept memory) found ws
AllRead-collect kept memory [] [] holds reads = tt
AllRead-collect kept memory (s ∷ found) (w ∷ ws) holds ((name, signature, types), rest) = (
  (
    read-collect s.name kept memory (holds s.name (inl refl)) ∙ name,
    read-collect s.signature kept memory (holds s.signature (inr (inl refl))) ∙ signature,
    read-collect s.types kept memory (holds s.types (inr (inr (inl refl)))) ∙ types,
  ),
  AllRead-collect kept memory found ws (λ q m. holds q (inr (inr (inr m)))) rest,
)
AllRead-collect kept memory [] (w ∷ ws) holds reads = absurd reads
AllRead-collect kept memory (s ∷ found) [] holds reads = absurd reads

pub Frame-KeepsLeaves :
    (p : Ptr) (memory later : Memory) (found : List MessageStruct)
    → read p memory ≡ some (struct_array found)
    → Frame p memory later
    → KeepsLeaves memory later
Frame-KeepsLeaves p memory later found at frame = (
  λ q text e. frame q (char_array text) e (λ same. absurd (cc)),
  λ q ptrs e. frame q (pointer_array ptrs) e (λ same. absurd (cc)),
)

pub read-write_struct :
    (p : Ptr) (i : ℕ) (s : MessageStruct) (memory : Memory) (found : List MessageStruct)
    → read p memory ≡ some (struct_array found)
    → (read p (write_struct p i s memory) ≡ some (struct_array (set found i s)))
      × Frame p memory (write_struct p i s memory)
unfolding read write_struct
read-write_struct p i s memory found at =
    rw (at, write_struct) (ground arith, λ q object e other. ground arith)

module _ (fresh : Memory → Ptr) (is_fresh : IsFresh fresh) where
  pub read-new :
      (C : Cffi) (interface_ptr : ClassName → Option Ptr) (object : Cdata) (memory : Memory)
      → (read
            (new C interface_ptr fresh object memory).0
            (new C interface_ptr fresh object memory).1
          ≡ some object)
        × ((q : Ptr) (c : Cdata)
            → read q memory ≡ some c
            → (read q (new C interface_ptr fresh object memory).1 ≡ some c) × (q ≢ fresh memory))
  unfolding new read
  read-new C interface_ptr object memory = (
    ground arith,
    λ q c e.
        let other : q ≢ fresh memory = λ same. absurd (cc (is_fresh memory)) in
        (ground (arith, other), other),
  )

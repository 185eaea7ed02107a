-- ===== src/Server/Sources.antt =====
-- Every source that is added to a loop is removed at most once, and by `destroy` if not before,
-- unless the program discards it.
use pywayland_i6ie.Base.{
  ℕ, ◌+◌, ◌≡◌, refl, ap, ◌∙◌, Bool, true, false, some, List, [], ◌∷◌, ◌++◌, Result, get_elem?,
  arith, ℕ-Eq, Option-cases, inl, inr, Result-cases,
}
use pywayland_i6ie.ProtocolCore.Message.{Ptr}
use pywayland_i6ie.Server.{
  Watched, add, destroy_loop, CallbackInfo, EventLoop, event_loop, add_source, removing,
  remove_source, discarding, collect_source, remove_all, all_removed, released, release,
  destroy_event_loop,
}
use pywayland_i6ie.Server.Counts.{
  count_added, count_removed, count_present, count_discarded, count_added-append,
  count_removed-append, count_discarded-append, count_discarded-discarding, count_present-append,
  removing-counts, remove_all-counts, count_present-all_removed, count_present-set,
}

pub data Operation : Type 0 where
  adds : Watched → CallbackInfo → Ptr → Operation
  removes : ℕ → Operation
  collects : ℕ → Operation
  destroys : Operation

module _ (borrowed : Result (Unit {0})) where
  abbrev pub perform : Operation → EventLoop → EventLoop
  perform (adds what callback found) e = (add_source what callback found e).1
  perform (removes k) e = remove_source k e
  perform (collects k) e = collect_source k e
  perform destroys e = (destroy_event_loop borrowed e).1

  abbrev pub perform_all : List Operation → EventLoop → EventLoop
  perform_all [] e = e
  perform_all (operation ∷ operations) e = perform_all operations (perform operation e)

  abbrev pub Balanced : Ptr → EventLoop → Type 0
  Balanced p e =
      count_added p e.calls
      ≡ count_removed p e.calls + count_present p e.sources + count_discarded p e.discarded

  add_source-Balanced :
      (p : Ptr) (what : Watched) (callback : CallbackInfo) (found : Ptr) (e : EventLoop)
      → Balanced p e
      → Balanced p (add_source what callback found e).1
  unfolding add_source
  add_source-Balanced p what callback found e h = elim (Option-cases e.ptr) [
    | inl gone ↦ rw (gone, add_source) h
    | inr (loop, there) ↦
        let added = count_added-append p e.calls (add loop what found ∷ []) in
        let removed = count_removed-append p e.calls (add loop what found ∷ []) in
        let present = count_present-append p e.sources (some found ∷ []) in
        rw (there, add_source) (ground (arith, added, removed, present))
  ]

  remove_source-Balanced :
      (p : Ptr) (k : ℕ) (e : EventLoop) → Balanced p e → Balanced p (remove_source k e)
  unfolding remove_source
  remove_source-Balanced p k e h = elim (Option-cases (get_elem? e.sources k)) [
    | inl nothing ↦ rw (nothing, remove_source) h
    | inr (source, at) ↦
        let (removed, added) = removing-counts p source in
        let all_added = count_added-append p e.calls (removing source) in
        let all_taken = count_removed-append p e.calls (removing source) in
        let present = count_present-set p e.sources k source at in
        rw (at, remove_source) (omega arith)
  ]

  collect_source-Balanced :
      (p : Ptr) (k : ℕ) (e : EventLoop) → Balanced p e → Balanced p (collect_source k e)
  unfolding collect_source
  collect_source-Balanced p k e h = elim (Option-cases (get_elem? e.sources k)) [
    | inl nothing ↦ rw (nothing, collect_source) h
    | inr (source, at) ↦
        let all = count_discarded-append p e.discarded (discarding source) in
        let one = count_discarded-discarding p source in
        let present = count_present-set p e.sources k source at in
        rw (at, collect_source) (omega arith)
  ]

  release-Balanced :
      (p : Ptr) (owned : Bool) (ptr : Ptr) (e : EventLoop)
      → Balanced p e
      → Balanced p (release borrowed owned ptr e).1
  unfolding release released
  release-Balanced p true ptr e h =
      let added = count_added-append p e.calls (destroy_loop ptr ∷ []) in
      let removed = count_removed-append p e.calls (destroy_loop ptr ∷ []) in omega arith
  release-Balanced p false ptr e h = elim (Result-cases borrowed) [
    | inl (done, kept) ↦ rw (kept, release) h
    | inr (x, raised) ↦ rw (raised, release) h
  ]

  destroy_event_loop-Balanced :
      (p : Ptr) (e : EventLoop) → Balanced p e → Balanced p (destroy_event_loop borrowed e).1
  unfolding destroy_event_loop
  destroy_event_loop-Balanced p e h = elim (Option-cases e.ptr) [
    | inl gone ↦ rw (gone, destroy_event_loop) h
    | inr (ptr, there) ↦
        let (removed, added) = remove_all-counts p e.sources in
        let all_added = count_added-append p e.calls (remove_all e.sources) in
        let all_taken = count_removed-append p e.calls (remove_all e.sources) in
        let present = count_present-all_removed p e.sources in
        rw (there, destroy_event_loop)
          (release-Balanced p e.owned ptr
            (record e { sources = all_removed e.sources; calls = e.calls ++ remove_all e.sources })
            (omega arith))
  ]

  perform-Balanced :
      (p : Ptr) (operation : Operation) (e : EventLoop)
      → Balanced p e
      → Balanced p (perform operation e)
  perform-Balanced p (adds what callback found) e h = add_source-Balanced p what callback found e h
  perform-Balanced p (removes k) e h = remove_source-Balanced p k e h
  perform-Balanced p (collects k) e h = collect_source-Balanced p k e h
  perform-Balanced p destroys e h = destroy_event_loop-Balanced p e h

  perform_all-Balanced :
      (p : Ptr) (operations : List Operation) (e : EventLoop)
      → Balanced p e
      → Balanced p (perform_all operations e)
  perform_all-Balanced p [] e h = h
  perform_all-Balanced p (operation ∷ operations) e h =
      perform_all-Balanced p operations (perform operation e) (perform-Balanced p operation e h)

  release-sources :
      (owned : Bool) (ptr : Ptr) (e : EventLoop)
      → (release borrowed owned ptr e).1.sources ≡ e.sources
  unfolding release released
  release-sources true ptr e = refl
  release-sources false ptr e = elim (Result-cases borrowed) [
    | inl (done, kept) ↦ rw (kept, release) refl
    | inr (x, raised) ↦ rw (raised, release) refl
  ]

  destroy_event_loop-sources :
      (e : EventLoop) (loop p : Ptr)
      → e.ptr ≡ some loop
      → count_present p (destroy_event_loop borrowed e).1.sources ≡ 0
  unfolding destroy_event_loop
  destroy_event_loop-sources e loop p there =
      rw (there, destroy_event_loop)
        (ap (count_present p) (
            release-sources e.owned loop (record e {
              sources = all_removed e.sources;
              calls = e.calls ++ remove_all e.sources;
            }))
          ∙ count_present-all_removed p e.sources)

  release-discarded :
      (owned : Bool) (ptr : Ptr) (e : EventLoop)
      → (release borrowed owned ptr e).1.discarded ≡ e.discarded
  unfolding release released
  release-discarded true ptr e = refl
  release-discarded false ptr e = elim (Result-cases borrowed) [
    | inl (done, kept) ↦ rw (kept, release) refl
    | inr (x, raised) ↦ rw (raised, release) refl
  ]

  destroy_event_loop-discarded :
      (e : EventLoop) → (destroy_event_loop borrowed e).1.discarded ≡ e.discarded
  unfolding destroy_event_loop
  destroy_event_loop-discarded e = elim (Option-cases e.ptr) [
    | inl gone ↦ rw (gone, destroy_event_loop) refl
    | inr (ptr, there) ↦
        rw (there, destroy_event_loop)
          (release-discarded e.owned ptr
            (record e { sources = all_removed e.sources; calls = e.calls ++ remove_all e.sources }))
  ]

  -- Whatever is done with a loop and its sources, in any order, each pointer has been added as a
  -- source as often as it has been removed, is still the pointer of one, and was that of a source
  -- that was discarded: no source is removed more often than it was added.
  pub count_added-perform_all :
      (owned : Bool) (ptr p : Ptr) (operations : List Operation)
      → count_added p (perform_all operations (event_loop owned ptr)).calls
        ≡ count_removed p (perform_all operations (event_loop owned ptr)).calls
          + count_present p (perform_all operations (event_loop owned ptr)).sources
          + count_discarded p (perform_all operations (event_loop owned ptr)).discarded
  unfolding event_loop
  count_added-perform_all owned ptr p operations =
      perform_all-Balanced p operations (event_loop owned ptr) refl

  -- When a loop that has its pointer is destroyed after any operations, every source has been
  -- removed as often as it was added, less the times that it was discarded while it had its
  -- pointer, whether or not the pointer of the loop could be released.
  pub count_removed-destroy_event_loop :
      (owned : Bool) (ptr loop p : Ptr) (operations : List Operation)
      → (perform_all operations (event_loop owned ptr)).ptr ≡ some loop
      → count_removed p
            (destroy_event_loop borrowed (perform_all operations (event_loop owned ptr))).1.calls
          + count_discarded p (perform_all operations (event_loop owned ptr)).discarded
        ≡ count_added p
            (destroy_event_loop borrowed (perform_all operations (event_loop owned ptr))).1.calls
  count_removed-destroy_event_loop owned ptr loop p operations there =
      let e = perform_all operations (event_loop owned ptr) in
      let balanced : Balanced p (destroy_event_loop borrowed e).1 =
        destroy_event_loop-Balanced p e (count_added-perform_all owned ptr p operations) in
      let gone = destroy_event_loop-sources e loop p there in
      let kept = ap (count_discarded p) (destroy_event_loop-discarded e) in omega arith

-- ===== src/Client/Events/Reading.antt =====
-- The loop of `read`: how it ends, and after how many rounds.
use pywayland_i6ie.Base.{
  ℕ, zero, suc, ◌+◌, ◌<◌, ◌⊎◌, inl, inr, ℤ, pos, negsuc, Option, some, Result, ok, err, Error, ◌≡◌,
  ◌≢◌, refl, ap, ◌∙◌, arith,
}
use pywayland_i6ie.ProtocolCore.Message.{Ptr}
use pywayland_i6ie.Client.Events.{
  Libwayland, QueueArgument, read_events, lib_at, checked_status, after_dispatch, after_prepare,
  prepare_events, dispatch_pending_events, finish_read, read_rounds, display_read, Finished,
}

module _ (W : Libwayland) (display_ptr : Libwayland.World W → Option Ptr)
    (queue_of : Libwayland.World W → QueueArgument) where
  open W use {World, call}

  -- From one world to another by rounds in which libwayland was not ready and events were
  -- dispatched.
  pub data Waited : World → World → Type 0 where
    at_once : {w : World} → Waited w w
    wait :
        {w w' w'' last : World} (z ret : ℤ)
        → z ≢ pos 0
        → prepare_events W display_ptr queue_of w ≡ (ok z, w')
        → dispatch_pending_events W display_ptr queue_of w' ≡ (ok ret, w'')
        → Waited w'' last
        → Waited w last

  -- How a last round ends: events are read once libwayland is ready, or there is an exception.
  abbrev pub Ends : World → Finished W → Type 0
  Ends w out =
      ((w' : World) × (prepare_events W display_ptr queue_of w ≡ (ok (pos 0), w'))
        × (out ≡ checked_status W (lib_at W (display_ptr w') read_events w')))
      ⊎ (((x : Error) × (w' : World) × (prepare_events W display_ptr queue_of w ≡ (err x, w'))
            × (out ≡ (err x, w')))
          ⊎ ((z : ℤ) × (x : Error) × (w' : World) × (w'' : World) × (z ≢ pos 0)
              × (prepare_events W display_ptr queue_of w ≡ (ok z, w'))
              × (dispatch_pending_events W display_ptr queue_of w' ≡ (err x, w''))
              × (out ≡ (err x, w''))))

  -- Each round that is not the last leaves less of something.
  abbrev pub Drains : (World → ℕ) → Type 0
  Drains pending =
      (w w' w'' : World) (z ret : ℤ)
      → z ≢ pos 0
      → prepare_events W display_ptr queue_of w ≡ (ok z, w')
      → dispatch_pending_events W display_ptr queue_of w' ≡ (ok ret, w'')
      → pending w'' < pending w

  after_dispatch_mono :
      (f g : World → Option (Finished W))
      → ((w : World) (out : Finished W) → f w ≡ some out → g w ≡ some out)
      → (r : Result ℤ) (w : World) (out : Finished W)
      → after_dispatch W display_ptr queue_of f (r, w) ≡ some out
      → after_dispatch W display_ptr queue_of g (r, w) ≡ some out
  unfolding after_dispatch
  after_dispatch_mono f g more (err x) w out e = e
  after_dispatch_mono f g more (ok z) w out e = more w out e

  after_prepare_mono :
      (f g : World → Option (Finished W))
      → ((w : World) (out : Finished W) → f w ≡ some out → g w ≡ some out)
      → (r : Result ℤ) (w : World) (out : Finished W)
      → after_prepare W display_ptr queue_of f (r, w) ≡ some out
      → after_prepare W display_ptr queue_of g (r, w) ≡ some out
  unfolding after_prepare
  after_prepare_mono f g more (err x) w out e = e
  after_prepare_mono f g more (ok (pos zero)) w out e = e
  after_prepare_mono f g more (ok (pos (suc n))) w out e =
      let (r, w') = dispatch_pending_events W display_ptr queue_of w in
      after_dispatch_mono f g more r w' out e
  after_prepare_mono f g more (ok (negsuc n)) w out e =
      let (r, w') = dispatch_pending_events W display_ptr queue_of w in
      after_dispatch_mono f g more r w' out e

  read_rounds-add :
      (n k : ℕ) (w : World) (out : Finished W)
      → read_rounds W display_ptr queue_of n w ≡ some out
      → read_rounds W display_ptr queue_of (n + k) w ≡ some out
  unfolding read_rounds
  read_rounds-add zero k w out e = absurd (cc)
  read_rounds-add (suc n) k w out e =
      let (r, w') = prepare_events W display_ptr queue_of w in
      let step : suc n + k ≡ suc (n + k) = omega arith in
      ap (λ rounds. read_rounds W display_ptr queue_of rounds w) step
      ∙ after_prepare_mono _ _ (read_rounds-add n k) r w' out e

  after_prepare_nonzero :
      (f : World → Option (Finished W)) (z : ℤ) (w : World)
      → z ≢ pos 0
      → after_prepare W display_ptr queue_of f (ok z, w)
        ≡ after_dispatch W display_ptr queue_of f (dispatch_pending_events W display_ptr queue_of w)
  unfolding after_prepare
  after_prepare_nonzero f (pos zero) w differ = absurd (differ refl)
  after_prepare_nonzero f (pos (suc n)) w differ = refl
  after_prepare_nonzero f (negsuc n) w differ = refl

  -- In so many rounds the loop gets to a last one.
  abbrev Gets : ℕ → World → Type 0
  Gets n w =
      (out : Finished W) × (last : World) × (read_rounds W display_ptr queue_of n w ≡ some out)
      × Waited w last
      × Ends last out

  module _ (pending : World → ℕ) (drains : Drains pending) where
    dispatched-Gets :
        (n : ℕ) (w w' : World) (z : ℤ) (d : Result ℤ × World)
        → z ≢ pos 0
        → prepare_events W display_ptr queue_of w ≡ (ok z, w')
        → dispatch_pending_events W display_ptr queue_of w' ≡ d
        → ((v : World) → pending v < pending w → Gets n v)
        → Gets (suc n) w
    unfolding read_rounds after_dispatch
    dispatched-Gets n w w' z (err x, w'') differ e d more = (
      (err x, w''),
      w,
      rw e (after_prepare_nonzero _ z w' differ ∙ rw d refl),
      at_once,
      inr (inr (z, x, w', w'', differ, e, d, refl)),
    )
    dispatched-Gets n w w' z (ok ret, w'') differ e d more =
        let (out, last, read, waited, ends) = more w'' (drains w w' w'' z ret differ e d) in
        (
          out,
          last,
          rw e (after_prepare_nonzero _ z w' differ ∙ rw d read),
          wait z ret differ e d waited,
          ends,
        )

    prepared-Gets :
        (n : ℕ) (w : World) (p : Result ℤ × World)
        → prepare_events W display_ptr queue_of w ≡ p
        → ((v : World) → pending v < pending w → Gets n v)
        → Gets (suc n) w
    unfolding read_rounds after_prepare finish_read
    prepared-Gets n w (err x, w') e more =
        ((err x, w'), w, rw e refl, at_once, inr (inl (x, w', e, refl)))
    prepared-Gets n w (ok (pos zero), w') e more = (_, w, rw e refl, at_once, inl (w', e, refl))
    prepared-Gets n w (ok (pos (suc m)), w') e more =
        dispatched-Gets n w w' (pos (suc m)) _ (λ same. absurd (cc)) e refl more
    prepared-Gets n w (ok (negsuc m), w') e more =
        dispatched-Gets n w w' (negsuc m) _ (λ same. absurd (cc)) e refl more

    all-Gets : (n : ℕ) (w : World) → pending w < suc n → Gets (suc n) w
    all-Gets zero w small = prepared-Gets zero w _ refl (λ v less. absurd (omega arith))
    all-Gets (suc n) w small = prepared-Gets (suc n) w _ refl (λ v less. all-Gets n v (omega arith))

    -- If each round of `read` that is not its last leaves fewer events pending, then on a display
    -- that has a pointer one round more than there are events pending is enough, and further ones
    -- change nothing: by rounds in which libwayland was not ready and events were dispatched, the
    -- loop gets to a last one, whose outcome is that of reading events right after libwayland was
    -- ready, or the exception that was raised in it.
    pub display_read-Ends :
        (k : ℕ) (w : World) (ptr : Ptr)
        → display_ptr w ≡ some ptr
        → (out : Finished W) × (last : World) × (display_read W display_ptr queue_of
              (suc (pending w) + k)
              w
            ≡ some out)
          × Waited w last
          × Ends last out
    unfolding display_read
    display_read-Ends k w ptr here =
        let (out, last, read, waited, ends) = all-Gets (pending w) w (omega arith) in
        (out, last, rw here (read_rounds-add (suc (pending w)) k w out read), waited, ends)

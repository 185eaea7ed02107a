-- ===== src/Utils/AnonymousFiles.antt =====
-- What becomes of the descriptor of an anonymous file.
use pywayland_i6ie.Base.{
  ℕ, ℤ, pos, none, Result, ok, err, ◌≡◌, refl, sym, ap, ◌∙◌, arith, Option-cases, inl, inr,
}
use pywayland_i6ie.Utils.{
  System, AnonymousFile, anonymous_file, open_file, opened, close_file, closed, with_file,
}

module _ (S : System) where
  open S use {World}

  closed_fd :
      (f : AnonymousFile) (r : Result (Unit {0})) (w w' : World) (f' : AnonymousFile)
      → closed S f (r, w) ≡ (ok tt, f', w')
      → f'.fd ≡ none
  unfolding closed
  closed_fd f (err x) w w' f' e = absurd (ground arith)
  closed_fd f (ok _) w w' f' e = sym (ap (λ out. out.1.fd) e)

  close_file_closed :
      (f : AnonymousFile) (w w' : World) (f' : AnonymousFile)
      → close_file S f w ≡ (ok tt, f', w')
      → f'.fd ≡ none
  unfolding close_file closed
  close_file_closed f w w' f' e = elim (Option-cases f.fd) [
    | inl gone ↦ sym (ap (λ out. out.1.fd) (rw (gone, close_file) at e)) ∙ gone
    | inr (fd, there) ↦
        let (r, after) = S.close fd w in closed_fd f r after w' f' (rw (there, close_file) at e)
  ]

  -- Once `close` has returned, the file has no descriptor, and closing it again does nothing.
  pub close_file_twice :
      (f : AnonymousFile) (w w' : World) (f' : AnonymousFile)
      → close_file S f w ≡ (ok tt, f', w')
      → (f'.fd ≡ none) × (close_file S f' w' ≡ (ok tt, f', w'))
  unfolding close_file
  close_file_twice f w w' f' e = let gone = close_file_closed f w w' f' e in (gone, rw gone refl)

  -- In `with file as fd`, on a file that is not open: if a descriptor is made and closing it does
  -- not raise, the body runs with it, the descriptor is closed behind it once, whatever the body
  -- ends with, and that is what the statement ends with; closing the file again does nothing then.
  pub with_file_closes :
      {A : Type 0} (size : ℤ) (n : ℕ) (body : ℤ → World → Result A × World) (w w' w'' : World)
      → S.create size w ≡ (pos n, w')
      → S.close (pos n) (body (pos n) w').1 ≡ (ok tt, w'')
      → (with_file S (anonymous_file size) body w ≡ ((body (pos n) w').0, anonymous_file size, w''))
        × (close_file S (anonymous_file size) w'' ≡ (ok tt, anonymous_file size, w''))
  unfolding with_file open_file opened anonymous_file close_file closed
  with_file_closes size n body w w' w'' made closing = (rw (made, closing) refl, refl)

-- ===== src/Utils/Links.antt =====
-- The walk over a list of libwayland's yields the containers of its links, in order.
use pywayland_i6ie.Base.{
  ℕ, suc, ◌+◌, ◌≤◌, ◌<◌, ◌≡◌, ◌≢◌, refl, ap, ◌∙◌, sym, some, List, [], ◌∷◌, map, length, arith,
  ◌==◌, ℕ-Eq, Bool-cases, inl, inr, nat_eq_iff,
}
use pywayland_i6ie.Utils.{word, wl_container_of, member, each_from, wl_list_for_each}

pub member-wl_container_of :
    (ptr offset : ℕ) → ptr < word → offset ≤ word → member (wl_container_of ptr offset) offset ≡ ptr
member-wl_container_of ptr offset small fits = omega arith

-- From the link at `link`, `next` leads through these links and back to `head`.
abbrev pub Leads : (ℕ → ℕ) → ℕ → ℕ → List ℕ → Type 0
Leads next head link [] = next link ≡ head
Leads next head link (x ∷ links) =
    (next link ≡ x) × (x ≢ head) × (x < word) × Leads next head x links

module _ (next : ℕ → ℕ) (head offset : ℕ) (small : head < word) (fits : offset ≤ word) where
  each_from_end :
      (rounds at : ℕ)
      → member at offset ≡ head
      → each_from next head offset (suc rounds) at ≡ some []
  unfolding each_from
  each_from_end rounds at e = ground (arith, e)

  each_from_more :
      (rounds at x : ℕ) (containers : List ℕ)
      → member at offset ≡ x
      → x ≢ head
      → each_from next head offset rounds (wl_container_of (next x) offset) ≡ some containers
      → each_from next head offset (suc rounds) at ≡ some (at ∷ containers)
  unfolding each_from
  each_from_more rounds at x containers here differs rest =
      elim (Bool-cases (member at offset == head)) [
        | inl e ↦ absurd (differs (sym here ∙ (nat_eq_iff _ _).0 e))
        | inr e ↦ rw e (rw here (rw rest refl))
      ]

  each_from-Leads :
      (links : List ℕ) (link k : ℕ)
      → Leads next head link links
      → each_from next head offset (suc (length links) + k) (wl_container_of (next link) offset)
        ≡ some (map (λ x. wl_container_of x offset) links)
  each_from-Leads [] link k leads =
      let step : 1 + k ≡ suc k = omega arith in
      let back : member (wl_container_of (next link) offset) offset ≡ head =
        rw leads (member-wl_container_of head offset small fits) in
      ap (λ rounds. each_from next head offset rounds (wl_container_of (next link) offset)) step
      ∙ each_from_end k (wl_container_of (next link) offset) back
  each_from-Leads (x ∷ links) link k (to, differs, below, leads) =
      let step : suc (suc (length links)) + k ≡ suc (suc (length links) + k) = omega arith in
      let here : member (wl_container_of x offset) offset ≡ x =
        member-wl_container_of x offset below fits in
      ap (λ rounds. each_from next head offset rounds (wl_container_of (next link) offset)) step
      ∙ ap
          (λ y.
            each_from next head offset (suc (suc (length links) + k)) (wl_container_of y offset))
          to
      ∙ (each_from_more (suc (length links) + k) (wl_container_of x offset) x _ here differs
          (each_from-Leads links x k leads))

  -- If `next` leads from the head through these links and back, none of them the head, then the
  -- walk yields the container of each of them, in order; one round more than there are links is
  -- enough.
  pub wl_list_for_each-Leads :
      (links : List ℕ) (k : ℕ)
      → Leads next head head links
      → wl_list_for_each next head offset (suc (length links) + k)
        ≡ some (map (λ x. wl_container_of x offset) links)
  unfolding wl_list_for_each
  wl_list_for_each-Leads links k leads = each_from-Leads links head k leads

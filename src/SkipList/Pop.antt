-- ===== src/SkipList/Pop.antt =====
-- detail/SkipListLatencyBufferModel.hxx: what `pop`, `flush` and `read` do to the members.
use datahandlinglibs.Base.{
  length-take, ℕ, zero, suc, ◌-◌, ◌≤◌, ◌≡◌, refl, sym, ap, ap₂, ◌∙◌, none, List, [], ◌∷◌, arith,
  length, take, take-all, ◌^◌, ◌<◌,
}
use datahandlinglibs.SkipList.{as_int, Accessor, AccessorLaws, pop, flush, occupancy, read}

as_int_small : (n : ℕ) → n < 2 ^ 31 → as_int n ≡ n
as_int_small n h = ground (arith, h)

module _ {T S I : Type 0} (acc : Accessor T S I) (members : S → List T)
    (laws : AccessorLaws acc members) where
  take-take : (n m : ℕ) (xs : List T) → n ≤ m → take n (take m xs) ≡ take n xs
  take-take zero m xs h = refl
  take-take (suc n) zero xs h = absurd (omega arith)
  take-take (suc n) (suc m) [] h = refl
  take-take (suc n) (suc m) (x ∷ xs) h = ap (◌∷◌ x) (take-take n m xs (omega arith))

  -- `pop` drops the last members, which are the newest.
  pub members-pop :
      (num : ℕ) (s : S)
      → num ≤ length (members s)
      → members (pop acc num s) ≡ take (length (members s) - num) (members s)
  unfolding pop
  members-pop zero s h = sym (take-all (length (members s) - 0) (members s) (omega arith))
  members-pop (suc num) s h =
      let popped = laws.members-pop_back s in
      let left : length (members (acc.pop_back s)) ≡ length (members s) - 1 =
        ap length popped ∙ length-take (length (members s) - 1) (members s) (omega arith) in
      members-pop num (acc.pop_back s) (omega (arith, left))
      ∙ (ap₂ (λ n xs. take (n - num) xs) left popped
          ∙ (take-take (length (members s) - 1 - num) (length (members s) - 1) (members s)
                (omega arith)
              ∙ ap (λ n. take n (members s)) (steps (length (members s)) num)))
    where
      steps : (n num : ℕ) → n - 1 - num ≡ n - suc num
      steps n num = omega arith

  -- After `flush` of fewer than 2^31 members there are none, and `read` finds none.
  pub members-flush :
      (s : S)
      → length (members s) < 2 ^ 31
      → (members (flush acc s) ≡ []) × (read acc (flush acc s) ≡ none)
  unfolding flush occupancy read
  members-flush s small =
      let empty : members (flush acc s) ≡ [] =
        ap (λ n. members (pop acc n s)) (ap as_int (laws.size_law s) ∙ as_int_small _ small)
        ∙ (members-pop (length (members s)) s (omega arith)
            ∙ ap (λ n. take n (members s)) (none_left (length (members s)))) in
      (empty, rw (laws.begin_is_end (flush acc s), ap length empty) refl)
    where
      none_left : (n : ℕ) → n - n ≡ 0
      none_left n = omega arith

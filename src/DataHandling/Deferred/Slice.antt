-- ===== src/DataHandling/Deferred/Slice.antt =====
-- detail/DataHandlingModel.hxx: which payloads the deferred post-processing takes.
use datahandlinglibs.Base.{
  ℕ, zero, suc, ◌+◌, ◌-◌, ◌≤◌, ◌<◌, ◌≡◌, refl, sym, ap, ap₂, ◌∙◌, true, false, ◌&&◌, none, some,
  List, [], ◌∷◌, arith, dec_lt, ltb, leb, if◌then◌else◌, lt→ltb, le→ltb, ne→==, eq→==, le→leb,
  leb_gt, length, drop, take, get_elem?-none, get_elem?-some, drop-eq-cons,
}
use mathlib.Core.Option.{some-injective}
use datahandlinglibs.Readout.{Readout, Laws}
use datahandlinglibs.Readout.Order.{Ascending, Ascending-tail, rank, rank-le}
use datahandlinglibs.IterableQueue.{Queue}
use datahandlinglibs.IterableQueue.Place.{place, place-ne, place-lt}
use datahandlinglibs.IterableQueue.Holds.{Holds}
use datahandlinglibs.IterableQueue.Fifo.{last}
use datahandlinglibs.IterableQueue.Iterator.{visit, end}
use datahandlinglibs.IterableQueue.Iterator.Cursor.{next-place, cursor-place}
use datahandlinglibs.BinarySearchQueue.{lower_bound}
use datahandlinglibs.BinarySearchQueue.LowerBound.{lower_bound_finds}
use datahandlinglibs.DataHandling.Deferred.{Deferral, process_window}

both_suc : (m n : ℕ) → suc m - suc n ≡ m - n
both_suc m n = omega arith

minus_zero : (n : ℕ) → n ≡ n - 0
minus_zero n = omega arith

later : (n j : ℕ) → suc n + j ≡ n + suc j
later n j = omega arith

back_up : (b a : ℕ) → a ≤ b → b ≡ b - a + a
back_up b a h = omega arith

module _ {T : Type 0} (rt : Readout T) where
  -- The payloads from one time on, and before another.
  abbrev pub window : ℕ → ℕ → List T → List T
  window a b [] = []
  window a b (x ∷ xs) =
      if leb a (rt.timestamp x) && ltb (rt.timestamp x) b then x ∷ window a b xs else window a b xs

  rank_first :
      (a : ℕ) (x : T) (xs : List T) → Ascending rt (x ∷ xs) → a ≤ rt.timestamp x → rank rt a xs ≡ 0
  rank_first a x [] asc h = refl
  rank_first a x (y ∷ xs) asc h = rw (le→ltb (rt.timestamp y) a (omega (arith, asc.0))) refl

  take-nil : (n : ℕ) → ◌≡◌ {A = List T} (take n []) []
  take-nil zero = refl
  take-nil (suc n) = refl

  starts :
      (a b : ℕ) (x : T) (xs : List T)
      → Ascending rt (x ∷ xs)
      → a ≤ rt.timestamp x
      → take (rank rt b xs) xs ≡ take (rank rt b xs - rank rt a xs) (drop (rank rt a xs) xs)
  starts a b x xs asc h =
      ap (λ n. take n xs) (minus_zero (rank rt b xs))
      ∙ ap (λ n. take (rank rt b xs - n) (drop n xs)) (sym (rank_first a x xs asc h))

  -- The ranks of two times bound the window between them.
  window-rank :
      (a b : ℕ) (xs : List T)
      → Ascending rt xs
      → a ≤ b
      → take (rank rt b xs - rank rt a xs) (drop (rank rt a xs) xs) ≡ window a b xs
  window-rank a b [] asc h = take-nil (rank rt b [] - rank rt a [])
  window-rank a b (x ∷ xs) asc h = elim (dec_lt (rt.timestamp x) a) [
    | yes old ↦
        rw
          (
            lt→ltb (rt.timestamp x) a old,
            lt→ltb (rt.timestamp x) b (omega arith),
            leb_gt a (rt.timestamp x) old,
          )
          (ap (λ n. take n (drop (rank rt a xs) xs)) (both_suc (rank rt b xs) (rank rt a xs))
            ∙ window-rank a b xs (Ascending-tail rt x xs asc) h)
    | no young ↦ elim (dec_lt (rt.timestamp x) b) [
      | yes before ↦
          rw
            (
              le→ltb (rt.timestamp x) a (omega arith),
              lt→ltb (rt.timestamp x) b before,
              le→leb a (rt.timestamp x) (omega arith),
            )
            (sym (ap (λ n. take n (x ∷ xs)) (minus_zero (suc (rank rt b xs))))
              ∙ ap (◌∷◌ x) (
                  starts a b x xs asc (omega arith)
                  ∙ window-rank a b xs (Ascending-tail rt x xs asc) h))
      | no after ↦
          rw
            (
              le→ltb (rt.timestamp x) a (omega arith),
              le→ltb (rt.timestamp x) b (omega arith),
              le→leb a (rt.timestamp x) (omega arith),
            )
            (sym (
                ap₂ (λ m n. take (m - n) (drop n xs)) (rank_first b x xs asc (omega arith))
                  (rank_first a x xs asc (omega arith)))
              ∙ window-rank a b xs (Ascending-tail rt x xs asc) h)
    ]
  ]

  rank-lt :
      (b : ℕ) (xs : List T) (t : T)
      → last xs ≡ some t
      → b ≤ rt.timestamp t
      → rank rt b xs < length xs
  rank-lt b [] t e h = absurd (cc e)
  rank-lt b (x ∷ []) t e h =
      rw (le→ltb (rt.timestamp x) b (omega (arith, h, ap rt.timestamp (some-injective x t e))))
        (omega arith)
  rank-lt b (x ∷ y ∷ xs) t e h = ground (arith, rank-lt b (y ∷ xs) t e h)

  rank_mono : (a b : ℕ) (xs : List T) → a ≤ b → rank rt a xs ≤ rank rt b xs
  rank_mono a b [] h = omega arith
  rank_mono a b (x ∷ xs) h = ground (arith, rank_mono a b xs h)

  -- From the end, which is no object, the loop does not get to a place.
  visit-end :
      (q : Queue T) (xs : List T)
      → Holds q xs
      → (k fuel : ℕ) → k < q.size
      → visit fuel q end (place q.size q.read_index k) ≡ none
  unfolding visit
  visit-end q xs v k zero h = refl
  visit-end q xs v k (suc fuel) h =
      rw
        (
          ne→== end (place q.size q.read_index k)
              (λ same. omega (arith, same, place-lt q.size q.read_index k v.read_in h, v.small)),
          get_elem?-none q.records end (omega (arith, v.room, v.small)),
        )
        refl

  -- The loop between two places of a ring visits the payloads between them.
  visit-between :
      (q : Queue T) (xs : List T)
      → Holds q xs
      → (n j fuel : ℕ) → n + j < length xs
      → n < fuel
      → visit fuel q (place q.size q.read_index j) (place q.size q.read_index (n + j))
        ≡ some (take n (drop j xs))
  unfolding visit
  visit-between q xs v n j zero h f = absurd (omega arith)
  visit-between q xs v zero j (suc fuel) h f =
      rw
        (eq→== (place q.size q.read_index j) (place q.size q.read_index (0 + j))
          (ap (place q.size q.read_index) (omega arith)))
        refl
  visit-between q xs v (suc n) j (suc fuel) h f =
      let (x, e) = get_elem?-some xs j (omega arith) in
      let fits = v.fits in
      rw
        (
          ne→== (place q.size q.read_index j) (place q.size q.read_index (suc n + j)) (
              place-ne q.size q.read_index j (suc n + j) v.read_in (omega (arith, fits))
                (omega (arith, fits)) (λ same. omega (arith, same))),
          v.slots j (omega (arith, fits)) ∙ e,
          next-place q xs v j (omega arith)
              ∙ cursor-place q.size q.read_index (length xs) (suc j) (omega arith),
          later n j,
          visit-between q xs v n (suc j) fuel (omega arith) (omega arith),
          drop-eq-cons j xs x e,
        )
        refl

  pub not_younger :
      (laws : Laws rt) (x e : T) → rt.less e x ≡ false → rt.timestamp x ≤ rt.timestamp e
  not_younger laws x e h = elim (dec_lt (rt.timestamp e) (rt.timestamp x)) [
    | yes lt ↦ absurd (cc (laws.less_of_lt e x lt))
    | no ge ↦ omega arith
  ]

  module _ (laws : Laws rt) (q : Queue T) (x t : T) (xs : List T) (v : Holds q (x ∷ xs))
      (asc : Ascending rt (x ∷ xs)) (newest : last (x ∷ xs) ≡ some t) where
    stop_at :
        (d : Deferral T) (end_win : ℕ)
        → rt.timestamp x < end_win
        → lower_bound rt q (rt.set_timestamp d.processed_element end_win)
          ≡ some (place q.size q.read_index (rank rt end_win (x ∷ xs)))
    stop_at d end_win later =
        let next = rt.set_timestamp d.processed_element end_win in
        let stamp = laws.timestamp-set_timestamp d.processed_element end_win in
        lower_bound_finds rt laws q (x ∷ xs) next v asc
        ∙ rw (laws.less_of_gt next x (omega (arith, stamp)))
            (ap (λ n. some (place q.size q.read_index (rank rt n (x ∷ xs)))) stamp)

    -- From an element that is not before the oldest one.
    pub window_lem :
        (d : Deferral T) (end_win fuel : ℕ)
        → rt.less d.processed_element x ≡ false
        → rt.timestamp d.processed_element ≤ end_win
        → end_win ≤ rt.timestamp t
        → rt.timestamp x < end_win
        → length (x ∷ xs) < fuel
        → process_window rt fuel q end_win d
          ≡ some (
            window (rt.timestamp d.processed_element) end_win (x ∷ xs),
            record d { processed_element = rt.set_timestamp d.processed_element end_win },
          )
    unfolding process_window
    window_lem d end_win fuel not_before forth back later enough =
        let next = rt.set_timestamp d.processed_element end_win in
        let stamp = laws.timestamp-set_timestamp d.processed_element end_win in
        let a = rank rt (rt.timestamp d.processed_element) (x ∷ xs) in
        let b = rank rt end_win (x ∷ xs) in
        let start : lower_bound rt q d.processed_element ≡ some (place q.size q.read_index a) =
          lower_bound_finds rt laws q (x ∷ xs) d.processed_element v asc ∙ rw not_before refl in
        let stop : lower_bound rt q next ≡ some (place q.size q.read_index b) =
          stop_at d end_win later in
        let ordered = rank_mono (rt.timestamp d.processed_element) end_win (x ∷ xs) forth in
        let inside = rank-lt end_win (x ∷ xs) t newest back in
        let visited : visit fuel q (place q.size q.read_index a) (place q.size q.read_index b)
            ≡ some (window (rt.timestamp d.processed_element) end_win (x ∷ xs)) =
          ap (λ n. visit fuel q (place q.size q.read_index a) (place q.size q.read_index n))
            (back_up b a ordered)
          ∙ (visit-between q (x ∷ xs) v (b - a) a fuel (omega arith) (omega arith)
              ∙ ap some
                  (window-rank (rt.timestamp d.processed_element) end_win (x ∷ xs) asc forth)) in
        rw (start, stop, visited) refl

    -- From an element that is before the oldest one.
    pub window-before :
        (d : Deferral T) (end_win fuel : ℕ)
        → rt.less d.processed_element x ≡ true
        → rt.timestamp x < end_win
        → process_window rt fuel q end_win d ≡ none
    unfolding process_window
    window-before d end_win fuel before later =
        let start : lower_bound rt q d.processed_element ≡ some end =
          lower_bound_finds rt laws q (x ∷ xs) d.processed_element v asc ∙ rw before refl in
        let small = rank-le rt end_win (x ∷ xs) in
        rw
          (
            start,
            stop_at d end_win later,
            visit-end q (x ∷ xs) v (rank rt end_win (x ∷ xs)) fuel (omega (arith, v.fits)),
          )
          refl

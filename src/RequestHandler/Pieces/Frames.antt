-- ===== src/RequestHandler/Pieces/Frames.antt =====
-- One payload: the frames that it contributes are those that overlap the window.
use datahandlinglibs.Base.{
  leb_gt, le→leb, ℕ, zero, suc, ◌+◌, ◌*◌, ◌^◌, ◌≤◌, ◌<◌, ◌≡◌, refl, sym, ap, subst, ◌∙◌, inl, inr,
  Bool, false, ◌&&◌, ◌||◌, List, [], ◌∷◌, ◌++◌, append-nil, arith, dec_le, ltb, if◌then◌else◌,
  lt→ltb, le→ltb, Bool-cases, sub64,
}
use native.Mathlib.Nat.{mod-eq_of_lt}
use datahandlinglibs.Readout.{Readout}
use datahandlinglibs.RequestHandler.{Piece, whole, frame}
use datahandlinglibs.RequestHandler.Pieces.{end_time, pick, pick_frames}

-- The elements that pass a test.
abbrev pub keep {ℓ} : {A : Type ℓ} → (A → Bool) → List A → List A
keep p [] = []
keep p (x ∷ xs) = if p x then x ∷ keep p xs else keep p xs

-- `n` timestamps from `s` on, `tick` apart.
abbrev pub times : ℕ → ℕ → ℕ → List ℕ
times s tick zero = []
times s tick (suc n) = s ∷ times (s + tick) tick n

-- The frame from `t` on, `tick` long, meets the window from `start` up to `stop`.
abbrev pub overlaps : ℕ → ℕ → ℕ → ℕ → Bool
overlaps tick start stop t = ltb start (t + tick) && ltb t stop

pub keep_none :
    (tick start stop s n : ℕ)
    → s + n * tick ≤ start
    → keep (overlaps tick start stop) (times s tick n) ≡ []
keep_none tick start stop s zero h = refl
keep_none tick start stop s (suc n) h =
    rw (le→ltb start (s + tick) (omega arith))
      (keep_none tick start stop (s + tick) n (omega arith))

pub keep_late :
    (tick start stop s n : ℕ) → stop ≤ s → keep (overlaps tick start stop) (times s tick n) ≡ []
keep_late tick start stop s zero h = refl
keep_late tick start stop s (suc n) h = ground (arith, keep_late tick start stop (s + tick) n)

keep_all :
    (tick start stop s n : ℕ)
    → 0 < tick
    → start ≤ s
    → s + n * tick ≤ stop
    → keep (overlaps tick start stop) (times s tick n) ≡ times s tick n
keep_all tick start stop s zero pos lo hi = refl
keep_all tick start stop s (suc n) pos lo hi =
    rw (lt→ltb start (s + tick) (omega arith), lt→ltb s stop (omega arith))
      (ap (◌∷◌ s) (keep_all tick start stop (s + tick) n pos (omega arith) (omega arith)))

keep_single :
    (tick start stop s n : ℕ)
    → n ≤ 1
    → start < s + n * tick
    → s < stop
    → keep (overlaps tick start stop) (times s tick n) ≡ times s tick n
keep_single tick start stop s zero one lo hi = refl
keep_single tick start stop s (suc zero) one lo hi =
    rw (lt→ltb start (s + tick) (omega arith), lt→ltb s stop hi) refl
keep_single tick start stop s (suc (suc n)) one lo hi = absurd (omega arith)

-- A payload that is returned whole has no frame outside the window.
keep_whole :
    (tick start stop s n : ℕ)
    → 0 < tick
    → start < s + n * tick
    → s < stop
    → (ltb 1 n && (ltb s start && ltb start (s + n * tick) || ltb stop (s + n * tick))) ≡ false
    → keep (overlaps tick start stop) (times s tick n) ≡ times s tick n
keep_whole tick start stop s n pos lo hi test = elim (dec_le n 1) [
  | yes one ↦ keep_single tick start stop s n one lo hi
  | no many ↦ keep_all tick start stop s n pos (ground arith) (ground arith)
]

module _ {T : Type 0} (rt : Readout T) where
  abbrev pub span : T → List ℕ
  span x = times (rt.timestamp x) rt.tick (rt.num_frames x)

  -- The timestamps of the frames in a piece.
  abbrev pub piece_times : Piece T → List ℕ
  piece_times (whole x) = span x
  piece_times (frame x j) = (rt.timestamp x + j * rt.tick) ∷ []

  abbrev pub all_times : List (Piece T) → List ℕ
  all_times [] = []
  all_times (p ∷ ps) = piece_times p ++ all_times ps

  -- The frames of a payload follow one another by `tick`, and no time wraps.
  pub record Regular (x : T) : Type 0 where
    pub spaced : rt.frames x ≡ span x
    pub no_wrap : rt.timestamp x + rt.num_frames x * rt.tick < 2 ^ 64

  pub end_time_lem :
      (x : T) → Regular x → end_time rt x ≡ rt.timestamp x + rt.num_frames x * rt.tick
  end_time_lem x r =
      rw (mod-eq_of_lt {n = rt.num_frames x * rt.tick} {m = 2 ^ 64} (omega (arith, r.no_wrap)))
        (mod-eq_of_lt r.no_wrap)

  frame_test :
      (start stop t : ℕ)
      → rt.tick ≤ start
      → start < 2 ^ 64
      → (ltb (sub64 start rt.tick) t && ltb t stop) ≡ overlaps rt.tick start stop t
  frame_test start stop t h k = ap (λ b. b && ltb t stop) (ground arith)

  first_time : (s : ℕ) → s + 0 * rt.tick ≡ s
  first_time s = omega arith

  next_time : (s j : ℕ) → s + (j + 1) * rt.tick ≡ s + j * rt.tick + rt.tick
  next_time s j = grind arith

  -- The loop over the frames selects those that overlap.
  pick_frames-times :
      (start stop : ℕ) (x : T) (n j : ℕ)
      → rt.tick ≤ start
      → start < 2 ^ 64
      → all_times (pick_frames rt start stop x j (times (rt.timestamp x + j * rt.tick) rt.tick n))
        ≡ keep (overlaps rt.tick start stop) (times (rt.timestamp x + j * rt.tick) rt.tick n)
  unfolding pick_frames
  pick_frames-times start stop x zero j h k = refl
  pick_frames-times start stop x (suc n) j h k =
      let t = rt.timestamp x + j * rt.tick in
      let ih =
        subst
          (λ u.
            all_times (pick_frames rt start stop x (j + 1) (times u rt.tick n))
            ≡ keep (overlaps rt.tick start stop) (times u rt.tick n))
          (next_time (rt.timestamp x) j) (pick_frames-times start stop x n (j + 1) h k) in
      rw (frame_test start stop t h k) (elim (Bool-cases (overlaps rt.tick start stop t)) [
        | inl inside ↦ rw inside (ap (◌∷◌ t) ih)
        | inr outside ↦ rw outside ih
      ])

  -- Every branch of `pick`.
  select_times :
      (start stop : ℕ) (x : T)
      → rt.tick ≤ start
      → start < 2 ^ 64
      → Regular x
      → all_times (pick_frames rt start stop x 0 (rt.frames x))
        ≡ keep (overlaps rt.tick start stop) (span x)
  select_times start stop x low k r = rw r.spaced (
      subst
        (λ t.
          all_times (pick_frames rt start stop x 0 (times t rt.tick (rt.num_frames x)))
          ≡ keep (overlaps rt.tick start stop) (times t rt.tick (rt.num_frames x)))
        (first_time (rt.timestamp x)) (pick_frames-times start stop x (rt.num_frames x) 0 low k))

  pick_some :
      (start stop : ℕ) (x : T)
      → 0 < rt.tick
      → rt.tick ≤ start
      → start < 2 ^ 64
      → Regular x
      → rt.timestamp x < stop
      → start < rt.timestamp x + rt.num_frames x * rt.tick
      → all_times (
          if ltb 1 (rt.num_frames x)
            && (ltb (rt.timestamp x) start && ltb start (rt.timestamp x + rt.num_frames x * rt.tick)
                || ltb stop (rt.timestamp x + rt.num_frames x * rt.tick))
          then pick_frames rt start stop x 0 (rt.frames x)
          else whole x ∷ [])
        ≡ keep (overlaps rt.tick start stop) (span x)
  pick_some start stop x pos low k r h gt =
      elim (Bool-cases (
        ltb 1 (rt.num_frames x)
        && (ltb (rt.timestamp x) start && ltb start (rt.timestamp x + rt.num_frames x * rt.tick)
            || ltb stop (rt.timestamp x + rt.num_frames x * rt.tick)))) [
              | inl partly ↦ rw partly (select_times start stop x low k r)
              | inr all ↦ rw all (
                  append-nil (span x)
                  ∙ sym (
                      keep_whole rt.tick start stop (rt.timestamp x) (rt.num_frames x) pos gt h
                        all))
            ]

  -- Every branch of `pick`.
  pub pick-times :
      (start stop : ℕ) (x : T)
      → 0 < rt.tick
      → rt.tick ≤ start
      → start < 2 ^ 64
      → Regular x
      → rt.timestamp x < stop
      → all_times (pick rt start stop x) ≡ keep (overlaps rt.tick start stop) (span x)
  unfolding pick
  pick-times start stop x pos low k r h =
      rw (end_time_lem x r) (elim (dec_le (rt.timestamp x + rt.num_frames x * rt.tick) start) [
        | yes le ↦
            rw (le→leb (rt.timestamp x + rt.num_frames x * rt.tick) start le)
              (sym (keep_none rt.tick start stop (rt.timestamp x) (rt.num_frames x) le))
        | no gt ↦
            rw (leb_gt (rt.timestamp x + rt.num_frames x * rt.tick) start (omega arith))
              (pick_some start stop x pos low k r h (omega arith))
      ])

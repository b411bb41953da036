-- ===== src/RequestHandler/Pieces/Select.antt =====
-- The loop over the payloads: from the iterator on, up to the first payload past the window.
use datahandlinglibs.Base.{
  ℕ, zero, suc, ◌+◌, ◌*◌, ◌^◌, ◌≤◌, ◌<◌, ◌≡◌, refl, sym, ap, ap₂, ◌∙◌, inl, inr, Bool, some, List,
  [], ◌∷◌, ◌++◌, append_assoc, arith, dec_lt, ltb, if◌then◌else◌, lt→ltb, le→ltb, Bool-cases,
  length, drop,
}
use native.Mathlib.Nat.{mul-le-mul_left}
use datahandlinglibs.Readout.{Readout}
use datahandlinglibs.Readout.Order.{Ascending-tail, Ascending, rank}
use datahandlinglibs.LatencyBuffer.{Buffer, Walks}
use datahandlinglibs.RequestHandler.{Piece}
use datahandlinglibs.RequestHandler.Pieces.{pick, collect}
use datahandlinglibs.RequestHandler.Pieces.Frames.{
  keep, overlaps, keep_none, keep_late, span, all_times, piece_times, Regular, pick-times,
}

module _ {T : Type 0} (rt : Readout T) where
  abbrev pub select : ℕ → ℕ → List T → List (Piece T)
  select start stop [] = []
  select start stop (x ∷ xs) =
      if ltb (rt.timestamp x) stop then pick rt start stop x ++ select start stop xs else []

  -- All frames of a list of payloads.
  abbrev pub spans : List T → List ℕ
  spans [] = []
  spans (x ∷ xs) = span rt x ++ spans xs

  abbrev pub AllRegular : List T → Type 0
  AllRegular [] = Unit
  AllRegular (x ∷ xs) = Regular rt x × AllRegular xs

  module _ {B I : Type 0} (buf : Buffer T B I) where
    pub collect_lem :
        (fuel : ℕ) (b : B) (i : I) (start stop : ℕ) (ys : List T)
        → Walks buf b i ys
        → length ys < fuel
        → collect rt buf fuel b i start stop ≡ some (select start stop ys)
    unfolding collect
    collect_lem zero b i start stop ys w h = absurd (omega arith)
    collect_lem (suc fuel) b i start stop [] w h = rw w refl
    collect_lem (suc fuel) b i start stop (y ∷ ys) w h =
        let (good, at, rest) = w in
        let ih = collect_lem fuel b (buf.next b i) start stop ys rest (omega arith) in
        rw good (
          rw at (elim (Bool-cases (ltb (rt.timestamp y) stop)) [
            | inl before ↦ rw before (rw ih refl)
            | inr past ↦ rw past refl
          ]))

  keep-append : (p : ℕ → Bool) (us vs : List ℕ) → keep p (us ++ vs) ≡ keep p us ++ keep p vs
  keep-append p [] vs = refl
  keep-append p (a ∷ us) vs = elim (Bool-cases (p a)) [
    | inl inside ↦ rw inside (ap (◌∷◌ a) (keep-append p us vs))
    | inr outside ↦ rw outside (keep-append p us vs)
  ]

  pub all_times-append :
      (ps qs : List (Piece T)) → all_times rt (ps ++ qs) ≡ all_times rt ps ++ all_times rt qs
  all_times-append [] qs = refl
  all_times-append (p ∷ ps) qs =
      ap (λ ts. piece_times rt p ++ ts) (all_times-append ps qs)
      ∙ sym (append_assoc (piece_times rt p) (all_times rt ps) (all_times rt qs))

  late_head :
      (start stop : ℕ) (x : T) (xs : List T)
      → stop ≤ rt.timestamp x
      → keep (overlaps rt.tick start stop) (spans (x ∷ xs))
        ≡ keep (overlaps rt.tick start stop) (spans xs)
  late_head start stop x xs h =
      keep-append (overlaps rt.tick start stop) (span rt x) (spans xs)
      ∙ ap (λ ts. ts ++ keep (overlaps rt.tick start stop) (spans xs))
          (keep_late rt.tick start stop (rt.timestamp x) (rt.num_frames x) h)

  -- Nothing of a payload past the window overlaps it.
  spans_late :
      (start stop : ℕ) (x : T) (xs : List T)
      → stop ≤ rt.timestamp x
      → Ascending rt (x ∷ xs)
      → keep (overlaps rt.tick start stop) (spans (x ∷ xs)) ≡ []
  spans_late start stop x [] h asc = late_head start stop x [] h
  spans_late start stop x (y ∷ ys) h asc =
      late_head start stop x (y ∷ ys) h ∙ spans_late start stop y ys (omega (arith, asc.0)) asc.1

  -- The loop returns the frames of the payloads that overlap the window, all of them.
  pub select-times :
      (start stop : ℕ) (ys : List T)
      → 0 < rt.tick
      → rt.tick ≤ start
      → start < 2 ^ 64
      → AllRegular ys
      → Ascending rt ys
      → all_times rt (select start stop ys) ≡ keep (overlaps rt.tick start stop) (spans ys)
  select-times start stop [] pos low k r asc = refl
  select-times start stop (y ∷ ys) pos low k r asc = elim (dec_lt (rt.timestamp y) stop) [
    | yes lt ↦ rw (lt→ltb (rt.timestamp y) stop lt) (
        all_times-append (pick rt start stop y) (select start stop ys)
        ∙ ap₂ (◌++◌) (pick-times rt start stop y pos low k r.0 lt)
            (select-times start stop ys pos low k r.1 (Ascending-tail rt y ys asc))
        ∙ sym (keep-append (overlaps rt.tick start stop) (span rt y) (spans ys)))
    | no ge ↦
        rw (le→ltb (rt.timestamp y) stop (omega arith))
          (sym (spans_late start stop y ys (omega arith) asc))
  ]

  -- No payload is longer than `n` frames.
  abbrev pub AtMost : ℕ → List T → Type 0
  AtMost n [] = Unit
  AtMost n (x ∷ xs) = (rt.num_frames x ≤ n) × AtMost n xs

  skipped : (s m n t start : ℕ) → s < t → m ≤ n → t + n * rt.tick ≤ start → s + m * rt.tick ≤ start
  skipped s m n t start lt le h = omega (arith, mul-le-mul_left rt.tick le)

  -- The payloads before the one that the search finds have nothing in the window.
  pub spans-rank :
      (start stop n t : ℕ) (xs : List T)
      → t + n * rt.tick ≤ start
      → AtMost n xs
      → keep (overlaps rt.tick start stop) (spans (drop (rank rt t xs) xs))
        ≡ keep (overlaps rt.tick start stop) (spans xs)
  spans-rank start stop n t [] h m = refl
  spans-rank start stop n t (x ∷ xs) h m = elim (dec_lt (rt.timestamp x) t) [
    | yes lt ↦ rw (lt→ltb (rt.timestamp x) t lt) (
        spans-rank start stop n t xs h m.1
        ∙ sym (
            keep-append (overlaps rt.tick start stop) (span rt x) (spans xs)
            ∙ ap (λ ts. ts ++ keep (overlaps rt.tick start stop) (spans xs))
                (keep_none rt.tick start stop (rt.timestamp x) (rt.num_frames x)
                  (skipped (rt.timestamp x) (rt.num_frames x) n t start lt m.0 h))))
    | no ge ↦ rw (le→ltb (rt.timestamp x) t (omega arith)) refl
  ]

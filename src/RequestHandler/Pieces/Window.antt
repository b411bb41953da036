-- ===== src/RequestHandler/Pieces/Window.antt =====
-- The answer from the ring with binary search: the frames in the window when it starts after the
-- oldest payload, and nothing when it starts in the oldest payload or before.
use datahandlinglibs.Base.{
  ℕ, zero, suc, ◌+◌, ◌-◌, ◌*◌, ◌^◌, ◌≤◌, ◌<◌, ◌≡◌, refl, ap, ◌∙◌, Bool, some, List, [], ◌∷◌, arith,
  dec_lt, lt→ltb, le→ltb, length, drop, get_elem?-some, drop-eq-cons, sub64, mul64,
}
use mathlib.Core.Option.{some-injective}
use native.Mathlib.Nat.{mod-eq_of_lt}
use datahandlinglibs.Readout.{Readout, Laws}
use datahandlinglibs.Readout.Order.{Ascending-tail, Ascending, rank}
use datahandlinglibs.IterableQueue.{Queue}
use datahandlinglibs.IterableQueue.Holds.{Holds}
use datahandlinglibs.IterableQueue.Fifo.{last}
use datahandlinglibs.LatencyBuffer.Ring.{binary_buffer, binary_reach, binary_buffer-Laws}
use datahandlinglibs.RequestHandler.{ResultCode, Piece}
use datahandlinglibs.RequestHandler.Pieces.{request_element, availability, get_fragment_pieces}
use datahandlinglibs.RequestHandler.Pieces.Frames.{keep, overlaps, all_times}
use datahandlinglibs.RequestHandler.Pieces.Select.{
  select, spans, AllRegular, AtMost, select-times, spans-rank,
}
use datahandlinglibs.RequestHandler.Pieces.Outcome.{get_fragment_pieces_answers, answer, reached}

module _ {T : Type 0} (rt : Readout T) where
  rank-last :
      (t : ℕ) (x z : T) (xs : List T)
      → last (x ∷ xs) ≡ some z
      → t ≤ rt.timestamp z
      → rank rt t (x ∷ xs) < length (x ∷ xs)
  rank-last t x z [] e h = elim (dec_lt (rt.timestamp x) t) [
    | yes lt ↦ absurd (omega (arith, ap rt.timestamp (some-injective x z e)))
    | no ge ↦ rw (le→ltb (rt.timestamp x) t (omega arith)) (omega arith)
  ]
  rank-last t x z (y ∷ ys) e h = elim (dec_lt (rt.timestamp x) t) [
    | yes lt ↦ rw (lt→ltb (rt.timestamp x) t lt) (omega (arith, rank-last t y z ys e h))
    | no ge ↦ rw (le→ltb (rt.timestamp x) t (omega arith)) (omega arith)
  ]

  AllRegular-drop : (k : ℕ) (xs : List T) → AllRegular rt xs → AllRegular rt (drop k xs)
  AllRegular-drop zero xs r = r
  AllRegular-drop (suc k) [] r = r
  AllRegular-drop (suc k) (x ∷ xs) r = AllRegular-drop k xs r.1

  Ascending-drop : (k : ℕ) (xs : List T) → Ascending rt xs → Ascending rt (drop k xs)
  Ascending-drop zero xs r = r
  Ascending-drop (suc k) [] r = r
  Ascending-drop (suc k) (x ∷ xs) r = Ascending-drop k xs (Ascending-tail rt x xs r)

  -- The length of one payload, in ticks.
  abbrev pub reach_back : ℕ
  reach_back = rt.num_frames rt.blank * rt.tick

  request_ts :
      (start : ℕ)
      → Laws rt
      → reach_back ≤ start
      → start < 2 ^ 64
      → rt.timestamp (request_element rt start) ≡ start - reach_back
  request_ts start laws le k =
      laws.timestamp-set_timestamp rt.blank (sub64 start (mul64 (rt.num_frames rt.blank) rt.tick))
      ∙ ap (sub64 start) (mod-eq_of_lt {n = reach_back} {m = 2 ^ 64} (omega arith))
      ∙ ground arith

  -- What the search reaches when the window starts after the oldest payload.
  reach_after :
      (x : T) (xs : List T) (start : ℕ) (w : Bool)
      → Laws rt
      → start < 2 ^ 64
      → rt.timestamp x + reach_back < start
      → binary_reach rt (request_element rt start) w (x ∷ xs)
        ≡ drop (rank rt (start - reach_back) (x ∷ xs)) (x ∷ xs)
  reach_after x xs start w laws k after =
      let ts = request_ts start laws (omega arith) k in
      rw (laws.less_of_gt (request_element rt start) x (omega arith))
        (ap (λ t. drop (rank rt t (x ∷ xs)) (x ∷ xs)) ts)

  reach_before :
      (x : T) (xs : List T) (start : ℕ) (w : Bool)
      → Laws rt
      → start < 2 ^ 64
      → reach_back ≤ start
      → start < rt.timestamp x + reach_back
      → binary_reach rt (request_element rt start) w (x ∷ xs) ≡ []
  reach_before x xs start w laws k back before =
      let ts = request_ts start laws back k in
      rw (laws.less_of_lt (request_element rt start) x (omega arith)) refl

  answer_inside :
      (start stop : ℕ) (x z : T) (ys : List T)
      → start ≤ rt.timestamp z
      → rt.timestamp x ≤ stop
      → answer rt start stop x z ys ≡ reached rt start stop (rt.timestamp x) (rt.timestamp z) ys
  answer_inside start stop x z ys le ord =
      rw (le→ltb (rt.timestamp z) start le, le→ltb stop (rt.timestamp x) ord) refl

  reached_some :
      (start stop last_ts newest_ts k : ℕ) (xs : List T)
      → k < length xs
      → reached rt start stop last_ts newest_ts (drop k xs)
        ≡ (availability start stop last_ts newest_ts, select rt start stop (drop k xs))
  reached_some start stop last_ts newest_ts k xs h =
      let (y, e) = get_elem?-some xs k h in rw (drop-eq-cons k xs y e) refl

  -- On a ring with binary search whose ascending payloads have frames spaced by the tick and no
  -- more frames than RDT() has, a window that starts later than the oldest timestamp by more than
  -- RDT()'s length, with 0 < tick <= start < 2^64, not after the newest timestamp and not after its
  -- own end, gets its availability as result code, and pieces whose frames are exactly those of the
  -- ring that overlap the window.
  pub complete :
      (q : Queue T) (x z : T) (xs : List T) (start stop : ℕ) (w : Bool)
      → Laws rt
      → Holds q (x ∷ xs)
      → Ascending rt (x ∷ xs)
      → AllRegular rt (x ∷ xs)
      → AtMost rt (rt.num_frames rt.blank) (x ∷ xs)
      → last (x ∷ xs) ≡ some z
      → 0 < rt.tick
      → rt.tick ≤ start
      → start < 2 ^ 64
      → rt.timestamp x + reach_back < start
      → start ≤ rt.timestamp z
      → start ≤ stop
      → (ps : List (Piece T)) × (get_fragment_pieces rt (binary_buffer rt) q start stop w
          ≡ some (availability start stop (rt.timestamp x) (rt.timestamp z), ps))
        × (all_times rt ps ≡ keep (overlaps rt.tick start stop) (spans rt (x ∷ xs)))
  complete q x z xs start stop w laws v asc reg most e pos low k after le ord =
      let t = start - reach_back in
      let r = rank rt t (x ∷ xs) in
      (
        select rt start stop (drop r (x ∷ xs)),
        get_fragment_pieces_answers rt (binary_buffer rt) Holds (binary_reach rt)
              (binary_buffer-Laws rt laws) q x z xs start stop w v asc e
            ∙ ap some (
                answer_inside start stop x z (binary_reach rt (request_element rt start) w (x ∷ xs))
                  le (omega arith)
                ∙ ap (reached rt start stop (rt.timestamp x) (rt.timestamp z))
                    (reach_after x xs start w laws k after)
                ∙ reached_some start stop (rt.timestamp x) (rt.timestamp z) r (x ∷ xs)
                    (rank-last t x z xs e (omega arith))),
        select-times rt start stop (drop r (x ∷ xs)) pos low k (AllRegular-drop r (x ∷ xs) reg)
              (Ascending-drop r (x ∷ xs) asc)
            ∙ spans-rank rt start stop (rt.num_frames rt.blank) t (x ∷ xs) (omega arith) most,
      )

  -- On a ring with binary search that holds an ascending list, a window that starts before the
  -- oldest timestamp plus RDT()'s length, not before that length, not after the newest timestamp
  -- and below 2^64, and ends at the oldest timestamp or later, is answered not_found with no piece,
  -- although the ring may hold its frames.
  pub missed :
      (q : Queue T) (x z : T) (xs : List T) (start stop : ℕ) (w : Bool)
      → Laws rt
      → Holds q (x ∷ xs)
      → Ascending rt (x ∷ xs)
      → last (x ∷ xs) ≡ some z
      → start < 2 ^ 64
      → reach_back ≤ start
      → start < rt.timestamp x + reach_back
      → start ≤ rt.timestamp z
      → rt.timestamp x ≤ stop
      → get_fragment_pieces rt (binary_buffer rt) q start stop w ≡ some (ResultCode.not_found, [])
  missed q x z xs start stop w laws v asc e k back before le ord =
      get_fragment_pieces_answers rt (binary_buffer rt) Holds (binary_reach rt)
        (binary_buffer-Laws rt laws) q x z xs start stop w v asc e
      ∙ ap some (
          answer_inside start stop x z (binary_reach rt (request_element rt start) w (x ∷ xs)) le
            ord
          ∙ ap (reached rt start stop (rt.timestamp x) (rt.timestamp z))
              (reach_before x xs start w laws k back before))

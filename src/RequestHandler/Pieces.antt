-- ===== src/RequestHandler/Pieces.antt =====
-- `get_fragment_pieces`: which payloads and frames of the buffer answer a window of time.
pub mod Frames
pub mod Select
pub mod Outcome
pub mod Window
use datahandlinglibs.Base.{
  ℕ, zero, suc, ◌+◌, ◌-◌, ◌*◌, ◌/◌, ◌%◌, ◌^◌, ◌≤◌, ◌<◌, min, max, ◌≡◌, refl, sym, ap, ap₂, subst,
  ◌∙◌, ◌≢◌, ◌↔◌, ◌⊎◌, inl, inr, Bool, true, false, not, ◌&&◌, ◌||◌, Option, none, some, List, [],
  ◌∷◌, ◌++◌, map, append_assoc, append-nil, arith, dec_lt, dec_le, ℕ_discrete, ltb, leb, ◌==◌,
  if◌then◌else◌, ltb→lt, lt→ltb, ltb_ge, le→ltb, leb→le, ==_iff, Bool-cases, Option-cases, ne→==,
  eq→==, ◌>>=◌, length, get_elem?, set, drop, take, replicate, length-append, length-set,
  length-replicate, length-drop, get_elem?-set_self, get_elem?-set_ne, get_elem?-replicate,
  get_elem?-none, get_elem?-some, get_elem?-append_left, get_elem?-append_right, get_elem?-drop,
  drop-eq-cons, drop-eq-nil, take-all, add32, sub32, add64, sub64, mul64,
}
use mathlib.Core.Option
use datahandlinglibs.Readout.{Readout}
use datahandlinglibs.LatencyBuffer.{Buffer}
use datahandlinglibs.RequestHandler.{ResultCode, Piece}

-- What the code sets when the iterator is good.
abbrev pub availability : ℕ → ℕ → ℕ → ℕ → ResultCode
availability start stop last_ts newest_ts =
    if ltb newest_ts stop
    then ResultCode.partial
    else if ltb start last_ts
    then ResultCode.partially_old
    else ResultCode.found

module _ {T : Type 0} (rt : Readout T) where
  -- `get_timestamp() + get_num_frames() * expected_tick_difference`, in 64 bits.
  abbrev pub end_time : T → ℕ
  end_time x = add64 (rt.timestamp x) (mul64 (rt.num_frames x) rt.tick)

  -- The loop over the frames of one payload, from the frame of index `j` on.
  pub pick_frames : ℕ → ℕ → T → ℕ → List ℕ → List (Piece T)
  pick_frames start stop x j [] = []
  pick_frames start stop x j (t ∷ ts) =
      let rest = pick_frames start stop x (j + 1) ts in
      if ltb (sub64 start rt.tick) t && ltb t stop then Piece.frame x j ∷ rest else rest

  -- What one payload, which starts before the end of the window, contributes.
  unfoldable pub pick : ℕ → ℕ → T → List (Piece T)
  unfolding pick_frames
  pick start stop x =
      if leb (end_time x) start
      then []
      else if ltb 1 (rt.num_frames x)
          && (ltb (rt.timestamp x) start && ltb start (end_time x) || ltb stop (end_time x))
      then pick_frames start stop x 0 (rt.frames x)
      else Piece.whole x ∷ []

  -- `start_win_ts - (get_num_frames() * expected_tick_difference)` of a new payload.
  abbrev pub request_element : ℕ → T
  request_element start =
      rt.set_timestamp rt.blank (sub64 start (mul64 (rt.num_frames rt.blank) rt.tick))

  module _ {B I : Type 0} (buf : Buffer T B I) where
    -- The loop from the iterator `i`; `none` out of fuel, or at a good iterator with no payload.
    pub collect : ℕ → B → I → ℕ → ℕ → Option (List (Piece T))
    collect zero b i start stop = none
    collect (suc fuel) b i start stop =
        let rest = collect fuel b (buf.next b i) start stop in
        if buf.good b i
        then elim (buf.deref b i) [
          | none ↦ none
          | some x ↦
              if ltb (rt.timestamp x) stop
              then Option.map (λ ps. pick start stop x ++ ps) rest
              else some []
        ]
        else some []

    -- From the search on.
    unfoldable pub search_pieces : B → ℕ → ℕ → ℕ → ℕ → Bool → Option (ResultCode × List (Piece T))
    unfolding collect
    search_pieces b start stop last_ts newest_ts with_errors =
        elim (buf.lower_bound b (request_element start) with_errors) [
          | none ↦ none
          | some i ↦
              if buf.good b i
              then Option.map (λ ps. (availability start stop last_ts newest_ts, ps))
                  (collect (buf.occupancy b + 1) b i start stop)
              else some (ResultCode.not_found, [])
        ]

    -- The code sets `rres.result_code` and returns the pieces; `none` where it reads through a null
    -- pointer or its search does not end. `missing_frames` is `has_error("MISSING_FRAMES")`.
    unfoldable pub get_fragment_pieces : B → ℕ → ℕ → Bool → Option (ResultCode × List (Piece T))
    unfolding search_pieces
    get_fragment_pieces b start stop missing_frames = do
      oldest ← buf.front b
      newest ← buf.back b
      if ltb (rt.timestamp newest) start
          then some (ResultCode.not_yet, [])
          else if ltb stop (rt.timestamp oldest)
          then some (ResultCode.too_old, [])
          else search_pieces b start stop (rt.timestamp oldest) (rt.timestamp newest) missing_frames

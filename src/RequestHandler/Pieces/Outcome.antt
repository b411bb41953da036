-- ===== src/RequestHandler/Pieces/Outcome.antt =====
-- The result code and the pieces of a request, on every branch, over any buffer that fills the
-- interface; then the cases of the ring with binary search.
use datahandlinglibs.Base.{
  ℕ, ◌+◌, ◌≤◌, ◌<◌, ◌≡◌, refl, subst, inl, inr, Bool, some, List, [], ◌∷◌, arith, ltb,
  if◌then◌else◌, Bool-cases, length,
}
use mathlib.Core.Option
use datahandlinglibs.Readout.{Readout}
use datahandlinglibs.Readout.Order.{Ascending}
use datahandlinglibs.IterableQueue.Fifo.{last}
use datahandlinglibs.LatencyBuffer.{Buffer, Walks, BufferLaws}
use datahandlinglibs.RequestHandler.{ResultCode, Piece}
use datahandlinglibs.RequestHandler.Pieces.{
  request_element, collect, availability, search_pieces, get_fragment_pieces,
}
use datahandlinglibs.RequestHandler.Pieces.Select.{select, collect_lem}

module _ {T : Type 0} (rt : Readout T) where
  -- What a search gives that reaches the payloads `ys`.
  abbrev pub reached : ℕ → ℕ → ℕ → ℕ → List T → ResultCode × List (Piece T)
  reached start stop last_ts newest_ts [] = (ResultCode.not_found, [])
  reached start stop last_ts newest_ts (y ∷ ys) =
      (availability start stop last_ts newest_ts, select rt start stop (y ∷ ys))

  -- The answer from the oldest payload `x`, the newest one `z`, and the payloads reached.
  abbrev pub answer : ℕ → ℕ → T → T → List T → ResultCode × List (Piece T)
  answer start stop x z ys =
      if ltb (rt.timestamp z) start
      then (ResultCode.not_yet, [])
      else if ltb stop (rt.timestamp x)
      then (ResultCode.too_old, [])
      else reached start stop (rt.timestamp x) (rt.timestamp z) ys

  module _ {B I : Type 0} (buf : Buffer T B I) (Represents : B → List T → Type 0)
      (reach : T → Bool → List T → List T) (laws : BufferLaws rt buf Represents reach) where
    walked :
        (b : B) (i : I) (ys : List T) (start stop last_ts newest_ts fuel : ℕ)
        → Walks buf b i ys
        → length ys < fuel
        → (if buf.good b i
            then Option.map
                (λ ps. (availability start stop last_ts newest_ts, ps))
                (collect rt buf fuel b i start stop)
            else some (ResultCode.not_found, []))
          ≡ some (reached start stop last_ts newest_ts ys)
    walked b i [] start stop last_ts newest_ts fuel w h = rw w refl
    walked b i (y ∷ ys) start stop last_ts newest_ts fuel w h =
        rw (w.0, collect_lem rt buf fuel b i start stop (y ∷ ys) w h) refl

    search_reaches :
        (b : B) (xs ys : List T) (start stop last_ts newest_ts : ℕ) (w : Bool)
        → Represents b xs
        → Ascending rt xs
        → reach (request_element rt start) w xs ≡ ys
        → length ys ≤ length xs
        → search_pieces rt buf b start stop last_ts newest_ts w
          ≡ some (reached start stop last_ts newest_ts ys)
    unfolding search_pieces
    search_reaches b xs ys start stop last_ts newest_ts w v asc at short =
        let (i, e, walk) = laws.search_law b xs (request_element rt start) w v asc in
        let walk = subst (Walks buf b i) at walk in
        rw (search_pieces, e, laws.occupancy_law b xs v)
          (walked b i ys start stop last_ts newest_ts (length xs + 1) walk (omega arith))

    -- Over any buffer that fills the interface and holds an ascending list with a first and a last
    -- payload, the search for pieces ends, reads no null pointer, and gives the result code and
    -- pieces of the list: not_yet, too_old, not_found where nothing is reached, else partial,
    -- partially_old or found with the pieces of the reached payloads up to the end of the window.
    pub get_fragment_pieces_answers :
        (b : B) (x z : T) (xs : List T) (start stop : ℕ) (w : Bool)
        → Represents b (x ∷ xs)
        → Ascending rt (x ∷ xs)
        → last (x ∷ xs) ≡ some z
        → get_fragment_pieces rt buf b start stop w
          ≡ some (answer start stop x z (reach (request_element rt start) w (x ∷ xs)))
    unfolding get_fragment_pieces
    get_fragment_pieces_answers b x z xs start stop w v asc e =
        rw (laws.front_law b (x ∷ xs) v, laws.back_law b (x ∷ xs) v, e)
          (elim (Bool-cases (ltb (rt.timestamp z) start)) [
            | inl future ↦ rw future refl
            | inr reachable ↦ rw reachable (elim (Bool-cases (ltb stop (rt.timestamp x))) [
              | inl past ↦ rw past refl
              | inr inside ↦ rw inside (
                  search_reaches b (x ∷ xs) (reach (request_element rt start) w (x ∷ xs)) start stop
                    (rt.timestamp x) (rt.timestamp z) w v asc refl
                    (laws.reach_law (request_element rt start) w (x ∷ xs)))
            ])
          ])

-- ===== src/RequestHandler/Respond/Answers.antt =====
-- Every request gets an answer, and one inside the data gets all of it.
use datahandlinglibs.Base.{
  ℕ, suc, ◌+◌, ◌^◌, ◌≤◌, ◌<◌, ◌≡◌, refl, ap, ◌∙◌, Bool, some, List, [], ◌∷◌, arith, le→ltb, ne→==,
  eq→==, length,
}
use datahandlinglibs.Readout.{Readout, Laws}
use datahandlinglibs.Readout.Order.{Ascending}
use datahandlinglibs.IterableQueue.{Queue}
use datahandlinglibs.IterableQueue.Holds.{Holds}
use datahandlinglibs.IterableQueue.Fifo.{last}
use datahandlinglibs.LatencyBuffer.{Buffer, BufferLaws}
use datahandlinglibs.LatencyBuffer.Ring.{binary_buffer, binary_buffer-Laws}
use datahandlinglibs.RequestHandler.{ResultCode, Piece, DataRequest}
use datahandlinglibs.RequestHandler.Pieces.{get_fragment_pieces, request_element, availability}
use datahandlinglibs.RequestHandler.Pieces.Frames.{keep, overlaps, all_times}
use datahandlinglibs.RequestHandler.Pieces.Select.{spans, AllRegular, AtMost}
use datahandlinglibs.RequestHandler.Pieces.Outcome.{get_fragment_pieces_answers, answer}
use datahandlinglibs.RequestHandler.Pieces.Window.{complete, reach_back}
use datahandlinglibs.RequestHandler.Respond.{
  Identity, RequestResult, Counters, create_fragment_header, respond, count_found, data_request,
}

last-some : {T : Type 0} (x : T) (xs : List T) → (z : T) × (last (x ∷ xs) ≡ some z)
last-some x [] = (x, refl)
last-some x (y ∷ ys) = last-some y ys

module _ {T : Type 0} (rt : Readout T) {B I : Type 0} (buf : Buffer T B I) (id : Identity) where
  data_request-held :
      (b : B) (n : ℕ) (missing : Bool) (dr : DataRequest) (c : Counters)
      (a : ResultCode × List (Piece T))
      → buf.occupancy b ≡ suc n
      → get_fragment_pieces rt buf b dr.window_begin dr.window_end missing ≡ some a
      → data_request rt buf id b missing dr c ≡ some (respond dr (create_fragment_header id dr) c a)
  unfolding data_request
  data_request-held b n missing dr c a o e =
      rw (data_request, ne→== (buf.occupancy b) 0 (omega arith), e) refl

  module _ (Represents : B → List T → Type 0) (reach : T → Bool → List T → List T)
      (laws : BufferLaws rt buf Represents reach) where
    -- Over any buffer that fills the interface and holds an ascending list, empty or not, every
    -- data request gets a result: no branch reads through a null pointer, and the search and the
    -- loop end.
    pub data_request-total :
        (b : B) (xs : List T) (missing : Bool) (dr : DataRequest) (c : Counters)
        → Represents b xs
        → Ascending rt xs
        → (r : RequestResult T × Counters) × (data_request rt buf id b missing dr c ≡ some r)
    unfolding data_request
    data_request-total b [] missing dr c v asc = (
      respond dr (create_fragment_header id dr) c (ResultCode.not_found, []),
      rw (data_request, eq→== (buf.occupancy b) 0 (laws.occupancy_law b [] v)) refl,
    )
    data_request-total b (x ∷ xs) missing dr c v asc =
        let (z, e) = last-some x xs in
        let a =
          answer rt dr.window_begin dr.window_end x z
            (reach (request_element rt dr.window_begin) missing (x ∷ xs)) in
        (
          respond dr (create_fragment_header id dr) c a,
          data_request-held b (length xs) missing dr c a (laws.occupancy_law b (x ∷ xs) v) (
              get_fragment_pieces_answers rt buf Represents reach laws b x z xs dr.window_begin
                dr.window_end missing v asc e),
        )

module _ {T : Type 0} (rt : Readout T) (id : Identity) where
  -- On a ring with binary search whose ascending payloads have frames spaced by the tick and no
  -- more frames than RDT() has, a request that starts later than the oldest timestamp by more than
  -- RDT()'s length, with 0 < tick <= start < 2^64, and ends not before its start and not after the
  -- newest timestamp, is answered found, with no error bit, one more found request, and exactly the
  -- frames that overlap its window.
  pub found_fragment :
      (q : Queue T) (x z : T) (xs : List T) (missing : Bool) (dr : DataRequest) (c : Counters)
      → Laws rt
      → Holds q (x ∷ xs)
      → Ascending rt (x ∷ xs)
      → AllRegular rt (x ∷ xs)
      → AtMost rt (rt.num_frames rt.blank) (x ∷ xs)
      → last (x ∷ xs) ≡ some z
      → 0 < rt.tick
      → rt.tick ≤ dr.window_begin
      → dr.window_begin < 2 ^ 64
      → rt.timestamp x + reach_back rt < dr.window_begin
      → dr.window_begin ≤ dr.window_end
      → dr.window_end ≤ rt.timestamp z
      → (ps : List (Piece T)) × (data_request rt (binary_buffer rt) id q missing dr c
          ≡ some (
            record {
              result_code = ResultCode.found;
              data_request = dr;
              fragment = record { header = create_fragment_header id dr; pieces = ps };
            },
            count_found c,
          ))
        × (all_times rt ps
            ≡ keep (overlaps rt.tick dr.window_begin dr.window_end) (spans rt (x ∷ xs)))
  found_fragment q x z xs missing dr c laws v asc reg most e pos low k after ord inside =
      let (ps, got, times) =
        complete rt q x z xs dr.window_begin dr.window_end missing laws v asc reg most e pos low k
          after (omega arith) ord in
      (
        ps,
        data_request-held rt (binary_buffer rt) id q (length xs) missing dr c (ResultCode.found, ps)
            ((binary_buffer-Laws rt laws).occupancy_law q (x ∷ xs) v)
            (got
              ∙ ap (λ code. some (code, ps))
                  (all_there dr.window_begin dr.window_end (rt.timestamp x) (rt.timestamp z) inside
                    (omega arith))),
        times,
      )
    where
      all_there :
          (start stop last_ts newest_ts : ℕ)
          → stop ≤ newest_ts
          → last_ts ≤ start
          → availability start stop last_ts newest_ts ≡ ResultCode.found
      all_there start stop last_ts newest_ts h k =
          rw (le→ltb newest_ts stop h, le→ltb start last_ts k) refl

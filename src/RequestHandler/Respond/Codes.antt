-- ===== src/RequestHandler/Respond/Codes.antt =====
-- What a result code means for the counters and for the error bits.
use datahandlinglibs.Base.{
  ℕ, ◌+◌, ◌%◌, ◌^◌, ◌≡◌, refl, sym, ap, subst, ◌∙◌, inl, inr, Bool, true, false, Option, none, some,
  List, [], arith, ◌==◌, if◌then◌else◌, Bool-cases,
}
use mathlib.Core.Option.{some-injective}
use mathlib.Core.Option
use datahandlinglibs.Readout.{Readout}
use datahandlinglibs.LatencyBuffer.{Buffer}
use datahandlinglibs.RequestHandler.{ResultCode, Piece, DataRequest}
use datahandlinglibs.RequestHandler.Pieces.{get_fragment_pieces}
use datahandlinglibs.RequestHandler.Respond.{
  Identity, ErrorBits, FragmentHeader, RequestResult, Counters, create_fragment_header, respond,
  classify, data_request,
}

-- Found, bad and delayed requests together.
abbrev pub tally : Counters → ℕ
tally c = (c.num_requests_found + c.num_requests_bad + c.num_requests_delayed) % 2 ^ 32

pub classify-tally :
    (code : ResultCode) (h : FragmentHeader) (c : Counters)
    → tally (classify code h c).1 ≡ (tally c + 1) % 2 ^ 32
classify-tally ResultCode.too_old h c = ground arith
classify-tally ResultCode.partially_old h c = ground arith
classify-tally ResultCode.found h c = ground arith
classify-tally ResultCode.partial h c = ground arith
classify-tally ResultCode.not_yet h c = ground arith
classify-tally ResultCode.not_found h c = ground arith
classify-tally ResultCode.cleanup h c = ground arith
classify-tally ResultCode.unknown h c = ground arith

mapped {ℓ} :
    {A B : Type ℓ} (f : A → B) (o : Option A) (y : B)
    → Option.map f o ≡ some y
    → (a : A) × (y ≡ f a)
mapped f none y e = absurd (cc e)
mapped f (some a) y e = (a, sym (some-injective (f a) y e))

-- The two bits, by the code.
abbrev pub bits_of : ResultCode → ErrorBits
bits_of ResultCode.found = record { data_not_found = false; incomplete = false }
bits_of ResultCode.partial = record { data_not_found = false; incomplete = true }
bits_of ResultCode.partially_old = record { data_not_found = true; incomplete = true }
bits_of _ = record { data_not_found = true; incomplete = false }

abbrev pub stamped : ResultCode → FragmentHeader → FragmentHeader
stamped code h = record h { error_bits = bits_of code }

classify-stamped :
    (code : ResultCode) (id : Identity) (dr : DataRequest) (c : Counters)
    → (classify code (create_fragment_header id dr) c).0
      ≡ stamped code (create_fragment_header id dr)
classify-stamped ResultCode.found id dr c = refl
classify-stamped ResultCode.not_found id dr c = refl
classify-stamped ResultCode.too_old id dr c = refl
classify-stamped ResultCode.not_yet id dr c = refl
classify-stamped ResultCode.partial id dr c = refl
classify-stamped ResultCode.partially_old id dr c = refl
classify-stamped ResultCode.cleanup id dr c = refl
classify-stamped ResultCode.unknown id dr c = refl

module _ {T : Type 0} (rt : Readout T) {B I : Type 0} (buf : Buffer T B I) (id : Identity) where
  -- An answer is a `respond` of some code and pieces.
  data_request-respond :
      (b : B) (missing : Bool) (dr : DataRequest) (c c' : Counters) (r : RequestResult T)
      → data_request rt buf id b missing dr c ≡ some (r, c')
      → (a : ResultCode × List (Piece T)) × ((r, c')
          ≡ respond dr (create_fragment_header id dr) c a)
  unfolding data_request
  data_request-respond b missing dr c c' r e = elim (Bool-cases (buf.occupancy b == 0)) [
    | inl empty ↦ (
      (ResultCode.not_found, []),
      sym (
          some-injective (respond dr (create_fragment_header id dr) c (ResultCode.not_found, []))
            (r, c')
            (subst
              (λ t.
                (if t
                  then some (respond dr (create_fragment_header id dr) c (ResultCode.not_found, []))
                  else Option.map (respond dr (create_fragment_header id dr) c)
                      (get_fragment_pieces rt buf b dr.window_begin dr.window_end missing))
                ≡ some (r, c'))
              empty e)),
    )
    | inr held ↦
        mapped (respond dr (create_fragment_header id dr) c)
          (get_fragment_pieces rt buf b dr.window_begin dr.window_end missing) (r, c')
          (subst
            (λ t.
              (if t
                then some (respond dr (create_fragment_header id dr) c (ResultCode.not_found, []))
                else Option.map (respond dr (create_fragment_header id dr) c)
                    (get_fragment_pieces rt buf b dr.window_begin dr.window_end missing))
              ≡ some (r, c'))
            held e)
  ]

  -- Each data request that has a result adds one, modulo 2^32, to the sum of the found, bad and
  -- delayed requests.
  pub data_request-tally :
      (b : B) (missing : Bool) (dr : DataRequest) (c c' : Counters) (r : RequestResult T)
      → data_request rt buf id b missing dr c ≡ some (r, c')
      → tally c' ≡ (tally c + 1) % 2 ^ 32
  data_request-tally b missing dr c c' r e =
      let (a, eq) = data_request-respond b missing dr c c' r e in
      ap (λ p. tally p.1) eq ∙ classify-tally a.0 (create_fragment_header id dr) c

  -- A data request that has a result returns the request with a fragment whose header has the
  -- request's trigger, run and sequence numbers, trigger timestamp, window begin and window end,
  -- the link's fragment type, detector, subsystem and source, and the error bits of the result
  -- code: none for found, incomplete for partial, both for partially_old, and data not found for
  -- all others; the sum of the found, bad and delayed requests grows by one, modulo 2^32.
  pub data_request-flags :
      (b : B) (missing : Bool) (dr : DataRequest) (c c' : Counters) (r : RequestResult T)
      → data_request rt buf id b missing dr c ≡ some (r, c')
      → (r.data_request ≡ dr)
        × (r.fragment.header ≡ record {
          trigger_number = dr.trigger_number;
          trigger_timestamp = dr.trigger_timestamp;
          window_begin = dr.window_begin;
          window_end = dr.window_end;
          run_number = dr.run_number;
          fragment_type = id.fragment_type;
          sequence_number = dr.sequence_number;
          detector_id = id.detector_id;
          subsystem = id.subsystem;
          source_id = id.source_id;
          error_bits = bits_of r.result_code;
        })
        × (tally c' ≡ (tally c + 1) % 2 ^ 32)
  data_request-flags b missing dr c c' r e =
      let (a, eq) = data_request-respond b missing dr c c' r e in
      (
        ap (λ p. p.0.data_request) eq,
        subst (λ p. p.0.fragment.header ≡ stamped p.0.result_code (create_fragment_header id dr))
            (sym eq) (classify-stamped a.0 id dr c),
        data_request-tally b missing dr c c' r e,
      )

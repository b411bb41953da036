-- ===== src/Tests/Pieces.antt =====
-- Requests on the ring: what is found, and what is missed.
use datahandlinglibs.Base.{ℕ, ◌+◌, ◌^◌, ◌<◌, ◌≡◌, refl, false, some, List, [], ◌∷◌, arith}
use datahandlinglibs.Readout.{DummyFrame}
use datahandlinglibs.Tests.Data.{
  rt10, rt10-Laws, frame_of, three_frames, ring, ring-Holds, three_frames-Ascending, link,
  no_counts, request_of,
}
use datahandlinglibs.IterableQueue.Holds.{Holds}
use datahandlinglibs.LatencyBuffer.Ring.{binary_buffer, binary_reach, binary_buffer-Laws}
use datahandlinglibs.RequestHandler.{ResultCode, Piece}
use datahandlinglibs.RequestHandler.Pieces.{get_fragment_pieces, request_element}
use datahandlinglibs.RequestHandler.Pieces.Frames.{all_times, Regular}
use datahandlinglibs.RequestHandler.Pieces.Select.{AllRegular, AtMost}
use datahandlinglibs.RequestHandler.Pieces.Outcome.{get_fragment_pieces_answers, answer}
use datahandlinglibs.RequestHandler.Pieces.Window.{complete, missed}
use datahandlinglibs.RequestHandler.Respond.{create_fragment_header, count_found, data_request}
use datahandlinglibs.RequestHandler.Respond.Answers.{found_fragment}

frame_of-Regular : (ts : ℕ) → ts + 10 < 2 ^ 64 → Regular rt10 (frame_of ts)
frame_of-Regular ts h = record { spaced = refl; no_wrap = omega arith }

three_frames-Regular : AllRegular rt10 three_frames
three_frames-Regular = (
  frame_of-Regular 100 (omega arith),
  (frame_of-Regular 110 (omega arith), (frame_of-Regular 120 (omega arith), tt)),
)

three_frames-AtMost : AtMost rt10 1 three_frames
three_frames-AtMost = (omega arith, (omega arith, (omega arith, tt)))

-- The frame of 110 lasts until 120, so the window from 115 to 121 has it too.
found_fragment_example :
    (ps : List (Piece DummyFrame)) × (data_request rt10
        (binary_buffer rt10)
        link
        ring
        false
        (request_of 115 120)
        no_counts
      ≡ some (
        record {
          result_code = ResultCode.found;
          data_request = request_of 115 120;
          fragment = record {
            header = create_fragment_header link (request_of 115 120);
            pieces = ps;
          };
        },
        count_found no_counts,
      ))
    × (all_times rt10 ps ≡ 110 ∷ [])
found_fragment_example =
    found_fragment rt10 link ring (frame_of 100) (frame_of 120) (frame_of 110 ∷ frame_of 120 ∷ [])
      false (request_of 115 120) no_counts rt10-Laws ring-Holds three_frames-Ascending
      three_frames-Regular three_frames-AtMost refl (omega arith) (omega arith) (omega arith)
      (omega arith) (omega arith) (omega arith)

complete_example :
    (ps : List (Piece DummyFrame)) × (get_fragment_pieces rt10
        (binary_buffer rt10)
        ring
        115
        140
        false
      ≡ some (ResultCode.partial, ps))
    × (all_times rt10 ps ≡ 110 ∷ 120 ∷ [])
complete_example =
    complete rt10 ring (frame_of 100) (frame_of 120) (frame_of 110 ∷ frame_of 120 ∷ []) 115 140
      false rt10-Laws ring-Holds three_frames-Ascending three_frames-Regular three_frames-AtMost
      refl (omega arith) (omega arith) (omega arith) (omega arith) (omega arith) (omega arith)

get_fragment_pieces_answers_example :
    get_fragment_pieces rt10 (binary_buffer rt10) ring 115 140 false
    ≡ some (
        answer rt10 115 140
          (frame_of 100)
          (frame_of 120)
          (binary_reach rt10 (request_element rt10 115) false three_frames))
get_fragment_pieces_answers_example =
    get_fragment_pieces_answers rt10 (binary_buffer rt10) Holds (binary_reach rt10)
      (binary_buffer-Laws rt10 rt10-Laws) ring (frame_of 100) (frame_of 120)
      (frame_of 110 ∷ frame_of 120 ∷ []) 115 140 false ring-Holds three_frames-Ascending refl

-- The frame of 100 covers 105.
missed_example :
    get_fragment_pieces rt10 (binary_buffer rt10) ring 105 112 false
    ≡ some (ResultCode.not_found, [])
missed_example =
    missed rt10 ring (frame_of 100) (frame_of 120) (frame_of 110 ∷ frame_of 120 ∷ []) 105 112 false
      rt10-Laws ring-Holds three_frames-Ascending refl (omega arith) (omega arith) (omega arith)
      (omega arith) (omega arith)

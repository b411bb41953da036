-- ===== src/DataHandling/Consume.antt =====
-- `process_item`, `consume_payload` and `dispatch_requests`.
use datahandlinglibs.Base.{
  ℕ, ◌^◌, Bool, false, ◌||◌, Option, none, some, List, [], ◌∷◌, ◌++◌, leb, ◌==◌, if◌then◌else◌,
  add32, sub64,
}
use datahandlinglibs.Readout.{Readout}
use datahandlinglibs.LatencyBuffer.{Buffer}
use datahandlinglibs.RequestHandler.{DataRequest}
use datahandlinglibs.RequestHandler.Jobs.{Handler, issue_request}

-- The raw processor and the request handler are template parameters: `preprocess` is
-- `preprocess_item`, and `cutoff` is the cutoff timestamp where it is supported.
pub record Processing (T : Type 0) : Type 0 where
  pub preprocess : T → T
  pub cutoff : Option ℕ
  pub processing_delay_ticks : ℕ

-- The counters are the bits of an `atomic<int>`. `warnings` are the timestamps of the payloads
-- reported as too late; `postprocessed` are the pointers given to `postprocess_item`.
pub record Consumer (T B : Type 0) : Type 0 where
  pub buffer : B
  pub num_payloads : ℕ
  pub sum_payloads : ℕ
  pub stats_packet_count : ℕ
  pub num_payloads_overwritten : ℕ
  pub warnings : List ℕ
  pub postprocessed : List (Option T)

-- `diff1 <= 0`, an `int64_t` difference.
abbrev pub is_late : ℕ → Option ℕ → Bool
is_late ts none = false
is_late ts (some cutoff) = let diff1 = sub64 ts cutoff in diff1 == 0 || leb (2 ^ 63) diff1

module _ {T B I : Type 0} (rt : Readout T) (buf : Buffer T B I) (write : B → T → Bool × B) where
  abbrev pub warn : Processing T → T → Consumer T B → Consumer T B
  warn pr x s = record s {
    warnings =
        if is_late (rt.timestamp x) pr.cutoff
        then s.warnings ++ (rt.timestamp x ∷ [])
        else s.warnings;
  }

  abbrev pub store : T → Consumer T B → Consumer T B
  store x s = record s {
    buffer = (write s.buffer x).1;
    num_payloads_overwritten =
        if (write s.buffer x).0
        then s.num_payloads_overwritten
        else add32 s.num_payloads_overwritten 1;
  }

  abbrev pub postprocess : Consumer T B → Consumer T B
  postprocess s = record s {
    postprocessed = s.postprocessed ++ (buf.back s.buffer ∷ []);
    num_payloads = add32 s.num_payloads 1;
    sum_payloads = add32 s.sum_payloads 1;
    stats_packet_count = add32 s.stats_packet_count 1;
  }

  unfoldable pub process_item : Processing T → T → Consumer T B → Consumer T B
  process_item pr payload s =
      let x = pr.preprocess payload in
      let stored = store x (warn pr x s) in
      if pr.processing_delay_ticks == 0 then postprocess stored else stored

  unfoldable pub consume_payload : Processing T → T → Consumer T B → Consumer T B
  consume_payload pr payload s =
      let x = pr.preprocess payload in postprocess (store x (warn pr x s))

  -- The payloads of a transformed input, or of several.
  unfoldable pub process_items : Processing T → List T → Consumer T B → Consumer T B
  unfolding process_item
  process_items pr [] s = s
  process_items pr (x ∷ xs) s = process_items pr xs (process_item pr x s)

-- A request for another source is reported and dropped.
abbrev pub dispatch_requests :
    {T B : Type 0} → ℕ → DataRequest → Handler T B × ℕ × ℕ → Handler T B × ℕ × ℕ
dispatch_requests source_id dr (h, num_requests, sum_requests) =
    if dr.component == source_id
    then (issue_request dr false h, add32 num_requests 1, add32 sum_requests 1)
    else (h, num_requests, sum_requests)

-- ===== src/SourceEmulator/Times.antt =====
-- detail/SourceEmulatorModel.hxx: the timestamps of what `run_produce` sends.
use datahandlinglibs.Base.{
  ℕ, zero, suc, ◌+◌, ◌*◌, ◌%◌, ◌^◌, ◌≤◌, ◌<◌, ◌≡◌, refl, sym, ap, ap₂, subst, ◌∙◌, Bool, true,
  false, some, List, [], ◌∷◌, ◌++◌, append_assoc, append-nil, arith, if◌then◌else◌, ◌>>=◌, length,
  get_elem?, drop, take, replicate, length-append, get_elem?-some, add32, add64, mul64,
}
use datahandlinglibs.Readout.{Readout}
use datahandlinglibs.FileIo.{Layout}
use datahandlinglibs.Utils.ErrorBits.{Tables}
use datahandlinglibs.SourceEmulator.{
  Produce, Emulator, Fakes, wrapped, frame_turn, frame_turns, tick, ticks,
}
use datahandlinglibs.SourceEmulator.Bounds.{element-in_range, wrapped-lt}
use datahandlinglibs.SourceEmulator.Frames.{
  Patterned, Created, created, place, stamps, created-false, created-true, create_frame-Created,
}

module _ {T : Type 0} (rt : Readout T) (l : Layout T) (fakes : Fakes T) (tables : Tables) where
  module _ (source : List ℕ) (num nf : ℕ) (dropouts : List Bool) (frames diff connection : ℕ)
      (some_element : 0 < num) (small : num < 2 ^ 31) (whole : num * l.size ≤ length source) where
    -- The emulator keeps its configuration, and the places stay in range.
    pub record Good (s : Produce T) : Type 0 where
      pub dropouts_law : s.emulator.dropouts ≡ dropouts
      pub frames_law : s.emulator.frames_per_tick ≡ frames
      pub diff_law : s.emulator.time_tick_diff ≡ diff
      pub place_law : s.dropout_index < length dropouts
      pub offset_law : s.offset ≤ num
      pub pattern_law : Patterned s.emulator
      pub sender_law : s.emulator.sender ≡ some connection

    -- From `s` to `s'` these timestamps are sent, and the place in the dropouts is `i`.
    record Turned (s s' : Produce T) (more : List ℕ) (i : ℕ) : Type 0 where
      good : Good s'
      faked_law : s'.emulator.faked ≡ s.emulator.faked ++ more
      sent_law : length s'.emulator.sent ≡ length s.emulator.sent + length more
      count_law :
          s'.emulator.packet_count % 2 ^ 32 ≡ (s.emulator.packet_count + length more) % 2 ^ 32
      index_law : s'.dropout_index ≡ i

    turn-Created :
        (s : Produce T)
        → get_elem? s.emulator.dropouts s.dropout_index ≡ some true
        → wrapped rt l fakes tables source num s.offset < num
        → s.emulator.sender ≡ some connection
        → Patterned s.emulator
        → (e' : Emulator T) × Created s.timestamp s.emulator e'
          × (frame_turn rt l fakes tables source num nf s
              ≡ some record s {
                emulator = e';
                offset = add32 (wrapped rt l fakes tables source num s.offset) 1;
                dropout_index = (s.dropout_index + 1) % length s.emulator.dropouts;
              })
    unfolding frame_turn
    turn-Created s e h sends ok =
        let offset = wrapped rt l fakes tables source num s.offset in
        let raw = l.decode (take l.size (drop (offset * l.size) source)) in
        let (e', made, k) =
          create_frame-Created rt l fakes tables s.timestamp nf s.emulator raw connection sends
            ok in
        (e', k, rw (e, element-in_range rt l fakes tables source offset num h whole, made) refl)

    turn_dropped :
        (s : Produce T)
        → get_elem? s.emulator.dropouts s.dropout_index ≡ some false
        → frame_turn rt l fakes tables source num nf s
          ≡ some record s {
            offset = wrapped rt l fakes tables source num s.offset;
            dropout_index = (s.dropout_index + 1) % length s.emulator.dropouts;
          }
    unfolding frame_turn
    turn_dropped s e = rw e refl

    next_place : (i : ℕ) → 0 < length dropouts → (i + 1) % length dropouts < length dropouts
    next_place i h = grind arith

    frame_turn_lem :
        (s : Produce T) (b : Bool)
        → Good s
        → get_elem? dropouts s.dropout_index ≡ some b
        → (s' : Produce T) × (frame_turn rt l fakes tables source num nf s ≡ some s')
          × (s'.timestamp ≡ s.timestamp)
          × Turned s s'
              (if b then s.timestamp ∷ [] else [])
              ((s.dropout_index + 1) % length dropouts)
    frame_turn_lem s true g e =
        let w = wrapped-lt rt l fakes tables source num s.offset some_element g.offset_law in
        let (e', k, t) =
          turn-Created s (ap (λ d. get_elem? d s.dropout_index) g.dropouts_law ∙ e) w g.sender_law
            g.pattern_law in
        (
          _,
          t,
          refl,
          record {
            good = record {
              dropouts_law = k.dropouts_law ∙ g.dropouts_law;
              frames_law = k.frames_law ∙ g.frames_law;
              diff_law = k.diff_law ∙ g.diff_law;
              place_law =
                  subst (λ d. (s.dropout_index + 1) % length d < length dropouts)
                    (sym g.dropouts_law) (next_place s.dropout_index (omega (arith, g.place_law)));
              offset_law = omega (arith, w, small);
              pattern_law = k.pattern_law;
              sender_law = k.sender_law ∙ g.sender_law;
            };
            faked_law = k.faked_law;
            sent_law = k.sent_law;
            count_law = omega (arith, k.count_law);
            index_law = ap (λ d. (s.dropout_index + 1) % length d) g.dropouts_law;
          },
        )
    frame_turn_lem s false g e =
        let w = wrapped-lt rt l fakes tables source num s.offset some_element g.offset_law in
        let t = turn_dropped s (ap (λ d. get_elem? d s.dropout_index) g.dropouts_law ∙ e) in
        (
          _,
          t,
          refl,
          record {
            good = record {
              dropouts_law = g.dropouts_law;
              frames_law = g.frames_law;
              diff_law = g.diff_law;
              place_law =
                  subst (λ d. (s.dropout_index + 1) % length d < length dropouts)
                    (sym g.dropouts_law) (next_place s.dropout_index (omega (arith, g.place_law)));
              offset_law = omega (arith, w);
              pattern_law = g.pattern_law;
              sender_law = g.sender_law;
            };
            faked_law = sym (append-nil _);
            sent_law = omega arith;
            count_law = omega arith;
            index_law = ap (λ d. (s.dropout_index + 1) % length d) g.dropouts_law;
          },
        )

    replicate-created :
        (b : Bool) (i k ts : ℕ)
        → get_elem? dropouts i ≡ some b
        → (if b then ts ∷ [] else [])
            ++ replicate (created dropouts ((i + 1) % length dropouts) k) ts
          ≡ replicate (created dropouts i (suc k)) ts
    replicate-created true i k ts e = ap (λ n. replicate n ts) (sym (created-true dropouts i k e))
    replicate-created false i k ts e = ap (λ n. replicate n ts) (sym (created-false dropouts i k e))

    then-Turned :
        (b : Bool) (n : ℕ) (s s1 s2 : Produce T)
        → get_elem? dropouts s.dropout_index ≡ some b
        → s1.timestamp ≡ s.timestamp
        → Turned s s1 (if b then s.timestamp ∷ [] else []) ((s.dropout_index + 1) % length dropouts)
        → Turned s1 s2
            (replicate (created dropouts s1.dropout_index n) s1.timestamp)
            (place dropouts s1.dropout_index n)
        → Turned s s2
            (replicate (created dropouts s.dropout_index (suc n)) s.timestamp)
            (place dropouts s.dropout_index (suc n))
    then-Turned b n s s1 s2 e t1 k1 k2 =
        let more = ap₂ (λ i ts. replicate (created dropouts i n) ts) k1.index_law t1 in
        let all =
          ap (λ xs. (if b then s.timestamp ∷ [] else []) ++ xs) more
          ∙ replicate-created b s.dropout_index n s.timestamp e in
        record {
          good = k2.good;
          faked_law =
              k2.faked_law
              ∙ (ap (λ xs. xs ++ replicate (created dropouts s1.dropout_index n) s1.timestamp)
                    k1.faked_law
                  ∙ (append_assoc s.emulator.faked (if b then s.timestamp ∷ [] else []) _
                      ∙ ap (λ xs. s.emulator.faked ++ xs) all));
          sent_law = omega (
            arith,
            k1.sent_law,
            k2.sent_law,
            ap length all,
            length-append (if b then s.timestamp ∷ [] else [])
                (replicate (created dropouts s1.dropout_index n) s1.timestamp),
          );
          count_law = omega (
            arith,
            k1.count_law,
            k2.count_law,
            ap length all,
            length-append (if b then s.timestamp ∷ [] else [])
                (replicate (created dropouts s1.dropout_index n) s1.timestamp),
          );
          index_law = k2.index_law ∙ ap (λ i. place dropouts i n) k1.index_law;
        }

    frame_turns_lem :
        (n : ℕ) (s : Produce T)
        → Good s
        → (s' : Produce T) × (frame_turns rt l fakes tables n source num nf s ≡ some s')
          × (s'.timestamp ≡ s.timestamp)
          × Turned s s'
              (replicate (created dropouts s.dropout_index n) s.timestamp)
              (place dropouts s.dropout_index n)
    unfolding frame_turns
    frame_turns_lem zero s g = (
      s,
      refl,
      refl,
      record {
        good = g;
        faked_law = sym (append-nil _);
        sent_law = omega arith;
        count_law = omega arith;
        index_law = refl;
      },
    )
    frame_turns_lem (suc n) s g =
        let (b, e) = get_elem?-some dropouts s.dropout_index g.place_law in
        let (s1, e1, t1, k1) = frame_turn_lem s b g e in
        let (s2, e2, t2, k2) = frame_turns_lem n s1 k1.good in
        (s2, rw e1 e2, t2 ∙ t1, then-Turned b n s s1 s2 e t1 k1 k2)

    tick_lem :
        (s : Produce T)
        → Good s
        → (s' : Produce T) × (tick rt l fakes tables source num nf s ≡ some s')
          × (s'.timestamp ≡ add64 s.timestamp (mul64 diff nf))
          × Turned s s'
              (replicate (created dropouts s.dropout_index frames) s.timestamp)
              (place dropouts s.dropout_index frames)
    unfolding tick
    tick_lem s g =
        let (s1, e1, t1, k1) = frame_turns_lem frames s g in
        (
          record s1 { timestamp = add64 s1.timestamp (mul64 s1.emulator.time_tick_diff nf) },
          ap
                (λ n. frame_turns rt l fakes tables n source num nf s >>= λ r.
                  some (record r {
                    timestamp = add64 r.timestamp (mul64 r.emulator.time_tick_diff nf);
                  }))
                g.frames_law
              ∙ rw e1 refl,
          ap₂ (λ t d. add64 t (mul64 d nf)) t1 k1.good.diff_law,
          record {
            good = record {
              dropouts_law = k1.good.dropouts_law;
              frames_law = k1.good.frames_law;
              diff_law = k1.good.diff_law;
              place_law = k1.good.place_law;
              offset_law = k1.good.offset_law;
              pattern_law = k1.good.pattern_law;
              sender_law = k1.good.sender_law;
            };
            faked_law = k1.faked_law;
            sent_law = k1.sent_law;
            count_law = k1.count_law;
            index_law = k1.index_law;
          },
        )

    -- Any number of rounds from a good state has a result, sends the timestamps of the rounds and
    -- counts them.
    pub ticks_lem :
        (n : ℕ) (s : Produce T)
        → Good s
        → (s' : Produce T) × (ticks rt l fakes tables n source num nf s ≡ some s')
          × (s'.emulator.faked
              ≡ s.emulator.faked
                ++ stamps dropouts frames (mul64 diff nf) s.dropout_index s.timestamp n)
          × (length s'.emulator.sent
              ≡ length s.emulator.sent
                + length (stamps dropouts frames (mul64 diff nf) s.dropout_index s.timestamp n))
          × (s'.emulator.packet_count % 2 ^ 32
              ≡ (s.emulator.packet_count
                  + length (stamps dropouts frames (mul64 diff nf) s.dropout_index s.timestamp n))
                % 2 ^ 32)
    unfolding ticks
    ticks_lem zero s g = (s, refl, sym (append-nil _), omega arith, omega arith)
    ticks_lem (suc n) s g =
        let (s1, e1, t1, k1) = tick_lem s g in
        let (s2, e2, m2, l2, c2) = ticks_lem n s1 k1.good in
        let rest = ap₂ (λ i ts. stamps dropouts frames (mul64 diff nf) i ts n) k1.index_law t1 in
        let now = replicate (created dropouts s.dropout_index frames) s.timestamp in
        (
          s2,
          rw e1 e2,
          m2 ∙ (ap₂ (λ xs ys. xs ++ ys) k1.faked_law rest ∙ append_assoc s.emulator.faked now _),
          omega (
            arith,
            l2,
            k1.sent_law,
            ap length rest,
            length-append now (
                stamps dropouts frames (mul64 diff nf) (place dropouts s.dropout_index frames)
                  (add64 s.timestamp (mul64 diff nf)) n),
          ),
          omega (
            arith,
            c2,
            k1.count_law,
            ap length rest,
            length-append now (
                stamps dropouts frames (mul64 diff nf) (place dropouts s.dropout_index frames)
                  (add64 s.timestamp (mul64 diff nf)) n),
          ),
        )

-- ===== src/SourceEmulator/Frames.antt =====
-- detail/SourceEmulatorModel.hxx: the timestamp of one frame, and those of a sequence of rounds.
use datahandlinglibs.Base.{
  ℕ, zero, suc, ◌+◌, ◌%◌, ◌≤◌, ◌<◌, ◌≡◌, refl, sym, ap, subst, ◌∙◌, inl, inr, Bool, true, false,
  ◌&&◌, some, List, [], ◌∷◌, ◌++◌, arith, ltb, ◌==◌, if◌then◌else◌, Bool-cases, length, get_elem?,
  replicate, length-append, get_elem?-some, add32, add64, sub64,
}
use datahandlinglibs.Readout.{Readout}
use datahandlinglibs.FileIo.{Layout}
use datahandlinglibs.Utils.ErrorBits.{Tables}
use datahandlinglibs.SourceEmulator.{
  Emulator, Fakes, Pattern, error_bits, add_pattern, get_channel_number, create_frame,
}

-- How many frames are created in `k` rounds from a place of the population of dropouts.
abbrev pub created : List Bool → ℕ → ℕ → ℕ
created dropouts i zero = 0
created dropouts i (suc k) = elim (get_elem? dropouts i) [
  | some true ↦ suc (created dropouts ((i + 1) % length dropouts) k)
  | _ ↦ created dropouts ((i + 1) % length dropouts) k
]

-- The place after `k` rounds.
abbrev pub place : List Bool → ℕ → ℕ → ℕ
place dropouts i zero = i
place dropouts i (suc k) = place dropouts ((i + 1) % length dropouts) k

-- The timestamps sent in `n` ticks of `frames` rounds each: those of one tick are the same, and
-- those of the next one are `step` later.
abbrev pub stamps : List Bool → ℕ → ℕ → ℕ → ℕ → ℕ → List ℕ
stamps dropouts frames step i ts zero = []
stamps dropouts frames step i ts (suc n) =
    replicate (created dropouts i frames) ts
    ++ stamps dropouts frames step (place dropouts i frames) (add64 ts step) n

pub created-false :
    (dropouts : List Bool) (i k : ℕ)
    → get_elem? dropouts i ≡ some false
    → created dropouts i (suc k) ≡ created dropouts ((i + 1) % length dropouts) k
created-false dropouts i k e =
    ap
      (λ o. elim o [
        | some true ↦ suc (created dropouts ((i + 1) % length dropouts) k)
        | _ ↦ created dropouts ((i + 1) % length dropouts) k
      ])
      e

pub created-true :
    (dropouts : List Bool) (i k : ℕ)
    → get_elem? dropouts i ≡ some true
    → created dropouts i (suc k) ≡ suc (created dropouts ((i + 1) % length dropouts) k)
created-true dropouts i k e =
    ap
      (λ o. elim o [
        | some true ↦ suc (created dropouts ((i + 1) % length dropouts) k)
        | _ ↦ created dropouts ((i + 1) % length dropouts) k
      ])
      e

-- The pattern has channels, and its index is in their range or at their end, where it is used.
abbrev pub Patterned : {T : Type 0} → Emulator T → Type 0
Patterned e =
    e.generate_periodic_adc_pattern ≡ true
    → (0 < length e.pattern.channel) × (e.pattern.index ≤ length e.pattern.channel)

get_channel_number-in_range :
    (p : Pattern)
    → 0 < length p.channel
    → p.index ≤ length p.channel
    → (c : ℕ) × ((get_channel_number p).1 ≡ some c)
      × ((get_channel_number p).0.channel ≡ p.channel)
      × ((get_channel_number p).0.index ≤ length p.channel)
unfolding get_channel_number
get_channel_number-in_range p some_channel inside =
    let i = if p.index == length p.channel then 0 else p.index in
    let h : i < length p.channel = ground arith in
    let (c, e) = get_elem?-some p.channel i h in (c, e, refl, omega (arith, h))

both_true : (a b : Bool) → (a && b) ≡ true → a ≡ true
both_true true b e = refl
both_true false b e = absurd (cc e)

-- What a created frame at `ts` changes.
pub record Created {T : Type 0} (ts : ℕ) (e e' : Emulator T) : Type 0 where
  pub faked_law : e'.faked ≡ e.faked ++ (ts ∷ [])
  pub sent_law : length e'.sent ≡ length e.sent + 1
  pub count_law : e'.packet_count ≡ add32 e.packet_count 1
  pub sender_law : e'.sender ≡ e.sender
  pub dropouts_law : e'.dropouts ≡ e.dropouts
  pub frames_law : e'.frames_per_tick ≡ e.frames_per_tick
  pub diff_law : e'.time_tick_diff ≡ e.time_tick_diff
  pub pattern_law : Patterned e'

-- What the pattern leaves as it is.
record Kept {T : Type 0} (e e' : Emulator T) : Type 0 where
  faked_law : e'.faked ≡ e.faked
  sent_law : e'.sent ≡ e.sent
  sender_law : e'.sender ≡ e.sender
  dropouts_law : e'.dropouts ≡ e.dropouts
  frames_law : e'.frames_per_tick ≡ e.frames_per_tick
  diff_law : e'.time_tick_diff ≡ e.time_tick_diff
  pattern_law : Patterned e'

module _ {T : Type 0} (rt : Readout T) (l : Layout T) (fakes : Fakes T) (tables : Tables) where
  add_pattern-Kept :
      (ts : ℕ) (e : Emulator T) (x : T)
      → Patterned e
      → (r : Emulator T × T) × (add_pattern rt l fakes tables ts e x ≡ some r) × Kept e r.0
  unfolding add_pattern
  add_pattern-Kept ts e x ok =
      let due =
        e.generate_periodic_adc_pattern && ltb e.time_to_wait (sub64 ts e.pattern_previous_ts) in
      elim (Bool-cases due) [
        | inl now ↦
            let (some_channel, inside) = ok (both_true _ _ now) in
            let (c, got, same, next) = get_channel_number-in_range e.pattern some_channel inside in
            (
              (
                record e { pattern = (get_channel_number e.pattern).0; pattern_previous_ts = ts },
                fakes.fake_adc_pattern x c,
              ),
              rw (now, got) refl,
              record {
                faked_law = refl;
                sent_law = refl;
                sender_law = refl;
                dropouts_law = refl;
                frames_law = refl;
                diff_law = refl;
                pattern_law = λ _. (
                  subst (λ cs. 0 < length cs) (sym same) some_channel,
                  omega (arith, next, ap length same),
                );
              },
            )
        | inr later ↦ (
          (e, x),
          rw later refl,
          record {
            faked_law = refl;
            sent_law = refl;
            sender_law = refl;
            dropouts_law = refl;
            frames_law = refl;
            diff_law = refl;
            pattern_law = ok;
          },
        )
      ]

  -- A created frame has a result where the pattern can be drawn from.
  pub create_frame-Created :
      (ts nf : ℕ) (e : Emulator T) (raw : T) (connection : ℕ)
      → e.sender ≡ some connection
      → Patterned e
      → (e' : Emulator T) × (create_frame rt l fakes tables ts nf e raw ≡ some e') × Created ts e e'
  unfolding create_frame
  create_frame-Created ts nf e raw connection sends ok =
      let bits = error_bits nf tables e.errors in
      let placed =
        fakes.fake_geoid (fakes.fake_timestamps raw ts e.time_tick_diff) e.crateid e.slotid
          e.linkid in
      let (r, made, k) =
        add_pattern-Kept ts (record e { errors = bits.1; faked = e.faked ++ (ts ∷ []) })
          (fakes.fake_frame_errors placed bits.0) ok in
      (
        record r.0 {
          sent = r.0.sent ++ (r.1 ∷ []);
          packet_count = add32 e.packet_count 1;
          packet_count_tot = add32 e.packet_count_tot 1;
        },
        rw (made, sends) refl,
        record {
          faked_law = k.faked_law;
          sent_law = length-append r.0.sent (r.1 ∷ []) ∙ ap (λ xs. length xs + 1) k.sent_law;
          count_law = refl;
          sender_law = k.sender_law;
          dropouts_law = k.dropouts_law;
          frames_law = k.frames_law;
          diff_law = k.diff_law;
          pattern_law = k.pattern_law;
        },
      )

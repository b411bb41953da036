-- ===== src/RequestHandler/Record/Chain.antt =====
-- detail/DefaultRequestHandlerModel.hxx: no two payloads of a recording overlap in time.
use datahandlinglibs.Base.{
  ℕ, zero, suc, ◌+◌, ◌≤◌, ◌<◌, ◌≡◌, refl, sym, ap, ◌∙◌, inl, inr, Bool, true, not, ◌||◌, none, some,
  List, [], ◌∷◌, ◌++◌, append_assoc, append-nil, arith, ltb, leb, ◌==◌, if◌then◌else◌, leb→le,
  ==_iff, Bool-cases, ◌>>=◌, length, length-append, add64, mul64, ◌%◌, ◌^◌,
}
use datahandlinglibs.Readout.{Readout}
use datahandlinglibs.Readout.Order.{Ascending}
use datahandlinglibs.LatencyBuffer.{Buffer, BufferLaws, Walks}
use datahandlinglibs.FileIo.{Disk, Platform, Layout}
use datahandlinglibs.RequestHandler.Record.{
  record_end, Recording, record_payload, record_pass, record_round, record_rounds, record_thread,
}

module _ {T B I : Type 0} (rt : Readout T) (buf : Buffer T B I) (p : Platform) (l : Layout T) where
  -- The end of a payload, as the code computes it.
  abbrev pub end_of : T → ℕ
  end_of x = add64 (rt.timestamp x) (mul64 rt.tick (rt.num_frames x))

  -- Every payload begins at the end of the one before or later; the first one at `from` or later.
  abbrev pub Apart : ℕ → List T → Type 0
  Apart from [] = Unit {0}
  Apart from (x ∷ xs) = (from ≤ rt.timestamp x) × Apart (end_of x) xs

  -- Where the last payload ends.
  abbrev pub ends : ℕ → List T → ℕ
  ends from [] = from
  ends from (x ∷ xs) = ends (end_of x) xs

  Apart-append :
      (from : ℕ) (xs : List T) (x : T)
      → Apart from xs
      → ends from xs ≤ rt.timestamp x
      → Apart from (xs ++ (x ∷ [])) × (ends from (xs ++ (x ∷ [])) ≡ end_of x)
  Apart-append from [] x a h = ((h, tt), refl)
  Apart-append from (y ∷ xs) x a h = let r = Apart-append (end_of y) xs x a.1 h in ((a.0, r.0), r.1)

  -- From `r` to `r'` these payloads were recorded, apart from each other, and the next timestamp
  -- is not before their end.
  record Grown (r r' : Recording T) (old xs : List T) : Type 0 where
    written_law : r'.written ≡ old ++ xs
    apart_law : Apart 0 xs
    next_law : ends 0 xs ≤ r'.next_timestamp
    count_law : r'.payloads_written % 2 ^ 32 ≡ (r.payloads_written + length xs) % 2 ^ 32

  record_payload-Grown :
      (x : T) (r0 r : Recording T) (old xs : List T)
      → Grown r0 r old xs
      → r.next_timestamp ≤ rt.timestamp x
      → Grown r0 (record_payload rt buf p l x r) old (xs ++ (x ∷ []))
  unfolding record_payload
  record_payload-Grown x r0 r old xs g h =
      let a = Apart-append 0 xs x g.apart_law (omega (arith, h, g.next_law)) in
      record {
        written_law = ap (λ w. w ++ (x ∷ [])) g.written_law ∙ append_assoc old xs (x ∷ []);
        apart_law = a.0;
        next_law = omega (arith, a.1);
        count_law = omega (arith, g.count_law, length-append xs (x ∷ []));
      }

  -- One payload of the pass, recorded or not.
  pass_payload :
      (x : T) (r0 r : Recording T) (old xs : List T)
      → Grown r0 r old xs
      → (ys : List T) × Grown r0
          (if leb r.next_timestamp (rt.timestamp x) then record_payload rt buf p l x r else r)
          old
          ys
  pass_payload x r0 r old xs g = elim (Bool-cases (leb r.next_timestamp (rt.timestamp x))) [
    | inl e ↦ (
      xs ++ (x ∷ []),
      rw e (record_payload-Grown x r0 r old xs g (leb→le r.next_timestamp (rt.timestamp x) e)),
    )
    | inr e ↦ (xs, rw e g)
  ]

  -- A pass over the payloads that an iterator goes through ends, and leaves them apart.
  record_pass-Grown :
      (walk : List T) (fuel : ℕ) (b : B) (i : I) (processed : ℕ) (r0 r : Recording T)
      (old xs : List T)
      → Walks buf b i walk
      → length walk < fuel
      → Grown r0 r old xs
      → (r' : Recording T) × (record_pass rt buf p l fuel b i processed r ≡ some r')
        × ((ys : List T) × Grown r0 r' old ys)
  unfolding record_pass
  record_pass-Grown walk zero b i processed r0 r old xs w h g = absurd (omega arith)
  record_pass-Grown [] (suc fuel) b i processed r0 r old xs w h g =
      (r, rw (w, record_pass) refl, (xs, g))
  record_pass-Grown (x ∷ walk) (suc fuel) b i processed r0 r old xs w h g =
      elim (Bool-cases (ltb processed 1000)) [
        | inl more ↦
            let one = pass_payload x r0 r old xs g in
            let rest =
              record_pass-Grown walk fuel b (buf.next b i)
                (if leb r.next_timestamp (rt.timestamp x) then processed + 1 else processed) r0
                (if leb r.next_timestamp (rt.timestamp x) then record_payload rt buf p l x r else r)
                old one.0 w.2 (omega arith) one.1 in
            (rest.0, rw (w.0, w.1, more, record_pass) rest.1, rest.2)
        | inr enough ↦ (r, rw (w.0, enough, record_pass) refl, (xs, g))
      ]

  module _ (Represents : B → List T → Type 0) (reach : T → Bool → List T → List T)
      (laws : BufferLaws rt buf Represents reach) where
    -- The states of the buffer in the rounds are those of a buffer in the order of time.
    abbrev pub Rounds : ℕ → List (Bool × B) → Type 0
    Rounds fuel [] = Unit {0}
    Rounds fuel ((cleanup, b) ∷ rounds) =
        ((xs : List T) × Represents b xs × Ascending rt xs × (length xs < fuel))
        × Rounds fuel rounds

    begin-Grown :
        (r0 r : Recording T) (old xs : List T) (first : ℕ)
        → Grown r0 r old xs
        → Grown r0 (if r.next_timestamp == 0 then record r { next_timestamp = first } else r) old xs
    begin-Grown r0 r old xs first g = elim (Bool-cases (r.next_timestamp == 0)) [
      | inl e ↦ rw e (record {
        written_law = g.written_law;
        apart_law = g.apart_law;
        next_law = omega (arith, g.next_law, (==_iff r.next_timestamp 0).0 e);
        count_law = g.count_law;
      })
      | inr e ↦ rw e g
    ]

    record_round-Grown :
        (fuel : ℕ) (cleanup : Bool) (b : B) (held : List T) (r0 r : Recording T) (old xs : List T)
        → Represents b held
        → Ascending rt held
        → length held < fuel
        → Grown r0 r old xs
        → (r' : Recording T) × (record_round rt buf p l fuel cleanup b r ≡ some r')
          × ((ys : List T) × Grown r0 r' old ys)
    unfolding record_round
    record_round-Grown fuel cleanup b held r0 r old xs rep asc h g =
        let first : ℕ = elim (buf.front b) [ none ↦ 0 | some x ↦ rt.timestamp x ] in
        let begun = if r.next_timestamp == 0 then record r { next_timestamp = first } else r in
        let sought = rt.set_timestamp rt.blank begun.next_timestamp in
        let (i, found, walks) = laws.search_law b held sought true rep asc in
        let shorter = laws.reach_law sought true held in
        elim (Bool-cases (not cleanup || r.next_timestamp == 0)) [
          | inl go ↦
              let pass =
                record_pass-Grown (reach sought true held) fuel b i 0 r0 begun old xs walks
                  (omega (arith, shorter)) (begin-Grown r0 r old xs first g) in
              (pass.0, rw (go, found) pass.1, pass.2)
          | inr wait ↦ (r, rw wait refl, (xs, g))
        ]

    record_rounds-Grown :
        (rounds : List (Bool × B)) (fuel : ℕ) (r0 r : Recording T) (old xs : List T)
        → Rounds fuel rounds
        → Grown r0 r old xs
        → (r' : Recording T) × (record_rounds rt buf p l fuel rounds r ≡ some r')
          × ((ys : List T) × Grown r0 r' old ys)
    unfolding record_rounds
    record_rounds-Grown [] fuel r0 r old xs h g = (r, refl, (xs, g))
    record_rounds-Grown ((cleanup, b) ∷ rounds) fuel r0 r old xs ((held, rep, asc, short), h) g =
        let (r1, e1, (ys, g1)) =
          record_round-Grown fuel cleanup b held r0 r old xs rep asc short g in
        let (r2, e2, more) = record_rounds-Grown rounds fuel r0 r1 old ys h g1 in
        (r2, rw e1 e2, more)

    -- Over any buffer that fills the interface and holds an ascending list in each round, of fewer
    -- payloads than the fuel, the recording thread ends, reads no null pointer, and adds to what
    -- was written payloads of which each begins at the end of the one before, as the code computes
    -- it, or later, and counts them modulo 2^32.
    pub record_thread-Apart :
        (rounds : List (Bool × B)) (fuel : ℕ) (r : Recording T) (disk : Disk)
        → Rounds fuel rounds
        → (r' : Recording T) × (disk' : Disk) × (xs : List T) × (record_thread rt buf p l fuel
              rounds r disk
            ≡ some (r', disk'))
          × (r'.written ≡ r.written ++ xs)
          × Apart 0 xs
          × (r'.payloads_written % 2 ^ 32 ≡ (r.payloads_written + length xs) % 2 ^ 32)
    unfolding record_thread record_end
    record_thread-Apart rounds fuel r disk h =
        let (r1, e1, (xs, g)) =
          record_rounds-Grown rounds fuel r
            (record r { recording = true; next_timestamp = 0; disk = disk }) r.written [] h
            (record {
              written_law = sym (append-nil r.written);
              apart_law = tt;
              next_law = omega arith;
              count_law = omega arith;
            }) in
        (
          (record_end rt buf p l r1).0,
          (record_end rt buf p l r1).1,
          xs,
          ap (λ o. o >>= λ done. some (record_end rt buf p l done)) e1,
          g.written_law,
          g.apart_law,
          g.count_law,
        )

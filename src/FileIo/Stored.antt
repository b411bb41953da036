-- ===== src/FileIo/Stored.antt =====
-- utils/BufferedFileWriter.hpp and BufferedFileReader.hpp: what an open writer has put into its
-- file and its stream, and what a reader finds there.
use datahandlinglibs.Base.{
  ℕ, zero, suc, ◌+◌, ◌∷◌, ◌||◌, not, ltb, take, drop, ◌≡◌, refl, sym, ap, subst, ◌∙◌, ◌≢◌, ◌⊎◌, inl,
  inr, Bool, true, false, none, some, List, [], ◌++◌, append_assoc, append-nil, arith, length,
  length-append, drop-eq-nil, take-all,
}
use Prim.Native.String.{String}
use text.Mathlib.TextPositions.{eq_refl}
use datahandlinglibs.FileIo.{
  Disk, Platform, PlatformLaws, Writer, Compression, zstd, lzma, zlib, uncompressed, compression_of,
  contents, store, write_at, filtered, unfiltered, close, open_closed, open_writer, write, flush,
  destroy_writer, TakesAll, put, hand_on,
}

-- All bytes written, `done`, are in the file or in the stream, which is not bad, and a compressed
-- file is empty yet.
pub record Stored (w : Writer) (disk : Disk) (done : List ℕ) : Type 0 where
  pub opened : w.is_open ≡ true
  pub sound : w.bad ≡ false
  pub ends : length (contents disk w.filename) ≡ w.position
  pub whole : contents disk w.filename ++ w.pending ≡ done
  pub unflushed : w.filter ≢ uncompressed → contents disk w.filename ≡ []

-- A write at the end of a file appends.
write_at-end : (pos : ℕ) (bs old : List ℕ) → length old ≡ pos → write_at pos bs old ≡ old ++ bs
unfolding write_at
write_at-end pos bs old e =
    rw
      (
        take-all pos old (omega (arith, e)),
        drop-eq-nil (pos + length bs) old (omega (arith, e)),
        append-nil bs,
      )
      refl

contents-store :
    (name : String) (bs : List ℕ) (disk : Disk) → contents (store name bs disk) name ≡ bs
unfolding contents store
contents-store name bs disk = rw (eq_refl name, contents) refl

pub store-at : (name : String) (bs : List ℕ) (disk : Disk) → store name bs disk name ≡ some bs
unfolding store
store-at name bs disk = rw (eq_refl name, store) refl

nothing : (disk : Disk) (name : String) → disk name ≡ none → contents disk name ≡ []
unfolding contents
nothing disk name e = rw (e, contents) refl

plain : (c : Compression) → (c ≡ uncompressed) ⊎ (c ≢ uncompressed)
plain uncompressed = inl refl
plain zstd = inr (λ h. cc h)
plain lzma = inr (λ h. cc h)
plain zlib = inr (λ h. cc h)

ltb_self : (n : ℕ) → ltb n n ≡ false
ltb_self n = ground arith

or-false : (a : Bool) → (a || false) ≡ a
or-false true = refl
or-false false = refl

take-drop : (n : ℕ) (xs : List ℕ) → take n xs ++ drop n xs ≡ xs
take-drop zero xs = refl
take-drop (suc n) [] = refl
take-drop (suc n) (x ∷ xs) = ap (◌∷◌ x) (take-drop n xs)

module _ (p : Platform) where
  -- A new file is empty and open, with the stream that its configuration names.
  pub open_writer-Stored :
      (w : Writer) (disk : Disk) (name algorithm : String) (buffer : ℕ) (o_direct : Bool)
      (c : Compression)
      → w.is_open ≡ false
      → p.refuses name ≡ false
      → compression_of algorithm ≡ some c
      → disk name ≡ none
      → let r = open_writer p w disk name buffer algorithm o_direct in
        Stored r.0 r.1 [] × (r.2 ≡ none) × (r.0.filter ≡ c) × (r.0.filename ≡ name)
  unfolding open_writer open_closed
  open_writer-Stored w disk name algorithm buffer o_direct c shut ok e fresh =
      simp (shut, ok, e)
        (
          record {
            opened = refl;
            sound = refl;
            ends = ap length empty;
            whole = rw empty refl;
            unflushed = λ _. empty;
          },
          refl,
          refl,
          refl,
        )
    where
      empty : contents (store name (contents disk name) disk) name ≡ []
      empty = contents-store name (contents disk name) disk ∙ nothing disk name fresh

  pub flush-filename : (w : Writer) (disk : Disk) → (flush p w disk).0.filename ≡ w.filename
  unfolding flush
  flush-filename w disk = ground arith

  pub flush-filter : (w : Writer) (disk : Disk) → (flush p w disk).0.filter ≡ w.filter
  unfolding flush
  flush-filter w disk = ground arith

  -- A system that takes all bytes puts them into the file.
  put_all :
      (direct : Bool) (bs rest : List ℕ) (w : Writer) (disk : Disk)
      → TakesAll p
      → put p direct bs rest w disk ≡ (
        record w { position = w.position + length bs; pending = rest },
        store w.filename (write_at w.position bs (contents disk w.filename)) disk,
      )
  unfolding put
  put_all direct bs rest w disk takes =
      let all =
        take-all (p.takes direct w.position (length bs)) bs
          (omega (arith, takes.takes_law direct w.position (length bs))) in
      rw (all, ltb_self (length bs), or-false w.bad) refl

  compressed :
      (c : Compression) (file pending done : List ℕ)
      → file ++ pending ≡ done
      → file ≡ []
      → file ++ filtered p c pending ≡ filtered p c done
  compressed c file pending done whole empty =
      rw (empty) (ap (filtered p c) (ap (λ f. f ++ pending) (sym empty) ∙ whole))

  through :
      (c : Compression) (file pending done : List ℕ)
      → file ++ pending ≡ done
      → (c ≢ uncompressed → file ≡ [])
      → file ++ filtered p c pending ≡ filtered p c done
  unfolding filtered
  through uncompressed file pending done whole empty = whole
  through zstd file pending done whole empty =
      compressed zstd file pending done whole (empty (λ h. cc h))
  through lzma file pending done whole empty =
      compressed lzma file pending done whole (empty (λ h. cc h))
  through zlib file pending done whole empty =
      compressed zlib file pending done whole (empty (λ h. cc h))

  -- The bytes in the stream go to the end of the file.
  appended :
      (w : Writer) (disk : Disk) (done bs : List ℕ)
      → Stored w disk done
      → contents
          (store w.filename (write_at w.position bs (contents disk w.filename)) disk)
          w.filename
        ≡ contents disk w.filename ++ bs
  appended w disk done bs s =
      contents-store w.filename _ disk
      ∙ write_at-end w.position bs (contents disk w.filename) s.ends

  -- Bytes from the front of a plain stream go to the end of the file.
  put-Stored :
      (direct : Bool) (bs rest : List ℕ) (w : Writer) (disk : Disk) (done : List ℕ)
      → TakesAll p
      → Stored w disk done
      → w.filter ≡ uncompressed
      → bs ++ rest ≡ w.pending
      → let r = put p direct bs rest w disk in
        Stored r.0 r.1 done × (r.0.filename ≡ w.filename) × (r.0.filter ≡ w.filter)
  put-Stored direct bs rest w disk done takes s e parts =
      subst
        (λ (r : Writer × Disk).
          Stored r.0 r.1 done × (r.0.filename ≡ w.filename) × (r.0.filter ≡ w.filter))
        (sym (put_all direct bs rest w disk takes))
        (
          record {
            opened = s.opened;
            sound = s.sound;
            ends =
                ap length (appended w disk done bs s)
                ∙ (length-append (contents disk w.filename) bs ∙ ap (λ n. n + length bs) s.ends);
            whole =
                ap (λ f. f ++ rest) (appended w disk done bs s)
                ∙ (append_assoc (contents disk w.filename) bs rest
                    ∙ (ap (λ f. contents disk w.filename ++ f) parts ∙ s.whole));
            unflushed = λ h. absurd (h e);
          },
          refl,
          refl,
        )

  -- The stream has taken more bytes.
  more-Stored :
      (w : Writer) (disk : Disk) (done bs : List ℕ)
      → Stored w disk done
      → Stored (record w { pending = w.pending ++ bs }) disk (done ++ bs)
  more-Stored w disk done bs s = record {
    opened = s.opened;
    sound = s.sound;
    ends = s.ends;
    whole = sym (append_assoc (contents disk w.filename) w.pending bs) ∙ ap (λ h. h ++ bs) s.whole;
    unflushed = s.unflushed;
  }

  hand_on_plain :
      (w : Writer) (disk : Disk)
      → w.filter ≡ uncompressed
      → hand_on p w disk
        ≡ put p w.direct
            (take (p.spills w.buffer_size (length w.pending)) w.pending)
            (drop (p.spills w.buffer_size (length w.pending)) w.pending)
            w
            disk
  unfolding hand_on
  hand_on_plain w disk e = rw e refl

  hand_on_other :
      (w : Writer) (disk : Disk)
      → w.filter ≢ uncompressed
      → hand_on p w disk ≡ (record w { bad = p.full (length w.pending) }, disk)
  unfolding hand_on
  hand_on_other w disk e = ground (arith, e)

  -- What the stream sends on is not lost.
  hand_on-Stored :
      (w : Writer) (disk : Disk) (done : List ℕ)
      → TakesAll p
      → Stored w disk done
      → let r = hand_on p w disk in
        Stored r.0 r.1 done × (r.0.filename ≡ w.filename) × (r.0.filter ≡ w.filter)
  hand_on-Stored w disk done takes s = elim (plain w.filter) [
    | inl e ↦
        subst
          (λ (r : Writer × Disk).
            Stored r.0 r.1 done × (r.0.filename ≡ w.filename) × (r.0.filter ≡ w.filter))
          (sym (hand_on_plain w disk e))
          (put-Stored w.direct _ _ w disk done takes s e (take-drop _ w.pending))
    | inr e ↦
        subst
          (λ (r : Writer × Disk).
            Stored r.0 r.1 done × (r.0.filename ≡ w.filename) × (r.0.filter ≡ w.filter))
          (sym (hand_on_other w disk e))
          (
            record {
              opened = s.opened;
              sound = takes.full_law (length w.pending);
              ends = s.ends;
              whole = s.whole;
              unflushed = s.unflushed;
            },
            refl,
            refl,
          )
  ]

  write_eq :
      (w : Writer) (bs : List ℕ) (disk : Disk)
      → w.is_open ≡ true
      → w.bad ≡ false
      → write p w bs disk ≡ (
        hand_on p (record w { pending = w.pending ++ bs }) disk,
        not (hand_on p (record w { pending = w.pending ++ bs }) disk).0.bad,
      )
  unfolding write
  write_eq w bs disk o b = simp (o, b) refl

  -- Where the system takes all bytes, a write succeeds and adds its bytes.
  pub write-Stored :
      (w : Writer) (disk : Disk) (done bs : List ℕ)
      → TakesAll p
      → Stored w disk done
      → let r = write p w bs disk in
        (r.1 ≡ true)
        × Stored r.0.0 r.0.1 (done ++ bs)
        × (r.0.0.filename ≡ w.filename)
        × (r.0.0.filter ≡ w.filter)
  write-Stored w disk done bs takes s =
      let h =
        hand_on-Stored (record w { pending = w.pending ++ bs }) disk (done ++ bs) takes
          (more-Stored w disk done bs s) in
      subst
        (λ (r : (Writer × Disk) × Bool).
          (r.1 ≡ true)
          × Stored r.0.0 r.0.1 (done ++ bs)
          × (r.0.0.filename ≡ w.filename)
          × (r.0.0.filter ≡ w.filter))
        (sym (write_eq w bs disk s.opened s.sound)) (ap not h.0.sound, h.0, h.1, h.2)

  flush_plain :
      (w : Writer) (disk : Disk)
      → w.filter ≡ uncompressed
      → w.is_open ≡ true
      → w.bad ≡ false
      → flush p w disk ≡ (
        record ((put p false w.pending [] w disk).0) { direct = w.use_o_direct },
        (put p false w.pending [] w disk).1,
      )
  unfolding flush
  flush_plain w disk e o b = simp (e, o, b) refl

  flush_other :
      (w : Writer) (disk : Disk)
      → w.filter ≢ uncompressed
      → flush p w disk ≡ (record w { direct = w.use_o_direct }, disk)
  unfolding flush
  flush_other w disk e = ground (arith, e)

  redirected :
      (w : Writer) (disk : Disk) (done : List ℕ) (direct : Bool)
      → Stored w disk done
      → Stored (record w { direct = direct }) disk done
  redirected w disk done direct s = record {
    opened = s.opened;
    sound = s.sound;
    ends = s.ends;
    whole = s.whole;
    unflushed = s.unflushed;
  }

  -- A flush loses no byte where the system takes all, and what it sends goes to the end of the file.
  pub flush-Stored :
      (w : Writer) (disk : Disk) (done : List ℕ)
      → TakesAll p
      → Stored w disk done
      → Stored (flush p w disk).0 (flush p w disk).1 done
  flush-Stored w disk done takes s = elim (plain w.filter) [
    | inl e ↦
        subst (λ (r : Writer × Disk). Stored r.0 r.1 done)
          (sym (flush_plain w disk e s.opened s.sound))
          (redirected _ _ done w.use_o_direct
            (put-Stored false w.pending [] w disk done takes s e (append-nil w.pending)).0)
    | inr e ↦
        subst (λ (r : Writer × Disk). Stored r.0 r.1 done) (sym (flush_other w disk e))
          (redirected w disk done w.use_o_direct s)
  ]

  -- After the close, the file holds all bytes written, through the compressor.
  pub close-Stored :
      (w : Writer) (disk : Disk) (done : List ℕ)
      → TakesAll p
      → Stored w disk done
      → (destroy_writer p w disk) w.filename ≡ some (filtered p w.filter done)
  unfolding destroy_writer close
  close-Stored w disk done takes s =
      rw (s.opened, ap (λ r. r.1) (put_all false (filtered p w.filter w.pending) [] w disk takes))
        (store-at w.filename _ disk
          ∙ ap some (
              write_at-end w.position (filtered p w.filter w.pending) (contents disk w.filename)
                s.ends
              ∙ through w.filter (contents disk w.filename) w.pending done s.whole s.unflushed))

  -- What the compressor was given, the reader's decompressor gives back.
  pub unfiltered-filtered :
      (c : Compression) (bs : List ℕ) → PlatformLaws p → unfiltered p c (filtered p c bs) ≡ bs
  unfolding filtered unfiltered
  unfiltered-filtered uncompressed bs laws = refl
  unfiltered-filtered zstd bs laws = laws.decompress-compress zstd bs
  unfiltered-filtered lzma bs laws = laws.decompress-compress lzma bs
  unfiltered-filtered zlib bs laws = laws.decompress-compress zlib bs

-- ===== src/FileIo/Written.antt =====
-- models/detail/RecorderModel.hxx: what the work loop of a recorder has written.
use datahandlinglibs.Base.{
  ℕ, suc, ◌+◌, ◌*◌, ◌≡◌, refl, sym, subst, ◌∙◌, true, Option, none, some, List, [], ◌∷◌, ◌++◌,
  append_assoc, append-nil, arith, length, ◌%◌, ◌^◌,
}
use datahandlinglibs.FileIo.{Disk, Platform, Layout, TakesAll, write}
use datahandlinglibs.FileIo.Recorder.{Recorder, counted, work}
use datahandlinglibs.FileIo.Stored.{Stored, write-Stored}
use datahandlinglibs.FileIo.Bytes.{bytes, received}

suc_times : (k size : ℕ) → suc k * size ≡ size + k * size
suc_times k size = grind arith

module _ {T : Type 0} (l : Layout T) (p : Platform) where
  -- After writes that succeeded, these elements follow in the file or the stream, and the counters
  -- tell how many.
  pub record Recorded (r r' : Recorder) (disk' : Disk) (done : List ℕ) (xs : List T) : Type 0 where
    pub stored : Stored r'.writer disk' (done ++ bytes l xs)
    pub packets : r'.packets_processed % 2 ^ 32 ≡ (r.packets_processed + length xs) % 2 ^ 32
    pub bytes_law : r'.bytes_processed % 2 ^ 32 ≡ (r.bytes_processed + length xs * l.size) % 2 ^ 32
    pub warnings_law : r'.warnings ≡ r.warnings
    pub same_file : r'.writer.filename ≡ r.writer.filename
    pub same_filter : r'.writer.filter ≡ r.writer.filter

  work_ok :
      (r : Recorder) (disk : Disk) (x : T) (events : List (Option T))
      → (write p r.writer (l.encode x) disk).1 ≡ true
      → work p l r disk (some x ∷ events)
        ≡ work p l
            (counted p l (write p r.writer (l.encode x) disk).0.0 r)
            (write p r.writer (l.encode x) disk).0.1
            events
  unfolding work
  work_ok r disk x events e = rw (e, work) refl

  -- Where the system takes all bytes, the loop writes and counts every element received.
  pub work-Recorded :
      (r : Recorder) (disk : Disk) (done : List ℕ) (events : List (Option T))
      → TakesAll p
      → Stored r.writer disk done
      → Recorded r (work p l r disk events).0 (work p l r disk events).1 done (received events)
  unfolding work
  work-Recorded r disk done [] takes s = record {
    stored = subst (λ b. Stored r.writer disk b) (sym (append-nil done)) s;
    packets = omega arith;
    bytes_law = omega arith;
    warnings_law = refl;
    same_file = refl;
    same_filter = refl;
  }
  work-Recorded r disk done (none ∷ events) takes s = work-Recorded r disk done events takes s
  work-Recorded r disk done (some x ∷ events) takes s =
      let (ok, more, file, filter) = write-Stored p r.writer disk done (l.encode x) takes s in
      let wrote = write p r.writer (l.encode x) disk in
      let h =
        work-Recorded (counted p l wrote.0.0 r) wrote.0.1 (done ++ l.encode x) events takes more in
      subst (λ (v : Recorder × Disk). Recorded r v.0 v.1 done (x ∷ received events))
        (sym (work_ok r disk x events ok))
        (record {
          stored =
              subst (Stored _ _) (append_assoc done (l.encode x) (bytes l (received events)))
                h.stored;
          packets = omega (arith, h.packets);
          bytes_law = omega (arith, h.bytes_law, suc_times (length (received events)) l.size);
          warnings_law = h.warnings_law;
          same_file = h.same_file ∙ file;
          same_filter = h.same_filter ∙ filter;
        })

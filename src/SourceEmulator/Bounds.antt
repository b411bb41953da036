-- ===== src/SourceEmulator/Bounds.antt =====
-- detail/SourceEmulatorModel.hxx: which bytes of the file `run_produce` reads.
use datahandlinglibs.Base.{
  ℕ, ◌+◌, ◌*◌, ◌≤◌, ◌<◌, ◌≡◌, refl, none, some, List, arith, ne→==, eq→==, length, drop, take,
  length-drop, length-take, length-take_le,
}
use datahandlinglibs.Readout.{Readout}
use datahandlinglibs.FileIo.{Layout}
use datahandlinglibs.Utils.ErrorBits.{Tables}
use datahandlinglibs.SourceEmulator.{Fakes, element, wrapped}

-- An element in the range of a whole number of elements ends in this range.
fits : (offset num size : ℕ) → offset < num → offset * size + size ≤ num * size
fits offset num size h = grind arith

module _ {T : Type 0} (rt : Readout T) (l : Layout T) (fakes : Fakes T) (tables : Tables) where
  pub element-in_range :
      (source : List ℕ) (offset num : ℕ)
      → offset < num
      → num * l.size ≤ length source
      → element rt l fakes tables source offset
        ≡ some (l.decode (take l.size (drop (offset * l.size) source)))
  unfolding element
  element-in_range source offset num h k =
      rw
        (eq→== _ _ (
          length-take l.size (drop (offset * l.size) source)
            (omega (arith, length-drop (offset * l.size) source, fits offset num l.size h))))
        refl

  pub element-out_of_range :
      (source : List ℕ) (offset : ℕ)
      → 0 < l.size
      → length source < offset * l.size + l.size
      → element rt l fakes tables source offset ≡ none
  unfolding element
  element-out_of_range source offset pos h =
      rw
        (ne→== (length (take l.size (drop (offset * l.size) source))) l.size (λ e. omega (
          arith,
          e,
          length-take_le l.size (drop (offset * l.size) source),
          length-drop (offset * l.size) source,
        )))
        refl

  pub wrapped-lt :
      (source : List ℕ) (num offset : ℕ)
      → 0 < num
      → offset ≤ num
      → wrapped rt l fakes tables source num offset < num
  unfolding wrapped
  wrapped-lt source num offset h k = ground arith

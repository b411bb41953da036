-- ===== src/RequestHandler/ZeroCopy/Finish.antt =====
-- detail/ZeroCopyRecordingRequestHandlerModel.hxx: the frame in which a recording ends.
use datahandlinglibs.Base.{
  ℕ, ◌+◌, ◌-◌, ◌*◌, ◌/◌, ◌≤◌, ◌<◌, ◌≡◌, refl, subst, ◌⊎◌, inl, inr, [], ◌∷◌, ◌++◌, arith, ◌==◌,
  ==_iff, Bool-cases,
}
use native.Mathlib.Nat.{div-lt_iff_lt-mul, lt-div-mul-add}
use datahandlinglibs.RequestHandler.ZeroCopy.{Wrote, Shape, Recording, last_started, finish}

next_frame : (q frames p : ℕ) → q < frames → q * p + p ≤ frames * p
next_frame q frames p h = grind arith

rest_of_frame : (start p wp : ℕ) → wp < start + p → wp + (start + p - wp) ≡ start + p
rest_of_frame start p wp h = omega arith

-- The end of a recording writes nothing where the write pointer is at a frame's start, and else up
-- to the end of the frame, inside the buffer.
pub finish_lem :
    (s : Shape) (frames : ℕ) (answer : Wrote) (r : Recording)
    → s.buffer_size ≡ frames * s.payload_size
    → 0 < s.payload_size
    → r.write_pointer < s.buffer_size
    → ((finish s answer r ≡ r) × (last_started s r.write_pointer ≡ r.write_pointer))
      ⊎ ((len : ℕ) × ((finish s answer r).written ≡ r.written ++ ((r.write_pointer, len) ∷ []))
          × (r.write_pointer + len ≡ last_started s r.write_pointer + s.payload_size)
          × (r.write_pointer + len ≤ s.buffer_size))
unfolding finish
finish_lem s frames answer r whole pos h =
    elim (Bool-cases (last_started s r.write_pointer == r.write_pointer)) [
      | inl e ↦ inl (rw (e, finish) refl, (==_iff _ _).0 e)
      | inr e ↦
          let inside =
            rest_of_frame (last_started s r.write_pointer) s.payload_size r.write_pointer
              (lt-div-mul-add pos) in
          inr (
            last_started s r.write_pointer + s.payload_size - r.write_pointer,
            rw (e, finish) refl,
            inside,
            omega (
              arith,
              inside,
              whole,
              next_frame (r.write_pointer / s.payload_size) frames s.payload_size
                  ((div-lt_iff_lt-mul pos).1 (subst (λ n. r.write_pointer < n) whole h)),
            ),
          )
    ]

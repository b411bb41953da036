-- ===== src/Utils/BufferCopy.antt =====
-- `buffer_copy` of utils/BufferCopy.hpp, and `dump_to_buffer` of the request handler, whose body is
-- the same. Memory is a list of bytes.
use datahandlinglibs.Base.{
  ℕ, zero, suc, ◌+◌, ◌-◌, ◌^◌, ◌≤◌, ◌<◌, min, ◌≡◌, refl, ap, ap₂, ◌∙◌, Option, none, some, List, [],
  ◌∷◌, arith, ◌==◌, if◌then◌else◌, ne→==, eq→==, set, take, add32, sub64,
}

-- `memcpy(buffer + pos, source, length source)`
abbrev pub memcpy : List ℕ → ℕ → List ℕ → List ℕ
memcpy buffer pos [] = buffer
memcpy buffer pos (b ∷ bs) = memcpy (set buffer pos b) (pos + 1) bs

-- The loop; `none` out of fuel.
unfoldable pub copy_loop : ℕ → List ℕ → List ℕ → ℕ → ℕ → ℕ → Option (List ℕ)
copy_loop zero source buffer pos buffer_size bytes_to_copy = none
copy_loop (suc fuel) source buffer pos buffer_size bytes_to_copy =
    let n = min bytes_to_copy (sub64 buffer_size pos) in
    let moved = add32 pos n in
    let rest =
      copy_loop fuel source (memcpy buffer pos (take n source))
        (if moved == buffer_size then 0 else moved) buffer_size (bytes_to_copy - n) in
    if bytes_to_copy == 0 then some buffer else rest

-- The fuel is one round more than there are bytes.
unfoldable pub buffer_copy : List ℕ → ℕ → List ℕ → ℕ → ℕ → Option (List ℕ)
unfolding copy_loop
buffer_copy source size buffer buffer_pos buffer_size =
    copy_loop (size + 1) source buffer buffer_pos buffer_size size

abbrev pub dump_to_buffer : List ℕ → ℕ → List ℕ → ℕ → ℕ → Option (List ℕ)
dump_to_buffer = buffer_copy

copy_round :
    (fuel : ℕ) (source buffer : List ℕ) (pos buffer_size bytes n next : ℕ)
    → 0 < bytes
    → pos < buffer_size
    → buffer_size < 2 ^ 32
    → min bytes (buffer_size - pos) ≡ n
    → (if (pos + n) == buffer_size then 0 else pos + n) ≡ next
    → copy_loop (suc fuel) source buffer pos buffer_size bytes
      ≡ copy_loop fuel source (memcpy buffer pos (take n source)) next buffer_size (bytes - n)
unfolding copy_loop
copy_round fuel source buffer pos buffer_size bytes n next some_left inside small en enext =
    rw (copy_loop, ne→== bytes 0 (omega arith), room, en, sum, enext) refl
  where
    room : sub64 buffer_size pos ≡ buffer_size - pos
    room = omega arith

    sum : add32 pos n ≡ pos + n
    sum = omega (arith, en)

copy_end :
    (fuel : ℕ) (source buffer : List ℕ) (pos buffer_size : ℕ)
    → copy_loop (suc fuel) source buffer pos buffer_size 0 ≡ some buffer
unfolding copy_loop
copy_end fuel source buffer pos buffer_size = refl

plus_one : (k : ℕ) → k + 1 ≡ suc k
plus_one k = omega arith

minus_self : (k : ℕ) → k - k ≡ 0
minus_self k = omega arith

plus_minus : (a b : ℕ) → a + b - a ≡ b
plus_minus a b = omega arith

suc_plus_suc : (a b : ℕ) → suc a + suc b ≡ suc (suc (a + b))
suc_plus_suc a b = omega arith

-- For a buffer of less than 2^32 bytes, a copy of at least one byte that fits behind the position
-- ends, and is one memcpy of all bytes at the position.
pub buffer_copy-fits :
    (source buffer : List ℕ) (size pos buffer_size : ℕ)
    → 0 < size
    → pos + size ≤ buffer_size
    → buffer_size < 2 ^ 32
    → buffer_copy source size buffer pos buffer_size ≡ some (memcpy buffer pos (take size source))
unfolding buffer_copy
buffer_copy-fits source buffer zero pos buffer_size some_bytes fits small = absurd (omega arith)
buffer_copy-fits source buffer (suc k) pos buffer_size some_bytes fits small =
    ap (λ f. copy_loop f source buffer pos buffer_size (suc k)) (plus_one (suc k))
    ∙ copy_round (suc k) source buffer pos buffer_size (suc k) (suc k) _ (omega arith) (omega arith)
        small (omega arith) refl
    ∙ ap
        (copy_loop (suc k) source (memcpy buffer pos (take (suc k) source))
          (if (pos + suc k) == buffer_size then 0 else pos + suc k) buffer_size)
        (minus_self (suc k))
    ∙ copy_end k source (memcpy buffer pos (take (suc k) source))
        (if (pos + suc k) == buffer_size then 0 else pos + suc k) buffer_size

-- For a buffer of less than 2^32 bytes, a copy that goes past the end of the buffer, and then not
-- past its position, puts at the start of the buffer the first bytes of the source again, not those
-- that did not fit.
pub buffer_copy-wraps :
    (source buffer : List ℕ) (first rest pos : ℕ)
    → 0 < first
    → 0 < rest
    → rest ≤ pos
    → pos + first < 2 ^ 32
    → buffer_copy source (first + rest) buffer pos (pos + first)
      ≡ some (memcpy (memcpy buffer pos (take first source)) 0 (take rest source))
unfolding buffer_copy
buffer_copy-wraps source buffer (suc f) (suc k) pos some_first some_rest back small =
    let filled = memcpy buffer pos (take (suc f) source) in
    ap (λ n. copy_loop n source buffer pos (pos + suc f) (suc f + suc k)) (plus_one (suc f + suc k))
    ∙ copy_round (suc f + suc k) source buffer pos (pos + suc f) (suc f + suc k) (suc f) 0
        (omega arith) (omega arith) small (omega arith)
        (rw (eq→== (pos + suc f) (pos + suc f) refl) refl)
    ∙ ap₂ (λ n b. copy_loop n source filled 0 (pos + suc f) b) (suc_plus_suc f k)
        (plus_minus (suc f) (suc k))
    ∙ copy_round (suc (f + k)) source filled 0 (pos + suc f) (suc k) (suc k) _ (omega arith)
        (omega arith) small (omega arith) refl
    ∙ ap
        (copy_loop (suc (f + k)) source (memcpy filled 0 (take (suc k) source))
          (if (0 + suc k) == (pos + suc f) then 0 else 0 + suc k) (pos + suc f))
        (minus_self (suc k))
    ∙ copy_end (f + k) source (memcpy filled 0 (take (suc k) source))
        (if (0 + suc k) == (pos + suc f) then 0 else 0 + suc k) (pos + suc f)
buffer_copy-wraps source buffer zero rest pos some_first some_rest back small = absurd (omega arith)
buffer_copy-wraps source buffer (suc f) zero pos some_first some_rest back small =
    absurd (omega arith)

-- ===== src/RequestHandler/ZeroCopy/Chunks.antt =====
-- detail/ZeroCopyRecordingRequestHandlerModel.hxx: which bytes of the buffer a recording writes.
use datahandlinglibs.Base.{
  add64, ℕ, zero, suc, ◌+◌, ◌≤◌, ◌<◌, ◌≡◌, refl, sym, ap, subst, ◌∙◌, inl, inr, false, none, some,
  List, [], ◌∷◌, ◌++◌, append_assoc, append-nil, arith, ◌==◌, if◌then◌else◌, Option-cases, ne→==,
  replicate, ◌%◌, ◌^◌,
}
use datahandlinglibs.RequestHandler.ZeroCopy.{
  Wrote, minus_one, not_written, Shape, Recording, piece, noted, chunk_turn, chunk_turns,
}

-- A piece starts at the write pointer, lies in the buffer, and the pointer goes on behind it.
piece_lem :
    (s : Shape) (end wp offset len next : ℕ)
    → end < s.buffer_size
    → wp < s.buffer_size
    → piece s end wp ≡ some (offset, len, next)
    → (offset ≡ wp)
      × (wp + len ≤ s.buffer_size)
      × ((if next == s.buffer_size then 0 else next)
          ≡ (if wp + len == s.buffer_size then 0 else wp + len))
unfolding piece
piece_lem s end wp offset len next h k e = ground arith

-- Behind a piece, around the end of the buffer.
abbrev pub behind : ℕ → ℕ → ℕ → ℕ
behind size wp len = if wp + len == size then 0 else wp + len

-- The writes start at `wp`, each lies in the buffer and starts where the one before ended, and the
-- last one ends at `wp'`.
abbrev pub Follows : ℕ → ℕ → List (ℕ × ℕ) → ℕ → Type 0
Follows size wp [] wp' = wp' ≡ wp
Follows size wp ((offset, len) ∷ ws) wp' =
    (offset ≡ wp) × (wp + len ≤ size) × Follows size (behind size wp len) ws wp'

abbrev pub total : List (ℕ × ℕ) → ℕ
total [] = 0
total ((offset, len) ∷ ws) = len + total ws

-- The writes from one state of a recording to another; `counted` if no answer is a count of 0.
record Writes (size : ℕ) (counted : Type 0) (r r' : Recording) (ws : List (ℕ × ℕ)) : Type 0 where
  written_law : r'.written ≡ r.written ++ ws
  follows_law : Follows size r.write_pointer ws r'.write_pointer
  pointer_law : r'.write_pointer < size
  bytes_law : counted → r'.bytes_written % 2 ^ 64 ≡ (r.bytes_written + total ws) % 2 ^ 64
  failed_law : counted → r'.failed_writes ≡ r.failed_writes

turn_none :
    (s : Shape) (end : ℕ) (answer : Wrote) (r : Recording)
    → r.write_pointer < s.buffer_size
    → piece s end r.write_pointer ≡ none
    → chunk_turn s end answer r ≡ noted s r
unfolding chunk_turn
turn_none s end answer r k e =
    rw (e, chunk_turn)
      (ap (λ w. noted s (record r { write_pointer = w }))
        (ap (λ b. if b then 0 else r.write_pointer)
          (ne→== r.write_pointer s.buffer_size (λ q. omega (arith, q)))))

turn_some :
    (s : Shape) (end offset len next : ℕ) (answer : Wrote) (r : Recording)
    → piece s end r.write_pointer ≡ some (offset, len, next)
    → chunk_turn s end answer r
      ≡ noted s (record r {
        write_pointer = if next == s.buffer_size then 0 else next;
        bytes_written = if not_written answer then r.bytes_written else add64 r.bytes_written len;
        failed_writes = if not_written answer then add64 r.failed_writes 1 else r.failed_writes;
        written = r.written ++ ((offset, len) ∷ []);
      })
unfolding chunk_turn
turn_some s end offset len next answer r e = rw (e, chunk_turn) refl

behind-lt : (size wp len : ℕ) → wp < size → wp + len ≤ size → behind size wp len < size
behind-lt size wp len h k = ground arith

turn_lem :
    (s : Shape) (end : ℕ) (answer : Wrote) (r : Recording)
    → end < s.buffer_size
    → r.write_pointer < s.buffer_size
    → (ws : List (ℕ × ℕ)) × Writes s.buffer_size
        (not_written answer ≡ false)
        r
        (chunk_turn s end answer r)
        ws
turn_lem s end answer r h k = elim (Option-cases (piece s end r.write_pointer)) [
  | inl e ↦ (
    [],
    subst (λ r'. Writes s.buffer_size (not_written answer ≡ false) r r' [])
        (sym (turn_none s end answer r k e))
        (record {
          written_law = sym (append-nil r.written);
          follows_law = refl;
          pointer_law = k;
          bytes_law = λ _. omega arith;
          failed_law = λ _. refl;
        }),
  )
  | inr ((offset, len, next), e) ↦
      let p = piece_lem s end r.write_pointer offset len next h k e in
      (
        (offset, len) ∷ [],
        subst (λ r'. Writes s.buffer_size (not_written answer ≡ false) r r' ((offset, len) ∷ []))
            (sym (turn_some s end offset len next answer r e))
            (record {
              written_law = refl;
              follows_law = (p.0, p.1, p.2);
              pointer_law =
                  subst (λ w. w < s.buffer_size) (sym p.2)
                    (behind-lt s.buffer_size r.write_pointer len k p.1);
              bytes_law = λ a. rw a (omega arith);
              failed_law = λ a. rw a refl;
            }),
      )
]

Follows-append :
    (size wp : ℕ) (ws vs : List (ℕ × ℕ)) (mid last : ℕ)
    → Follows size wp ws mid
    → Follows size mid vs last
    → Follows size wp (ws ++ vs) last
Follows-append size wp [] vs mid last a b = subst (λ w. Follows size w vs last) a b
Follows-append size wp ((offset, len) ∷ ws) vs mid last a b =
    (a.0, a.1, Follows-append size (behind size wp len) ws vs mid last a.2 b)

total-append : (ws vs : List (ℕ × ℕ)) → total (ws ++ vs) ≡ total ws + total vs
total-append [] vs = omega arith
total-append ((offset, len) ∷ ws) vs = omega (arith, total-append ws vs)

-- No answer is a count of 0.
abbrev pub NoneZero : List Wrote → Type 0
NoneZero [] = Unit {0}
NoneZero (a ∷ answers) = (not_written a ≡ false) × NoneZero answers

turns_lem :
    (s : Shape) (end : ℕ) (answers : List Wrote) (r : Recording)
    → end < s.buffer_size
    → r.write_pointer < s.buffer_size
    → (ws : List (ℕ × ℕ)) × Writes s.buffer_size
        (NoneZero answers)
        r
        (chunk_turns s end answers r)
        ws
unfolding chunk_turns
turns_lem s end [] r h k = (
  [],
  record {
    written_law = sym (append-nil r.written);
    follows_law = refl;
    pointer_law = k;
    bytes_law = λ _. omega arith;
    failed_law = λ _. refl;
  },
)
turns_lem s end (a ∷ answers) r h k =
    let (ws, w) = turn_lem s end a r h k in
    let (vs, v) = turns_lem s end answers (chunk_turn s end a r) h w.pointer_law in
    (
      ws ++ vs,
      record {
        written_law =
            v.written_law ∙ (ap (λ x. x ++ vs) w.written_law ∙ append_assoc r.written ws vs);
        follows_law =
            Follows-append s.buffer_size r.write_pointer ws vs _ _ w.follows_law v.follows_law;
        pointer_law = v.pointer_law;
        bytes_law = λ n. omega (arith, w.bytes_law n.0, v.bytes_law n.1, total-append ws vs);
        failed_law = λ n. v.failed_law n.1 ∙ w.failed_law n.0;
      },
    )

-- For an end and a write pointer inside the buffer, whatever the answers of the system, the chunks
-- handed over in a pass follow one another from the write pointer to the new one, each inside the
-- buffer, from its end on to its start; the new pointer is inside the buffer.
pub chunk_turns_lem :
    (s : Shape) (end : ℕ) (answers : List Wrote) (r : Recording)
    → end < s.buffer_size
    → r.write_pointer < s.buffer_size
    → let r' = chunk_turns s end answers r in
      (ws : List (ℕ × ℕ)) × (r'.written ≡ r.written ++ ws)
      × Follows s.buffer_size r.write_pointer ws r'.write_pointer
      × (r'.write_pointer < s.buffer_size)
chunk_turns_lem s end answers r h k =
    let (ws, w) = turns_lem s end answers r h k in (ws, w.written_law, w.follows_law, w.pointer_law)

refused : (n : ℕ) → NoneZero (replicate n minus_one)
unfolding not_written
refused zero = tt
refused (suc n) = (refl, refused n)

-- For an end and a write pointer inside the buffer, where every write of a pass fails with minus
-- one, all bytes of its chunks are counted as written, modulo 2^64, and no failure is counted.
pub chunk_turns-minus_one :
    (s : Shape) (end n : ℕ) (r : Recording)
    → end < s.buffer_size
    → r.write_pointer < s.buffer_size
    → let r' = chunk_turns s end (replicate n minus_one) r in
      (ws : List (ℕ × ℕ)) × (r'.written ≡ r.written ++ ws)
      × (r'.bytes_written % 2 ^ 64 ≡ (r.bytes_written + total ws) % 2 ^ 64)
      × (r'.failed_writes ≡ r.failed_writes)
chunk_turns-minus_one s end n r h k =
    let (ws, w) = turns_lem s end (replicate n minus_one) r h k in
    (ws, w.written_law, w.bytes_law (refused n), w.failed_law (refused n))

-- ===== src/FileIo/Bytes.antt =====
-- utils/BufferedFileReader.hpp: a file of elements one after another, and the reads that give them.
use datahandlinglibs.Base.{
  ℕ, zero, suc, ◌<◌, ◌≡◌, refl, ap, ◌∙◌, true, Option, none, some, List, [], ◌∷◌, ◌++◌, arith, leb,
  le→leb, leb_gt, length, drop, take, length-append,
}
use datahandlinglibs.FileIo.{Layout, LayoutLaws, Reader, read, read_all}

module _ {T : Type 0} where
  -- The elements that the receiver gives.
  abbrev pub received : List (Option T) → List T
  received [] = []
  received (none ∷ events) = received events
  received (some x ∷ events) = x ∷ received events

module _ {T : Type 0} (l : Layout T) where
  -- The bytes of the elements, one after another.
  abbrev pub bytes : List T → List ℕ
  bytes [] = []
  bytes (x ∷ xs) = l.encode x ++ bytes xs

  take-append : (n : ℕ) (xs ys : List ℕ) → length xs ≡ n → take n (xs ++ ys) ≡ xs
  take-append zero [] ys e = refl
  take-append (suc n) [] ys e = absurd (omega arith)
  take-append zero (x ∷ xs) ys e = absurd (omega arith)
  take-append (suc n) (x ∷ xs) ys e = ap (◌∷◌ x) (take-append n xs ys (omega arith))

  drop-append : (n : ℕ) (xs ys : List ℕ) → length xs ≡ n → drop n (xs ++ ys) ≡ ys
  drop-append zero [] ys e = refl
  drop-append (suc n) [] ys e = absurd (omega arith)
  drop-append zero (x ∷ xs) ys e = absurd (omega arith)
  drop-append (suc n) (x ∷ xs) ys e = drop-append n xs ys (omega arith)

  read_end : (r : Reader) → 0 < l.size → r.is_open ≡ true → r.rest ≡ [] → (read l r).1 ≡ none
  unfolding read
  read_end r pos o e = rw (o, e, leb_gt l.size 0 pos) refl

  enough : (x : T) (bs : List ℕ) → LayoutLaws l → leb l.size (length (l.encode x ++ bs)) ≡ true
  enough x bs laws = le→leb _ _ (omega (arith, length-append (l.encode x) bs, laws.length-encode x))

  read_next :
      (r : Reader) (x : T) (bs : List ℕ)
      → LayoutLaws l
      → r.is_open ≡ true
      → r.rest ≡ l.encode x ++ bs
      → read l r ≡ (record r { rest = bs }, some x)
  unfolding read
  read_next r x bs laws o e =
      simp
        (
          o,
          e,
          enough x bs laws,
          take-append l.size (l.encode x) bs (laws.length-encode x),
          drop-append l.size (l.encode x) bs (laws.length-encode x),
          laws.decode-encode x,
        )
        refl

  -- A reader whose stream holds the bytes of some elements reads these, and then fails.
  pub read_all-bytes :
      (xs : List T) (r : Reader) (fuel : ℕ)
      → LayoutLaws l
      → r.is_open ≡ true
      → r.rest ≡ bytes xs
      → length xs < fuel
      → read_all l fuel r ≡ xs
  unfolding read_all
  read_all-bytes xs r zero laws o e h = absurd (omega arith)
  read_all-bytes [] r (suc fuel) laws o e h = rw (read_end r laws.size_pos o e, read_all) refl
  read_all-bytes (x ∷ xs) r (suc fuel) laws o e h =
      rw (ap (λ t. t.1) step, read_all)
        (ap (◌∷◌ x) (
          read_all-bytes xs (read l r).0 fuel laws (ap (λ t. t.0.is_open) step ∙ o)
            (ap (λ t. t.0.rest) step) (omega arith)))
    where
      step : read l r ≡ (record r { rest = bytes xs }, some x)
      step = read_next r x (bytes xs) laws o e

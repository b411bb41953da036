-- ===== src/IterableQueue/Spsc/Commute.antt =====
-- The producer's slot and the consumer's are apart, so the changes of the two commute.
use datahandlinglibs.Base.{
  ℕ, zero, suc, ◌<◌, ◌≡◌, refl, ap, ◌∙◌, ◌≢◌, Option, none, some, List, [], ◌∷◌, arith, ℕ_discrete,
  length, set, get_elem?-none,
}
use datahandlinglibs.IterableQueue.{Queue, slot_at}
use datahandlinglibs.IterableQueue.Place.{
  place-lt, place-ne, place_zero, slot_at-set_self, slot_at-set_ne,
}
use datahandlinglibs.IterableQueue.Holds.{Holds}
use datahandlinglibs.IterableQueue.Spsc.{Producer, Consumer, placing, publishing, taking, releasing}

pub set-set {ℓ} :
    {A : Type ℓ} (xs : List A) (i j : ℕ) (a b : A)
    → i ≢ j
    → set (set xs i a) j b ≡ set (set xs j b) i a
set-set [] i j a b h = refl
set-set (x ∷ xs) zero zero a b h = absurd (h refl)
set-set (x ∷ xs) zero (suc j) a b h = refl
set-set (x ∷ xs) (suc i) zero a b h = refl
set-set (x ∷ xs) (suc i) (suc j) a b h = ap (◌∷◌ x) (set-set xs i j a b (λ e. h (ap suc e)))

module _ {ℓ} {T : Type ℓ} where
  -- What an unfinished write or read has done to the slots.
  abbrev pub producer_slots : Producer T → ℕ → List (Option T) → List (Option T)
  producer_slots Producer.ready w rs = rs
  producer_slots (placing x) w rs = rs
  producer_slots (publishing x) w rs = set rs w (some x)

  abbrev pub consumer_slots : Consumer T → ℕ → List (Option T) → List (Option T)
  consumer_slots Consumer.ready r rs = rs
  consumer_slots taking r rs = rs
  consumer_slots (releasing x) r rs = set rs r none

  -- The cursors differ while something is held.
  pub cursors-apart :
      (q : Queue T) (xs : List T) → Holds q xs → 0 < length xs → q.read_index ≢ q.write_index
  cursors-apart q xs v h e =
      place-ne q.size q.read_index 0 (length xs) v.read_in (omega (arith, v.two))
        (omega (arith, v.fits)) (omega arith)
        (place_zero q.size q.read_index v.read_in ∙ e ∙ v.write_at)

  pub write_index-lt : (q : Queue T) (xs : List T) → Holds q xs → q.write_index < length q.records
  write_index-lt q xs v = omega (
    arith,
    v.write_at,
    v.room,
    place-lt q.size q.read_index (length xs) v.read_in (omega (arith, v.fits)),
  )

  -- The slot of the next write is raw.
  pub write_slot-raw :
      (q : Queue T) (xs : List T) → Holds q xs → slot_at q.records q.write_index ≡ none
  write_slot-raw q xs v =
      ap (slot_at q.records) v.write_at
      ∙ v.slots (length xs) (omega (arith, v.fits))
      ∙ get_elem?-none xs (length xs) (omega arith)

  -- It stays raw while the consumer releases another one, or the same.
  pub consumer_slots-raw :
      (c : Consumer T) (rs : List (Option T)) (r w : ℕ)
      → w < length rs
      → slot_at rs w ≡ none
      → slot_at (consumer_slots c r rs) w ≡ none
  consumer_slots-raw Consumer.ready rs r w h e = e
  consumer_slots-raw taking rs r w h e = e
  consumer_slots-raw (releasing x) rs r w h e = elim (ℕ_discrete r w) [
    | yes same ↦ rw same (slot_at-set_self rs w none h)
    | no apart ↦ slot_at-set_ne rs r w none apart ∙ e
  ]

  -- The producer leaves the other slots.
  pub producer_slots-ne :
      (p : Producer T) (rs : List (Option T)) (w r : ℕ)
      → w ≢ r
      → slot_at (producer_slots p w rs) r ≡ slot_at rs r
  producer_slots-ne Producer.ready rs w r h = refl
  producer_slots-ne (placing x) rs w r h = refl
  producer_slots-ne (publishing x) rs w r h = slot_at-set_ne rs w r (some x) h

  pub producer_slots-set :
      (p : Producer T) (rs : List (Option T)) (w r : ℕ) (s : Option T)
      → w ≢ r
      → set (producer_slots p w rs) r s ≡ producer_slots p w (set rs r s)
  producer_slots-set Producer.ready rs w r s h = refl
  producer_slots-set (placing x) rs w r s h = refl
  producer_slots-set (publishing x) rs w r s h = set-set rs w r (some x) s h

-- ===== src/SkipList/Cleanup.antt =====
-- detail/DefaultSkipListRequestHandler.hxx: what the clean-up leaves.
use datahandlinglibs.Base.{
  add32, ℕ, zero, suc, ◌+◌, ◌-◌, ◌^◌, ◌≤◌, ◌<◌, ◌≡◌, refl, sym, ap, subst, ◌∙◌, ◌⊎◌, inl, inr, true,
  false, some, List, [], ◌∷◌, arith, ltb, leb, if◌then◌else◌, ltb→lt, ltb_ge, Bool-cases, le→leb,
  leb_gt, length, get_elem?, drop, sub64, ◌%◌,
}
use mathlib.Core.Option.{some-injective}
use datahandlinglibs.Readout.{Readout}
use datahandlinglibs.Readout.Order.{Ascending}
use datahandlinglibs.IterableQueue.Fifo.{last}
use datahandlinglibs.SkipList.{
  Accessor, AccessorLaws, Handler, max_ts_diff, remove_old, skip_list_cleanup_request,
}

plus_zero : (n : ℕ) → n ≡ n + 0
plus_zero n = omega arith

difference : (a b : ℕ) → b ≤ a → a < 2 ^ 64 → sub64 a b ≡ a - b
difference a b h k = omega arith

past : (d : ℕ) → ltb max_ts_diff d ≡ true → max_ts_diff ≤ d
past d h = omega (arith, ltb→lt max_ts_diff d h)

one_more : (a b : ℕ) → a + 1 + b ≡ a + suc b
one_more a b = omega arith

module _ {T : Type 0} (rt : Readout T) where
  -- The members that are less than ten seconds older than the time.
  abbrev pub recent : ℕ → List T → List T
  recent now [] = []
  recent now (x ∷ xs) = if leb max_ts_diff (now - rt.timestamp x) then recent now xs else x ∷ xs

  -- How many are older.
  abbrev pub expired : ℕ → List T → ℕ
  expired now [] = 0
  expired now (x ∷ xs) = if leb max_ts_diff (now - rt.timestamp x) then suc (expired now xs) else 0

  head-le-last :
      (xs : List T) (x t : T)
      → Ascending rt (x ∷ xs)
      → last (x ∷ xs) ≡ some t
      → rt.timestamp x ≤ rt.timestamp t
  head-le-last [] x t a e =
      subst (λ y. rt.timestamp x ≤ rt.timestamp y) (some-injective x t e) (omega arith)
  head-le-last (y ∷ xs) x t a e = omega (arith, a.0, head-le-last xs y t a.1 e)

  -- The first member is at most ten seconds older than `t`.
  abbrev pub Fresh : List T → T → Type 0
  Fresh [] t = Unit {0}
  Fresh (x ∷ xs) t = rt.timestamp t - rt.timestamp x ≤ max_ts_diff

  -- The first member is more than ten seconds older than `t`.
  abbrev pub Stale : List T → T → Type 0
  Stale [] t = max_ts_diff < 0
  Stale (x ∷ xs) t = max_ts_diff < rt.timestamp t - rt.timestamp x

  expired-recent : (now : ℕ) (xs : List T) → expired now xs + length (recent now xs) ≡ length xs
  expired-recent now [] = omega arith
  expired-recent now (x ∷ xs) = elim (Bool-cases (leb max_ts_diff (now - rt.timestamp x))) [
    | inl on ↦ rw on (omega (arith, expired-recent now xs))
    | inr off ↦ rw off (omega arith)
  ]

  -- The newest member stays.
  last-recent :
      (xs : List T) (t : T) → last xs ≡ some t → last (recent (rt.timestamp t) xs) ≡ some t
  last-recent [] t e = e
  last-recent (x ∷ []) t e =
      rw
        (leb_gt max_ts_diff (rt.timestamp t - rt.timestamp x)
          (omega (arith, ap rt.timestamp (some-injective x t e))))
        e
  last-recent (x ∷ y ∷ xs) t e =
      elim (Bool-cases (leb max_ts_diff (rt.timestamp t - rt.timestamp x))) [
        | inl on ↦ rw on (last-recent (y ∷ xs) t e)
        | inr off ↦ rw off e
      ]

  module _ {S I : Type 0} (acc : Accessor T S I) (members : S → List T)
      (laws : AccessorLaws acc members) where
    -- The test of the loop is false: nothing is removed.
    remove_old-stop :
        (fuel : ℕ) (s : S) (x : T) (now removed timediff : ℕ)
        → leb max_ts_diff timediff ≡ false
        → remove_old rt acc (suc fuel) s x now removed timediff ≡ some (s, removed)
    unfolding remove_old
    remove_old-stop fuel s x now removed timediff e = rw (e, remove_old) refl

    -- It is true: the first member is removed, and the loop goes on at the next.
    remove_old-next :
        (fuel : ℕ) (s : S) (x y : T) (xs : List T) (now removed timediff : ℕ)
        → leb max_ts_diff timediff ≡ true
        → members s ≡ x ∷ y ∷ xs
        → remove_old rt acc (suc fuel) s x now removed timediff
          ≡ remove_old rt acc fuel
              (acc.remove s x).0
              y
              now
              (removed + 1)
              (sub64 now (rt.timestamp y))
    unfolding remove_old
    remove_old-next fuel s x y xs now removed timediff e m =
        let r = laws.remove_first s x (ap (λ l. get_elem? l 0) m) in
        let f : acc.first (acc.remove s x).0 ≡ some y =
          laws.first_law (acc.remove s x).0 ∙ ap (λ l. get_elem? l 0) (r.1 ∙ ap (drop 1) m) in
        rw (e, f, r.0, remove_old) refl

    stopped :
        (s : S) (x : T) (xs : List T) (t : T) (fuel removed timediff : ℕ)
        → leb max_ts_diff timediff ≡ leb max_ts_diff (rt.timestamp t - rt.timestamp x)
        → leb max_ts_diff (rt.timestamp t - rt.timestamp x) ≡ false
        → remove_old rt acc (suc fuel) s x (rt.timestamp t) removed timediff
          ≡ some (s, removed + expired (rt.timestamp t) (x ∷ xs))
    stopped s x xs t fuel removed timediff d off =
        remove_old-stop fuel s x (rt.timestamp t) removed timediff (d ∙ off)
        ∙ rw off (ap (λ n. some (s, n)) (plus_zero removed))

    remove_old_lem :
        (xs : List T) (s : S) (x t : T) (fuel removed timediff : ℕ)
        → members s ≡ x ∷ xs
        → last (x ∷ xs) ≡ some t
        → Ascending rt (x ∷ xs)
        → rt.timestamp t < 2 ^ 64
        → leb max_ts_diff timediff ≡ leb max_ts_diff (rt.timestamp t - rt.timestamp x)
        → length (x ∷ xs) ≤ fuel
        → (s' : S) × (remove_old rt acc fuel s x (rt.timestamp t) removed timediff
            ≡ some (s', removed + expired (rt.timestamp t) (x ∷ xs)))
          × (members s' ≡ recent (rt.timestamp t) (x ∷ xs))
    remove_old_lem xs s x t zero removed timediff m e a bound d h = absurd (omega arith)
    remove_old_lem [] s x t (suc fuel) removed timediff m e a bound d h =
        let off : leb max_ts_diff (rt.timestamp t - rt.timestamp x) ≡ false =
          leb_gt _ _ (omega (arith, ap rt.timestamp (some-injective x t e))) in
        (s, stopped s x [] t fuel removed timediff d off, rw (off) m)
    remove_old_lem (y ∷ xs) s x t (suc fuel) removed timediff m e a bound d h =
        elim (Bool-cases (leb max_ts_diff (rt.timestamp t - rt.timestamp x))) [
          | inl on ↦
              let r = laws.remove_first s x (ap (λ l. get_elem? l 0) m) in
              let rest =
                remove_old_lem xs (acc.remove s x).0 y t fuel (removed + 1)
                  (sub64 (rt.timestamp t) (rt.timestamp y)) (r.1 ∙ ap (drop 1) m) e a.1 bound
                  (ap (leb max_ts_diff) (
                    difference (rt.timestamp t) (rt.timestamp y) (head-le-last xs y t a.1 e) bound))
                  (omega arith) in
              (
                rest.0,
                remove_old-next fuel s x y xs (rt.timestamp t) removed timediff (d ∙ on) m
                    ∙ (rest.1
                        ∙ rw on (
                            ap (λ n. some (rest.0, n))
                              (one_more removed (expired (rt.timestamp t) (y ∷ xs))))),
                rw on rest.2,
              )
          | inr off ↦ (s, stopped s x (y ∷ xs) t fuel removed timediff d off, rw (off) m)
        ]

    -- The test before the loop is false.
    cleanup_idle :
        (h : Handler S) (x t : T) (fuel : ℕ)
        → acc.last_of h.list ≡ some t
        → acc.first h.list ≡ some x
        → ltb max_ts_diff (sub64 (rt.timestamp t) (rt.timestamp x)) ≡ false
        → skip_list_cleanup_request rt acc fuel h
          ≡ some (record h { num_buffer_cleanups = add32 h.num_buffer_cleanups 1 })
    unfolding skip_list_cleanup_request
    cleanup_idle h x t fuel l f d = rw (l, f, d, skip_list_cleanup_request) refl

    -- It is true.
    cleanup_removes :
        (h : Handler S) (x t : T) (fuel removed : ℕ) (s' : S)
        → acc.last_of h.list ≡ some t
        → acc.first h.list ≡ some x
        → ltb max_ts_diff (sub64 (rt.timestamp t) (rt.timestamp x)) ≡ true
        → remove_old rt acc fuel h.list x (rt.timestamp t) 0 max_ts_diff ≡ some (s', removed)
        → skip_list_cleanup_request rt acc fuel h
          ≡ some (record {
            list = s';
            pop_reqs = add32 h.pop_reqs 1;
            pops_count = add32 h.pops_count removed;
            num_buffer_cleanups = add32 h.num_buffer_cleanups 1;
          })
    unfolding skip_list_cleanup_request
    cleanup_removes h x t fuel removed s' l f d e = rw (l, f, d, e, skip_list_cleanup_request) refl

    -- How the clean-up leaves a handler whose members were `xs`: untouched where the first
    -- is recent enough, and where it is not with the recent members only, the newest among them.
    pub Cleaned : Handler S → Handler S → List T → T → Type 0
    Cleaned h h' xs t =
        ((members h'.list ≡ xs)
          × (h'.pop_reqs ≡ h.pop_reqs)
          × (h'.pops_count ≡ h.pops_count)
          × Fresh xs t)
        ⊎ (Stale xs t
            × (members h'.list ≡ recent (rt.timestamp t) xs)
            × (h'.pop_reqs ≡ add32 h.pop_reqs 1)
            × ((h'.pops_count + length (members h'.list)) % 2 ^ 32
                ≡ (h.pops_count + length xs) % 2 ^ 32)
            × (last (members h'.list) ≡ some t))

    -- Over a skip list that keeps its laws and holds ascending members with a last one below 2^64,
    -- the clean-up ends within as many rounds as there are members and counts itself; the members
    -- and counts stay where the first member is at most ten seconds older than the last, and else
    -- exactly the members at least ten seconds older are gone, counted as pops modulo 2^32, and the
    -- last one is left.
    pub skip_list_cleanup_request_lem :
        (h : Handler S) (xs : List T) (t : T) (fuel : ℕ)
        → members h.list ≡ xs
        → last xs ≡ some t
        → Ascending rt xs
        → rt.timestamp t < 2 ^ 64
        → length xs ≤ fuel
        → (h' : Handler S) × (skip_list_cleanup_request rt acc fuel h ≡ some h')
          × (h'.num_buffer_cleanups ≡ add32 h.num_buffer_cleanups 1)
          × Cleaned h h' xs t
    unfolding Cleaned
    skip_list_cleanup_request_lem h [] t fuel m e a bound enough = absurd (cc e)
    skip_list_cleanup_request_lem h (x ∷ xs) t fuel m e a bound enough =
        let l : acc.last_of h.list ≡ some t = laws.last_law h.list ∙ (ap last m ∙ e) in
        let f : acc.first h.list ≡ some x = laws.first_law h.list ∙ ap (λ k. get_elem? k 0) m in
        let diff = difference (rt.timestamp t) (rt.timestamp x) (head-le-last xs x t a e) bound in
        elim (Bool-cases (ltb max_ts_diff (rt.timestamp t - rt.timestamp x))) [
          | inl on ↦
              let run =
                remove_old_lem xs h.list x t fuel 0 max_ts_diff m e a bound
                  (sym (
                    le→leb max_ts_diff (rt.timestamp t - rt.timestamp x)
                      (past (rt.timestamp t - rt.timestamp x) on)))
                  enough in
              (
                _,
                cleanup_removes h x t fuel (0 + expired (rt.timestamp t) (x ∷ xs)) run.0 l f
                    (ap (ltb max_ts_diff) diff ∙ on) run.1,
                refl,
                inr (
                  ltb→lt max_ts_diff (rt.timestamp t - rt.timestamp x) on,
                  run.2,
                  refl,
                  omega (arith, ap length run.2, expired-recent (rt.timestamp t) (x ∷ xs)),
                  ap last run.2 ∙ last-recent (x ∷ xs) t e,
                ),
              )
          | inr off ↦ (
            _,
            cleanup_idle h x t fuel l f (ap (ltb max_ts_diff) diff ∙ off),
            refl,
            inl (m, refl, refl, ltb_ge max_ts_diff (rt.timestamp t - rt.timestamp x) off),
          )
        ]

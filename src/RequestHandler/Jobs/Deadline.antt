-- ===== src/RequestHandler/Jobs/Deadline.antt =====
-- A pass of the waiting thread: which requests it posts again, and which it leaves.
use datahandlinglibs.Base.{
  ℕ, ◌-◌, ◌≡◌, refl, sym, ap, ◌∙◌, inl, inr, Bool, true, not, ◌||◌, List, [], ◌∷◌, ◌++◌, map,
  append_assoc, append-nil, ltb, leb, Bool-cases,
}
use datahandlinglibs.RequestHandler.Pieces.Frames.{keep}
use datahandlinglibs.RequestHandler.Jobs.{
  RequestElement, Handler, issue_request, check_all, count_timed_out,
}
use datahandlinglibs.RequestHandler.Jobs.Count.{retry}

-- The newest payload is past the window, or the time is over.
abbrev pub is_due : ℕ → ℕ → (RequestElement → ℕ) → RequestElement → Bool
is_due timeout_ms newest_ts now e =
    ltb e.request.window_end newest_ts || leb timeout_ms (now e - e.start_time)

module _ {T B : Type 0} (timeout_ms newest_ts : ℕ) (now : RequestElement → ℕ) where
  pub check_all-waiting :
      (es : List RequestElement) (h : Handler T B)
      → (check_all timeout_ms newest_ts now es h).waiting
        ≡ keep (λ e. not (is_due timeout_ms newest_ts now e)) es
  unfolding check_all
  check_all-waiting [] h = refl
  check_all-waiting (x ∷ es) h = elim (Bool-cases (ltb x.request.window_end newest_ts)) [
    | inl arrived ↦ rw arrived (check_all-waiting es (issue_request x.request true h))
    | inr early ↦ rw early (elim (Bool-cases (leb timeout_ms (now x - x.start_time))) [
      | inl late ↦ rw late (
          check_all-waiting es
            (record (issue_request x.request true h) { counters = count_timed_out h.counters }))
      | inr waits ↦ rw waits (ap (◌∷◌ x) (check_all-waiting es h))
    ])
  ]

  pub check_all-posted :
      (es : List RequestElement) (h : Handler T B)
      → (check_all timeout_ms newest_ts now es h).posted
        ≡ h.posted ++ map (λ e. retry e.request) (keep (is_due timeout_ms newest_ts now) es)
  unfolding check_all
  check_all-posted [] h = sym (append-nil h.posted)
  check_all-posted (x ∷ es) h = elim (Bool-cases (ltb x.request.window_end newest_ts)) [
    | inl arrived ↦ rw arrived (
        check_all-posted es (issue_request x.request true h)
        ∙ append_assoc h.posted (retry x.request ∷ [])
            (map (λ e. retry e.request) (keep (is_due timeout_ms newest_ts now) es)))
    | inr early ↦ rw early (elim (Bool-cases (leb timeout_ms (now x - x.start_time))) [
      | inl late ↦ rw late (
          check_all-posted es
            (record (issue_request x.request true h) { counters = count_timed_out h.counters })
          ∙ append_assoc h.posted (retry x.request ∷ [])
              (map (λ e. retry e.request) (keep (is_due timeout_ms newest_ts now) es)))
      | inr waits ↦ rw waits (check_all-posted es h)
    ])
  ]

  pub check_all-sent :
      (es : List RequestElement) (h : Handler T B)
      → (check_all timeout_ms newest_ts now es h).sent ≡ h.sent
  unfolding check_all
  check_all-sent [] h = refl
  check_all-sent (x ∷ es) h = elim (Bool-cases (ltb x.request.window_end newest_ts)) [
    | inl arrived ↦ rw arrived (check_all-sent es (issue_request x.request true h))
    | inr early ↦ rw early (elim (Bool-cases (leb timeout_ms (now x - x.start_time))) [
      | inl late ↦ rw late (
          check_all-sent es
            (record (issue_request x.request true h) { counters = count_timed_out h.counters }))
      | inr waits ↦ rw waits (check_all-sent es h)
    ])
  ]

  -- A pass over the waiting requests leaves those whose window the newest payload has not passed
  -- and whose time is not over, in their order; it posts the others as retries behind the posted
  -- jobs, in their order; it sends nothing.
  pub check_all_lem :
      (es : List RequestElement) (h : Handler T B)
      → (let h' = check_all timeout_ms newest_ts now es h in
          (h'.waiting ≡ keep (λ e. not (is_due timeout_ms newest_ts now e)) es)
          × (h'.posted
              ≡ h.posted ++ map (λ e. retry e.request) (keep (is_due timeout_ms newest_ts now) es))
          × (h'.sent ≡ h.sent))
  check_all_lem es h = (check_all-waiting es h, check_all-posted es h, check_all-sent es h)

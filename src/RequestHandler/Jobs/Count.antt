-- ===== src/RequestHandler/Jobs/Count.antt =====
-- No request is lost and none is answered twice: each one is posted, waiting or sent.
use datahandlinglibs.Base.{
  ℕ, zero, suc, ◌+◌, ◌-◌, ◌≡◌, refl, ap, inl, inr, true, Option, none, some, List, [], ◌∷◌, ◌++◌,
  arith, ltb, leb, Bool-cases,
}
use mathlib.Core.Option.{some-injective}
use datahandlinglibs.RequestHandler.{DataRequest}
use datahandlinglibs.RequestHandler.Respond.{Fragment}
use datahandlinglibs.RequestHandler.Jobs.{
  count_timed_out, behind, Job, RequestElement, Handler, take_job, issue_request, check_all,
}

-- The weights of the elements, together.
abbrev pub total {ℓ} : {A : Type ℓ} → (A → ℕ) → List A → ℕ
total w [] = 0
total w (x ∷ xs) = w x + total w xs

pub total-append {ℓ} :
    {A : Type ℓ} (w : A → ℕ) (xs ys : List A) → total w (xs ++ ys) ≡ total w xs + total w ys
total-append w [] ys = omega arith
total-append w (x ∷ xs) ys = omega (arith, total-append w xs ys)

behind-total :
    (w : Job → ℕ) (x : Job) (js : List Job) (o : Option (Job × List Job)) (j : Job)
    (rest : List Job)
    → ((i : Job) (is : List Job) → o ≡ some (i, is) → total w js ≡ w i + total w is)
    → behind x o ≡ some (j, rest)
    → total w (x ∷ js) ≡ w j + total w rest
behind-total w x js none j rest h e = absurd (cc e)
behind-total w x js (some (i, is)) j rest h e =
    omega
      (arith, h i is refl, ap (λ p. w p.0 + total w p.1) (some-injective (i, x ∷ is) (j, rest) e))

pub take_job-total :
    (w : Job → ℕ) (k : ℕ) (js : List Job) (j : Job) (rest : List Job)
    → take_job k js ≡ some (j, rest)
    → total w js ≡ w j + total w rest
unfolding take_job
take_job-total w k [] j rest e = absurd (cc e)
take_job-total w zero (x ∷ js) j rest e =
    ap (λ p. w p.0 + total w p.1) (some-injective (x, js) (j, rest) e)
take_job-total w (suc k) (x ∷ js) j rest e =
    behind-total w x js (take_job k js) j rest (λ i is. take_job-total w k js i is) e

abbrev pub retry : DataRequest → Job
retry dr = record { request = dr; is_retry = true }

module _ {T B : Type 0} (wj : Job → ℕ) (ww : RequestElement → ℕ)
    (ws : DataRequest × Fragment T → ℕ) where
  -- The weight of what a handler has to do and has done.
  abbrev pub load : Handler T B → ℕ
  load h = total wj h.posted + total ww h.waiting + total ws h.sent

  -- A pass only posts again what was waiting.
  pub check_all-load :
      (timeout_ms newest_ts : ℕ) (now : RequestElement → ℕ) (es : List RequestElement)
      (h : Handler T B)
      → ((e : RequestElement) → wj (retry e.request) ≡ ww e)
      → load (check_all timeout_ms newest_ts now es h)
        ≡ total wj h.posted + total ww es + total ws h.sent
  unfolding check_all
  check_all-load timeout_ms newest_ts now [] h same = refl
  check_all-load timeout_ms newest_ts now (x ∷ es) h same =
      let more = total-append wj h.posted (retry x.request ∷ []) in
      elim (Bool-cases (ltb x.request.window_end newest_ts)) [
        | inl arrived ↦ rw arrived (
            omega (
              arith,
              check_all-load timeout_ms newest_ts now es (issue_request x.request true h) same,
              more,
              same x,
            ))
        | inr early ↦ rw early (elim (Bool-cases (leb timeout_ms (now x - x.start_time))) [
          | inl late ↦ rw late (
              omega (
                arith,
                check_all-load timeout_ms newest_ts now es
                    (record (issue_request x.request true h) {
                      counters = count_timed_out h.counters;
                    })
                    same,
                more,
                same x,
              ))
          | inr waits ↦ rw waits (omega (arith, check_all-load timeout_ms newest_ts now es h same))
        ])
      ]

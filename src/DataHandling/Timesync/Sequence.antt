-- ===== src/DataHandling/Timesync/Sequence.antt =====
-- Which times are announced, and how they are numbered.
use datahandlinglibs.Base.{
  ℕ, ◌≡◌, refl, sym, ap, ◌∙◌, ◌≢◌, inl, inr, true, false, not, ◌&&◌, List, [], ◌∷◌, ◌++◌,
  append_assoc, append-nil, arith, ◌==◌, if◌then◌else◌, Bool-cases, add32, add64,
}
use datahandlinglibs.RequestHandler.{DataRequest}
use datahandlinglibs.DataHandling.Timesync.{
  TimeSync, SyncSettings, SyncState, fake_request, trigger, announce, skip_sync, sync_round,
  run_timesync,
}

-- The times that are not zero and not the one announced before.
abbrev pub new_times : ℕ → List ℕ → List ℕ
new_times prev [] = []
new_times prev (t ∷ ts) =
    if not (t == 0) && not (t == prev) then t ∷ new_times t ts else new_times prev ts

-- The messages and the requests of these times.
abbrev pub numbered : SyncSettings → ℕ → List ℕ → List TimeSync
numbered c n [] = []
numbered c n (t ∷ ts) =
    record {
      daq_time = t;
      run_number = c.run_number;
      sequence_number = add64 n 1;
      source_pid = c.pid_of_current_process;
    }
    ∷ numbered c (add64 n 1) ts

abbrev pub triggered : SyncSettings → ℕ → List ℕ → List DataRequest
triggered c n [] = []
triggered c n (t ∷ ts) =
    if c.fake_trigger then fake_request c (add32 n 1) t ∷ triggered c (add32 n 1) ts else []

abbrev pub Changing : ℕ → List ℕ → Type 0
Changing prev [] = Unit {0}
Changing prev (t ∷ ts) = (t ≢ 0) × (t ≢ prev) × Changing t ts

new_times-Changing : (prev : ℕ) (ts : List ℕ) → Changing prev (new_times prev ts)
new_times-Changing prev [] = tt
new_times-Changing prev (t ∷ ts) = elim (Bool-cases (not (t == 0) && not (t == prev))) [
  | inl new ↦ rw new (ground arith, ground arith, new_times-Changing t ts)
  | inr old ↦ rw old (new_times-Changing prev ts)
]

abbrev counted : SyncState → SyncState
counted s = record s { total_timestamp_count = add64 s.total_timestamp_count 1 }

round_new :
    (c : SyncSettings) (t : ℕ) (s : SyncState)
    → (not (t == 0) && not (t == s.prev_timestamp)) ≡ true
    → sync_round c t s ≡ (
        if c.fake_trigger then trigger c t (announce c t (counted s)) else announce c t (counted s))
unfolding sync_round
round_new c t s new = rw (sync_round, new) refl

round_old :
    (c : SyncSettings) (t : ℕ) (s : SyncState)
    → (not (t == 0) && not (t == s.prev_timestamp)) ≡ false
    → sync_round c t s ≡ skip_sync t (counted s)
unfolding sync_round
round_old c t s old = rw (sync_round, old) refl

-- What is sent and issued from a state on.
abbrev Sends : SyncSettings → List ℕ → SyncState → Type 0
Sends c ts s =
    (run_timesync c ts s).sent ≡ s.sent ++ numbered c s.msg_seqno (new_times s.prev_timestamp ts)

abbrev Issues : SyncSettings → List ℕ → SyncState → Type 0
Issues c ts s =
    (run_timesync c ts s).issued
    ≡ s.issued ++ triggered c s.current_fake_trigger_id (new_times s.prev_timestamp ts)

abbrev announced : SyncSettings → ℕ → SyncState → SyncState
announced c t s =
    if c.fake_trigger then trigger c t (announce c t (counted s)) else announce c t (counted s)

announced-sent :
    (c : SyncSettings) (t : ℕ) (ts : List ℕ) (s : SyncState)
    → ((s' : SyncState) → Sends c ts s')
    → (run_timesync c ts (announced c t s)).sent
      ≡ s.sent ++ numbered c s.msg_seqno (t ∷ new_times t ts)
announced-sent c t ts s ih = elim (Bool-cases c.fake_trigger) [
  | inl fake ↦ simp fake (ih (trigger c t (announce c t (counted s))) ∙ append_assoc s.sent _ _)
  | inr real ↦ simp real (ih (announce c t (counted s)) ∙ append_assoc s.sent _ _)
]

triggered-real :
    (c : SyncSettings) (n : ℕ) (ts : List ℕ) → c.fake_trigger ≡ false → triggered c n ts ≡ []
triggered-real c n [] e = refl
triggered-real c n (t ∷ ts) e = rw e refl

announced-issued :
    (c : SyncSettings) (t : ℕ) (ts : List ℕ) (s : SyncState)
    → ((s' : SyncState) → Issues c ts s')
    → (run_timesync c ts (announced c t s)).issued
      ≡ s.issued ++ triggered c s.current_fake_trigger_id (t ∷ new_times t ts)
announced-issued c t ts s ih = elim (Bool-cases c.fake_trigger) [
  | inl fake ↦ simp fake (ih (trigger c t (announce c t (counted s))) ∙ append_assoc s.issued _ _)
  | inr real ↦ simp real (
      ih (announce c t (counted s))
      ∙ ap (λ rs. s.issued ++ rs)
          (triggered-real c s.current_fake_trigger_id (new_times t ts) real))
]

run_timesync-sent :
    (c : SyncSettings) (ts : List ℕ) (s : SyncState)
    → (run_timesync c ts s).sent ≡ s.sent ++ numbered c s.msg_seqno (new_times s.prev_timestamp ts)
unfolding run_timesync
run_timesync-sent c [] s = sym (append-nil s.sent)
run_timesync-sent c (t ∷ ts) s = elim (Bool-cases (not (t == 0) && not (t == s.prev_timestamp))) [
  | inl new ↦ rw new (
      ap (λ s'. (run_timesync c ts s').sent) (round_new c t s new)
      ∙ announced-sent c t ts s (run_timesync-sent c ts))
  | inr old ↦ rw old (
      ap (λ s'. (run_timesync c ts s').sent) (round_old c t s old)
      ∙ run_timesync-sent c ts (skip_sync t (counted s)))
]

run_timesync-issued :
    (c : SyncSettings) (ts : List ℕ) (s : SyncState)
    → (run_timesync c ts s).issued
      ≡ s.issued ++ triggered c s.current_fake_trigger_id (new_times s.prev_timestamp ts)
unfolding run_timesync
run_timesync-issued c [] s = sym (append-nil s.issued)
run_timesync-issued c (t ∷ ts) s = elim (Bool-cases (not (t == 0) && not (t == s.prev_timestamp))) [
  | inl new ↦ rw new (
      ap (λ s'. (run_timesync c ts s').issued) (round_new c t s new)
      ∙ announced-issued c t ts s (run_timesync-issued c ts))
  | inr old ↦ rw old (
      ap (λ s'. (run_timesync c ts s').issued) (round_old c t s old)
      ∙ run_timesync-issued c ts (skip_sync t (counted s)))
]

-- From any state and for any sequence of DAQ times read, the thread announces exactly those that
-- are neither zero nor equal to the one announced before, with sequence numbers that go on by one,
-- modulo 2^64; in test mode it issues one request for each, numbered on, and else none; no two
-- times in a row are equal.
pub run_timesync_lem :
    (c : SyncSettings) (ts : List ℕ) (s : SyncState)
    → ((run_timesync c ts s).sent
        ≡ s.sent ++ numbered c s.msg_seqno (new_times s.prev_timestamp ts))
      × ((run_timesync c ts s).issued
          ≡ s.issued ++ triggered c s.current_fake_trigger_id (new_times s.prev_timestamp ts))
      × Changing s.prev_timestamp (new_times s.prev_timestamp ts)
run_timesync_lem c ts s =
    (run_timesync-sent c ts s, run_timesync-issued c ts s, new_times-Changing s.prev_timestamp ts)

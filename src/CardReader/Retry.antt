-- ===== src/CardReader/Retry.antt =====
-- detail/FakeCardReaderBase.hxx: what a configuration that failed leaves.
use datahandlinglibs.Base.{
  ℕ, ◌≡◌, refl, sym, ap, subst, ◌∙◌, inl, inr, true, false, Option, none, some, List, [], ◌∷◌,
  arith, if◌then◌else◌, Bool-cases, Option-cases,
}
use Prim.Native.String.{String}
use text.Mathlib.Text.{◌==◌ as ◌=str◌}
use text.Mathlib.TextEquality.{eq_iff}
use text.Mathlib.TextPositions.{eq_refl}
use mathlib.Core.Option.{some-injective}
use datahandlinglibs.CardReader.{
  Emulators, EmulatorsLaws, CardError, Output, CardReader, find, put, conf_output, conf_outputs,
  do_conf,
}

find-put :
    {E : Type 0} (key k : String) (e d : E) (emus : List (String × E))
    → find key emus ≡ some d
    → find k (put key e emus) ≡ (if key =str k then some e else find k emus)
unfolding find put
find-put key k e d [] h = absurd (cc h)
find-put key k e d ((j, c) ∷ emus) h =
    ground (arith, eq_iff j key, eq_iff j k, eq_iff key k, find-put key k e d emus)

module _ {E S : Type 0} (emu : Emulators E S) (laws : EmulatorsLaws emu) where
  -- The emulator of a name is configured.
  IsDone : String → List (String × E) → Type 0
  IsDone key emus = (e : E) × (find key emus ≡ some e) × (emu.is_configured e ≡ true)

  put-IsDone :
      (uid key : String) (e e' : E) (emus : List (String × E))
      → find uid emus ≡ some e
      → emu.is_configured e ≡ false
      → IsDone key emus
      → IsDone key (put uid e' emus)
  unfolding IsDone
  put-IsDone uid key e e' emus f c (d, g, y) = elim (Bool-cases (uid =str key)) [
    | inl same ↦
        let h : some e ≡ some d = sym f ∙ (ap (λ k. find k emus) ((eq_iff uid key).0 same) ∙ g) in
        absurd (cc (sym c ∙ (ap emu.is_configured (some-injective e d h) ∙ y)))
    | inr other ↦ (d, find-put uid key e' e emus f ∙ rw other g, y)
  ]

  -- No output takes a configuration away.
  conf_output-IsDone :
      (streams : ℕ → Option S) (o : Output) (emus : List (String × E)) (key : String)
      → IsDone key emus
      → IsDone key (conf_output emu streams o emus).0
  unfolding conf_output
  conf_output-IsDone streams o emus key d = elim (Option-cases o.source_id) [
    | inl a ↦ rw (a, conf_output) d
    | inr (id, a) ↦ elim (Option-cases (find o.uid emus)) [
      | inl b ↦ rw (a, b, conf_output) d
      | inr (e, b) ↦ elim (Bool-cases (emu.is_configured e)) [
        | inl c ↦ rw (a, b, c, conf_output) d
        | inr c ↦ rw (a, b, c, conf_output) (put-IsDone o.uid key e _ emus b c d)
      ]
    ]
  ]

  conf_outputs-IsDone :
      (streams : ℕ → Option S) (os : List Output) (emus : List (String × E)) (key : String)
      → IsDone key emus
      → IsDone key (conf_outputs emu streams os emus).0
  unfolding conf_outputs
  conf_outputs-IsDone streams [] emus key d = d
  conf_outputs-IsDone streams (o ∷ os) emus key d =
      elim (Option-cases (conf_output emu streams o emus).1) [
        | inl a ↦
            rw (a, conf_outputs)
              (conf_outputs-IsDone streams os (conf_output emu streams o emus).0 key
                (conf_output-IsDone streams o emus key d))
        | inr (err, a) ↦ rw (a, conf_outputs) (conf_output-IsDone streams o emus key d)
      ]

  -- An output whose emulator can be configured.
  conf_output_ok :
      (streams : ℕ → Option S) (o : Output) (id : ℕ) (e : E) (emus : List (String × E))
      → o.source_id ≡ some id
      → find o.uid emus ≡ some e
      → emu.is_configured e ≡ false
      → (emu.conf (streams id) e).1 ≡ true
      → ((conf_output emu streams o emus).1 ≡ none)
        × IsDone o.uid (conf_output emu streams o emus).0
  unfolding conf_output IsDone
  conf_output_ok streams o id e emus a b c ok =
      rw (a, b, c, ok, conf_output)
        (
          refl,
          (
            (emu.conf (streams id) e).0,
            find-put o.uid o.uid _ e emus b ∙ rw (eq_refl o.uid) refl,
            laws.is_configured-conf (streams id) e ok,
          ),
        )

  -- An output whose emulator is configured already.
  conf_output_again :
      (streams : ℕ → Option S) (o : Output) (id : ℕ) (os : List Output) (emus : List (String × E))
      → o.source_id ≡ some id
      → IsDone o.uid emus
      → (conf_outputs emu streams (o ∷ os) emus).1 ≡ some (CardError.configured_twice o.uid)
  unfolding conf_outputs conf_output IsDone
  conf_output_again streams o id os emus a (e, b, c) = rw (a, b, c, conf_output, conf_outputs) refl

  -- With an emulator configured by the first output, the loop leaves it configured.
  conf_outputs_first :
      (streams : ℕ → Option S) (o : Output) (os : List Output) (emus : List (String × E))
      → (conf_output emu streams o emus).1 ≡ none
      → IsDone o.uid (conf_output emu streams o emus).0
      → IsDone o.uid (conf_outputs emu streams (o ∷ os) emus).0
  unfolding conf_outputs
  conf_outputs_first streams o os emus n d =
      rw (n, conf_outputs)
        (conf_outputs-IsDone streams os (conf_output emu streams o emus).0 o.uid d)

  do_conf_fails :
      (streams : ℕ → Option S) (os : List Output) (r : CardReader E) (err : CardError)
      → r.configured ≡ false
      → (conf_outputs emu streams os r.source_emus).1 ≡ some err
      → (do_conf emu streams os r).1 ≡ some err
  unfolding do_conf
  do_conf_fails streams os r err shut e = simp (shut, e) refl

  -- A failed configuration keeps what its loop did, and does not mark the module.
  do_conf_state :
      (streams : ℕ → Option S) (os : List Output) (r : CardReader E) (err : CardError)
      → r.configured ≡ false
      → (do_conf emu streams os r).1 ≡ some err
      → (do_conf emu streams os r).0
        ≡ record r { source_emus = (conf_outputs emu streams os r.source_emus).0 }
  unfolding do_conf
  do_conf_state streams os r err shut failure = ground arith

  -- A module that is not configured, whose first output has an emulator that is not configured and
  -- takes its configuration, and whose configuration fails all the same, stays not configured, and
  -- a second try fails at the first output, as configured twice.
  pub do_conf-retry :
      (streams : ℕ → Option S) (o : Output) (os : List Output) (r : CardReader E) (id : ℕ) (e : E)
      (err : CardError)
      → r.configured ≡ false
      → o.source_id ≡ some id
      → find o.uid r.source_emus ≡ some e
      → emu.is_configured e ≡ false
      → (emu.conf (streams id) e).1 ≡ true
      → (do_conf emu streams (o ∷ os) r).1 ≡ some err
      → let failed = (do_conf emu streams (o ∷ os) r).0 in
        (failed.configured ≡ false)
        × ((do_conf emu streams (o ∷ os) failed).1 ≡ some (CardError.configured_twice o.uid))
  do_conf-retry streams o os r id e err shut a b c ok failure =
      let state = do_conf_state streams (o ∷ os) r err shut failure in
      let first = conf_output_ok streams o id e r.source_emus a b c ok in
      let done = conf_outputs_first streams o os r.source_emus first.0 first.1 in
      subst
        (λ f.
          (f.configured ≡ false)
          × ((do_conf emu streams (o ∷ os) f).1 ≡ some (CardError.configured_twice o.uid)))
        (sym state)
        (
          shut,
          do_conf_fails streams (o ∷ os)
              (record r { source_emus = (conf_outputs emu streams (o ∷ os) r.source_emus).0 })
              (CardError.configured_twice o.uid) shut
              (conf_output_again streams o id os (conf_outputs emu streams (o ∷ os) r.source_emus).0
                a done),
        )

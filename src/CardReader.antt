-- ===== src/CardReader.antt =====
-- include/datahandlinglibs/detail/FakeCardReaderBase.hxx: the module of emulated card readers. An
-- emulator, behind SourceEmulatorConcept, is a parameter; SourceEmulator.antt models the
-- implementation of it. Configuration objects are arguments.
pub mod Retry
use datahandlinglibs.Base.{
  ℕ, zero, suc, ◌+◌, ◌-◌, ◌*◌, ◌/◌, ◌%◌, ◌^◌, ◌≤◌, ◌<◌, min, max, ◌≡◌, refl, sym, ap, ap₂, subst,
  ◌∙◌, ◌≢◌, ◌↔◌, ◌⊎◌, inl, inr, Bool, true, false, not, ◌&&◌, ◌||◌, Option, none, some, List, [],
  ◌∷◌, ◌++◌, map, append_assoc, append-nil, arith, dec_lt, dec_le, ℕ_discrete, ltb, leb, ◌==◌,
  if◌then◌else◌, ltb→lt, lt→ltb, ltb_ge, le→ltb, leb→le, ==_iff, Bool-cases, Option-cases, ne→==,
  eq→==, ◌>>=◌, le→leb, leb_gt, bind-some, if-both, length, get_elem?, set, drop, take, replicate,
  length-append, length-set, length-replicate, length-drop, get_elem?-set_self, get_elem?-set_ne,
  get_elem?-replicate, get_elem?-none, get_elem?-some, get_elem?-append_left,
  get_elem?-append_right, get_elem?-drop, drop-eq-cons, drop-eq-nil, take-all, get_elem?-in_range,
  length-take, length-take_le, add32, sub32, add64, sub64, mul64,
}
use Prim.Native.String.{String}
use text.Mathlib.Text.{◌==◌ as ◌=str◌}

-- `SourceEmulatorConcept` and the factory `create_source_emulator`, none where it returns null. The
-- Boolean of `conf` is false where it throws; its stream is none where the configuration has none.
pub record Emulators (E S : Type 0) : Type 0 where
  pub create : String → Option E
  pub set_sender : String → E → E
  pub conf : Option S → E → E × Bool
  pub scrap : E → E
  pub start : E → E
  pub stop : E → E
  pub is_configured : E → Bool

-- A configured emulator says so, until it is scrapped.
pub record EmulatorsLaws {E S : Type 0} (emu : Emulators E S) : Type 0 where
  pub is_configured-conf :
      (s : Option S) (e : E) → (emu.conf s e).1 ≡ true → emu.is_configured (emu.conf s e).0 ≡ true
  pub is_configured-scrap : (e : E) → emu.is_configured (emu.scrap e) ≡ false

pub data CardError : Type 0 where
  resource_queue : String → CardError
  not_a_queue_with_source_id : CardError
  cannot_find_queue : String → CardError
  configured_twice : String → CardError
  -- what an emulator throws
  emulator_failed : String → CardError
  not_all_configured : CardError

-- A queue among the outputs, with its source id if it is a `QueueWithSourceId`.
pub record Output : Type 0 where
  pub uid : String
  pub source_id : Option ℕ

pub record CardReader (E : Type 0) : Type 0 where
  pub configured : Bool
  pub run_marker : Bool
  pub source_emus : List (String × E)

abbrev pub new_reader : {E : Type 0} → CardReader E
new_reader = record { configured = false; run_marker = false; source_emus = [] }

unfoldable pub find : {E : Type 0} → String → List (String × E) → Option E
find key [] = none
find key ((k, e) ∷ emus) = if k =str key then some e else find key emus

-- The emulator of a name is another from here on.
unfoldable pub put : {E : Type 0} → String → E → List (String × E) → List (String × E)
put key e [] = []
put key e ((k, d) ∷ emus) = if k =str key then (k, e) ∷ emus else (k, d) ∷ put key e emus

unfoldable pub each : {E : Type 0} → (E → E) → List (String × E) → List (String × E)
each f [] = []
each f ((k, e) ∷ emus) = (k, f e) ∷ each f emus

module _ {E S : Type 0} (emu : Emulators E S) where
  -- The loop of `init` in emulation mode. An error leaves no module.
  unfoldable pub init_outputs :
      List String → List (String × E) → List (String × E) × Option CardError
  unfolding find
  init_outputs [] emus = (emus, none)
  init_outputs (uid ∷ uids) emus = elim (find uid emus) [
    | some _ ↦ (emus, some (resource_queue uid))
    | none ↦ elim (emu.create uid) [
      | none ↦ (emus, some (resource_queue uid))
      | some e ↦ init_outputs uids (emus ++ ((uid, emu.set_sender uid e) ∷ []))
    ]
  ]

  -- `init`
  unfoldable pub init : Bool → List String → CardReader E → CardReader E × Option CardError
  unfolding init_outputs
  init emulation_mode uids r =
      let made = init_outputs uids r.source_emus in
      if emulation_mode then (record r { source_emus = made.0 }, made.1) else (r, none)

  -- One output in `do_conf`.
  unfoldable pub conf_output :
      (ℕ → Option S) → Output → List (String × E) → List (String × E) × Option CardError
  unfolding find put
  conf_output streams o emus = elim o.source_id [
    | none ↦ (emus, some not_a_queue_with_source_id)
    | some id ↦ elim (find o.uid emus) [
      | none ↦ (emus, some (cannot_find_queue o.uid))
      | some e ↦
          (if emu.is_configured e then (emus, some (configured_twice o.uid)) else (
            put o.uid (emu.conf (streams id) e).0 emus,
            (if (emu.conf (streams id) e).1 then none else some (emulator_failed o.uid)),
          ))
    ]
  ]

  -- The loop over the outputs: an exception ends it.
  unfoldable pub conf_outputs :
      (ℕ → Option S) → List Output → List (String × E) → List (String × E) × Option CardError
  unfolding conf_output
  conf_outputs streams [] emus = (emus, none)
  conf_outputs streams (o ∷ os) emus = elim (conf_output streams o emus).1 [
    | none ↦ conf_outputs streams os (conf_output streams o emus).0
    | some err ↦ ((conf_output streams o emus).0, some err)
  ]

  unfoldable pub all_configured : List (String × E) → Bool
  all_configured [] = true
  all_configured ((k, e) ∷ emus) = emu.is_configured e && all_configured emus

  -- `do_conf`
  unfoldable pub do_conf :
      (ℕ → Option S) → List Output → CardReader E → CardReader E × Option CardError
  unfolding conf_outputs all_configured
  do_conf streams outputs r =
      let done = conf_outputs streams outputs r.source_emus in
      if r.configured then (r, none) else (elim done.1 [
        | some err ↦ (record r { source_emus = done.0 }, some err)
        | none ↦
            (if all_configured done.0
              then (record r { source_emus = done.0; configured = true }, none)
              else (record r { source_emus = done.0 }, some not_all_configured))
      ])

  -- `do_scrap`
  unfoldable pub do_scrap : CardReader E → CardReader E
  unfolding each
  do_scrap r = record r { source_emus = each emu.scrap r.source_emus; configured = false }

  -- `do_start`: the run marker is set before the emulators start.
  unfoldable pub do_start : CardReader E → CardReader E
  unfolding each
  do_start r = record r { run_marker = true; source_emus = each emu.start r.source_emus }

  -- `do_stop`
  unfoldable pub do_stop : CardReader E → CardReader E
  unfolding each
  do_stop r = record r { run_marker = false; source_emus = each emu.stop r.source_emus }

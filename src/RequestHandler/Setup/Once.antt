-- ===== src/RequestHandler/Setup/Once.antt =====
-- The file of a recording is opened once: what a scrap leaves of it.
use datahandlinglibs.Base.{
  ◌≡◌, refl, sym, ap, subst, ◌∙◌, Bool, true, false, none, some, List, [], ◌∷◌, if◌then◌else◌,
  if-both,
}
use text.Mathlib.Text.{◌==◌ as ◌=str◌}
use datahandlinglibs.FileIo.{Disk, Platform, close}
use datahandlinglibs.RequestHandler.Record.{Recording, record_command, not_configured}
use datahandlinglibs.RequestHandler.Setup.{
  HandlerConf, Setup, OutputConf, conf, conf_output, conf_outputs, conf_recorder, conf_recording,
  conf_fields, conf_limits, conf_rest, scrap, start, stop,
}

-- The commands of a handler that was scrapped.
pub data Command : Type 0 where
  configure : HandlerConf → Command
  begin_run end_run scrapped : Command

module _ (p : Platform) where
  abbrev pub command : Command → Setup × Disk → Setup × Disk
  command (configure c) (s, disk) = let (s', disk', _) = conf p c s disk in (s', disk')
  command begin_run (s, disk) = (start s, disk)
  command end_run (s, disk) = (stop s, disk)
  command scrapped (s, disk) = scrap p s disk

  abbrev pub commands : List Command → Setup × Disk → Setup × Disk
  commands [] s = s
  commands (c ∷ cs) s = commands cs (command c s)

  -- The recording counts as configured, and its file is closed.
  record Closed (s : Setup) : Type 0 where
    marked : s.recording_configured ≡ true
    shut : s.writer.is_open ≡ false

  output-Closed : (o : OutputConf) (s : Setup) → Closed s → Closed (conf_output o s)
  output-Closed o s h =
      if-both Closed (o.data_type =str "Fragment") (record { marked = h.marked; shut = h.shut }) h

  conf_outputs-Closed : (os : List OutputConf) (s : Setup) → Closed s → Closed (conf_outputs os s)
  unfolding conf_outputs
  conf_outputs-Closed [] s h = h
  conf_outputs-Closed (o ∷ os) s h = conf_outputs-Closed os (conf_output o s) (output-Closed o s h)

  limits-Closed : (c : HandlerConf) (s : Setup) → Closed s → Closed (conf_limits c s)
  limits-Closed c s h =
      if-both Closed c.in_range (record { marked = h.marked; shut = h.shut })
        (record { marked = h.marked; shut = h.shut })

  recording_kept :
      (c : HandlerConf) (s : Setup) (disk : Disk)
      → s.recording_configured ≡ true
      → conf_recording p c s disk ≡ (s, disk, none)
  unfolding conf_recording
  recording_kept c s disk m =
      ap
        (λ b.
          if b
          then (s, disk, none)
          else elim c.data_recorder [ none ↦ (s, disk, none) | some r ↦ conf_recorder p r s disk ])
        m

  conf-Closed : (c : HandlerConf) (s : Setup) (disk : Disk) → Closed s → Closed (conf p c s disk).0
  unfolding conf
  conf-Closed c s disk h =
      let s' = conf_outputs c.outputs (conf_fields c s) in
      let k =
        conf_outputs-Closed c.outputs (conf_fields c s)
          (record { marked = h.marked; shut = h.shut }) in
      subst (λ r. Closed (conf_rest c r).0) (sym (recording_kept c s' disk k.marked))
        (limits-Closed c
          (record s' {
            warn_on_timeout = c.warn_on_timeout;
            warn_about_empty_buffer = c.warn_on_empty_buffer;
            periodic_data_transmission_ms = c.periodic_data_transmission_ms;
          })
          (record { marked = k.marked; shut = k.shut }))

  scrap-Closed :
      (s : Setup) (disk : Disk) → s.recording_configured ≡ true → Closed (scrap p s disk).0
  unfolding scrap close
  scrap-Closed s disk m = closed s.writer.is_open refl
    where
      scrapped_if : Bool → Setup × Disk
      scrapped_if b =
          if b
          then (record s { writer = (close p s.writer disk).0 }, (close p s.writer disk).1)
          else (s, disk)

      closed : (b : Bool) → s.writer.is_open ≡ b → Closed (scrapped_if b).0
      closed true e = record { marked = m; shut = refl }
      closed false e = record { marked = m; shut = e }

  commands-Closed :
      (cs : List Command) (s : Setup) (disk : Disk) → Closed s → Closed (commands cs (s, disk)).0
  unfolding start stop
  commands-Closed [] s disk h = h
  commands-Closed (configure c ∷ cs) s disk h = commands-Closed cs _ _ (conf-Closed c s disk h)
  commands-Closed (begin_run ∷ cs) s disk h =
      commands-Closed cs _ _ (record { marked = h.marked; shut = h.shut })
  commands-Closed (end_run ∷ cs) s disk h =
      commands-Closed cs _ _ (record { marked = h.marked; shut = h.shut })
  commands-Closed (scrapped ∷ cs) s disk h = commands-Closed cs _ _ (scrap-Closed s disk h.marked)

  -- After a scrap of a handler that has its recording configured, and any further sequence of
  -- configurations, runs and scraps, the command record is refused as not configured: no
  -- configuration opens the file again.
  pub commands-scrap :
      {T : Type 0} (cs : List Command) (s : Setup) (disk : Disk) (r : Recording T)
      → s.recording_configured ≡ true
      → r.writer ≡ (commands cs (scrap p s disk)).0.writer
      → r.recording ≡ false
      → record_command r ≡ not_configured
  unfolding record_command
  commands-scrap cs s disk r m same idle =
      let (s1, disk1) = scrap p s disk in
      let k = commands-Closed cs s1 disk1 (scrap-Closed s disk m) in
      simp (idle, ap (λ w. w.is_open) same ∙ k.shut) refl

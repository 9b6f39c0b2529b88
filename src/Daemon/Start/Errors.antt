-- ===== src/Daemon/Start/Errors.antt =====
-- What Run returns, and what a start that fails leaves.
use logstat.Prelude.{
  ◌≡◌, ◌≢◌, refl, ◌↔◌, ◌⊎◌, inl, inr, Bool, true, false, Option, none, some, arith, if◌then◌else◌,
  Bool-cases, Option-cases,
}
use logstat.Text.{Text}
use logstat.Config.{Config}
use logstat.Config.Route.{IsPlain, validate_path, validate_path_iff}
use logstat.Metrics.Server.{ServerError, Server, new_server, shutdown}
use logstat.Store.Redis.{Client}
use logstat.Store.{Store}
use logstat.Daemon.{World, say, log_found, log_missing, starting}
use logstat.Daemon.Run.{End, cancelled, exporter_died}
use logstat.Daemon.Start.{
  Outside, Course, Daemon, tail_config, start_metrics, stop_metrics, say_of, run_tailing,
  run_exporting, run_daemon,
}

pub End-cases : (e : End) → (e ≡ cancelled) ⊎ (e ≡ exporter_died)
End-cases cancelled = inl refl
End-cases exporter_died = inr refl

New-cases :
    (r : ServerError ⊎ Server) → ((e : ServerError) × (r ≡ inl e)) ⊎ ((s : Server) × (r ≡ inr s))
New-cases (inl e) = inl (e, refl)
New-cases (inr s) = inr (s, refl)

abbrev is_started : ServerError ⊎ Option Text → Bool
is_started (inl _) = false
is_started (inr _) = true

module _ (to_lower : Text → Text) (c : Client) (st : Store) (cfg : Config) (out : Outside) where
  -- The exporter is off, or its path is plain and its address can be bound.
  abbrev pub CanExport : Type 0
  CanExport =
      cfg.metrics.enabled ≡ true → IsPlain cfg.metrics.path × (out.listen cfg.metrics.listen ≢ none)

  abbrev pub CanTail : Type 0
  CanTail = out.can_tail cfg.log_path (tail_config cfg (out.is_there cfg.log_path)) ≡ true

  -- No reset is configured, or its schedule is accepted.
  abbrev pub CanSchedule : Type 0
  CanSchedule = (cfg.reset.enabled ≡ true) → out.can_schedule cfg.reset.schedule ≡ true

  pub start_metrics-CanExport :
      (d : Daemon c.Server)
      → let (r, d') = start_metrics out.listen cfg d in
        ((is_started r ≡ true) ↔ CanExport)
        × (d'.world.server ≡ d.world.server)
        × (d'.world.cnt ≡ d.world.cnt)
  unfolding start_metrics new_server
  start_metrics-CanExport d =
      let m = cfg.metrics in
      let plain = validate_path_iff m in
      elim (Option-cases (validate_path m)) [
        | inl e ↦ elim (Option-cases (out.listen m.listen)) [
          | inl l ↦ ground (arith, e, l, plain)
          | inr (a, l) ↦ ground (arith, e, l, plain)
        ]
        | inr (p, e) ↦ ground (arith, e, plain)
      ]

  pub start_metrics_addr :
      (d : Daemon c.Server)
      → let (r, d') = start_metrics out.listen cfg d in
        ((e : ServerError) × (r ≡ inl e) × (d'.metrics_addr ≡ d.metrics_addr))
        ⊎ ((stop : Option Text) × (r ≡ inr stop) × (d.metrics_addr ≡ none → d'.metrics_addr ≡ stop))
  unfolding start_metrics
  start_metrics_addr d = elim (Bool-cases cfg.metrics.enabled) [
    | inr off ↦ inr (none, rw (start_metrics, off) refl, rw (start_metrics, off) (λ e. e))
    | inl on ↦ elim (New-cases (new_server out.listen cfg.metrics)) [
      | inl (e, n) ↦ inl (e, rw (start_metrics, n, on) refl, rw (start_metrics, n, on) refl)
      | inr (srv, n) ↦
          inr (some srv.addr, rw (start_metrics, n, on) refl, rw (start_metrics, n, on) (λ e. refl))
    ]
  ]

  run_tailing_error :
      (x : Course) (w : World c.Server)
      → ((run_tailing to_lower c st cfg out x w).0 ≡ none) ↔ (CanSchedule × (x.end ≡ cancelled))
  unfolding run_tailing
  run_tailing_error x w = elim (End-cases x.end) [
    | inl e ↦ ground (arith, e)
    | inr e ↦ ground (arith, e)
  ]

  run_exporting_error :
      (x : Course) (w : World c.Server)
      → let (err, w') = run_exporting to_lower c st cfg out x w in
        ((err ≡ none) ↔ (CanTail × CanSchedule × (x.end ≡ cancelled)))
        × (¬ CanTail → (w'.server ≡ w.server) × (w'.cnt ≡ w.cnt))
  unfolding run_exporting
  run_exporting_error x w =
      let there = out.is_there cfg.log_path in
      let w1 = say (if there then log_found cfg.log_path else log_missing cfg.log_path) w in
      ground (arith, run_tailing_error x w1)

  pub stop_metrics_rest :
      (stop : Option Text) (d : Daemon c.Server)
      → let d' = stop_metrics out.shuts_down stop d in
        (d'.world.server ≡ d.world.server)
        × (d'.world.cnt ≡ d.world.cnt)
        × (d.metrics_addr ≡ stop → d'.metrics_addr ≡ none)
  unfolding stop_metrics shutdown
  stop_metrics_rest none d = (refl, refl, λ e. e)
  stop_metrics_rest (some a) d = ground arith

  -- Run returns no error exactly if the exporter starts (it is off, or its path is plain and its
  -- address can be bound), the tailer starts, the schedule of a configured reset is accepted, and the
  -- context ends the run rather than the exporter. Where the exporter or the tailer does not start,
  -- Redis is as before, and nothing is counted. Where no exporter is up before, none is up after.
  pub run_daemon_error :
      (x : Course) (d : Daemon c.Server)
      → let (err, d') = run_daemon to_lower c st cfg out x d in
        ((err ≡ none) ↔ (CanExport × CanTail × CanSchedule × (x.end ≡ cancelled)))
        × (¬ (CanExport × CanTail)
            → (d'.world.server ≡ d.world.server) × (d'.world.cnt ≡ d.world.cnt))
        × (d.metrics_addr ≡ none → d'.metrics_addr ≡ none)
  unfolding run_daemon
  run_daemon_error x d =
      let d0 = say_of starting d in
      let (r, d1) = start_metrics out.listen cfg d0 in
      let ran = run_exporting_error x d1.world in
      let can = start_metrics-CanExport d0 in
      elim (start_metrics_addr d0) [
        | inl (e, i, n) ↦ ground (arith, i, n, can)
        | inr (stop, i, n) ↦
            let w = (run_exporting to_lower c st cfg out x d1.world).1 in
            ground (arith, i, n, can, ran, stop_metrics_rest stop (record d1 { world = w }))
      ]

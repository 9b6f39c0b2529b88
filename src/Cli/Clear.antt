-- ===== src/Cli/Clear.antt =====
-- cmdClear. The server is the one behind the client library; now is time.Now(), and the context with
-- its deadline shows as failed replies.
use logstat.Prelude.{ℕ, suc, true, not, ◌&&◌, List, [], ◌∷◌, ltb, if◌then◌else◌}
use logstat.Text.{Text, text_eq, text_elem}
use logstat.Os.{Os}
use logstat.Config.{Config, ttl_duration}
use logstat.Store.Redis.{Client}
use logstat.Store.Keys.{Time}
use logstat.Store.{done, err, Store, reset}
use logstat.Logging.Output.{close}
use logstat.Cli.Flags.{Flags, no_flags, parsed, unparsed, parse_exit, parse_flags}
use logstat.Cli.Setup.{
  Message, both_selected, none_selected, not_listed, not_cleared, cleared, Setup, ready, exits,
  Surroundings, setup,
}

-- store.New(cfg.Redis, store.ShortHostname(), cfg.HeartbeatKey)
abbrev pub new_store : Text → Config → Store
new_store host cfg = record {
  host = host;
  heartbeat = cfg.heartbeat_key;
  ttl = ttl_duration cfg.redis;
}

-- The switch over the flags, and the actions that they select; or the complaint about them.
pub data Selected : Type 0 where
  selected : List Text → Selected
  complaint : Message → Selected

unfoldable pub select : Flags → List Text → Selected
unfolding text_elem
select f actions =
    if f.all && not (text_eq f.action [])
    then complaint both_selected
    else if not f.all && text_eq f.action []
    then complaint none_selected
    else if not (text_eq f.action [])
    then (if text_elem f.action actions
        then selected (f.action ∷ [])
        else complaint (not_listed f.action))
    else selected actions

-- The state of the loop over the actions.
pub record Clearing (S : Type 0) : Type 0 where
  pub failed : ℕ
  pub log : List Message
  pub server : S

module _ (c : Client) (st : Store) (now : Time) where
  unfoldable pub clear_step : Text → Clearing c.Server → Clearing c.Server
  clear_step a w =
      let (r, s) = reset c st a now w.server in
      elim r [
        | err e ↦ record { failed = suc w.failed; log = not_cleared a e ∷ w.log; server = s }
        | done _ ↦ record { failed = w.failed; log = cleared a ∷ w.log; server = s }
      ]

  unfoldable pub clear_loop : List Text → Clearing c.Server → Clearing c.Server
  clear_loop [] w = w
  clear_loop (a ∷ actions) w = clear_loop actions (clear_step a w)

-- if failed > 0 { return 1 }; return 0
abbrev pub clear_exit : ℕ → ℕ
clear_exit failed = if ltb 0 failed then 1 else 0

module _ (os : Os) (env : Surroundings) (c : Client) where
  -- cmdClear behind setup: the exit code, the messages and the server.
  unfoldable pub clear_with :
      Flags → Config → Time → List Message → c.Server → ℕ × (List Message × c.Server)
  unfolding select clear_loop
  clear_with f cfg now log server = elim (select f cfg.actions) [
    | complaint m ↦ (2, (m ∷ log, server))
    | selected actions ↦
        (let w =
            clear_loop c (new_store env.host cfg) now actions
              (record { failed = 0; log = log; server = server }) in
          (clear_exit w.failed, (w.log, w.server)))
  ]

  abbrev pub clear_ready :
      Flags → Time → c.Server → Setup os × os.State → ℕ × (List Message × (os.State × c.Server))
  clear_ready f now server (exits code, s) = (code, ([], (s, server)))
  clear_ready f now server (ready cfg lg log, s) =
      let (code, (log', server')) = clear_with f cfg now log server in
      (code, (log', ((close os lg.out s).1, server')))

  -- cmdClear
  unfoldable pub cmd_clear :
      List Text → Time → os.State → c.Server → ℕ × (List Message × (os.State × c.Server))
  unfolding clear_with
  cmd_clear args now s server = elim (parse_flags true args no_flags) [
    | unparsed e ↦ (parse_exit e, ([], (s, server)))
    | parsed f ↦ clear_ready f now server (setup os env f.cfg_path s)
  ]

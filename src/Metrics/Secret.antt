-- ===== src/Metrics/Secret.antt =====
-- What the exporter shows of the Redis password.
use logstat.Prelude.{◌≡◌, refl, []}
use logstat.Text.{Text, text_eq}
use logstat.Int64.{Int64}
use logstat.Counter.{Counter}
use logstat.Config.{addr}
use logstat.Metrics.{Clock, Reader, Collector, State}
use logstat.Metrics.Collect.{collect, collect_config}
use logstat.Metrics.Status.{status, config_table}

-- The collector with another Redis password.
abbrev pub with_password : {I : Type 0} → Text → Collector I → Collector I
with_password p c = record c { cfg = record c.cfg { redis = record c.cfg.redis { password = p } } }

-- Neither a scrape nor the status page tells two passwords apart, but for the empty one: both are the
-- same for any two passwords of which none is empty, or both are.
pub password_hidden :
    (duration_text : Int64 → Text) (k : Clock) (r : Reader) (c : Collector k.Instant)
    (cnt : Counter) (now : k.Instant) (s : State) (server : r.Server) (p q : Text)
    → text_eq p [] ≡ text_eq q []
    → (collect k r (with_password p c) cnt now s server
        ≡ collect k r (with_password q c) cnt now s server)
      × (status duration_text k r (with_password p c) cnt now server
          ≡ status duration_text k r (with_password q c) cnt now server)
unfolding collect collect_config status config_table addr
password_hidden duration_text k r c cnt now s server p q h = (rw h refl, rw h refl)

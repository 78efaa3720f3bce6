-- ===== src/Dispatcher/Lifecycle/Configured.antt =====
-- internal/core/options.go and `NewDispatcher` of internal/core/dispatcher.go: what the options let
-- through.
use jobx.Prelude.{ℕ, ◌^◌, ◌<◌, ◌≡◌, refl, true, List, [], ◌∷◌, arith, All, if◌then◌else◌}
use jobx.Clock.{Time, Word}
use jobx.Errors.{Result, ok, err, err_invalid_config, ◌>>=◌}
use jobx.Logs.{normalize_logger}
use jobx.Options.{
  Config, ConfigOption, default_config, is_not_positive, with_workers, with_queue_size,
  with_max_payload_bytes, configure,
}
use jobx.ReadyQueue.{new_ready_queue}
use jobx.Dispatcher.State.{Dispatcher, Env}
use jobx.Dispatcher.Lifecycle.{fresh_dispatcher, new_dispatcher}

-- An `int` above 0.
abbrev pub IsPositive : Word → Type 0
IsPositive n = (0 < n) × (n < 2 ^ 63)

pub record IsUsable (c : Config) : Type 0 where
  pub workers : IsPositive c.workers
  pub queue_size : IsPositive c.queue_size
  pub max_payload : IsPositive c.max_payload

-- An option that turns a usable configuration into a usable one, where it does not refuse.
abbrev pub KeepsUsable : ConfigOption → Type 0
KeepsUsable opt = (c c' : Config) → IsUsable c → opt c ≡ ok c' → IsUsable c'

IsPositive-from :
    (n : Word) (x : Config) (c' : Config)
    → (if is_not_positive n then err err_invalid_config else ok x) ≡ ok c'
    → IsPositive n × (x ≡ c')
IsPositive-from n x c' h = (ground arith, ground arith)

ok_config : (c c' : Config) → ok c ≡ ok c' → c ≡ c'
ok_config c c' h = ground arith

-- `WithWorkers`, `WithQueueSize` and `WithMaxPayloadBytes` refuse or keep a configuration usable, for
-- any argument: its numbers of workers, places and payload bytes are positive.
pub sizes_keep_usable :
    (n : Word)
    → KeepsUsable (with_workers n)
      × KeepsUsable (with_queue_size n)
      × KeepsUsable (with_max_payload_bytes n)
unfolding with_workers with_queue_size with_max_payload_bytes
sizes_keep_usable n = (
  λ c c' u h.
      let (pos, same) = IsPositive-from n _ c' h in
      rw (← same)
        (record { workers = pos; queue_size = u.queue_size; max_payload = u.max_payload }),
  λ c c' u h.
      let (pos, same) = IsPositive-from n _ c' h in
      rw (← same) (record { workers = u.workers; queue_size = pos; max_payload = u.max_payload }),
  λ c c' u h.
      let (pos, same) = IsPositive-from n _ c' h in
      rw (← same) (record { workers = u.workers; queue_size = u.queue_size; max_payload = pos }),
)

bind_config :
    (r : Result Config) {B : Type 0} (f : Config → Result B) (b : B)
    → r >>= f ≡ ok b
    → (c : Config) × (r ≡ ok c) × (f c ≡ ok b)
bind_config (ok c) f b h = (c, refl, h)
bind_config (err e) f b h = absurd (ground arith)

configure-IsUsable :
    (opts : List ConfigOption) (c c' : Config)
    → All KeepsUsable opts
    → IsUsable c
    → configure opts c ≡ ok c'
    → IsUsable c'
unfolding configure
configure-IsUsable [] c c' k u h = rw (← ok_config c c' h) u
configure-IsUsable (opt ∷ opts) c c' k u h =
    let (c₁, e, rest) = bind_config (opt c) (configure opts) c' h in
    configure-IsUsable opts c₁ c' k.1 (k.0 c c₁ u e) rest

default-IsUsable : (now : ℕ → Time) → IsUsable (default_config now)
unfolding default_config
default-IsUsable now = record {
  workers = omega arith;
  queue_size = omega arith;
  max_payload = omega arith;
}

-- A dispatcher that `NewDispatcher` builds from options that keep a configuration usable has a usable
-- configuration, a ready queue of the configured capacity, and runs.
pub new_dispatcher-IsUsable :
    (env : Env) (wall : ℕ → Time) (opts : List ConfigOption) (d : Dispatcher)
    → All KeepsUsable opts
    → new_dispatcher env wall opts ≡ ok d
    → IsUsable d.cfg × (d.ready.capacity ≡ d.cfg.queue_size) × (d.running ≡ true)
unfolding new_dispatcher fresh_dispatcher new_ready_queue
new_dispatcher-IsUsable env wall opts d k h =
    let (c, e, built) =
      bind_config (configure opts (default_config wall))
        (λ cfg. ok (fresh_dispatcher env (record cfg { logger = normalize_logger cfg.logger }))) d
        h in
    let same : fresh_dispatcher env (record c { logger = normalize_logger c.logger }) ≡ d =
      ok_dispatcher _ d built in
    rw (← same) (
      same_sizes c (configure-IsUsable opts (default_config wall) c k (default-IsUsable wall) e),
      refl,
      refl,
    )
  where
    same_sizes :
        (c : Config) → IsUsable c → IsUsable (record c { logger = normalize_logger c.logger })
    same_sizes c u = record {
      workers = u.workers;
      queue_size = u.queue_size;
      max_payload = u.max_payload;
    }

    ok_dispatcher : (a b : Dispatcher) → ok a ≡ ok b → a ≡ b
    ok_dispatcher a b h = ground arith

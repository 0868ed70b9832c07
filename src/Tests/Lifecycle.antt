-- ===== src/Tests/Lifecycle.antt =====
-- The theorems on starting and shutting down a server at concrete inputs.
use tuyau.Prelude.{ℕ, ◌≤◌, ◌⊎◌, inl, inr, refl, true, false, some, ok, err}
use tuyau.Prelude.Texts.{Text, bytes}
use tuyau.Config.{ServerConfig}
use tuyau.Server.Life.{Host, start}
use tuyau.Server.Orders.{IsBegun, start-IsBegun}
use tuyau.Server.Shutdown.{
  Life, Step, Own, accept_loop_ends, public_accepts, here, next, HasShutDown, steps_left,
  begin_shutdown, begin_shutdown-terminates,
}
use tuyau.Tests.Tables.{local_port}
use tuyau.Tests.Certificates.{builders, acme_config, page}

-- The address of the public listener is taken.
abbrev busy_host : Host Text ℕ ℕ
busy_host = record {
  build = builders;
  load_or_generate = λ dir. ok 9;
  rustls_config = λ material. ok tt;
  quinn_config = λ material. ok tt;
  bind_endpoint = λ addr. ok addr;
  public_tls = λ base acme needs. ok tt;
  bind_public = λ addr. err (bytes "in use");
  of_config_error = λ e. bytes "config";
}

abbrev public_config : ServerConfig
public_config = record acme_config { public_listen_addr = some local_port }

start-IsBegun_example : IsBegun busy_host page public_config (start busy_host page public_config)
start-IsBegun_example = start-IsBegun busy_host page public_config

abbrev life : Life
life = record {
  cancelled = false;
  endpoint_closed = false;
  accept_loop = true;
  public_loop = true;
  greeting = 1;
  serving = 1;
  connections = 2;
  acme_loops = 0;
  incoming = 1;
  arrivals = 1;
  events = 0;
}

-- A last connection comes to the public listener while the server shuts down.
abbrev late : Life
late = record life { cancelled = true; endpoint_closed = true; arrivals = 0 }

late-Step : Step (begin_shutdown life) late
unfolding begin_shutdown
late-Step = inr (public_accepts {n = 0} refl refl refl)

abbrev later : Life
later = record late { accept_loop = false }

begin_shutdown-terminates_example :
    (2 ≤ steps_left life) × (HasShutDown later ⊎ ((u : Life) × Own later u))
unfolding begin_shutdown
begin_shutdown-terminates_example =
    begin_shutdown-terminates life later 2
      (next (next here late-Step) (inl (accept_loop_ends refl (inl refl) refl)))

-- ===== src/Cli/Run.antt =====
-- crates/tuyau-cli/src/main.rs: the commands. A command ends with what it started, and signals and
-- the time that a shutdown gets do not change its result. TOML, paths and the process environment
-- answer through arguments.
pub mod Again
pub mod Streams
use tuyau.Prelude.{Bool, List, Option, none, some, or_else, Result, ok, err}
use tuyau.Prelude.Texts.{Text}
use tuyau.Net.{SocketAddr}
use tuyau.Config.{ServerConfig}
use tuyau.ClientConfig.{ClientConfig}
use tuyau.Client.{Network, TunnelClient, ClientError, connect}
use tuyau.Client.Serve.{Incoming, TunnelStream, serve}
use tuyau.Protocol.Codec.{Cbor}
use tuyau.Protocol.Frame.{DataStreamHeader}
use tuyau.Server.Life.{Host, TunnelServer, start}
use tuyau.Server.Tasks.{Task, Run, lift, ◌>>=◌, ◌>>◌}
use tuyau.Cli.{ClientArgs, EnvVars, System, CliError, context, build_client_config_inner}

pub data ServerError (E : Type 0) : Type 0 where
  reading : Text → ServerError E
  parsing : Text → ServerError E
  starting addressing : E → ServerError E

-- The error of what a task-spawning run gives.
abbrev pub run_context : {E F A : Type 0} → (E → F) → Run E A → Run F A
run_context f (r, tasks) = (context f r, tasks)

-- The default of `tunnel_cert_dir`, `parent` being that of the configuration's path.
abbrev pub with_cert_dir : Option Text → ServerConfig → ServerConfig
with_cert_dir parent cfg = record cfg { tunnel_cert_dir = or_else cfg.tunnel_cert_dir parent }

-- `parse_toml` is `toml::from_str` with its message, `parent` is `Path::parent`, and `local_addr` asks
-- the endpoint for its address.
module _ {E K M : Type 0} (read_to_string : Text → Result Text Text)
    (parse_toml : Text → Result Text ServerConfig) (parent : Text → Option Text) (host : Host E K M)
    (built_in : Text) (local_addr : TunnelServer K M → Result E SocketAddr) where
  unfoldable pub run_server : Text → Run (ServerError E) (TunnelServer K M)
  run_server config_path = do
    raw ← lift (context reading (read_to_string config_path))
    cfg ← lift (context parsing (parse_toml raw))
    server ← run_context starting (start host built_in (with_cert_dir (parent config_path) cfg))
    lift (context addressing (local_addr server))
    lift (ok server)

pub data RunError : Type 0 where
  configuring : CliError → RunError
  connecting : ClientError → RunError

-- The client and the streams that it took before a signal or the end of the tunnel: either way the
-- command succeeds.
module _ (sys : System) (env : EnvVars) (default_name : Text) (net : Network)
    (cbor : Cbor DataStreamHeader) where
  abbrev pub served :
      List Incoming
      → Result ClientError TunnelClient
      → Result RunError (TunnelClient × List TunnelStream)
  served incoming (err e) = err (connecting e)
  served incoming (ok c) = ok (c, (serve cbor incoming).0)

  abbrev pub connected :
      List Incoming
      → Result CliError ClientConfig
      → Result RunError (TunnelClient × List TunnelStream)
  connected incoming (err e) = err (configuring e)
  connected incoming (ok cfg) = served incoming (connect net cfg)

  unfoldable pub run_client :
      ClientArgs → List Incoming → Result RunError (TunnelClient × List TunnelStream)
  run_client args incoming =
      connected incoming (build_client_config_inner sys args env default_name)

-- ===== src/Cli/Run/Streams.antt =====
-- The client command of crates/tuyau-cli/src/main.rs, from its flags to the streams that it takes.
use tuyau.Prelude.{
  ◌≡◌, refl, sym, ap, ◌∙◌, ◌↔◌, inl, inr, List, Result, ok, err, Result-cases, ok_inj, err_ne_ok,
}
use tuyau.Prelude.Texts.{Text}
use tuyau.Protocol.Frame.{DataStreamHeader}
use tuyau.Protocol.Codec.{Cbor}
use tuyau.ClientConfig.{ClientConfig}
use tuyau.Client.{Network, TunnelClient, connect}
use tuyau.Client.Connected.{IsConnected, connect_iff}
use tuyau.Client.Serve.{Incoming, TunnelStream, serve}
use tuyau.Client.Loops.{readable, until_lost, serve-until_lost}
use tuyau.Cli.{ClientArgs, EnvVars, System, CliError, build_client_config_inner}
use tuyau.Cli.Build.{IsSource, build_client_config_inner_iff}
use tuyau.Cli.Run.{run_client, connected}

module _ (sys : System) (env : EnvVars) (default_name : Text) (net : Network)
    (cbor : Cbor DataStreamHeader) where
  -- How the command comes to a client and its streams.
  abbrev pub IsRun : ClientArgs → List Incoming → TunnelClient × List TunnelStream → Type 0
  IsRun args incoming (c, streams) =
      (cfg : ClientConfig) × IsSource sys args env default_name args.config cfg
      × IsConnected net cfg c
      × (streams ≡ readable cbor (until_lost incoming))

  connected-ok :
      (incoming : List Incoming) (built : Result CliError ClientConfig)
      (ran : TunnelClient × List TunnelStream)
      → connected sys env default_name net cbor incoming built ≡ ok ran
      → (cfg : ClientConfig) × (built ≡ ok cfg)
        × (connect net cfg ≡ ok ran.0)
        × (ran.1 ≡ (serve cbor incoming).0)
  connected-ok incoming (err e) ran h = absurd (err_ne_ok h)
  connected-ok incoming (ok cfg) ran h = elim (Result-cases (connect net cfg)) [
    | inl (c, made) ↦
        let same = ok_inj (rw made at h) in
        (cfg, refl, made ∙ ap ok (ap (λ p. p.0) same), sym (ap (λ p. p.1) same))
    | inr (e, bad) ↦ absurd (err_ne_ok (rw bad at h))
  ]

  -- The client command succeeds exactly if the file of `--config` or, without it, the flags and the
  -- environment make a valid configuration, and the server that it names is dialled and answers the
  -- hello with a welcome. The streams that it takes are those that came with a readable header before
  -- the connection was lost, in order; how the serve loop ends does not make the command fail.
  pub run_client_iff :
      (args : ClientArgs) (incoming : List Incoming) (ran : TunnelClient × List TunnelStream)
      → (run_client sys env default_name net cbor args incoming ≡ ok ran) ↔ IsRun args incoming ran
  unfolding run_client
  run_client_iff args incoming ran = (
    λ h.
        let (cfg, built, made, streams) =
          connected-ok incoming (build_client_config_inner sys args env default_name) ran h in
        (
          cfg,
          (build_client_config_inner_iff sys args env default_name cfg).0 built,
          (connect_iff net cfg ran.0).0 made,
          streams ∙ ap (λ p. p.0) (serve-until_lost cbor incoming),
        ),
    λ (cfg, source, is_connected, streams).
        rw
          (
            (build_client_config_inner_iff sys args env default_name cfg).1 source,
            (connect_iff net cfg ran.0).1 is_connected,
            serve-until_lost cbor incoming,
            streams,
          )
          refl,
  )

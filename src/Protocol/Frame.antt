-- ===== src/Protocol/Frame.antt =====
-- crates/tuyau-protocol/src/frame.rs: the frame types.
use tuyau.Prelude.{ℕ, Bool, true, false, List}
use tuyau.Prelude.Texts.{Text}

pub record Hello : Type 0 where
  pub token : List ℕ
  pub client_name : Text

pub data HelloResponse : Type 0 where
  welcome : HelloResponse
  rejected : Text → HelloResponse

pub data TlsMode : Type 0 where
  terminated tls_offload passthrough : TlsMode

pub record DataStreamHeader : Type 0 where
  pub hostname : Text
  pub peer_addr : Text
  pub mode : TlsMode

-- `matches!(mode, TlsMode::Terminated | TlsMode::TlsOffload)`
abbrev pub terminates : TlsMode → Bool
terminates terminated = true
terminates tls_offload = true
terminates passthrough = false

-- `mode == TlsMode::TlsOffload`
abbrev pub is_tls_offload : TlsMode → Bool
is_tls_offload tls_offload = true
is_tls_offload _ = false

-- `mode == TlsMode::Passthrough`
abbrev pub is_passthrough : TlsMode → Bool
is_passthrough passthrough = true
is_passthrough _ = false

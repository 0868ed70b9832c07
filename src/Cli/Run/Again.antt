-- ===== src/Cli/Run/Again.antt =====
-- The tunnel cert over two runs of the server command of crates/tuyau-cli/src/main.rs.
use tuyau.Prelude.{
  ℕ, ◌≡◌, ◌≢◌, refl, sym, ap, ◌∙◌, subst, List, Option, none, some, or_else, Result, ok, err,
  ok_inj, err_ne_ok,
}
use tuyau.Prelude.Texts.{Text, bytes}
use tuyau.Net.{SocketAddr}
use tuyau.Config.{ServerConfig, validate}
use tuyau.Certs.{
  CertError, CertMaterial, Pem, Issue, Dir, Files, cert_file, key_file, load_or_generate,
}
use tuyau.Certs.Restart.{ReadsBack, load_or_generate-again}
use tuyau.Server.Start.{resolve_cert_dir}
use tuyau.Server.Tasks.{Run, ◌>>=◌, lift}
use tuyau.Server.Life.{Host, TunnelServer, start, start_inner, start_public_of, checked}
use tuyau.Cli.{context}
use tuyau.Cli.Build.{context-ok}
use tuyau.Cli.Run.{reading, parsing, starting, addressing, run_server, with_cert_dir, run_context}

run-ok :
    {E A B : Type 0} (m : Run E A) (f : A → Run E B) {b : B}
    → (m >>= f).0 ≡ ok b
    → (a : A) × (m.0 ≡ ok a) × ((f a).0 ≡ ok b)
run-ok (ok a, tasks) f h = (a, refl, h)
run-ok (err e, tasks) f h = absurd (err_ne_ok h)

checked-ok :
    {E F A : Type 0} (g : E → F) (r : Run E A) {a : A} → (run_context g r).0 ≡ ok a → r.0 ≡ ok a
checked-ok g (ok a, tasks) h = ap ok (ok_inj h)
checked-ok g (err e, tasks) h = absurd (err_ne_ok h)

module _ {E K M : Type 0} (host : Host E K M) (built_in : Text) where
  start_inner-material :
      (cfg : ServerConfig) {server : TunnelServer K M}
      → (start_inner host built_in cfg).0 ≡ ok server
      → host.load_or_generate (resolve_cert_dir cfg.tunnel_cert_dir) ≡ ok server.material
  unfolding start_inner
  start_inner-material cfg started =
      let (material, loaded, rest) =
        run-ok (lift (host.load_or_generate (resolve_cert_dir cfg.tunnel_cert_dir))) _ started in
      let (_, tls, rest) = run-ok (lift (host.rustls_config material)) _ rest in
      let (_, quic, rest) = run-ok (lift (host.quinn_config material)) _ rest in
      let (addr, bound, rest) = run-ok (lift (host.bind_endpoint cfg.listen_addr)) _ rest in
      let (public, set_up, rest) =
        run-ok (start_public_of host built_in cfg cfg.public_listen_addr) _ rest in
      loaded ∙ ap ok (ap (λ s. s.material) (ok_inj rest))

  start-material :
      (cfg : ServerConfig) {server : TunnelServer K M}
      → (start host built_in cfg).0 ≡ ok server
      → host.load_or_generate (resolve_cert_dir cfg.tunnel_cert_dir) ≡ ok server.material
  unfolding start
  start-material cfg started =
      let (_, valid, rest) =
        run-ok (lift (checked host.of_config_error (validate cfg))) _ started in
      start_inner-material cfg rest

-- Where the server command keeps the tunnel cert: the configured directory, else that of the
-- configuration file, else the working directory. `parent` is `Path::parent`.
abbrev pub chosen_dir : Option Text → Option Text → Text
chosen_dir (some configured) beside = configured
chosen_dir none (some beside) = beside
chosen_dir none none = bytes "."

abbrev pub cert_dir_of : (Text → Option Text) → Text → ServerConfig → Text
cert_dir_of parent path cfg = chosen_dir cfg.tunnel_cert_dir (parent path)

resolve_cert_dir-or_else :
    (configured beside : Option Text)
    → resolve_cert_dir (or_else configured beside) ≡ chosen_dir configured beside
resolve_cert_dir-or_else (some configured) beside = refl
resolve_cert_dir-or_else none (some beside) = refl
resolve_cert_dir-or_else none none = refl

-- The files after a start.
abbrev pub files_after : Pem → (List ℕ → List ℕ) → Dir → Issue → Files → Files
files_after pem sha256 dir issue files = (load_or_generate pem sha256 dir issue files).0

-- A host whose tunnel cert is in files.
abbrev pub on_disk :
    {E K : Type 0}
    → Pem
    → (List ℕ → List ℕ)
    → (Text → Dir)
    → (CertError → E)
    → Issue
    → Files
    → Host E K CertMaterial
    → Host E K CertMaterial
on_disk pem sha256 dir_at of_cert_error issue files host = record host {
  load_or_generate =
      λ d. context of_cert_error (load_or_generate pem sha256 (dir_at d) issue files).1;
}

module _ {E K : Type 0} (read_to_string : Text → Result Text Text)
    (parse_toml : Text → Result Text ServerConfig) (parent : Text → Option Text)
    (built_in : Text) where
  run_server-material :
      {M : Type 0} (host : Host E K M) (local_addr : TunnelServer K M → Result E SocketAddr)
      (path raw : Text) (cfg : ServerConfig) {server : TunnelServer K M}
      → read_to_string path ≡ ok raw
      → parse_toml raw ≡ ok cfg
      → (run_server read_to_string parse_toml parent host built_in local_addr path).0 ≡ ok server
      → host.load_or_generate (cert_dir_of parent path cfg) ≡ ok server.material
  unfolding run_server
  run_server-material host local_addr path raw cfg {server} was_read parsed ran =
      let (raw', read', rest) = run-ok (lift (context reading (read_to_string path))) _ ran in
      let (cfg', parsed', rest') = run-ok (lift (context parsing (parse_toml raw'))) _ rest in
      let same_raw : raw' ≡ raw =
        ok_inj (sym (context-ok reading (read_to_string path) read') ∙ was_read) in
      let same_cfg : cfg' ≡ cfg =
        ok_inj
          (sym (context-ok parsing (parse_toml raw') parsed') ∙ ap parse_toml same_raw ∙ parsed) in
      let (started, up, last) =
        run-ok (run_context starting (start host built_in (with_cert_dir (parent path) cfg'))) _
          rest' in
      let (_, _, same) = run-ok (lift (context addressing (local_addr started))) _ last in
      let kept =
        start-material host built_in (with_cert_dir (parent path) cfg')
          (checked-ok starting (start host built_in (with_cert_dir (parent path) cfg')) up) in
      subst (λ c. host.load_or_generate (cert_dir_of parent path c) ≡ ok server.material) same_cfg
        (ap host.load_or_generate
            (sym (resolve_cert_dir-or_else cfg'.tunnel_cert_dir (parent path)))
          ∙ kept
          ∙ ap ok (ap (λ s. s.material) (ok_inj same)))

  module _ (pem : Pem) (sha256 : List ℕ → List ℕ) (dir_at : Text → Dir)
      (of_cert_error : CertError → E) where
    -- The server command that is run again, with the same configuration file and with the files that
    -- the last run left, serves the same tunnel cert, with the fingerprint that clients have pinned,
    -- whatever a new cert would be and whatever else has changed on the host. The directory of the
    -- cert is the configured one, else that of the configuration file, else the working directory.
    pub run_server-again :
        (issue issue' : Issue) (files : Files) (host host' : Host E K CertMaterial)
        (local_addr local_addr' : TunnelServer K CertMaterial → Result E SocketAddr)
        (path raw : Text) (cfg : ServerConfig) {server server' : TunnelServer K CertMaterial}
        → ReadsBack pem issue
        → (dir_at (cert_dir_of parent path cfg)).join cert_file
          ≢ (dir_at (cert_dir_of parent path cfg)).join key_file
        → read_to_string path ≡ ok raw
        → parse_toml raw ≡ ok cfg
        → (run_server read_to_string parse_toml parent
            (on_disk pem sha256 dir_at of_cert_error issue files host)
            built_in
            local_addr
            path).0
          ≡ ok server
        → (run_server read_to_string parse_toml parent
            (on_disk pem sha256 dir_at of_cert_error issue'
              (files_after pem sha256 (dir_at (cert_dir_of parent path cfg)) issue files)
              host')
            built_in
            local_addr'
            path).0
          ≡ ok server'
        → server'.material ≡ server.material
    run_server-again issue issue' files host host' local_addr local_addr' path raw cfg {server}
          {server'} reads differ was_read parsed first second =
        let d = cert_dir_of parent path cfg in
        let after = files_after pem sha256 (dir_at d) issue files in
        let first_cert =
          context-ok of_cert_error (load_or_generate pem sha256 (dir_at d) issue files).1 (
            run_server-material (on_disk pem sha256 dir_at of_cert_error issue files host)
              local_addr path raw cfg was_read parsed first) in
        let second_cert =
          context-ok of_cert_error (load_or_generate pem sha256 (dir_at d) issue' after).1 (
            run_server-material (on_disk pem sha256 dir_at of_cert_error issue' after host')
              local_addr' path raw cfg was_read parsed second) in
        let again =
          load_or_generate-again pem sha256 (dir_at d) issue issue' files after server.material
            reads differ (ap (λ r. (after, r)) first_cert) in
        ok_inj (sym second_cert ∙ ap (λ p. p.1) again)

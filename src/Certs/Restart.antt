-- ===== src/Certs/Restart.antt =====
-- The tunnel cert of crates/tuyau-server/src/cert.rs over a restart of the server.
use tuyau.Prelude.{
  ℕ, ◌≡◌, ◌≢◌, refl, sym, ap, subst, inl, inr, Bool, true, ◌&&◌, List, [], ◌∷◌, some, arith,
  text_eq, ==_refl, ==_ne, is_some, Bool-cases, Result, ok, err, ok_inj, err_ne_ok,
}
use tuyau.Prelude.Texts.{Text, bytes}
use tuyau.Prelude.Dict.{get, insert, get-insert}
use tuyau.Certs.{
  CertError, CertMaterial, Pem, Issued, Issue, Dir, Files, cert_file, key_file, read_first_cert,
  read_first_pkcs8_key, material, load, save, generate, load_or_generate,
}

-- What rcgen and rustls_pemfile document: the PEM that is written for a new cert reads back as that
-- cert, and so does its key.
abbrev pub ReadsBack : Pem → Issue → Type 0
ReadsBack pem issue =
    (names : List Text) (name : Text) (issued : Issued)
    → issue names name ≡ ok issued
    → (pem.certs issued.cert_pem ≡ ok issued.cert_der ∷ [])
      × (pem.pkcs8_private_keys issued.key_pem ≡ ok issued.key_der ∷ [])

module _ (pem : Pem) (sha256 : List ℕ → List ℕ) (dir : Dir) where
  load-saved :
      (cert_path key_path : Text) (issued : Issued) (files : Files)
      → cert_path ≢ key_path
      → pem.certs issued.cert_pem ≡ ok issued.cert_der ∷ []
      → pem.pkcs8_private_keys issued.key_pem ≡ ok issued.key_der ∷ []
      → let saved = insert key_path issued.key_pem (insert cert_path issued.cert_pem files) in
        load pem sha256 saved cert_path key_path
        ≡ ok (material pem sha256 issued.cert_der issued.key_der)
  unfolding load read_first_cert read_first_pkcs8_key
  load-saved cert_path key_path issued files differ cert key =
      let with_cert = insert cert_path issued.cert_pem files in
      let cert_kept : get cert_path (insert key_path issued.key_pem with_cert)
          ≡ some issued.cert_pem =
        rw
          (
            get-insert key_path cert_path issued.key_pem with_cert,
            ==_ne key_path cert_path (λ e. differ (sym e)),
            get-insert cert_path cert_path issued.cert_pem files,
            ==_refl cert_path,
          )
          refl in
      let key_kept : get key_path (insert key_path issued.key_pem with_cert) ≡ some issued.key_pem =
        rw (get-insert key_path key_path issued.key_pem with_cert, ==_refl key_path) refl in
      rw (cert_kept, key_kept, cert, key) refl

  -- What a save that succeeds has done.
  abbrev Saved : Text → Text → Result Text Issued → Files → Files → CertMaterial → Type 0
  Saved cert_path key_path made files after m =
      (issued : Issued) × (made ≡ ok issued)
      × (after ≡ insert key_path issued.key_pem (insert cert_path issued.cert_pem files))
      × (m ≡ material pem sha256 issued.cert_der issued.key_der)

  save-ok :
      (cert_path key_path : Text) (made : Result Text Issued) (files after : Files)
      (m : CertMaterial)
      → save pem sha256 dir cert_path key_path made files ≡ (after, ok m)
      → Saved cert_path key_path made files after m
  unfolding save
  save-ok cert_path key_path (err e) files after m h = absurd (err_ne_ok (ap (λ p. p.1) h))
  save-ok cert_path key_path (ok issued) files after m h =
      elim (Bool-cases (dir.can_write cert_path)) [
        | inl can ↦ elim (Bool-cases (dir.can_write key_path)) [
          | inl can_key ↦
              let seen = rw (can, can_key) at h in
              (issued, refl, sym (ap (λ p. p.0) seen), sym (ok_inj (ap (λ p. p.1) seen)))
          | inr cannot ↦ let seen = rw (can, cannot) at h in absurd (err_ne_ok (ap (λ p. p.1) seen))
        ]
        | inr cannot ↦ let seen = rw cannot at h in absurd (err_ne_ok (ap (λ p. p.1) seen))
      ]

  abbrev exist : Files → Bool
  exist files = is_some (get (dir.join cert_file) files) && is_some (get (dir.join key_file) files)

  load_or_generate-existing :
      (issue : Issue) (files : Files) (m : CertMaterial)
      → exist files ≡ true
      → load pem sha256 files (dir.join cert_file) (dir.join key_file) ≡ ok m
      → load_or_generate pem sha256 dir issue files ≡ (files, ok m)
  unfolding load_or_generate
  load_or_generate-existing issue files m there loaded =
      rw there (ap (λ (r : Result CertError CertMaterial). (files, r)) loaded)

  exist-saved :
      (cert key : List ℕ) (files : Files)
      → exist (insert (dir.join key_file) key (insert (dir.join cert_file) cert files)) ≡ true
  exist-saved cert key files =
      rw
        (
          get-insert (dir.join key_file) (dir.join cert_file) key
              (insert (dir.join cert_file) cert files),
          get-insert (dir.join key_file) (dir.join key_file) key
              (insert (dir.join cert_file) cert files),
          get-insert (dir.join cert_file) (dir.join cert_file) cert files,
          ==_refl (dir.join key_file),
          ==_refl (dir.join cert_file),
        )
        (ground arith)

  generate-again :
      (issue issue' : Issue) (files after : Files) (m : CertMaterial)
      → ReadsBack pem issue
      → dir.join cert_file ≢ dir.join key_file
      → generate pem sha256 dir issue (dir.join cert_file) (dir.join key_file) files ≡ (after, ok m)
      → load_or_generate pem sha256 dir issue' after ≡ (after, ok m)
  unfolding generate
  generate-again issue issue' files after m reads differ h = elim (Bool-cases dir.can_create) [
    | inl can ↦
        let seen = rw can at h in
        let name = bytes "tuyau-tunnel" in
        let (issued, made, saved, same) =
          save-ok (dir.join cert_file) (dir.join key_file) (issue (name ∷ []) name) files after m
            seen in
        let (cert, key) = reads (name ∷ []) name issued made in
        rw (saved, same)
          (load_or_generate-existing issue'
            (insert (dir.join key_file) issued.key_pem
              (insert (dir.join cert_file) issued.cert_pem files))
            (material pem sha256 issued.cert_der issued.key_der)
            (exist-saved issued.cert_pem issued.key_pem files)
            (load-saved (dir.join cert_file) (dir.join key_file) issued files differ cert key))
    | inr cannot ↦ let seen = rw cannot at h in absurd (err_ne_ok (ap (λ p. p.1) seen))
  ]

  -- A server that is started again with the files that its last start left has the same tunnel cert,
  -- key and fingerprint, which the clients have pinned, whatever a new cert would be.
  pub load_or_generate-again :
      (issue issue' : Issue) (files after : Files) (m : CertMaterial)
      → ReadsBack pem issue
      → dir.join cert_file ≢ dir.join key_file
      → load_or_generate pem sha256 dir issue files ≡ (after, ok m)
      → load_or_generate pem sha256 dir issue' after ≡ (after, ok m)
  unfolding load_or_generate
  load_or_generate-again issue issue' files after m reads differ h =
      elim (Bool-cases (exist files)) [
        | inl there ↦
            let seen = rw there at h in
            subst (λ (fs : Files). load_or_generate pem sha256 dir issue' fs ≡ (fs, ok m))
              (ap (λ p. p.0) seen)
              (load_or_generate-existing issue' files m there (ap (λ p. p.1) seen))
        | inr missing ↦
            let seen = rw missing at h in
            generate-again issue issue' files after m reads differ seen
      ]

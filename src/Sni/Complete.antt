-- ===== src/Sni/Complete.antt =====
-- The parser of crates/tuyau-server/src/sni.rs on the ClientHello of any client that names a host.
use tuyau.Prelude.{
  ℕ, ◌+◌, ◌≤◌, ◌<◌, ◌≡◌, refl, ap, ◌∙◌, subst, true, List, [], ◌∷◌, ◌++◌, append_assoc, arith,
  ltb-eq-false, nat_eq, length, length-append, All,
}
use tuyau.Prelude.Bytes.{u16_bytes}
use tuyau.Prelude.Texts.{Text}
use tuyau.Sni.Results.{ret}
use tuyau.Sni.Utf8.{is_utf8}
use tuyau.Sni.{usize_mod, max_sni_len, skip_random, read_headers, skip_lists, parse_sni}
use tuyau.Sni.Positions.{
  IsAt, IsAt-next, IsAt-skip, IsAt-le, checked_add-fits, read_u8-IsAt, read_u16-IsAt, read_u24-IsAt,
  read_u16-length,
}
use tuyau.Sni.Extensions.{
  Extension, IsOther, extensions_bytes, extensions_bytes-append, names_bytes, server_name_bytes,
  extensions_loop-found, IsAt-two,
}

-- The parts of a ClientHello that names a host. Its version and random are 34 bytes; `more` are the
-- bytes of further names, and `after` those of the extensions behind `server_name`.
pub record ClientHello : Type 0 where
  pub record_version : ℕ × ℕ
  pub record_len : ℕ × ℕ
  pub handshake_len : ℕ × ℕ × ℕ
  pub version_random : List ℕ
  pub session_id : List ℕ
  pub cipher_suites : List ℕ
  pub compression : List ℕ
  pub before : List Extension
  pub host : Text
  pub more : List ℕ
  pub after : List ℕ

abbrev pub all_extensions : ClientHello → List ℕ
all_extensions h = extensions_bytes h.before (server_name_bytes h.host h.more h.after)

-- From the session id on, ahead of other bytes.
abbrev lists_bytes : ClientHello → List ℕ → List ℕ
lists_bytes h tail =
    length h.session_id
    ∷ (h.session_id
        ++ (u16_bytes (length h.cipher_suites)
            ++ (h.cipher_suites ++ (length h.compression ∷ (h.compression ++ tail)))))

-- The record as it is sent, ahead of what the client sends next.
abbrev pub hello_bytes : ClientHello → List ℕ → List ℕ
hello_bytes h rest =
    0x16
    ∷ h.record_version.0
    ∷ h.record_version.1
    ∷ h.record_len.0
    ∷ h.record_len.1
    ∷ 1
    ∷ h.handshake_len.0
    ∷ h.handshake_len.1
    ∷ h.handshake_len.2
    ∷ (h.version_random
        ++ lists_bytes h (u16_bytes (length (all_extensions h)) ++ (all_extensions h ++ rest)))

-- The lengths fit their fields, and the host is a text of at most 253 bytes.
pub record IsClientHello (h : ClientHello) : Type 0 where
  pub random : length h.version_random ≡ 34
  pub suites_fit : length h.cipher_suites < 65536
  pub others : All IsOther h.before
  pub extensions_fit : length (all_extensions h) < 65536
  pub host_valid : is_utf8 h.host ≡ true
  pub host_short : length h.host ≤ max_sni_len
  pub names_fit : length (names_bytes h.host h.more) < 65534

module _ {buf : List ℕ} (small : length buf < usize_mod) (h : ClientHello)
    (valid : IsClientHello h) where
  skip_lists-IsAt :
      (p : ℕ) (tail : List ℕ)
      → IsAt buf p (lists_bytes h tail)
      → (q : ℕ) × (skip_lists buf p ≡ ret q) × IsAt buf q tail
  unfolding skip_lists
  skip_lists-IsAt p tail a =
      let at_id = IsAt-next small a in
      let id_end = p + 1 + length h.session_id in
      let at_suites = IsAt-skip small (p + 1) h.session_id _ at_id in
      let suites_start = id_end + 2 in
      let at_suite_bytes = IsAt-two small id_end _ _ _ at_suites in
      let suites_end = suites_start + length h.cipher_suites in
      let at_compression = IsAt-skip small suites_start h.cipher_suites _ at_suite_bytes in
      let at_methods = IsAt-next small at_compression in
      (
        suites_end + 1 + length h.compression,
        rw
            (
              read_u8-IsAt small p _ _ a,
              checked_add-fits (p + 1) (length h.session_id)
                  (omega (arith, IsAt-le small (p + 1) h.session_id _ at_id)),
              read_u16-length small id_end h.cipher_suites _ valid.suites_fit at_suites,
              checked_add-fits suites_start (length h.cipher_suites)
                  (omega (arith, IsAt-le small suites_start h.cipher_suites _ at_suite_bytes)),
              read_u8-IsAt small suites_end _ _ at_compression,
            )
            (checked_add-fits (suites_end + 1) (length h.compression)
              (omega (arith, IsAt-le small (suites_end + 1) h.compression _ at_methods))),
        IsAt-skip small (suites_end + 1) h.compression tail at_methods,
      )

  read_headers-IsAt :
      (tail : List ℕ)
      → IsAt buf 0 (
          0x16
          ∷ h.record_version.0
          ∷ h.record_version.1
          ∷ h.record_len.0
          ∷ h.record_len.1
          ∷ 1
          ∷ h.handshake_len.0
          ∷ h.handshake_len.1
          ∷ h.handshake_len.2
          ∷ (h.version_random ++ tail))
      → (read_headers buf ≡ ret 43) × IsAt buf 43 tail
  unfolding read_headers skip_random
  read_headers-IsAt tail a =
      let at_1 = IsAt-next small a in
      let at_3 = IsAt-two small 1 _ _ _ at_1 in
      let at_5 = IsAt-two small 3 _ _ _ at_3 in
      let at_6 = IsAt-next small at_5 in
      let at_8 = IsAt-two small 6 _ _ _ at_6 in
      let at_9 = IsAt-next small at_8 in
      let at_end = IsAt-skip small 9 h.version_random tail at_9 in
      let room = IsAt-le small 9 h.version_random tail at_9 in
      (
        rw
            (
              read_u8-IsAt small 0 _ _ a,
              read_u16-IsAt small 3 _ _ _ at_3,
              read_u8-IsAt small 5 _ _ at_5,
              read_u24-IsAt small 6 _ _ _ _ at_6,
              ltb-eq-false (length buf) 43 (omega (arith, valid.random)),
            )
            refl,
        subst (λ n. IsAt buf n tail) (omega (arith, valid.random)) at_end,
      )

length-extensions_bytes-ge :
    (es : List Extension) (tail : List ℕ) → length es ≤ length (extensions_bytes es tail)
length-extensions_bytes-ge [] tail = omega arith
length-extensions_bytes-ge (e ∷ es) tail =
    omega (
      arith,
      length-append e.payload (extensions_bytes es tail),
      length-extensions_bytes-ge es tail,
    )

server_name_bytes-append :
    (host : Text) (more tail rest : List ℕ)
    → server_name_bytes host more tail ++ rest ≡ server_name_bytes host more (tail ++ rest)
server_name_bytes-append host more tail rest =
    let names = names_bytes host more in
    ap (λ l. u16_bytes 0 ++ (u16_bytes (2 + length names) ++ (u16_bytes (length names) ++ l)))
      (append_assoc names tail rest)

parse_sni-IsAt :
    (buf : List ℕ)
    → length buf < usize_mod
    → (h : ClientHello) (rest : List ℕ) → IsClientHello h
    → IsAt buf 0 (hello_bytes h rest)
    → parse_sni buf ≡ ret h.host
unfolding parse_sni
parse_sni-IsAt buf small h rest valid a =
    let exts = all_extensions h in
    let (headers, at_lists) = read_headers-IsAt small h valid _ a in
    let (p, lists, at_total) = skip_lists-IsAt small h valid 43 _ at_lists in
    let at_exts = IsAt-two small p _ _ (exts ++ rest) at_total in
    let bound = IsAt-le small (p + 2) exts rest at_exts in
    let split =
      subst (IsAt buf (p + 2))
        (extensions_bytes-append h.before (server_name_bytes h.host h.more h.after) rest
          ∙ ap (extensions_bytes h.before) (server_name_bytes-append h.host h.more h.after rest))
        at_exts in
    rw
      (
        headers,
        lists,
        read_u16-length small p exts rest valid.extensions_fit at_total,
        checked_add-fits (p + 2) (length exts) (omega arith),
        ltb-eq-false (length buf) (p + 2 + length exts) bound,
      )
      (extensions_loop-found small h.before (length buf) (p + 2 + length exts) (p + 2) h.host h.more
        h.after rest valid.host_valid valid.host_short valid.names_fit valid.others
        (omega (
          arith,
          bound,
          length-extensions_bytes-ge h.before (server_name_bytes h.host h.more h.after),
        ))
        refl split)

-- The parser finds the host in the ClientHello of any client that names it, whatever its random,
-- session id, cipher suites, compression methods and other extensions are, in whatever place the
-- extension stands, and whatever follows the record's extensions.
pub parse_sni-hello_bytes :
    (h : ClientHello) (rest : List ℕ)
    → IsClientHello h
    → length (hello_bytes h rest) < usize_mod
    → parse_sni (hello_bytes h rest) ≡ ret h.host
parse_sni-hello_bytes h rest valid small =
    parse_sni-IsAt (hello_bytes h rest) small h rest valid
      (record { len = omega arith; ahead = refl })

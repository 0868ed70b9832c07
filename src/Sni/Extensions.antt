-- ===== src/Sni/Extensions.antt =====
-- The loops of crates/tuyau-server/src/sni.rs on extensions of which one names a host.
use tuyau.Prelude.{
  ℕ, zero, suc, ◌+◌, ◌≤◌, ◌<◌, ◌≡◌, ◌≢◌, refl, ap, ◌∙◌, subst, true, List, [], ◌∷◌, ◌++◌,
  append_assoc, some, arith, lt→ltb, ltb-eq-false, nat_eq, ==_ne, length, length-append, All,
}
use tuyau.Prelude.Bytes.{u16_bytes, u16_round}
use tuyau.Prelude.Texts.{Text}
use tuyau.Sni.Results.{Outcome, ret}
use tuyau.Sni.Utf8.{is_utf8}
use tuyau.Sni.{
  usize_mod, max_sni_len, host_name, name_round, names_loop, extension, extension_round,
  extensions_loop,
}
use tuyau.Sni.Positions.{
  IsAt, IsAt-next, IsAt-skip, IsAt-le, checked_add-fits, read_u8-IsAt, read_u16-IsAt,
  read_u16-length, slice-IsAt,
}

module _ {buf : List ℕ} (small : length buf < usize_mod) where
  pub IsAt-two : (p a b : ℕ) (rest : List ℕ) → IsAt buf p (a ∷ b ∷ rest) → IsAt buf (p + 2) rest
  IsAt-two p a b rest a_p =
      subst (λ q. IsAt buf q rest) (omega arith) (IsAt-next small (IsAt-next small a_p))

  host_name-IsAt :
      (q : ℕ) (host rest : List ℕ)
      → is_utf8 host ≡ true
      → IsAt buf q (host ++ rest)
      → host_name buf q (q + length host) ≡ ret (some host)
  unfolding host_name
  host_name-IsAt q host rest valid a = rw (slice-IsAt small q host rest a, valid) refl

  -- The first server name is the host.
  names_loop-found :
      (fuel inner q : ℕ) (host rest : List ℕ)
      → 0 < fuel
      → q + 3 + length host ≤ inner
      → inner ≤ length buf
      → length host ≤ max_sni_len
      → is_utf8 host ≡ true
      → IsAt buf q (0 ∷ (u16_bytes (length host) ++ (host ++ rest)))
      → names_loop fuel buf inner q ≡ ret (some host)
  unfolding names_loop name_round
  names_loop-found zero inner q host rest f room within short valid a = absurd (omega arith)
  names_loop-found (suc fuel) inner q host rest f room within short valid a =
      let at_len = IsAt-next small a in
      let at_host = IsAt-two (q + 1) _ _ (host ++ rest) at_len in
      rw
        (
          lt→ltb q inner (omega arith),
          read_u8-IsAt small q 0 _ a,
          read_u16-length small (q + 1) host rest (omega arith) at_len,
          checked_add-fits (q + 1 + 2) (length host) (omega arith),
          ltb-eq-false inner (q + 1 + 2 + length host) (omega arith),
          ltb-eq-false max_sni_len (length host) short,
        )
        (host_name-IsAt (q + 1 + 2) host rest valid at_host)

-- An extension that is not `server_name`.
pub record Extension : Type 0 where
  pub ext_type : ℕ
  pub payload : List ℕ

pub record IsOther (e : Extension) : Type 0 where
  pub not_server_name : e.ext_type ≢ 0
  pub type_fits : e.ext_type < 65536
  pub payload_fits : length e.payload < 65536

-- Extensions ahead of other bytes.
abbrev pub extensions_bytes : List Extension → List ℕ → List ℕ
extensions_bytes [] tail = tail
extensions_bytes (e ∷ es) tail =
    u16_bytes e.ext_type
    ++ (u16_bytes (length e.payload) ++ (e.payload ++ extensions_bytes es tail))

-- The list of the server names, its first the host, and the extension with it.
abbrev pub names_bytes : Text → List ℕ → List ℕ
names_bytes host more = 0 ∷ (u16_bytes (length host) ++ (host ++ more))

abbrev pub server_name_bytes : Text → List ℕ → List ℕ → List ℕ
server_name_bytes host more tail =
    u16_bytes 0
    ++ (u16_bytes (2 + length (names_bytes host more))
        ++ (u16_bytes (length (names_bytes host more)) ++ (names_bytes host more ++ tail)))

pub extensions_bytes-append :
    (es : List Extension) (tail rest : List ℕ)
    → extensions_bytes es tail ++ rest ≡ extensions_bytes es (tail ++ rest)
extensions_bytes-append [] tail rest = refl
extensions_bytes-append (e ∷ es) tail rest =
    ap (λ l. u16_bytes e.ext_type ++ (u16_bytes (length e.payload) ++ l))
      (append_assoc e.payload (extensions_bytes es tail) rest
        ∙ ap (λ l. e.payload ++ l) (extensions_bytes-append es tail rest))

module _ {buf : List ℕ} (small : length buf < usize_mod) where
  -- The round at the extension `server_name`.
  server_name-found :
      (next : ℕ → Outcome Text) (ext_end p : ℕ) (host more rest : List ℕ)
      → is_utf8 host ≡ true
      → length host ≤ max_sni_len
      → length (names_bytes host more) < 65534
      → p + 6 + length (names_bytes host more) ≤ ext_end
      → IsAt buf p (server_name_bytes host more rest)
      → extension_round next buf ext_end p ≡ ret host
  unfolding extension_round extension
  server_name-found next ext_end p host more rest valid short fits room a =
      let names = names_bytes host more in
      let at_len = IsAt-two small p _ _ _ a in
      let at_list = IsAt-two small (p + 2) _ _ _ at_len in
      let at_names = IsAt-two small (p + 2 + 2) _ _ _ at_list in
      let at_name =
        subst (IsAt buf (p + 2 + 2 + 2))
          (ap (λ l. 0 ∷ (u16_bytes (length host) ++ l)) (append_assoc host more rest)) at_names in
      let end = p + 2 + 2 + (2 + length names) in
      let bound = IsAt-le small (p + 2 + 2 + 2) names rest at_names in
      rw
        (
          read_u16-IsAt small p _ _ _ a,
          read_u16-IsAt small (p + 2) _ _ _ at_len,
          u16_round (2 + length names) (omega arith),
          checked_add-fits (p + 2 + 2) (2 + length names) (omega arith),
          ltb-eq-false ext_end end (omega arith),
          read_u16-IsAt small (p + 2 + 2) _ _ _ at_list,
          names_loop-found small (length buf) end (p + 2 + 2 + 2) host (more ++ rest) (omega arith)
              (omega (arith, length-append host more)) (omega arith) short valid at_name,
        )
        refl

  -- An extension of another type is skipped.
  extension_round-skip :
      (next : ℕ → Outcome Text) (ext_end p : ℕ) (e : Extension) (rest : List ℕ)
      → IsOther e
      → p + 4 + length e.payload ≤ ext_end
      → IsAt buf p (u16_bytes e.ext_type ++ (u16_bytes (length e.payload) ++ (e.payload ++ rest)))
      → extension_round next buf ext_end p ≡ next (p + 2 + 2 + length e.payload)
  unfolding extension_round extension
  extension_round-skip next ext_end p e rest other room a =
      let at_len = IsAt-two small p _ _ _ a in
      let at_payload = IsAt-two small (p + 2) _ _ _ at_len in
      rw
        (
          read_u16-IsAt small p _ _ _ a,
          u16_round e.ext_type other.type_fits,
          read_u16-length small (p + 2) e.payload rest other.payload_fits at_len,
          checked_add-fits (p + 2 + 2) (length e.payload)
              (omega (arith, IsAt-le small (p + 2 + 2) e.payload rest at_payload)),
          ltb-eq-false ext_end (p + 2 + 2 + length e.payload) (omega arith),
          ==_ne e.ext_type 0 other.not_server_name,
        )
        refl

  -- The extensions ahead of `server_name` are skipped, if the fuel is enough for them.
  pub extensions_loop-found :
      (es : List Extension) (fuel ext_end p : ℕ) (host more tail rest : List ℕ)
      → is_utf8 host ≡ true
      → length host ≤ max_sni_len
      → length (names_bytes host more) < 65534
      → All IsOther es
      → length es < fuel
      → p + length (extensions_bytes es (server_name_bytes host more tail)) ≡ ext_end
      → IsAt buf p (extensions_bytes es (server_name_bytes host more (tail ++ rest)))
      → extensions_loop fuel buf ext_end p ≡ ret host
  unfolding extensions_loop
  extensions_loop-found es zero ext_end p host more tail rest valid short fits others f end a =
      absurd (omega arith)
  extensions_loop-found [] (suc fuel) ext_end p host more tail rest valid short fits others f end
        a =
      rw (lt→ltb p ext_end (omega arith)) (
        server_name-found _ ext_end p host more (tail ++ rest) valid short fits
          (omega (arith, length-append (names_bytes host more) tail)) a)
  extensions_loop-found (e ∷ es) (suc fuel) ext_end p host more tail rest valid short fits others f
        end a =
      let inside =
        length-append e.payload (extensions_bytes es (server_name_bytes host more tail)) in
      let at_len = IsAt-two small p _ _ _ a in
      let at_payload = IsAt-two small (p + 2) _ _ _ at_len in
      rw (lt→ltb p ext_end (omega arith)) (
        extension_round-skip _ ext_end p e _ others.0 (omega (arith, inside)) a
        ∙ extensions_loop-found es fuel ext_end (p + 2 + 2 + length e.payload) host more tail rest
            valid short fits others.1 (omega arith) (omega (arith, inside))
            (IsAt-skip small (p + 2 + 2) e.payload _ at_payload))

-- ===== src/HostCerts.antt =====
-- crates/tuyau-server/src/host_certs.rs: the certs of single hosts. A cert with its key is of any
-- type; reading the two files and making a key of them is an argument.
pub mod Load
use tuyau.Prelude.{
  ℕ, ◌≡◌, ◌↔◌, Bool, ◌&&◌, List, [], ◌∷◌, Option, none, some, arith, Eq, ◌==◌, text_eq, is_some,
  or_else, Result, ok, err, ◌>>=◌, ◌>>◌, text_beq_iff,
}
use tuyau.Prelude.Texts.{Text, to_ascii_lowercase, trim_end_matches}
use tuyau.Prelude.Dict.{Dict, get, insert}
use tuyau.Config.{ServerConfig, HostCert, host_certs}
use tuyau.Routes.{host_patterns, find_map}

pub pair_beq : Text × Text → Text × Text → Bool
pair_beq a b = (a.0 == b.0) && (a.1 == b.1)

pub pair_beq_iff : (a b : Text × Text) → (pair_beq a b ≡ Bool.true) ↔ (a ≡ b)
unfolding pair_beq
pair_beq_iff a b = ground (arith, text_beq_iff a.0 b.0, text_beq_iff a.1 b.1)

instance abbrev pub pair_eq : Eq (Text × Text)
pair_eq = record { beq = pair_beq; beq_iff = pair_beq_iff }

module _ {E K : Type 0} (load_key : Text → Text → Result E K) where
  -- The key of a cert and key file, and the cache afterwards.
  unfoldable pub load_once :
      Option K → Text → Text → Dict (Text × Text) K → Result E (K × Dict (Text × Text) K)
  load_once (some certified) cert key loaded = ok (certified, loaded)
  load_once none cert key loaded = do
    certified ← load_key cert key
    ok (certified, insert (cert, key) certified loaded)

  -- The loop over the entries.
  unfoldable pub load_all :
      List HostCert → Dict (Text × Text) K → Dict Text K → Result E (Dict Text K)
  unfolding load_once
  load_all [] loaded certs = ok certs
  load_all (c ∷ cs) loaded certs = elim c.cert [
    | none ↦ load_all cs loaded certs
    | some cert ↦ elim c.key [
      | none ↦ load_all cs loaded certs
      | some key ↦ load_once (get (cert, key) loaded) cert key loaded >>= λ r.
          load_all cs r.1 (insert (to_ascii_lowercase c.host) r.0 certs)
    ]
  ]

  unfoldable pub load : ServerConfig → Result E (Dict Text K)
  unfolding load_all
  load cfg = load_all (host_certs cfg) [] []

unfoldable pub select {ℓ} : {K : Type ℓ} → Dict Text K → Text → Option K
select certs host = find_map (host_patterns (to_ascii_lowercase (trim_end_matches b'.' host))) certs

unfoldable pub covers {ℓ} : {K : Type ℓ} → Dict Text K → Text → Bool
unfolding select
covers certs host = is_some (select certs host)

-- `HostCertResolver::resolve` at the name of the ClientHello.
unfoldable pub resolve {ℓ} :
    {K : Type ℓ} → Dict Text K → (Option Text → Option K) → Option Text → Option K
unfolding select
resolve certs default none = default none
resolve certs default (some sni) = or_else (select certs sni) (default (some sni))

-- `resolver`: without certs it is the default itself.
unfoldable pub resolver {ℓ} :
    {K : Type ℓ} → Dict Text K → (Option Text → Option K) → Option Text → Option K
unfolding resolve
resolver [] default = default
resolver (c ∷ certs) default = resolve (c ∷ certs) default

-- ===== src/Certs.antt =====
-- crates/tuyau-server/src/cert.rs: the files of the server's certs. The state is the content of the
-- files. PEM and the making of a cert are the crates rustls_pemfile and rcgen, the records `Pem` and
-- `Issue`; a path under the directory, SHA-256 and which paths can be written are arguments.
pub mod Restart
use tuyau.Prelude.{
  ℕ, ◌≡◌, Bool, ◌&&◌, List, [], ◌∷◌, map, Option, none, some, if◌then◌else◌, text_eq, is_some,
  unwrap_or, Result, ok, err, ◌>>=◌, ◌>>◌, ok_or, reject,
}
use tuyau.Prelude.Texts.{Text, bytes}
use tuyau.Prelude.Dict.{Dict, get, insert}
use tuyau.Config.{is_empty}

pub data CertError : Type 0 where
  io rcgen : Text → CertError
  pem_no_cert pem_no_key : Text → CertError
  bad_ca : Text → Text → CertError

pub record CertMaterial : Type 0 where
  pub cert_der : List ℕ
  pub key_der : List ℕ
  pub fingerprint : List ℕ

-- The items of a PEM file; `private_key` is the first key of any kind.
pub record Pem : Type 0 where
  pub certs : List ℕ → List (Result Text (List ℕ))
  pub pkcs8_private_keys : List ℕ → List (Result Text (List ℕ))
  pub private_key : List ℕ → Result Text (Option (List ℕ))

-- A new self-signed cert with its key, as DER and as PEM.
pub record Issued : Type 0 where
  pub cert_der : List ℕ
  pub key_der : List ℕ
  pub cert_pem : List ℕ
  pub key_pem : List ℕ

-- rcgen's key and self-signed cert for a list of names and a common name.
abbrev pub Issue : Type 0
Issue = List Text → Text → Result Text Issued

-- What the operating system says: a file under the directory, and what can be made and written.
pub record Dir : Type 0 where
  pub join : Text → Text
  pub can_create : Bool
  pub can_write : Text → Bool

abbrev pub Files : Type 0
Files = Dict Text (List ℕ)

abbrev pub cert_file : Text
cert_file = bytes "tunnel-cert.pem"

abbrev pub key_file : Text
key_file = bytes "tunnel-key.pem"

abbrev pub io_error {ℓ} : {A : Type ℓ} → Result Text A → Result CertError A
io_error (ok a) = ok a
io_error (err e) = err (io e)

-- `fs::File::open` and reading it.
abbrev pub open_file : Files → Text → Result CertError (List ℕ)
open_file files path = ok_or (get path files) (io path)

-- `.next().ok_or_else(...)??`
abbrev pub first_item : CertError → List (Result Text (List ℕ)) → Result CertError (List ℕ)
first_item missing [] = err missing
first_item missing (item ∷ items) = io_error item

-- `.collect::<Result<_, _>>()?`
abbrev pub all_items : List (Result Text (List ℕ)) → Result CertError (List (List ℕ))
all_items [] = ok []
all_items (err e ∷ items) = err (io e)
all_items (ok item ∷ items) = do rest ← all_items items; ok (item ∷ rest)

-- `fs::write(path, ...)?`, followed by what is done with the files then.
abbrev pub write {ℓ} :
    {A : Type ℓ}
    → Dir
    → Text
    → List ℕ
    → (Files → Files × Result CertError A)
    → Files
    → Files × Result CertError A
write dir path content next files =
    if dir.can_write path then next (insert path content files) else (files, err (io path))

module _ (pem : Pem) (sha256 : List ℕ → List ℕ) where
  unfoldable pub read_first_cert : Files → Text → Result CertError (List ℕ)
  read_first_cert files path = do
    content ← open_file files path
    first_item (pem_no_cert path) (pem.certs content)

  unfoldable pub read_first_pkcs8_key : Files → Text → Result CertError (List ℕ)
  read_first_pkcs8_key files path = do
    content ← open_file files path
    first_item (pem_no_key path) (pem.pkcs8_private_keys content)

  abbrev pub material : List ℕ → List ℕ → CertMaterial
  material cert key = record { cert_der = cert; key_der = key; fingerprint = sha256 cert }

  unfoldable pub load : Files → Text → Text → Result CertError CertMaterial
  unfolding read_first_cert read_first_pkcs8_key
  load files cert_path key_path = do
    cert_der ← read_first_cert files cert_path
    key_der ← read_first_pkcs8_key files key_path
    ok (material cert_der key_der)

  -- The cert file is written before the key file.
  unfoldable pub save :
      Dir → Text → Text → Result Text Issued → Files → Files × Result CertError CertMaterial
  save dir cert_path key_path (err e) files = (files, err (rcgen e))
  save dir cert_path key_path (ok issued) files =
      write dir cert_path issued.cert_pem
        (write dir key_path issued.key_pem
          λ written. (written, ok (material issued.cert_der issued.key_der)))
        files

  unfoldable pub generate :
      Dir → Issue → Text → Text → Files → Files × Result CertError CertMaterial
  unfolding save
  generate dir issue cert_path key_path files =
      if dir.can_create
      then save dir cert_path key_path (issue (bytes "tuyau-tunnel" ∷ []) (bytes "tuyau-tunnel"))
          files
      else (files, err (io (bytes "directory")))

  unfoldable pub load_or_generate : Dir → Issue → Files → Files × Result CertError CertMaterial
  unfolding load generate
  load_or_generate dir issue files =
      let cert_path = dir.join cert_file in
      let key_path = dir.join key_file in
      if is_some (get cert_path files) && is_some (get key_path files)
      then (files, load files cert_path key_path)
      else generate dir issue cert_path key_path files

  -- The names of the cert, which are never none, and its common name.
  abbrev pub san_list : List Text → List Text
  san_list [] = bytes "tuyau-public" ∷ []
  san_list (host ∷ hosts) = host ∷ hosts

  abbrev pub common_name : List Text → Text
  common_name [] = bytes "tuyau-public"
  common_name (host ∷ hosts) = host

  unfoldable pub generate_public_cert :
      Dir → Issue → List Text → Files → Files × Result CertError CertMaterial
  unfolding save
  generate_public_cert dir issue hostnames files =
      if dir.can_create
      then save dir (dir.join (bytes "public-cert.pem")) (dir.join (bytes "public-key.pem"))
          (issue (san_list hostnames) (common_name hostnames)) files
      else (files, err (io (bytes "directory")))

  unfoldable pub load_chain : Files → Text → Text → Result CertError (List (List ℕ) × List ℕ)
  load_chain files cert_path key_path = do
    content ← open_file files cert_path
    chain ← all_items (pem.certs content)
    reject (is_empty chain) (pem_no_cert cert_path)
    key_content ← open_file files key_path
    found ← io_error (pem.private_key key_content)
    key ← ok_or found (pem_no_key key_path)
    ok (chain, key)

  -- The loop of `load_roots`; `add` is rustls' check of a CA cert.
  unfoldable pub add_roots :
      (List ℕ → Result Text (Unit {0}))
      → Text
      → List (Result Text (List ℕ))
      → List (List ℕ)
      → Result CertError (List (List ℕ))
  add_roots add path [] roots = ok roots
  add_roots add path (err e ∷ items) roots = err (io e)
  add_roots add path (ok cert ∷ items) roots = elim (add cert) [
    | err e ↦ err (bad_ca path e)
    | ok u ↦ add_roots add path items (cert ∷ roots)
  ]

  unfoldable pub load_roots :
      (List ℕ → Result Text (Unit {0})) → Files → Text → Result CertError (List (List ℕ))
  unfolding add_roots
  load_roots add files path = do
    content ← open_file files path
    roots ← add_roots add path (pem.certs content) []
    reject (is_empty roots) (pem_no_cert path)
    ok roots

-- ===== src/Routes/Modes.antt =====
-- `is_terminated` and `is_offload` of crates/tuyau-server/src/routes.rs against each other, and
-- against `lookup`.
use tuyau.Prelude.{
  ◌≡◌, refl, inl, inr, true, List, [], ◌∷◌, map, Option, none, some, arith, text_eq, Bool-cases,
  Has, Has-append, retain, contains, contains_iff,
}
use mathlib.Core.Bool.{false≢true}
use tuyau.Prelude.Texts.{Text, to_ascii_lowercase}
use tuyau.Protocol.Frame.{TlsMode, terminated, tls_offload, passthrough, terminates, is_tls_offload}
use tuyau.Config.{HostnameEntry, UpstreamEntry}
use tuyau.Routes.{
  LocalUpstream, RoutingTable, wildcard_upstream, from_config, hosts_in_mode, is_terminated,
  is_offload, mode_is,
}

-- The offload set lies in the terminated set.
abbrev pub IsCovered : RoutingTable → Type 0
IsCovered t = (name : Text) → Has name t.offload → Has name t.terminated

offload-terminates : (m : TlsMode) → is_tls_offload m ≡ true → terminates m ≡ true
offload-terminates terminated h = refl
offload-terminates tls_offload h = refl
offload-terminates passthrough h = absurd (false≢true h)

-- A weaker test keeps more.
lower-retain {ℓ} :
    {A : Type ℓ} (f : A → Text) (mode : A → TlsMode) (name : Text) (xs : List A)
    → Has name (map f (retain (λ a. is_tls_offload (mode a)) xs))
    → Has name (map f (retain (λ a. terminates (mode a)) xs))
unfolding retain
lower-retain f mode name [] h = h
lower-retain f mode name (x ∷ xs) h = elim (Bool-cases (is_tls_offload (mode x))) [
  | inl off ↦
      rw (offload-terminates (mode x) off)
        (elim (rw off at h) [ inl e ↦ inl e | inr rest ↦ inr (lower-retain f mode name xs rest) ])
  | inr on ↦ elim (Bool-cases (terminates (mode x))) [
    | inl t ↦ rw t (inr (lower-retain f mode name xs (rw on at h)))
    | inr p ↦ rw p (lower-retain f mode name xs (rw on at h))
  ]
]

-- Whatever the configuration, each offload host is terminated at the start.
pub from_config-IsCovered :
    (hostnames : List HostnameEntry) (upstreams : List UpstreamEntry)
    → IsCovered (from_config hostnames upstreams)
unfolding from_config hosts_in_mode
from_config-IsCovered hostnames upstreams name h =
    let (split, _) =
      Has-append name
        (map (λ h. to_ascii_lowercase h.host) (retain (λ h. is_tls_offload h.tls_mode) hostnames))
        _ in
    let (_, join) =
      Has-append name
        (map (λ h. to_ascii_lowercase h.host) (retain (λ h. terminates h.tls_mode) hostnames)) _ in
    elim (split h) [
      | inl i ↦
          join
            (inl (lower-retain (λ h. to_ascii_lowercase h.host) (λ h. h.tls_mode) name hostnames i))
      | inr i ↦
          join
            (inr (lower-retain (λ u. to_ascii_lowercase u.host) (λ u. u.tls_mode) name upstreams i))
    ]

module _ (t : RoutingTable) (host : Text) where
  wildcard-terminates :
      (up : Option LocalUpstream)
      → mode_is (λ u. is_tls_offload u.tls_mode) up ≡ true
      → mode_is (λ u. terminates u.tls_mode) up ≡ true
  wildcard-terminates none h = h
  wildcard-terminates (some up) h = offload-terminates up.tls_mode h

  -- While the terminated set covers the offload set, an offload host is terminated, whichever of
  -- its entry or a wildcard upstream decides.
  pub is_offload-is_terminated :
      IsCovered t → is_offload t host ≡ true → is_terminated t host ≡ true
  unfolding is_offload is_terminated
  is_offload-is_terminated covered h =
      elim (Bool-cases (contains t.offload (to_ascii_lowercase host))) [
        | inl own ↦
            let there = (contains_iff t.terminated (to_ascii_lowercase host)).1 (
              covered (to_ascii_lowercase host)
                ((contains_iff t.offload (to_ascii_lowercase host)).0 own)) in
            rw there refl
        | inr other ↦
            let wild =
              wildcard-terminates (wildcard_upstream t (to_ascii_lowercase host)) (rw other at h) in
            rw wild (ground arith)
      ]

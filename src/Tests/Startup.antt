-- ===== src/Tests/Startup.antt =====
-- The theorems on the configuration and on admission at a concrete configuration.
use tuyau.Prelude.{text_eq, text_beq, retain, ◌≡◌, refl, inl, inr, ◌↔◌, [], ◌∷◌, some, ok, arith}
use tuyau.Prelude.Texts.{bytes}
use tuyau.Protocol.Frame.{tls_offload}
use tuyau.Config.{round_robin, validate}
use tuyau.Config.Validate.{IsValid, validate_iff}
use tuyau.Backend.{ClientGrant, from_config, admit}
use tuyau.Prelude.Dict.{get}
use tuyau.Routes.Install.{OwnedBy}
use tuyau.Routes.History.{installs, removes, run}
use tuyau.Backend.Owners.{start_table, run-OwnedBy}
use tuyau.Backend.Admit.{Admits, admit-Admits}
use tuyau.Tests.Tables.{ann, web, config, local_port}

validate_iff_example : (validate config ≡ ok tt) ↔ IsValid config
validate_iff_example = validate_iff config

pub config-IsValid : IsValid config
config-IsValid = record {
  routes = inl (λ h. cc);
  clients = (ground arith, (λ h. elim h [ ], tt));
  hosts = (ground arith, (λ h. elim h [ ], tt));
  targets = (inl (local_port, refl, refl), tt);
  names = (ground arith, tt);
  patterns = (inr (bytes "api.x", ((λ h. cc), ground arith), inl refl), tt);
  certs = (inl (refl, refl), (inl (refl, refl), tt));
  owners = (inl refl, tt);
  contact = tt;
}

admit-Admits_example : Admits (from_config config) (3 ∷ []) (admit (from_config config) (3 ∷ []))
admit-Admits_example = admit-Admits (from_config config) (3 ∷ [])

abbrev ann_grant : ClientGrant
ann_grant = record { client_name = ann; balance = round_robin; hostnames = (web, tls_offload) ∷ [] }

config-admits_ann : admit (from_config config) (1 ∷ 2 ∷ []) ≡ some ann_grant
unfolding admit text_beq retain
config-admits_ann = refl

-- A tunnel of the client and one that was closed.
run-OwnedBy_example : OwnedBy ann (
    get web
      (run
        (installs ((web, tls_offload) ∷ []) ann round_robin 7 ∷ removes 6 ∷ [])
        (start_table config)).inner)
run-OwnedBy_example =
    run-OwnedBy config (installs ((web, tls_offload) ∷ []) ann round_robin 7 ∷ removes 6 ∷ [])
      (1 ∷ 2 ∷ []) ann_grant (web, tls_offload) ((validate_iff config).1 config-IsValid)
      ((1 ∷ 2 ∷ [], config-admits_ann), (tt, tt)) config-admits_ann (inl refl)

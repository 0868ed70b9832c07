-- ===== src/Sni/Sample.antt =====
-- A ClientHello for the tests, and what `parse_sni` of crates/tuyau-server/src/sni.rs finds in it.
use tuyau.Prelude.{ℕ, ◌≡◌, refl, List, [], ◌∷◌, ◌++◌}
use tuyau.Prelude.Texts.{bytes}
use tuyau.Sni.{parse_sni}
use tuyau.Sni.Results.{ret}

abbrev pub zeros_32 : List ℕ
zeros_32 =
    0 ∷ 0 ∷ 0 ∷ 0 ∷ 0 ∷ 0 ∷ 0 ∷ 0 ∷ 0 ∷ 0 ∷ 0 ∷ 0 ∷ 0 ∷ 0 ∷ 0 ∷ 0 ∷ 0 ∷ 0 ∷ 0 ∷ 0 ∷ 0 ∷ 0 ∷ 0 ∷ 0
    ∷ 0 ∷ 0 ∷ 0 ∷ 0 ∷ 0 ∷ 0 ∷ 0 ∷ 0 ∷ []

-- A ClientHello with the one extension `server_name`, for the host `a.x`.
abbrev pub client_hello : List ℕ
client_hello =
    0x16 ∷ 3 ∷ 1 ∷ 0 ∷ 59 ∷ 1 ∷ 0 ∷ 0 ∷ 55 ∷ 3 ∷ 3 ∷ zeros_32
    ++ 0 ∷ 0 ∷ 2 ∷ 0x13 ∷ 1 ∷ 1 ∷ 0 ∷ 0 ∷ 12 ∷ 0 ∷ 0 ∷ 0 ∷ 8 ∷ 0 ∷ 6 ∷ 0 ∷ 0 ∷ 3 ∷ bytes "a.x"

pub parse_sni-client_hello : parse_sni client_hello ≡ ret (bytes "a.x")
unfolding parse_sni
parse_sni-client_hello = refl

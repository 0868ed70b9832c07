-- ===== src/Tests/Frames.antt =====
-- The theorems on frames and on the ClientHello at concrete bytes.
use tuyau.Prelude.{
  ℕ, ◌+◌, ◌≤◌, ◌≡◌, refl, Bool, true, ◌&&◌, List, [], ◌∷◌, ◌++◌, none, some, arith, Result, ok, err,
  length, All, ltb, subst,
}
use tuyau.Prelude.Texts.{Text, bytes}
use tuyau.Prelude.Bytes.{IsByte}
use tuyau.Protocol.Codec.{max_frame_size, Cbor, decode, read_frame, encode}
use tuyau.Protocol.Codec.RoundTrip.{ReadsBack, decode-encode}
use tuyau.Protocol.Codec.Prefix.{decode-Stable}
use tuyau.Public.{tls_stream}
use tuyau.Public.Entry.{handle_public}
use tuyau.Public.Handled.{IsHandled, handle_public-IsHandled}
use tuyau.Tests.Tables.{two_conns}
use tuyau.Sni.{parse_sni}
use tuyau.Sni.Results.{Safe}
use tuyau.Sni.Sample.{client_hello}
use tuyau.Sni.Safety.{IsHost, parse_sni-Safe}

-- A codec of single bytes.
abbrev read_byte : List ℕ → Result Text ℕ
read_byte (n ∷ []) = ok n
read_byte _ = err (bytes "one byte")

abbrev byte_cbor : Cbor ℕ
byte_cbor = record { into_writer = λ n. ok (n ∷ []); from_reader = read_byte }

byte_cbor-ReadsBack : ReadsBack byte_cbor
byte_cbor-ReadsBack item payload h = subst (λ r. back r ≡ ok item) h refl
  where
    back : Result Text (List ℕ) → Result Text ℕ
    back (ok p) = read_byte p
    back (err e) = err e

abbrev frame_of_5 : List ℕ
frame_of_5 = 0 ∷ 0 ∷ 0 ∷ 1 ∷ 5 ∷ []

decode-encode_example :
    (out : List ℕ) × (frame_of_5 ≡ [] ++ out)
    × (length out ≤ 4 + max_frame_size)
    × ((rest : List ℕ)
        → (decode byte_cbor (out ++ rest) ≡ (ok (some 5), rest))
          × (read_frame byte_cbor (out ++ rest) ≡ ok (5, rest)))
unfolding encode
decode-encode_example = decode-encode byte_cbor byte_cbor-ReadsBack 5 [] frame_of_5 refl

decode-Stable_example : decode byte_cbor (frame_of_5 ++ 9 ∷ []) ≡ (ok (some 5), 9 ∷ [])
unfolding decode
decode-Stable_example = decode-Stable byte_cbor frame_of_5 (9 ∷ [])

-- Whether all are bytes, as a test.
abbrev all_bytes : List ℕ → Bool
all_bytes [] = true
all_bytes (b ∷ bs) = ltb b 256 && all_bytes bs

all_bytes-IsByte : (bs : List ℕ) → all_bytes bs ≡ true → All IsByte bs
all_bytes-IsByte [] h = tt
all_bytes-IsByte (b ∷ bs) h = (ground arith, all_bytes-IsByte bs (ground arith))

parse_sni-Safe_example : Safe (IsHost client_hello) (parse_sni client_hello)
parse_sni-Safe_example =
    parse_sni-Safe client_hello (all_bytes-IsByte client_hello refl) (omega arith)

handle_public-IsHandled_example :
    IsHandled
      (λ c. true)
      true
      two_conns
      (λ sni. tls_stream none true)
      client_hello
      (handle_public (λ c. true) true two_conns (λ sni. tls_stream none true) client_hello)
handle_public-IsHandled_example =
    handle_public-IsHandled (λ c. true) true two_conns (λ sni. tls_stream none true) client_hello
      (all_bytes-IsByte client_hello refl)

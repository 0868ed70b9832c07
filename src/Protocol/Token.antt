-- ===== src/Protocol/Token.antt =====
-- crates/tuyau-protocol/src/frame.rs, `token_serde`: a token on the wire, as serde's data model hands
-- it to the visitor. The crate `ciborium` makes CBOR of it.
pub mod Forms
use tuyau.Prelude.{
  ℕ, zero, suc, ◌+◌, ◌≡◌, List, [], ◌∷◌, Result, ok, err, ◌>>=◌, if◌then◌else◌, length, ◌==◌,
  nat_eq,
}

-- What the format may hand over: bytes, a sequence whose elements may fail to be read, or a value of
-- another type.
pub data Form (E : Type 0) : Type 0 where
  byte_string : List ℕ → Form E
  sequence : List (Result E ℕ) → Form E
  other : Form E

pub data TokenError (E : Type 0) : Type 0 where
  invalid_length : ℕ → TokenError E
  element : E → TokenError E
  invalid_type : TokenError E

abbrev pub token_len : ℕ
token_len = 32

module _ {E : Type 0} where
  abbrev pub serialize : List ℕ → Form E
  serialize bytes = byte_string bytes

  unfoldable pub visit_bytes : List ℕ → Result (TokenError E) (List ℕ)
  visit_bytes v = if length v == token_len then ok v else err (invalid_length (length v))

  -- The loop over the slots that are left, from slot `i`.
  unfoldable pub fill : ℕ → ℕ → List (Result E ℕ) → Result (TokenError E) (List ℕ)
  fill zero i seq = ok []
  fill (suc slots) i [] = err (invalid_length i)
  fill (suc slots) i (err e ∷ seq) = err (element e)
  fill (suc slots) i (ok byte ∷ seq) = do out ← fill slots (i + 1) seq; ok (byte ∷ out)

  unfoldable pub visit_seq : List (Result E ℕ) → Result (TokenError E) (List ℕ)
  unfolding fill
  visit_seq seq = fill token_len 0 seq

  unfoldable pub deserialize : Form E → Result (TokenError E) (List ℕ)
  unfolding visit_bytes visit_seq
  deserialize (byte_string v) = visit_bytes v
  deserialize (sequence seq) = visit_seq seq
  deserialize other = err invalid_type

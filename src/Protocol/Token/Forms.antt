-- ===== src/Protocol/Token/Forms.antt =====
-- The forms of a token that `token_serde` of crates/tuyau-protocol/src/frame.rs takes.
use tuyau.Prelude.{
  ℕ, zero, suc, ◌+◌, ◌≡◌, refl, sym, ap, ◌∙◌, ◌↔◌, List, [], ◌∷◌, map, take, Result, ok, err,
  ok_inj, Result-cases, inl, inr, arith, length, nat_eq,
}
use tuyau.Protocol.Token.{
  Form, byte_string, sequence, other, token_len, serialize, visit_bytes, fill, visit_seq,
  deserialize,
}

module _ {E : Type 0} where
  -- The first elements of a sequence are these bytes, as many as there are slots.
  abbrev Fills : ℕ → List (Result E ℕ) → List ℕ → Type 0
  Fills slots seq token = (length token ≡ slots) × (take slots seq ≡ map ok token)

  fill-Fills :
      (slots i : ℕ) (seq : List (Result E ℕ)) (token : List ℕ)
      → fill slots i seq ≡ ok token
      → Fills slots seq token
  unfolding fill
  fill-Fills zero i seq token h =
      let nil : [] ≡ token = ok_inj h in (ap length (sym nil), ap (map ok) nil)
  fill-Fills (suc slots) i [] token h = absurd (ground arith)
  fill-Fills (suc slots) i (err e ∷ seq) token h = absurd (ground arith)
  fill-Fills (suc slots) i (ok byte ∷ seq) token h = elim (Result-cases (fill slots (i + 1) seq)) [
    | inl (out, e) ↦
        let same : byte ∷ out ≡ token = ok_inj (rw e at h) in
        let (len, elements) = fill-Fills slots (i + 1) seq out e in
        (sym (ap length same) ∙ ap suc len, ap (◌∷◌ (ok byte)) elements ∙ ap (map ok) same)
    | inr (bad, e) ↦ absurd (ground arith)
  ]

  Fills-fill :
      (slots i : ℕ) (seq : List (Result E ℕ)) (token : List ℕ)
      → length token ≡ slots
      → take slots seq ≡ map ok token
      → fill slots i seq ≡ ok token
  unfolding fill
  Fills-fill zero i seq [] len h = refl
  Fills-fill zero i seq (b ∷ token) len h = absurd (omega arith)
  Fills-fill (suc slots) i seq [] len h = absurd (omega arith)
  Fills-fill (suc slots) i [] (b ∷ token) len h = absurd (ground arith)
  Fills-fill (suc slots) i (err e ∷ seq) (b ∷ token) len h = absurd (ground arith)
  Fills-fill (suc slots) i (ok byte ∷ seq) (b ∷ token) len h =
      let rest : take slots seq ≡ map ok token = cc in
      let same : byte ≡ b = cc in
      rw (Fills-fill slots (i + 1) seq token (omega arith) rest, same) refl

  abbrev pub IsFormOf : List ℕ → Form E → Type 0
  IsFormOf token (byte_string v) = v ≡ token
  IsFormOf token (sequence seq) = take token_len seq ≡ map ok token
  IsFormOf token other = ⊥

  -- A token is read from a byte string of 32 bytes, and from a sequence that starts with its 32
  -- bytes, whatever follows there; from nothing else.
  pub deserialize_iff :
      (form : Form E) (token : List ℕ)
      → (deserialize form ≡ ok token) ↔ ((length token ≡ token_len) × IsFormOf token form)
  unfolding deserialize visit_bytes visit_seq
  deserialize_iff (byte_string v) token = (λ h. ground arith, λ (len, same). ground arith)
  deserialize_iff (sequence seq) token = (
    fill-Fills token_len 0 seq token,
    λ (len, elements). Fills-fill token_len 0 seq token len elements,
  )
  deserialize_iff other token = (λ h. absurd (ground arith), λ (len, bad). absurd bad)

  -- A token of 32 bytes is read back from the form that it is written in.
  deserialize-serialize :
      (token : List ℕ) → length token ≡ token_len → deserialize (serialize {E = E} token) ≡ ok token
  deserialize-serialize token len = (deserialize_iff (serialize token) token).1 (len, refl)

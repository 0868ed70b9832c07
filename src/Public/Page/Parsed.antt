-- ===== src/Public/Page/Parsed.antt =====
-- What an HTTP client reads from the page of `write_502` in crates/tuyau-server/src/public.rs.
use tuyau.Prelude.{
  ℕ, zero, suc, ◌<◌, ◌≡◌, refl, ap, ◌&&◌, List, [], ◌∷◌, ◌++◌, Option, none, some, arith,
  if◌then◌else◌, ◌==◌, nat_eq, length, All, All-append, All-map, and_then,
}
use tuyau.Prelude.Texts.{Text, bytes, strip_prefix, strip_prefix_append}
use tuyau.Prelude.Decimal.{show, value, value-show, show-IsDigit}
use tuyau.Public.Page.{crlf, status_line, content_type, content_length, connection_close, write_502}

-- The text before the first line break, and the one behind it.
pub split_line : Text → Option (Text × Text)
split_line [] = none
split_line (a ∷ []) = none
split_line (a ∷ b ∷ s) =
    let rest = split_line (b ∷ s) in
    if (a == 13) && (b == 10) then some ([], s) else and_then rest λ p. some (a ∷ p.0, p.1)

pub record Response : Type 0 where
  pub status : Text
  pub headers : List Text
  pub body : Text

-- A header line, or the empty line that ends the headers, with what follows it.
abbrev with_line : Text → Option (List Text × Text) → Text → Option (List Text × Text)
with_line [] more rest = some ([], rest)
with_line (c ∷ l) more rest = and_then more λ q. some ((c ∷ l) ∷ q.0, q.1)

-- The header lines up to the first that is empty, at most this many.
pub read_headers : ℕ → Text → Option (List Text × Text)
read_headers zero s = none
read_headers (suc n) s = and_then (split_line s) λ p. with_line p.0 (read_headers n p.1) p.1

unfoldable pub read_response : ℕ → Text → Option Response
read_response n s = and_then (split_line s) λ p.
    and_then (read_headers n p.1) λ q. some (record { status = p.0; headers = q.0; body = q.1 })

-- A character behind the line breaks.
abbrev Printable : ℕ → Type 0
Printable c = 13 < c

split_line-append : (l s : Text) → All Printable l → split_line (l ++ (crlf ++ s)) ≡ some (l, s)
unfolding split_line
split_line-append [] s h = refl
split_line-append (c ∷ []) s h = ground arith
split_line-append (c ∷ d ∷ l) s h = ground (arith, split_line-append (d ∷ l) s h.1)

read_headers-line :
    (n c : ℕ) (l s : Text) {q : List Text × Text}
    → All Printable (c ∷ l)
    → read_headers n s ≡ some q
    → read_headers (suc n) ((c ∷ l) ++ (crlf ++ s)) ≡ some ((c ∷ l) ∷ q.0, q.1)
unfolding read_headers
read_headers-line n c l s h e = rw (split_line-append (c ∷ l) s h, e) refl

read_headers-end : (n : ℕ) (s : Text) → read_headers (suc n) (crlf ++ s) ≡ some ([], s)
unfolding read_headers
read_headers-end n s = rw (split_line-append [] s tt) refl

content_length-Printable : (n : ℕ) → All Printable (content_length n)
content_length-Printable n =
    All-append Printable (bytes "content-length: ") (show n) (omega arith)
      (All-map (λ c d. omega arith) (show n) (show-IsDigit n))

-- An HTTP client that takes up to three header lines reads from the page the status, the three
-- headers and exactly the body; the digits behind `content-length` spell the body's length.
pub read_response-write_502 :
    (n : ℕ) (body : Text)
    → (read_response (suc (suc (suc (suc n)))) (write_502 body)
        ≡ some (record {
          status = status_line;
          headers = content_type ∷ content_length (length body) ∷ connection_close ∷ [];
          body = body;
        }))
      × (and_then
            (strip_prefix (bytes "content-length: ") (content_length (length body)))
            (λ s. some (value s))
          ≡ some (length body))
unfolding read_response write_502
read_response-write_502 n body =
    let len = content_length (length body) in
    let tail : Text = connection_close ++ (crlf ++ (crlf ++ body)) in
    let last : read_headers (suc (suc n)) (connection_close ++ (crlf ++ (crlf ++ body)))
        ≡ some (connection_close ∷ [], body) =
      read_headers-line (suc n) _ _ (crlf ++ body) (omega arith) (read_headers-end n body) in
    let with_length : read_headers (suc (suc (suc n))) (len ++ (crlf ++ tail))
        ≡ some (len ∷ connection_close ∷ [], body) =
      read_headers-line (suc (suc n)) _ _ tail (content_length-Printable (length body)) last in
    let all : read_headers (suc (suc (suc (suc n))))
          (content_type ++ (crlf ++ (len ++ (crlf ++ tail))))
        ≡ some (content_type ∷ len ∷ connection_close ∷ [], body) =
      read_headers-line (suc (suc (suc n))) _ _ (len ++ (crlf ++ tail)) (omega arith) with_length in
    (
      rw
          (split_line-append status_line (content_type ++ (crlf ++ (len ++ (crlf ++ tail))))
            (omega arith))
          (rw all refl),
      rw (strip_prefix_append (bytes "content-length: ") (show (length body)))
          (ap some (value-show (length body))),
    )

-- ===== src/Public/Page.antt =====
-- crates/tuyau-server/src/public.rs: `write_502`, the HTTP response for a terminated host that has
-- no backend.
pub mod Parsed
use tuyau.Prelude.{ℕ, List, [], ◌∷◌, ◌++◌, length}
use tuyau.Prelude.Texts.{Text, bytes}
use tuyau.Prelude.Decimal.{show}

abbrev pub crlf : Text
crlf = 13 ∷ 10 ∷ []

abbrev pub status_line : Text
status_line = bytes "HTTP/1.1 502 Bad Gateway"

abbrev pub content_type : Text
content_type = bytes "content-type: text/html; charset=utf-8"

abbrev pub content_length : ℕ → Text
content_length n = bytes "content-length: " ++ show n

abbrev pub connection_close : Text
connection_close = bytes "connection: close"

-- The response that is written; `body.len()` counts bytes.
unfoldable pub write_502 : Text → Text
write_502 body =
    status_line
    ++ (crlf
        ++ (content_type
            ++ (crlf
                ++ (content_length (length body)
                    ++ (crlf ++ (connection_close ++ (crlf ++ (crlf ++ body))))))))

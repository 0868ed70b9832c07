-- ===== src/Sni.antt =====
-- crates/tuyau-server/src/sni.rs: the host name in the bytes of a TLS ClientHello. Reads and
-- advances keep Rust's checks: an index, a slice or an addition out of range panics. The two
-- loops take fuel, one round for each byte of the buffer.
pub mod Results
pub mod Utf8
pub mod Safety
pub mod Sample
pub mod Positions
pub mod Extensions
pub mod Complete
use tuyau.Prelude.{
  ℕ, zero, suc, ◌+◌, ◌*◌, ◌-◌, ◌^◌, ◌≡◌, Bool, true, false, List, Option, none, some, if◌then◌else◌,
  ltb, leb, not, ◌==◌, nat_eq, length, get_elem?, take, drop,
}
use tuyau.Prelude.Texts.{Text}
use Results.{Outcome, ret, nothing, panicked, stuck, ◌>>=◌, ◌>>◌, refuse}
use Utf8.{is_utf8}

abbrev pub usize_mod : ℕ
usize_mod = 2 ^ 64

abbrev pub max_sni_len : ℕ
max_sni_len = 253

-- `a + b`, which panics if it overflows, and `a.checked_add(b)?`.
pub add : ℕ → ℕ → Outcome ℕ
add a b = if ltb (a + b) usize_mod then ret (a + b) else panicked

pub checked_add : ℕ → ℕ → Outcome ℕ
checked_add a b = if ltb (a + b) usize_mod then ret (a + b) else nothing

-- `buf[i]` and `&buf[a..b]`
pub index : List ℕ → ℕ → Outcome ℕ
index buf i = elim (get_elem? buf i) [ none ↦ panicked | some v ↦ ret v ]

pub slice : List ℕ → ℕ → ℕ → Outcome (List ℕ)
slice buf a b =
    if ltb b a
    then panicked
    else (if ltb (length buf) b then panicked else ret (take (b - a) (drop a buf)))

-- A reader gives the value and the new position.
pub read_u8 : List ℕ → ℕ → Outcome (ℕ × ℕ)
read_u8 buf p = elim (get_elem? buf p) [ none ↦ nothing | some v ↦ do p' ← add p 1; ret (v, p') ]

pub read_u16 : List ℕ → ℕ → Outcome (ℕ × ℕ)
unfolding index
read_u16 buf p = do
  end ← add p 2
  refuse (ltb (length buf) end)
  a ← index buf p
  b ← index buf (p + 1)
  ret (a * 256 + b, end)

pub read_u24 : List ℕ → ℕ → Outcome (ℕ × ℕ)
unfolding index
read_u24 buf p = do
  end ← add p 3
  refuse (ltb (length buf) end)
  a ← index buf p
  b ← index buf (p + 1)
  c ← index buf (p + 2)
  ret ((a * 256 + b) * 256 + c, end)

-- `str::from_utf8(&buf[q..name_end]).ok().map(String::from)`, as the result of the function.
pub host_name : List ℕ → ℕ → ℕ → Outcome (Option Text)
unfolding slice is_utf8
host_name buf q name_end = do
  name ← slice buf q name_end
  refuse (not (is_utf8 name))
  ret (some name)

-- One round of the loop over the server names; `next` goes on at a position.
pub name_round : (ℕ → Outcome (Option Text)) → List ℕ → ℕ → ℕ → Outcome (Option Text)
unfolding read_u8 read_u16 checked_add host_name
name_round next buf ext_end_inner q = do
  (name_type, q1) ← read_u8 buf q
  (name_len, q2) ← read_u16 buf q1
  name_end ← checked_add q2 name_len
  refuse (ltb ext_end_inner name_end)
  if name_type == 0
      then (refuse (ltb max_sni_len name_len) >> host_name buf q2 name_end)
      else next name_end

-- The loop over the server names of one extension: `ret none` if it ends without a host name.
pub names_loop : ℕ → List ℕ → ℕ → ℕ → Outcome (Option Text)
unfolding name_round
names_loop zero buf ext_end_inner q = if ltb q ext_end_inner then stuck else ret none
names_loop (suc fuel) buf ext_end_inner q =
    if ltb q ext_end_inner
    then name_round (names_loop fuel buf ext_end_inner) buf ext_end_inner q
    else ret none

-- What one extension gives: a host name, or nothing yet.
pub extension : List ℕ → ℕ → ℕ → ℕ → Outcome (Option Text)
unfolding names_loop
extension buf ext_type p ext_end_inner =
    if ext_type == 0
    then (read_u16 buf p >>= λ r. names_loop (length buf) buf ext_end_inner r.1)
    else ret none

abbrev pub or_continue : Option Text → Outcome Text → Outcome Text
or_continue none next = next
or_continue (some host) next = ret host

-- One round of the loop over the extensions.
pub extension_round : (ℕ → Outcome Text) → List ℕ → ℕ → ℕ → Outcome Text
unfolding extension
extension_round next buf ext_end p = do
  (ext_type, p1) ← read_u16 buf p
  (ext_data_len, p2) ← read_u16 buf p1
  ext_end_inner ← checked_add p2 ext_data_len
  refuse (ltb ext_end ext_end_inner)
  found ← extension buf ext_type p2 ext_end_inner
  or_continue found (next ext_end_inner)

-- The loop over the extensions.
pub extensions_loop : ℕ → List ℕ → ℕ → ℕ → Outcome Text
unfolding extension_round
extensions_loop zero buf ext_end p = if ltb p ext_end then stuck else nothing
extensions_loop (suc fuel) buf ext_end p =
    if ltb p ext_end
    then extension_round (extensions_loop fuel buf ext_end) buf ext_end p
    else nothing

-- The handshake length, version and random: the position behind them.
pub skip_random : List ℕ → ℕ → Outcome ℕ
unfolding read_u24 checked_add
skip_random buf p4 = do
  (hs_len, p5) ← read_u24 buf p4
  p6 ← checked_add p5 2
  p7 ← checked_add p6 32
  refuse (ltb (length buf) p7)
  ret p7

-- Record and handshake headers, version and random: the position behind them.
pub read_headers : List ℕ → Outcome ℕ
unfolding read_u8 read_u16 add skip_random
read_headers buf = do
  (record_type, p1) ← read_u8 buf 0
  refuse (not (record_type == 0x16))
  p2 ← add p1 2
  (rec_len, p3) ← read_u16 buf p2
  (msg_type, p4) ← read_u8 buf p3
  refuse (not (msg_type == 0x01))
  skip_random buf p4

-- Session id, cipher suites and compression methods: the position behind them.
pub skip_lists : List ℕ → ℕ → Outcome ℕ
unfolding read_u8 read_u16 checked_add
skip_lists buf p = do
  (session_id_len, p1) ← read_u8 buf p
  p2 ← checked_add p1 session_id_len
  (cs_len, p3) ← read_u16 buf p2
  p4 ← checked_add p3 cs_len
  (cm_len, p5) ← read_u8 buf p4
  checked_add p5 cm_len

pub parse_sni : List ℕ → Outcome Text
unfolding read_headers skip_lists extensions_loop
parse_sni buf = do
  p ← read_headers buf
  p1 ← skip_lists buf p
  (ext_total, p2) ← read_u16 buf p1
  ext_end ← checked_add p2 ext_total
  refuse (ltb (length buf) ext_end)
  extensions_loop (length buf) buf ext_end p2

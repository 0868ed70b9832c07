-- ===== src/Meter/Counted.antt =====
-- The counters of crates/tuyau-server/src/meter.rs against the bytes that pass.
use tuyau.Prelude.{ℕ, ◌+◌, ◌%◌, ◌^◌, ◌<◌, ◌≡◌, ap, ◌∙◌, List, [], ◌∷◌, arith, length, length-append}
use tuyau.Meter.{
  Meter, fetch_add, new_meter, ReadPoll, read_ready, read_pending, read_failed, WritePoll,
  write_ready, write_pending, write_failed, poll_read, poll_write,
}

-- The polls of a connection, a read with what its buffer holds already.
pub data Call : Type 0 where
  reads : ReadPoll → List ℕ → Call
  writes : WritePoll → Call

abbrev pub run : List Call → Meter → Meter
run [] m = m
run (reads p filled ∷ cs) m = run cs (poll_read p filled m).1
run (writes p ∷ cs) m = run cs (poll_write p m)

-- The bytes that the polls moved.
pub bytes_read : List Call → ℕ
bytes_read [] = 0
bytes_read (reads (read_ready chunk) filled ∷ cs) = length chunk + bytes_read cs
bytes_read (_ ∷ cs) = bytes_read cs

pub bytes_written : List Call → ℕ
bytes_written [] = 0
bytes_written (writes (write_ready count) ∷ cs) = count + bytes_written cs
bytes_written (_ ∷ cs) = bytes_written cs

fetch_add-mod : (a n k : ℕ) → (fetch_add a n + k) % 2 ^ 64 ≡ (a + (n + k)) % 2 ^ 64
fetch_add-mod a n k = omega arith

poll_read-read :
    (chunk filled : List ℕ) (m : Meter)
    → (poll_read (read_ready chunk) filled m).1.read ≡ fetch_add m.read (length chunk)
unfolding poll_read
poll_read-read chunk filled m = ap (fetch_add m.read) (omega (arith, length-append filled chunk))

-- The counters are the bytes that the polls moved, modulo 2 ^ 64: what each read put behind the
-- content of its buffer, and what each write took; a poll that is pending or fails counts nothing.
pub run-bytes :
    (cs : List Call) (m : Meter)
    → ((run cs m).read % 2 ^ 64 ≡ (m.read + bytes_read cs) % 2 ^ 64)
      × ((run cs m).written % 2 ^ 64 ≡ (m.written + bytes_written cs) % 2 ^ 64)
unfolding bytes_read bytes_written poll_read poll_write
run-bytes [] m = (omega arith, omega arith)
run-bytes (reads (read_ready chunk) filled ∷ cs) m =
    let (r, w) = run-bytes cs (poll_read (read_ready chunk) filled m).1 in
    (
      r
          ∙ (ap (λ k. (k + bytes_read cs) % 2 ^ 64) (poll_read-read chunk filled m)
              ∙ fetch_add-mod m.read (length chunk) (bytes_read cs)),
      w,
    )
run-bytes (reads read_pending filled ∷ cs) m = run-bytes cs m
run-bytes (reads read_failed filled ∷ cs) m = run-bytes cs m
run-bytes (writes (write_ready count) ∷ cs) m =
    let (r, w) = run-bytes cs (poll_write (write_ready count) m) in
    (r, w ∙ fetch_add-mod m.written count (bytes_written cs))
run-bytes (writes write_pending ∷ cs) m = run-bytes cs m
run-bytes (writes write_failed ∷ cs) m = run-bytes cs m

run-below :
    (cs : List Call) (m : Meter)
    → m.read < 2 ^ 64
    → m.written < 2 ^ 64
    → ((run cs m).read < 2 ^ 64) × ((run cs m).written < 2 ^ 64)
unfolding poll_read poll_write
run-below [] m r w = (r, w)
run-below (reads (read_ready chunk) filled ∷ cs) m r w =
    run-below cs (poll_read (read_ready chunk) filled m).1 (omega arith) w
run-below (reads read_pending filled ∷ cs) m r w = run-below cs m r w
run-below (reads read_failed filled ∷ cs) m r w = run-below cs m r w
run-below (writes (write_ready count) ∷ cs) m r w =
    run-below cs (poll_write (write_ready count) m) r (omega arith)
run-below (writes write_pending ∷ cs) m r w = run-below cs m r w
run-below (writes write_failed ∷ cs) m r w = run-below cs m r w

-- The counters of a connection fit 64 bits, and they are the bytes that passed each way modulo
-- 2 ^ 64: what each read put behind the content of its buffer, and what each write took. A poll that
-- is pending or fails counts nothing.
pub run-new_meter :
    (cs : List Call)
    → ((run cs new_meter).read < 2 ^ 64)
      × ((run cs new_meter).written < 2 ^ 64)
      × ((run cs new_meter).read ≡ bytes_read cs % 2 ^ 64)
      × ((run cs new_meter).written ≡ bytes_written cs % 2 ^ 64)
run-new_meter cs =
    let (read, written) = run-bytes cs new_meter in
    let (read_fits, written_fits) = run-below cs new_meter (omega arith) (omega arith) in
    (read_fits, written_fits, omega arith, omega arith)

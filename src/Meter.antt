-- ===== src/Meter.antt =====
-- crates/tuyau-server/src/meter.rs: the byte counters of a public connection. An `AtomicU64` wraps
-- around at 2 ^ 64.
pub mod Counted
use tuyau.Prelude.{ℕ, ◌+◌, ◌-◌, ◌%◌, ◌^◌, List, [], ◌∷◌, ◌++◌, length}
use tuyau.Prelude.Texts.{Text}

pub record Meter : Type 0 where
  pub read : ℕ
  pub written : ℕ

-- `Meter::default()`
abbrev pub new_meter : Meter
new_meter = record { read = 0; written = 0 }

-- `AtomicU64::fetch_add`
abbrev pub fetch_add : ℕ → ℕ → ℕ
fetch_add count n = (count + n) % 2 ^ 64

-- How the inner stream answers a read, which fills a buffer on success, and a write.
pub data ReadPoll : Type 0 where
  read_ready : List ℕ → ReadPoll
  read_pending read_failed : ReadPoll

pub data WritePoll : Type 0 where
  write_ready : ℕ → WritePoll
  write_pending write_failed : WritePoll

-- The buffer afterwards, and the meter.
unfoldable pub poll_read : ReadPoll → List ℕ → Meter → List ℕ × Meter
poll_read (read_ready chunk) filled m =
    let after = filled ++ chunk in
    (after, record m { read = fetch_add m.read (length after - length filled) })
poll_read read_pending filled m = (filled, m)
poll_read read_failed filled m = (filled, m)

-- `poll_write`, and `poll_write_vectored`, which counts as it does.
unfoldable pub poll_write : WritePoll → Meter → Meter
poll_write (write_ready count) m = record m { written = fetch_add m.written count }
poll_write write_pending m = m
poll_write write_failed m = m

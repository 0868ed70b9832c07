-- ===== src/Server/Tasks.antt =====
-- Fallible code that spawns tasks, as `start_inner` of crates/tuyau-server/src/server.rs is: a task
-- goes on when the code behind it fails.
use tuyau.Prelude.{List, [], ◌++◌, Result, ok, err}
use tuyau.Prelude.Texts.{Text}
use tuyau.Net.{SocketAddr}

-- The background loop of an ACME order, the accept loop of the public listener, and that of the
-- tunnel endpoint.
pub data Task : Type 0 where
  acme_loop : List Text → Task
  public_loop : SocketAddr → Task
  accept_loop : Task

-- The result, with the tasks that were spawned on the way.
abbrev pub Run : Type 0 → Type 0 → Type 0
Run E A = Result E A × List Task

module _ {E : Type 0} where
  abbrev pub lift : {A : Type 0} → Result E A → Run E A
  lift r = (r, [])

  abbrev pub spawn : List Task → Run E (Unit {0})
  spawn tasks = (ok tt, tasks)

  abbrev pub behind : {A : Type 0} → List Task → Run E A → Run E A
  behind tasks (r, more) = (r, tasks ++ more)

  infixl 5 ◌>>=◌ ◌>>◌
  abbrev pub ◌>>=◌ : {A B : Type 0} → Run E A → (A → Run E B) → Run E B
  (err e, tasks) >>= f = (err e, tasks)
  (ok a, tasks) >>= f = behind tasks (f a)

  abbrev pub ◌>>◌ : {A B : Type 0} → Run E A → Run E B → Run E B
  m >> k = m >>= λ _. k

-- ===== src/Server/Shutdown.antt =====
-- crates/tuyau-server/src/server.rs: the loops and handlers of a running `TunnelServer` and
-- `shutdown`, as steps that interleave freely. A `select!` takes any branch that is ready.
use tuyau.Prelude.{
  ℕ, zero, suc, ◌+◌, ◌*◌, ◌≤◌, ◌<◌, ◌≡◌, refl, ◌⊎◌, inl, inr, Bool, true, false, arith,
  if◌then◌else◌, Bool-cases,
}

-- Which loops run; how many handlers of tunnel connections are greeting, up to their Welcome, and
-- how many hold their tunnel; how many connections the endpoint has; how many ACME loops run.
-- `incoming` are the connections that clients still open, `arrivals` those of the public socket, and
-- `events` what the ACME orders still report.
pub record Life : Type 0 where
  pub cancelled : Bool
  pub endpoint_closed : Bool
  pub accept_loop : Bool
  pub public_loop : Bool
  pub greeting : ℕ
  pub serving : ℕ
  pub connections : ℕ
  pub acme_loops : ℕ
  pub incoming : ℕ
  pub arrivals : ℕ
  pub events : ℕ

-- The first two statements of `shutdown`: `cancel.cancel()` and `endpoint.close`.
unfoldable pub begin_shutdown : Life → Life
begin_shutdown s = record s { cancelled = true; endpoint_closed = true }

-- What the server does by itself. A handler that greets waits for its client, not for `cancel`. The
-- endpoint is done with a connection that it has closed, or whose handler has ended.
pub data Own (s t : Life) : Type 0 where
  accept_loop_ends :
      s.accept_loop ≡ true
      → (s.cancelled ≡ true) ⊎ (s.endpoint_closed ≡ true)
      → t ≡ record s { accept_loop = false }
      → Own s t
  public_loop_ends :
      s.public_loop ≡ true → s.cancelled ≡ true → t ≡ record s { public_loop = false } → Own s t
  acme_loop_ends :
      {m : ℕ}
      → s.acme_loops ≡ suc m
      → s.cancelled ≡ true
      → t ≡ record s { acme_loops = m }
      → Own s t
  greeting_ends :
      {m : ℕ}
      → s.greeting ≡ suc m
      → s.endpoint_closed ≡ true
      → t ≡ record s { greeting = m }
      → Own s t
  serving_ends :
      {m : ℕ}
      → s.serving ≡ suc m
      → (s.cancelled ≡ true) ⊎ (s.endpoint_closed ≡ true)
      → t ≡ record s { serving = m }
      → Own s t
  connection_drains :
      {m : ℕ}
      → s.connections ≡ suc m
      → (s.endpoint_closed ≡ true) ⊎ (s.greeting + s.serving < s.connections)
      → t ≡ record s { connections = m }
      → Own s t

-- What clients, timers and ACME orders do. A handler that greets ends by an error, a timeout or a
-- rejection, and one that holds a tunnel when its client closes it; an ACME loop ends with its order.
pub data Outer (s t : Life) : Type 0 where
  accepts :
      {n : ℕ}
      → s.accept_loop ≡ true
      → s.endpoint_closed ≡ false
      → s.incoming ≡ suc n
      → t ≡ record s { incoming = n; greeting = s.greeting + 1; connections = s.connections + 1 }
      → Outer s t
  welcomed :
      {m : ℕ}
      → s.greeting ≡ suc m
      → t ≡ record s { greeting = m; serving = s.serving + 1 }
      → Outer s t
  not_welcomed : {m : ℕ} → s.greeting ≡ suc m → t ≡ record s { greeting = m } → Outer s t
  client_closes : {m : ℕ} → s.serving ≡ suc m → t ≡ record s { serving = m } → Outer s t
  public_accepts :
      {n : ℕ}
      → s.public_loop ≡ true
      → s.arrivals ≡ suc n
      → t ≡ record s { arrivals = n }
      → Outer s t
  acme_goes_on :
      {n m : ℕ} → s.acme_loops ≡ suc m → s.events ≡ suc n → t ≡ record s { events = n } → Outer s t
  acme_order_ends : {m : ℕ} → s.acme_loops ≡ suc m → t ≡ record s { acme_loops = m } → Outer s t

abbrev pub Step : Life → Life → Type 0
Step s t = Own s t ⊎ Outer s t

-- What `shutdown` waits for: both accept loops, and `wait_idle`, the endpoint without connections.
pub record HasShutDown (s : Life) : Type 0 where
  pub accept_ended : s.accept_loop ≡ false
  pub public_ended : s.public_loop ≡ false
  pub idle : s.connections ≡ 0

-- A number of steps.
pub data Run (s : Life) : ℕ → Life → Type 0 where
  here : Run s zero s
  next : {n : ℕ} {t u : Life} → Run s n t → Step t u → Run s (suc n) u

abbrev running : Bool → ℕ
running b = if b then 1 else 0

-- How many steps can be left: a connection that comes in makes a handler, which may get to hold a
-- tunnel.
abbrev pub steps_left : Life → ℕ
steps_left s =
    running s.accept_loop
    + running s.public_loop
    + 2 * s.greeting
    + s.serving
    + s.connections
    + s.acme_loops
    + 4 * s.incoming
    + s.arrivals
    + s.events

-- `shutdown` has begun.
abbrev IsEnding : Life → Type 0
IsEnding s = (s.cancelled ≡ true) × (s.endpoint_closed ≡ true)

Own-lt : {s t : Life} → Own s t → steps_left t < steps_left s
Own-lt (accept_loop_ends a b e) = ground arith
Own-lt (public_loop_ends a b e) = ground arith
Own-lt (acme_loop_ends a b e) = ground arith
Own-lt (greeting_ends a b e) = ground arith
Own-lt (serving_ends a b e) = ground arith
Own-lt (connection_drains a b e) = ground arith

Outer-lt : {s t : Life} → Outer s t → steps_left t < steps_left s
Outer-lt (accepts a b c e) = ground arith
Outer-lt (welcomed a e) = ground arith
Outer-lt (not_welcomed a e) = ground arith
Outer-lt (client_closes a e) = ground arith
Outer-lt (public_accepts a b e) = ground arith
Outer-lt (acme_goes_on a b e) = ground arith
Outer-lt (acme_order_ends a e) = ground arith

Own-IsEnding : {s t : Life} → Own s t → IsEnding s → IsEnding t
Own-IsEnding (accept_loop_ends a b e) h = (cc, cc)
Own-IsEnding (public_loop_ends a b e) h = (cc, cc)
Own-IsEnding (acme_loop_ends a b e) h = (cc, cc)
Own-IsEnding (greeting_ends a b e) h = (cc, cc)
Own-IsEnding (serving_ends a b e) h = (cc, cc)
Own-IsEnding (connection_drains a b e) h = (cc, cc)

Outer-IsEnding : {s t : Life} → Outer s t → IsEnding s → IsEnding t
Outer-IsEnding (accepts a b c e) h = (cc, cc)
Outer-IsEnding (welcomed a e) h = (cc, cc)
Outer-IsEnding (not_welcomed a e) h = (cc, cc)
Outer-IsEnding (client_closes a e) h = (cc, cc)
Outer-IsEnding (public_accepts a b e) h = (cc, cc)
Outer-IsEnding (acme_goes_on a b e) h = (cc, cc)
Outer-IsEnding (acme_order_ends a e) h = (cc, cc)

Run-le : {s : Life} {n : ℕ} {t : Life} → Run s n t → n + steps_left t ≤ steps_left s
Run-le here = omega arith
Run-le (next run (inl step)) = omega (arith, Own-lt step, Run-le run)
Run-le (next run (inr step)) = omega (arith, Outer-lt step, Run-le run)

Run-IsEnding : {s : Life} {n : ℕ} {t : Life} → Run s n t → IsEnding s → IsEnding t
Run-IsEnding here h = h
Run-IsEnding (next run (inl step)) h = Own-IsEnding step (Run-IsEnding run h)
Run-IsEnding (next run (inr step)) h = Outer-IsEnding step (Run-IsEnding run h)

-- A server that is ending has shut down, or can make a step by itself.
progress : (s : Life) → IsEnding s → HasShutDown s ⊎ ((t : Life) × Own s t)
progress s (cancelled, closed) = elim (Bool-cases s.accept_loop) [
  | inl runs ↦ inr (_, accept_loop_ends runs (inl cancelled) refl)
  | inr accept_ended ↦ elim (Bool-cases s.public_loop) [
    | inl runs ↦ inr (_, public_loop_ends runs cancelled refl)
    | inr public_ended ↦ elim (nat_cases s.connections) [
      | inl idle ↦
          inl (record { accept_ended = accept_ended; public_ended = public_ended; idle = idle })
      | inr (m, e) ↦ inr (_, connection_drains e (inl closed) refl)
    ]
  ]
]
  where
    nat_cases : (n : ℕ) → (n ≡ 0) ⊎ ((m : ℕ) × (n ≡ suc m))
    nat_cases zero = inl refl
    nat_cases (suc n) = inr (n, refl)

-- `shutdown` terminates: whatever its loops and handlers, the clients, the timers and the ACME orders
-- do, in whatever order, there are no more steps than is bounded by the loops, handlers and
-- connections there are and by what still arrives. As long as `shutdown` has something to wait for,
-- the server can make a step by itself, whatever the clients do.
pub begin_shutdown-terminates :
    (s t : Life) (n : ℕ)
    → Run (begin_shutdown s) n t
    → (n ≤ steps_left s) × (HasShutDown t ⊎ ((u : Life) × Own t u))
unfolding begin_shutdown
begin_shutdown-terminates s t n run =
    (omega (arith, Run-le run), progress t (Run-IsEnding run (refl, refl)))

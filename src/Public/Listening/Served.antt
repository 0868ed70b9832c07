-- ===== src/Public/Listening/Served.antt =====
-- The accept loop of crates/tuyau-server/src/public.rs, over any sequence of events.
use tuyau.Prelude.{
  ℕ, suc, ◌+◌, ◌*◌, ◌≡◌, refl, ap, ◌∙◌, inl, inr, Bool, true, false, List, [], ◌∷◌, arith,
  Bool-cases,
}
use tuyau.Prelude.Texts.{Text}
use tuyau.Net.{SocketAddr}
use tuyau.Routes.{RoutingTable}
use tuyau.Public.Limits.{is_live}
use tuyau.Public.Limits.Counting.{IsCounted, start-IsCounted, accept-IsCounted, close-IsCounted}
use tuyau.Public.Listening.{
  accept_error_backoff, Visit, Event, cancels, accept_fails, arrives, ends, Listening,
  start_listening, back_off, take_connection, step, run,
}

-- The events before the loop is cancelled that the loop itself takes, and all ends of handlers.
abbrev pub effective : Bool → List Event → List Event
effective running [] = []
effective running (cancels ∷ es) = effective false es
effective true (accept_fails ∷ es) = accept_fails ∷ effective true es
effective false (accept_fails ∷ es) = effective false es
effective true (arrives peer ∷ es) = arrives peer ∷ effective true es
effective false (arrives peer ∷ es) = effective false es
effective running (ends peer visit ∷ es) = ends peer visit ∷ effective running es

-- The errors of `accept` among events.
abbrev pub failures : List Event → ℕ
failures [] = 0
failures (accept_fails ∷ es) = suc (failures es)
failures (e ∷ es) = failures es

abbrev stopped : Listening → Listening
stopped s = record s { is_running = false }

module _ (needs_client_cert : Bool) (error_502 : Text) where
  abbrev go : List Event → Listening → Listening
  go = run needs_client_cert error_502

  step-IsCounted :
      (max_conns : ℕ) (e : Event) (s : Listening)
      → IsCounted max_conns s.counted
      → IsCounted max_conns (step needs_client_cert error_502 e s).counted
  unfolding step
  step-IsCounted max_conns cancels s w = w
  step-IsCounted max_conns accept_fails s w = elim (Bool-cases s.is_running) [
    | inl up ↦ rw up w
    | inr down ↦ rw down w
  ]
  step-IsCounted max_conns (arrives peer) s w = elim (Bool-cases s.is_running) [
    | inl up ↦ rw up (accept-IsCounted max_conns peer.ip s.counted w)
    | inr down ↦ rw down w
  ]
  step-IsCounted max_conns (ends peer visit) s w =
      elim (Bool-cases (is_live peer.ip s.counted.live)) [
        | inl live ↦ rw live (close-IsCounted max_conns peer.ip s.counted w)
        | inr gone ↦ rw gone w
      ]

  listening-IsCounted :
      (max_conns : ℕ) (es : List Event) (s : Listening)
      → IsCounted max_conns s.counted
      → IsCounted max_conns (go es s).counted
  unfolding run
  listening-IsCounted max_conns [] s w = w
  listening-IsCounted max_conns (e ∷ es) s w =
      listening-IsCounted max_conns es (step needs_client_cert error_502 e s)
        (step-IsCounted max_conns e s w)

  -- The end of a handler does not look at whether the loop runs.
  step-stopped :
      (peer : SocketAddr) (visit : Visit) (s : Listening)
      → step needs_client_cert error_502 (ends peer visit) (stopped s)
        ≡ stopped (step needs_client_cert error_502 (ends peer visit) s)
  unfolding step
  step-stopped peer visit s = elim (Bool-cases (is_live peer.ip s.counted.live)) [
    | inl live ↦ rw live refl
    | inr gone ↦ rw gone refl
  ]

  run-stopped :
      (es : List Event) (s : Listening) → go es (stopped s) ≡ stopped (go (effective false es) s)
  unfolding run step
  run-stopped [] s = refl
  run-stopped (cancels ∷ es) s = run-stopped es s
  run-stopped (accept_fails ∷ es) s = run-stopped es s
  run-stopped (arrives peer ∷ es) s = run-stopped es s
  run-stopped (ends peer visit ∷ es) s =
      ap (go es) (step-stopped peer visit s)
      ∙ run-stopped es (step needs_client_cert error_502 (ends peer visit) s)

  ends-is_running :
      (peer : SocketAddr) (visit : Visit) (s : Listening)
      → (step needs_client_cert error_502 (ends peer visit) s).is_running ≡ s.is_running
  unfolding step
  ends-is_running peer visit s = elim (Bool-cases (is_live peer.ip s.counted.live)) [
    | inl live ↦ rw live refl
    | inr gone ↦ rw gone refl
  ]

  ends-waited :
      (peer : SocketAddr) (visit : Visit) (s : Listening)
      → (step needs_client_cert error_502 (ends peer visit) s).waited ≡ s.waited
  unfolding step
  ends-waited peer visit s = elim (Bool-cases (is_live peer.ip s.counted.live)) [
    | inl live ↦ rw live refl
    | inr gone ↦ rw gone refl
  ]

  fails-backs_off :
      (s : Listening)
      → s.is_running ≡ true
      → ((step needs_client_cert error_502 accept_fails s).is_running ≡ true)
        × ((step needs_client_cert error_502 accept_fails s).waited
            ≡ s.waited + accept_error_backoff)
  unfolding step
  fails-backs_off s up =
      (ap (λ b. (back_off b s).is_running) up ∙ up, ap (λ b. (back_off b s).waited) up)

  arrives-keeps :
      (peer : SocketAddr) (s : Listening)
      → s.is_running ≡ true
      → ((step needs_client_cert error_502 (arrives peer) s).is_running ≡ true)
        × ((step needs_client_cert error_502 (arrives peer) s).waited ≡ s.waited)
  unfolding step
  arrives-keeps peer s up = (
    ap (λ b. (take_connection b peer.ip s).is_running) up ∙ up,
    ap (λ b. (take_connection b peer.ip s).waited) up,
  )

  run-effective :
      (es : List Event) (s : Listening)
      → s.is_running ≡ true
      → stopped (go es s) ≡ stopped (go (effective true es) s)
  unfolding run step
  run-effective [] s up = refl
  run-effective (cancels ∷ es) s up = ap stopped (run-stopped es s)
  run-effective (accept_fails ∷ es) s up =
      run-effective es (step needs_client_cert error_502 accept_fails s) (fails-backs_off s up).0
  run-effective (arrives peer ∷ es) s up =
      run-effective es (step needs_client_cert error_502 (arrives peer) s)
        (arrives-keeps peer s up).0
  run-effective (ends peer visit ∷ es) s up =
      run-effective es (step needs_client_cert error_502 (ends peer visit) s)
        (ends-is_running peer visit s ∙ up)

  -- How often the loop met an error until it was cancelled.
  run-waited : (es : List Event) (s : Listening) → (go (effective false es) s).waited ≡ s.waited
  unfolding run step
  run-waited [] s = refl
  run-waited (cancels ∷ es) s = run-waited es s
  run-waited (accept_fails ∷ es) s = run-waited es s
  run-waited (arrives peer ∷ es) s = run-waited es s
  run-waited (ends peer visit ∷ es) s =
      run-waited es (step needs_client_cert error_502 (ends peer visit) s)
      ∙ ends-waited peer visit s

  failures-false : (es : List Event) → failures (effective false es) ≡ 0
  failures-false [] = refl
  failures-false (cancels ∷ es) = failures-false es
  failures-false (accept_fails ∷ es) = failures-false es
  failures-false (arrives peer ∷ es) = failures-false es
  failures-false (ends peer visit ∷ es) = failures-false es

  run-backs_off :
      (es : List Event) (s : Listening)
      → s.is_running ≡ true
      → (go (effective true es) s).waited
        ≡ s.waited + accept_error_backoff * failures (effective true es)
  unfolding run step
  run-backs_off [] s up = omega arith
  run-backs_off (cancels ∷ es) s up = omega (arith, run-waited es s, failures-false es)
  run-backs_off (accept_fails ∷ es) s up =
      let (still_up, waited) = fails-backs_off s up in
      omega
        (arith, waited, run-backs_off es (step needs_client_cert error_502 accept_fails s) still_up)
  run-backs_off (arrives peer ∷ es) s up =
      let (still_up, waited) = arrives-keeps peer s up in
      omega (
        arith,
        waited,
        run-backs_off es (step needs_client_cert error_502 (arrives peer) s) still_up,
      )
  run-backs_off (ends peer visit ∷ es) s up = omega (
    arith,
    run-backs_off es (step needs_client_cert error_502 (ends peer visit) s)
        (ends-is_running peer visit s ∙ up),
    ends-waited peer visit s,
  )

  -- From its start on, whatever the loop meets in whatever order: the permits and the counts are
  -- those of the connections that are being handled; what comes after the loop is cancelled changes
  -- nothing, but handlers that run come to their ends; and every error of `accept` before that has
  -- made the loop wait.
  pub run-IsServed :
      (max_conns : ℕ) (routes : RoutingTable) (es : List Event)
      → IsCounted max_conns (go es (start_listening max_conns routes)).counted
        × (stopped (go es (start_listening max_conns routes))
            ≡ stopped (go (effective true es) (start_listening max_conns routes)))
        × ((go es (start_listening max_conns routes)).waited
            ≡ accept_error_backoff * failures (effective true es))
  run-IsServed max_conns routes es =
      let s = start_listening max_conns routes in
      let same = run-effective es s refl in
      (
        listening-IsCounted max_conns es s (start-IsCounted max_conns),
        same,
        ap (λ (x : Listening). x.waited) same ∙ omega (arith, run-backs_off es s refl),
      )

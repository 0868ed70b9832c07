-- ===== src/Public/Limits/Counting.antt =====
-- The accept loop of crates/tuyau-server/src/public.rs over any sequence of connections and
-- closes: the permits and the counts are those of the connections that are being handled.
use tuyau.Prelude.{
  ℕ, zero, suc, ◌+◌, ◌-◌, ◌≤◌, ◌<◌, ◌≡◌, refl, sym, ap, ◌∙◌, subst, inl, inr, Bool, List, [], ◌∷◌,
  Option, none, some, arith, if◌then◌else◌, leb, ◌==◌, nat_eq, length, Bool-cases, ==_eq, ==_ne,
}
use mathlib.Core.Bool.{false≢true}
use tuyau.Prelude.Dict.{get, insert, get-insert, remove, get-remove}
use tuyau.Net.{IpAddr, ip_eq}
use tuyau.Public.Limits.{
  max_conns_per_ip, PerIpLimiter, count_of, try_acquire, release, release_count, Listener, start,
  admit_ip, accept_with, accept, remove_one, is_live, close,
}

-- How often an address occurs.
abbrev pub occurrences : IpAddr → List IpAddr → ℕ
occurrences ip [] = 0
occurrences ip (x ∷ xs) = let rest = occurrences ip xs in if x == ip then suc rest else rest

-- The entry that stands for a count: none for 0.
abbrev pub entry_of : ℕ → Option ℕ
entry_of zero = none
entry_of (suc n) = some (suc n)

-- The permits that are taken are those of the live connections, and the limiter counts exactly
-- these, by address and at most the cap.
pub record IsCounted (max_conns : ℕ) (s : Listener) : Type 0 where
  pub total : length s.live + s.permits ≡ max_conns
  pub cap : s.per_ip.max_per_ip ≡ max_conns_per_ip max_conns
  pub counts : (ip : IpAddr) → get ip s.per_ip.counts ≡ entry_of (occurrences ip s.live)
  pub capped : (ip : IpAddr) → occurrences ip s.live ≤ s.per_ip.max_per_ip

pub data Event : Type 0 where
  accepts closes : IpAddr → Event

unfoldable pub step : Event → Listener → Listener
step (accepts ip) s = accept ip s
step (closes ip) s = close ip s

unfoldable pub run : List Event → Listener → Listener
unfolding step
run [] s = s
run (e ∷ es) s = run es (step e s)

count_of-entry_of : (n : ℕ) → count_of (entry_of n) ≡ n
count_of-entry_of zero = refl
count_of-entry_of (suc n) = refl

entry_of-pos : (n : ℕ) → 0 < n → entry_of n ≡ some n
entry_of-pos zero h = absurd (omega arith)
entry_of-pos (suc n) h = refl

leb→le : (a b : ℕ) → leb a b ≡ Bool.true → a ≤ b
leb→le a b h = ground arith

leb-false→lt : (a b : ℕ) → leb a b ≡ Bool.false → b < a
leb-false→lt a b h = ground arith

is_live-occurs :
    (ip : IpAddr) (xs : List IpAddr) → is_live ip xs ≡ Bool.true → 0 < occurrences ip xs
is_live-occurs ip [] h = absurd (ground arith)
is_live-occurs ip (x ∷ xs) h = elim (Bool-cases (x == ip)) [
  | inl same ↦ rw same (omega arith)
  | inr differ ↦ rw differ (is_live-occurs ip xs (rw differ at h))
]

length-remove_one :
    (ip : IpAddr) (xs : List IpAddr)
    → is_live ip xs ≡ Bool.true
    → suc (length (remove_one ip xs)) ≡ length xs
unfolding remove_one
length-remove_one ip [] h = absurd (ground arith)
length-remove_one ip (x ∷ xs) h = elim (Bool-cases (x == ip)) [
  | inl same ↦ rw same refl
  | inr differ ↦ rw differ (ap suc (length-remove_one ip xs (rw differ at h)))
]

occurrences-remove_one :
    (ip other : IpAddr) (xs : List IpAddr)
    → occurrences other (remove_one ip xs)
      ≡ (if ip == other then occurrences other xs - 1 else occurrences other xs)
unfolding remove_one
occurrences-remove_one ip other [] = ground arith
occurrences-remove_one ip other (x ∷ xs) = elim (Bool-cases (x == ip)) [
  | inl same ↦
      rw (same, sym (==_eq x ip same))
        (elim (Bool-cases (x == other)) [
          | inl here ↦ rw here (omega arith)
          | inr there ↦ rw there refl
        ])
  | inr differ ↦ elim (Bool-cases (x == other)) [
    | inl here ↦
        let apart : ip == other ≡ Bool.false =
          ==_ne ip other
            λ e. false≢true (sym differ ∙ subst (λ k. x == k ≡ Bool.true) (sym e) here) in
        let rest = occurrences-remove_one ip other xs in
        rw (differ, here, apart) (ap suc (rw apart at rest))
    | inr there ↦ rw (differ, there) (occurrences-remove_one ip other xs)
  ]
]

module _ (max_conns free : ℕ) (ip : IpAddr) (s : Listener) (w : IsCounted max_conns s)
    (taken : s.permits ≡ suc free) where
  n : ℕ
  n = occurrences ip s.live

  count : count_of (get ip s.per_ip.counts) ≡ n
  unfolding n
  count = ap count_of (w.counts ip) ∙ count_of-entry_of (occurrences ip s.live)

  admit_ip-IsCounted : IsCounted max_conns (admit_ip free ip (try_acquire ip s.per_ip) s)
  unfolding try_acquire n
  admit_ip-IsCounted = elim (Bool-cases (leb s.per_ip.max_per_ip n)) [
    | inl full ↦
        rw (count, full)
          (record {
            total = w.total;
            cap = w.cap;
            counts = λ other. elim (Bool-cases (ip == other)) [
              | inl same ↦
                  rw (get-insert ip other n s.per_ip.counts, same)
                    (sym (
                      ap (λ k. entry_of (occurrences k s.live)) (sym (==_eq ip other same))
                      ∙ entry_of-pos n (omega (arith, leb→le s.per_ip.max_per_ip n full, w.cap))))
              | inr differ ↦ rw (get-insert ip other n s.per_ip.counts, differ) (w.counts other)
            ];
            capped = w.capped;
          })
    | inr room ↦
        rw (count, room)
          (record {
            total = omega (arith, w.total, taken);
            cap = w.cap;
            counts = λ other. elim (Bool-cases (ip == other)) [
              | inl same ↦
                  rw (get-insert ip other (n + 1) s.per_ip.counts, same)
                    (ap some (omega (arith, ap (λ k. occurrences k s.live) (==_eq ip other same))))
              | inr differ ↦
                  rw (get-insert ip other (n + 1) s.per_ip.counts, differ) (w.counts other)
            ];
            capped = λ other. elim (Bool-cases (ip == other)) [
              | inl same ↦ rw same (
                  omega (
                    arith,
                    leb-false→lt s.per_ip.max_per_ip n room,
                    ap (λ k. occurrences k s.live) (==_eq ip other same),
                  ))
              | inr differ ↦ rw differ (w.capped other)
            ];
          })
  ]

pub accept-IsCounted :
    (max_conns : ℕ) (ip : IpAddr) (s : Listener)
    → IsCounted max_conns s
    → IsCounted max_conns (accept ip s)
unfolding accept
accept-IsCounted max_conns ip s w = at_permits s.permits refl
  where
    at_permits : (k : ℕ) → s.permits ≡ k → IsCounted max_conns (accept_with k ip s)
    at_permits zero e = w
    at_permits (suc free) e = admit_ip-IsCounted max_conns free ip s w e

release-get :
    (ip other : IpAddr) (l : PerIpLimiter) (m : ℕ)
    → get ip l.counts ≡ some (suc m)
    → get other (release ip l).counts ≡ (if ip == other then entry_of m else get other l.counts)
unfolding release
release-get ip other l zero e =
    ap (λ o. get other (release_count o ip l).counts) e ∙ get-remove ip other l.counts
release-get ip other l (suc m) e =
    ap (λ o. get other (release_count o ip l).counts) e
    ∙ ap
        (λ k.
          get other
            (if k == 0
              then record l { counts = remove ip l.counts }
              else record l { counts = insert ip k l.counts }).counts)
        less
    ∙ ap
        (λ b.
          get other
            (if b
              then record l { counts = remove ip l.counts }
              else record l { counts = insert ip (suc m) l.counts }).counts)
        not_zero
    ∙ get-insert ip other (suc m) l.counts
  where
    less : suc (suc m) - 1 ≡ suc m
    less = omega arith

    not_zero : suc m == 0 ≡ Bool.false
    not_zero = ground arith

release-cap : (ip : IpAddr) (l : PerIpLimiter) → (release ip l).max_per_ip ≡ l.max_per_ip
unfolding release
release-cap ip l = at_count (get ip l.counts)
  where
    at_count : (o : Option ℕ) → (release_count o ip l).max_per_ip ≡ l.max_per_ip
    at_count none = refl
    at_count (some c) = ground arith

pub close-IsCounted :
    (max_conns : ℕ) (ip : IpAddr) (s : Listener)
    → IsCounted max_conns s
    → IsCounted max_conns (close ip s)
unfolding close
close-IsCounted max_conns ip s w = elim (Bool-cases (is_live ip s.live)) [
  | inr gone ↦ rw gone w
  | inl there ↦ rw there (record {
    total = omega (arith, w.total, length-remove_one ip s.live there);
    cap = release-cap ip s.per_ip ∙ w.cap;
    counts = λ other.
        rw (occurrences-remove_one ip other s.live)
          (counted (occurrences ip s.live) refl (is_live-occurs ip s.live there) other);
    capped = λ other.
        rw (occurrences-remove_one ip other s.live, release-cap ip s.per_ip)
          (ground (arith, w.capped other));
  })
]
  where
    counted :
        (k : ℕ)
        → occurrences ip s.live ≡ k
        → 0 < k
        → (other : IpAddr)
        → get other (release ip s.per_ip).counts
          ≡ entry_of
              (if ip == other then occurrences other s.live - 1 else occurrences other s.live)
    counted zero e pos other = absurd (omega arith)
    counted (suc m) e pos other =
        release-get ip other s.per_ip m (w.counts ip ∙ ap entry_of e)
        ∙ elim (Bool-cases (ip == other)) [
          | inl same ↦
              rw same (
                ap entry_of
                  (omega (arith, e, ap (λ k. occurrences k s.live) (==_eq ip other same))))
          | inr differ ↦ rw differ (w.counts other)
        ]

pub start-IsCounted : (max_conns : ℕ) → IsCounted max_conns (start max_conns)
unfolding get
start-IsCounted max_conns = record {
  total = omega arith;
  cap = refl;
  counts = λ ip. refl;
  capped = λ ip. omega arith;
}

step-IsCounted :
    (max_conns : ℕ) (e : Event) (s : Listener)
    → IsCounted max_conns s
    → IsCounted max_conns (step e s)
unfolding step
step-IsCounted max_conns (accepts ip) s w = accept-IsCounted max_conns ip s w
step-IsCounted max_conns (closes ip) s w = close-IsCounted max_conns ip s w

run-keeps :
    (max_conns : ℕ) (es : List Event) (s : Listener)
    → IsCounted max_conns s
    → IsCounted max_conns (run es s)
unfolding run
run-keeps max_conns [] s w = w
run-keeps max_conns (e ∷ es) s w =
    run-keeps max_conns es (step e s) (step-IsCounted max_conns e s w)

-- From the start of the listener on, whatever connections arrive and end: the live connections and
-- the free permits add up to the cap, and the limiter counts exactly the live connections of each
-- address, none of which has more than its share; an address without one has no entry.
pub run-IsCounted :
    (max_conns : ℕ) (es : List Event) → IsCounted max_conns (run es (start max_conns))
run-IsCounted max_conns es = run-keeps max_conns es (start max_conns) (start-IsCounted max_conns)

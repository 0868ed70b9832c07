-- ===== src/ClientConfig/Validate.antt =====
-- Which local addresses crates/tuyau-client/src/config.rs accepts, stated without the search for
-- the last colon, and which rule an error names.
use tuyau.Prelude.{
  ℕ, suc, ◌≡◌, ◌≢◌, ◌↔◌, inl, inr, refl, sym, Bool, true, false, not, ◌&&◌, List, [], ◌∷◌, ◌++◌,
  arith, nat_eq, is_some, contains, Has, All, Result, ok, err, ◌>>=◌, reject, Option-cases,
  >>-eq-ok,
}
use mathlib.Core.Bool.{false≢true}
use tuyau.Prelude.Texts.{Text, bytes, rsplit_once, starts_with, ends_with}
use tuyau.Prelude.Splits.{rsplit_once-some, rsplit_once_append}
use tuyau.Config.{is_empty}
use tuyau.ClientConfig.{
  IngressRule, AddrError, missing_port, unbracketed_ipv6, empty_host, bad_port, parse_u16,
  check_sides, validate_local_addr, at_index, validate_rules,
}

-- `host:port`: the last colon splits off a port of 16 bits; the host is not empty, and stands in
-- brackets if it has a colon itself.
abbrev pub IsSides : Text → Text → Type 0
IsSides host port =
    (contains host b':' ≡ true
      → (starts_with (bytes "[") host ≡ true) × (ends_with b']' host ≡ true))
    × (host ≢ [])
    × (is_some (parse_u16 port) ≡ true)

abbrev pub IsLocalAddr : Text → Type 0
IsLocalAddr s =
    (host : Text) × (port : Text) × (s ≡ host ++ (b':' ∷ port))
    × ¬ Has b':' port
    × IsSides host port

guards_iff :
    (x y z : Bool) (a b c : AddrError)
    → ((reject x a >>= λ _. reject y b >>= λ _. reject z c) ≡ ok tt)
      ↔ ((x ≡ false) × (y ≡ false) × (z ≡ false))
guards_iff true y z a b c = ground arith
guards_iff false true z a b c = ground arith
guards_iff false false true a b c = ground arith
guards_iff false false false a b c = ground arith

bracketed_iff :
    (h p q : Bool) → ((h && not (p && q)) ≡ false) ↔ (h ≡ true → (p ≡ true) × (q ≡ true))
bracketed_iff true true true = ground arith
bracketed_iff true true false = ground arith
bracketed_iff true false q = ground arith
bracketed_iff false p q = ground arith

pub is_empty_iff : (s : Text) → (is_empty s ≡ false) ↔ (s ≢ [])
is_empty_iff [] = (λ h e. absurd (false≢true (sym h)), λ h. absurd (h refl))
is_empty_iff (c ∷ s) = (λ h e. cc, λ h. refl)

not_iff : (b : Bool) → (not b ≡ false) ↔ (b ≡ true)
not_iff true = ground arith
not_iff false = ground arith

check_sides_iff : (host port : Text) → (check_sides host port ≡ ok tt) ↔ IsSides host port
unfolding check_sides
check_sides_iff host port =
    let (to, from) =
      guards_iff (contains host b':' && not (starts_with (bytes "[") host && ends_with b']' host))
        (is_empty host) (not (is_some (parse_u16 port))) unbracketed_ipv6 empty_host
        (bad_port port) in
    let brackets =
      bracketed_iff (contains host b':') (starts_with (bytes "[") host) (ends_with b']' host) in
    let number = not_iff (is_some (parse_u16 port)) in
    (
      λ h. let (a, b, c) = to h in (brackets.0 a, (is_empty_iff host).0 b, number.0 c),
      λ s. from (brackets.1 s.0, (is_empty_iff host).1 s.1, number.1 s.2),
    )

-- A local address is accepted exactly if it is `host:port` with a port of 16 bits behind its last
-- colon and a host that is not empty and in brackets if it has a colon.
pub validate_local_addr_iff : (s : Text) → (validate_local_addr s ≡ ok tt) ↔ IsLocalAddr s
unfolding validate_local_addr
validate_local_addr_iff s = (to, from)
  where
    to : validate_local_addr s ≡ ok tt → IsLocalAddr s
    to h = elim (Option-cases (rsplit_once b':' s)) [
      | inl gone ↦ absurd (err_ok (rw gone at h))
      | inr (p, found) ↦
          let (split, last) = rsplit_once-some b':' s found in
          (p.0, p.1, split, last, (check_sides_iff p.0 p.1).0 (rw found at h))
    ]
      where
        err_ok : ◌≡◌ {A = Result AddrError (Unit {0})} (err missing_port) (ok tt) → ⊥
        err_ok e = cc

    from : IsLocalAddr s → validate_local_addr s ≡ ok tt
    from (host, port, split, last, sides) =
        rw (split, rsplit_once_append b':' host port last) ((check_sides_iff host port).1 sides)

at_index_iff : (i : ℕ) (r : Result AddrError (Unit {0})) → (at_index i r ≡ ok tt) ↔ (r ≡ ok tt)
at_index_iff i (ok tt) = (λ h. refl, λ h. refl)
at_index_iff i (err reason) = ((λ h. cc), (λ h. cc))

-- The rules pass exactly if each local address is accepted, wherever the count starts.
pub validate_rules_iff :
    (i : ℕ) (rules : List IngressRule)
    → (validate_rules i rules ≡ ok tt) ↔ All (λ rule. IsLocalAddr rule.local_addr) rules
unfolding validate_rules
validate_rules_iff i [] = (λ h. tt, λ h. refl)
validate_rules_iff i (rule ∷ rules) =
    let first = at_index_iff i (validate_local_addr rule.local_addr) in
    let addr = validate_local_addr_iff rule.local_addr in
    let rest = validate_rules_iff (suc i) rules in
    (
      λ h.
          let (here, there) = >>-eq-ok (at_index i (validate_local_addr rule.local_addr)) _ h in
          (addr.0 (first.0 here), rest.0 there),
      λ a. rw (first.1 (addr.1 a.0)) (rest.1 a.1),
    )

-- ===== src/Cli/Ingress.antt =====
-- crates/tuyau-cli/src/main.rs: which `--ingress` flags `parse_ingress` accepts.
use tuyau.Prelude.{
  ◌≡◌, ◌≢◌, ◌↔◌, refl, ap, ◌∙◌, subst, Bool, false, ◌||◌, List, [], ◌∷◌, ◌++◌, map, arith, nat_eq,
  Has, All, ok, reject, ok_or, >>=-eq-ok, >>-eq-ok, ok_inj, reject-ok, ok_or-ok,
}
use mathlib.Core.Path.{ap₂}
use tuyau.Prelude.Texts.{Text, split_once}
use tuyau.Config.{is_empty}
use tuyau.ClientConfig.{IngressRule}
use tuyau.ClientConfig.Validate.{is_empty_iff}
use tuyau.Prelude.Splits.{split_once_append, split_once-some}
use tuyau.Cli.{empty_side, no_separator, parse_rule, parse_ingress}

-- A flag spells a rule as its two sides around an equals sign.
abbrev pub render : IngressRule → Text
render rule = rule.host ++ (b'=' ∷ rule.local_addr)

pub record IsRule (rule : IngressRule) : Type 0 where
  pub no_equals : ¬ Has b'=' rule.host
  pub host_given : rule.host ≢ []
  pub addr_given : rule.local_addr ≢ []

parse_rule-render : (rule : IngressRule) → IsRule rule → parse_rule (render rule) ≡ ok rule
unfolding parse_rule
parse_rule-render rule h =
    rw
      (
        split_once_append b'=' rule.host rule.local_addr h.no_equals,
        (is_empty_iff rule.host).1 h.host_given,
        (is_empty_iff rule.local_addr).1 h.addr_given,
      )
      refl

-- The sides are given if `reject` lets them pass.
or-false : (a b : Bool) → (a || b) ≡ false → (a ≡ false) × (b ≡ false)
or-false a b h = ground arith

parse_rule-ok :
    (e : Text) {rule : IngressRule} → parse_rule e ≡ ok rule → (e ≡ render rule) × IsRule rule
unfolding parse_rule
parse_rule-ok e {rule} h =
    let (sides, found, rest) = >>=-eq-ok (ok_or (split_once b'=' e) (no_separator e)) _ h in
    let (passes, made) =
      >>-eq-ok (reject (is_empty sides.0 || is_empty sides.1) (empty_side e)) _ rest in
    let (split, first) =
      split_once-some b'=' e (ok_or-ok (split_once b'=' e) (no_separator e) found) in
    let (host, addr) =
      or-false (is_empty sides.0) (is_empty sides.1)
        (reject-ok (is_empty sides.0 || is_empty sides.1) (empty_side e) passes) in
    let this : record { host = sides.0; local_addr = sides.1 } ≡ rule = ok_inj made in
    subst (λ (r : IngressRule). (e ≡ render r) × IsRule r) this
      (
        split,
        record {
          no_equals = first;
          host_given = (is_empty_iff sides.0).0 host;
          addr_given = (is_empty_iff sides.1).0 addr;
        },
      )

parse_ingress-render :
    (rules : List IngressRule) → All IsRule rules → parse_ingress (map render rules) ≡ ok rules
unfolding parse_ingress
parse_ingress-render [] h = refl
parse_ingress-render (rule ∷ rules) (h, hs) =
    rw (parse_rule-render rule h, parse_ingress-render rules hs) refl

parse_ingress-ok :
    (es : List Text) {rules : List IngressRule}
    → parse_ingress es ≡ ok rules
    → (es ≡ map render rules) × All IsRule rules
unfolding parse_ingress
parse_ingress-ok [] {rules} h =
    subst (λ (rs : List IngressRule). ([] ≡ map render rs) × All IsRule rs) (ok_inj h) (refl, tt)
parse_ingress-ok (e ∷ es) {rules} h =
    let (rule, first, rest) = >>=-eq-ok (parse_rule e) _ h in
    let (others, next, made) = >>=-eq-ok (parse_ingress es) _ rest in
    let (spelled, is_rule) = parse_rule-ok e first in
    let (all_spelled, are_rules) = parse_ingress-ok es next in
    let this : rule ∷ others ≡ rules = ok_inj made in
    subst (λ (rs : List IngressRule). (e ∷ es ≡ map render rs) × All IsRule rs) this
      (ap₂ ◌∷◌ spelled all_spelled, (is_rule, are_rules))

-- `parse_ingress` accepts exactly the flags that spell rules with a host without an equals sign and
-- two sides that are not empty, and it returns those rules in their order.
pub parse_ingress_iff :
    (es : List Text) (rules : List IngressRule)
    → (parse_ingress es ≡ ok rules) ↔ ((es ≡ map render rules) × All IsRule rules)
parse_ingress_iff es rules = (
  parse_ingress-ok es,
  λ (spelled, are_rules). ap parse_ingress spelled ∙ parse_ingress-render rules are_rules,
)

-- ===== src/HttpProxy/Headers.antt =====
-- The headers that `set_client_address` of crates/tuyau-server/src/h2proxy.rs leaves.
use tuyau.Prelude.{
  ◌≡◌, refl, ◌≢◌, sym, ◌∙◌, ◌⊎◌, and_then, ==_refl, ==_ne, false, Option, none, some, if◌then◌else◌,
  ◌==◌, text_eq, text_beq, is_some, unwrap_or, some_inj, subst, Bool-cases, inl, inr,
}
use tuyau.Prelude.Texts.{Text, trim}
use tuyau.Net.{IpAddr, SocketAddr, to_canonical}
use tuyau.HttpProxy.{
  Http, Client, proxy_client, direct_client, x_real_ip, x_forwarded_for, cf_connecting_ip,
  forwarded_ip, client_ip, set_client_address,
}
use tuyau.HttpProxy.Paths.{HasAddress}

module _ {H U : Type 0} (http : Http H U) where
  open http use {
    get, insert, append, remove, new, display, from_str, get_insert, get_append, get_remove,
    get_new, from_str_display, parse_uri, path_and_query, to_str, parse_ip,
  }

  -- What the three headers are afterwards, and that no other header changes.
  pub record IsAddressed (peer : SocketAddr) (client : Client) (before after : H) : Type 0 where
    pub address : HasAddress http (display (client_ip http before peer client)) after
    pub untrusted : forwarded_ip http before client ≡ none → get cf_connecting_ip after ≡ none
    pub others :
        (k : Text)
        → k ≢ x_real_ip
        → k ≢ x_forwarded_for
        → k ≢ cf_connecting_ip
        → get k after ≡ get k before

  pub is_other : (j k : Text) → k ≢ j → (j == k) ≡ false
  is_other j k ne = ==_ne j k λ e. ne (sym e)

  pub get-insert_same : (k v : Text) (h : H) → get k (insert k v h) ≡ some v
  get-insert_same k v h = rw (get_insert k k v h, ==_refl k) refl

  pub get-insert_other : (k j v : Text) (h : H) → (k == j) ≡ false → get j (insert k v h) ≡ get j h
  get-insert_other k j v h e = rw (get_insert k j v h, e) refl

  pub get-append_other : (k j v : Text) (h : H) → (k == j) ≡ false → get j (append k v h) ≡ get j h
  get-append_other k j v h e = rw (get_append k j v h, e) refl

  pub get-append_new : (k v : Text) (h : H) → get k h ≡ none → get k (append k v h) ≡ some v
  get-append_new k v h e = rw (get_append k k v h, ==_refl k, e) refl

  get-remove_same : (k : Text) (h : H) → get k (remove k h) ≡ none
  get-remove_same k h = rw (get_remove k k h, ==_refl k) refl

  get-remove_other : (k j : Text) (h : H) → (k == j) ≡ false → get j (remove k h) ≡ get j h
  get-remove_other k j h e = rw (get_remove k j h, e) refl

  -- The headers without `CF-Connecting-IP`, unless it gave the address.
  abbrev kept : H → Client → H
  kept headers client =
      if is_some (forwarded_ip http headers client)
      then headers
      else remove cf_connecting_ip headers

  get-kept_other :
      (k : Text) (headers : H) (client : Client)
      → k ≢ cf_connecting_ip
      → get k (kept headers client) ≡ get k headers
  get-kept_other k headers client ne =
      elim (Bool-cases (is_some (forwarded_ip http headers client))) [
        | inl given ↦ rw given refl
        | inr not_given ↦
            rw not_given
              (get-remove_other cf_connecting_ip k headers (is_other cf_connecting_ip k ne))
      ]

  -- `set_client_address` does not panic. Afterwards X-Real-IP and X-Forwarded-For are the canonical
  -- address that a proxy client gave in CF-Connecting-IP, or else that of the TCP peer; then, as for
  -- every direct client, CF-Connecting-IP is gone. No other header changes.
  pub set_client_address-IsAddressed :
      (headers : H) (peer : SocketAddr) (client : Client)
      → (after : H) × (set_client_address http headers peer client ≡ some after)
        × IsAddressed peer client headers after
  unfolding set_client_address text_beq
  set_client_address-IsAddressed headers peer client =
      let a = display (client_ip http headers peer client) in
      let base = kept headers client in
      (
        insert x_real_ip a (insert x_forwarded_for a base),
        rw (from_str_display (client_ip http headers peer client)) refl,
        record {
          address = (
            get-insert_same x_real_ip a (insert x_forwarded_for a base),
            rw (get-insert_other x_real_ip x_forwarded_for a (insert x_forwarded_for a base) refl)
                (get-insert_same x_forwarded_for a base),
          );
          untrusted = λ no_ip.
              rw
                (
                  get-insert_other x_real_ip cf_connecting_ip a (insert x_forwarded_for a base)
                      refl,
                  get-insert_other x_forwarded_for cf_connecting_ip a base refl,
                  no_ip,
                )
                (get-remove_same cf_connecting_ip headers);
          others = λ k real forwarded cf.
              rw
                (
                  get-insert_other x_real_ip k a (insert x_forwarded_for a base)
                      (is_other x_real_ip k real),
                  get-insert_other x_forwarded_for k a base (is_other x_forwarded_for k forwarded),
                )
                (get-kept_other k headers client cf);
        },
      )

  -- The address that a client has for the backends, in canonical form: of a direct client the TCP
  -- peer's, of a proxy the one that it names in CF-Connecting-IP, if that header has an address.
  abbrev pub Names : H → IpAddr → Type 0
  Names headers ip =
      (value : Text) × (s : Text) × (get cf_connecting_ip headers ≡ some value)
      × (to_str value ≡ some s)
      × (parse_ip (trim s) ≡ some ip)

  abbrev pub IsClientAddress : H → SocketAddr → Client → Text → Type 0
  IsClientAddress headers peer direct_client a = a ≡ display (to_canonical peer.ip)
  IsClientAddress headers peer proxy_client a =
      ((ip : IpAddr) × Names headers ip × (a ≡ display (to_canonical ip)))
      ⊎ (((ip : IpAddr) → Names headers ip → ⊥) × (a ≡ display (to_canonical peer.ip)))

  -- What `Names` leaves out, by the step that fails.
  differ : {A : Type 0} {o : Option A} {x : A} → o ≡ none → o ≡ some x → ⊥
  differ e e' = cc

  pub client_ip-IsClientAddress :
      (headers : H) (peer : SocketAddr) (client : Client)
      → IsClientAddress headers peer client (display (client_ip http headers peer client))
  unfolding forwarded_ip
  client_ip-IsClientAddress headers peer direct_client = refl
  client_ip-IsClientAddress headers peer proxy_client = go (get cf_connecting_ip headers) refl
    where
      parsed :
          (value s : Text)
          → get cf_connecting_ip headers ≡ some value
          → to_str value ≡ some s
          → (found : Option IpAddr) → parse_ip (trim s) ≡ found
          → IsClientAddress headers peer proxy_client
              (display (to_canonical (unwrap_or found peer.ip)))
      parsed value s e e' none e'' = inr (
        λ ip n.
            let same =
              some_inj.0
                (sym (subst (λ v. to_str v ≡ some n.1) (some_inj.0 (sym n.2 ∙ e)) n.3) ∙ e') in
            differ e'' (subst (λ v. parse_ip (trim v) ≡ some ip) same n.4),
        refl,
      )
      parsed value s e e' (some ip) e'' = inl (ip, (value, s, e, e', e''), refl)

      as_text :
          (value : Text)
          → get cf_connecting_ip headers ≡ some value
          → (text : Option Text) → to_str value ≡ text
          → IsClientAddress headers peer proxy_client
              (display (to_canonical (unwrap_or (and_then text λ s. parse_ip (trim s)) peer.ip)))
      as_text value e none e' = inr (
        λ ip n. differ e' (subst (λ v. to_str v ≡ some n.1) (some_inj.0 (sym n.2 ∙ e)) n.3),
        refl,
      )
      as_text value e (some s) e' = parsed value s e e' (parse_ip (trim s)) refl

      go :
          (given : Option Text)
          → get cf_connecting_ip headers ≡ given
          → IsClientAddress headers peer proxy_client (
              display (
                to_canonical (
                  unwrap_or
                    (and_then given λ value. and_then (to_str value) λ s. parse_ip (trim s))
                    peer.ip)))
      go none e = inr (λ ip n. differ e n.2, refl)
      go (some value) e = as_text value e (to_str value) refl

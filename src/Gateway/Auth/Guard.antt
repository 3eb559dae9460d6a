-- ===== src/Gateway/Auth/Guard.antt =====
-- gateway/service.go: which requests reach the proxy.
use pmi.Base.{
  ℕ, ◌≤◌, String, ◌≡◌, ◌≢◌, ◌↔◌, refl, sym, ap, ◌∙◌, subst, Bool, true, false, Option, none, some,
  ltb, arith, if◌then◌else◌, ite, if_neg, text_discrete,
}
use pmi.Base.Http.{Request, Reply, next, abort}
use pmi.Gateway.ApiKeys.{KeyStore, validate_key, scope_of, scope_level}
use pmi.Gateway.Auth.{
  no_context, is_public, auth_header, key_of, with_scope, check_key, check_header, auth_middleware,
  enough_scope, require_min_scope, min_scope_of, proxy_guard,
}

scope_level_empty : scope_level "" ≡ 0
unfolding pmi.Gateway.ApiKeys.scope_level pmi.Base.text_discrete
scope_level_empty = refl

scope_level_read : scope_level "read" ≡ 1
unfolding pmi.Gateway.ApiKeys.scope_level pmi.Base.text_discrete
scope_level_read = refl

verdict : (n read : ℕ) → read ≡ 1 → ((if ltb n read then abort 403 else next) ≡ next) ↔ (1 ≤ n)
verdict n read h = ground (arith)

module _ {ℓ} {S : Type ℓ} (redis : KeyStore S) (hash_key : String → String) (fails : ℕ → Bool) where
  min_scope_of-with_scope :
      (key scope : String) (s : S)
      → ((min_scope_of redis hash_key true fails (with_scope key (s, scope))).1 ≡ next)
        ↔ (1 ≤ scope_level scope)
  unfolding min_scope_of with_scope require_min_scope enough_scope
  min_scope_of-with_scope key scope s =
      elim (text_discrete scope "")
        as (λ d.
          ((min_scope_of redis hash_key true fails (
              ite d (s, no_context, abort 401)
                (s, record { api_key = some key; api_key_scope = some scope }, next))).1
            ≡ next)
          ↔ (1 ≤ scope_level scope)) [
            | yes e ↦
                let none_left = ap (λ t. scope_level t) e ∙ scope_level_empty in ground (arith)
            | no ne ↦
                let same = if_neg (text_discrete scope "") ne _ _ in
                let v = verdict (scope_level scope) (scope_level "read") scope_level_read in
                (λ p. v.0 (sym same ∙ p), λ l. same ∙ v.1 l)
          ]

  min_scope_of-check_header :
      (now : ℕ) (header : String) (s : S)
      → ((min_scope_of redis hash_key true fails
            (check_header redis hash_key true fails now header s)).1
          ≡ next)
        ↔ ((header ≢ "")
            × (1
                ≤ scope_level
                    (scope_of (validate_key redis hash_key fails now (key_of header) s).1)))
  unfolding min_scope_of check_header check_key
  min_scope_of-check_header now header s =
      let (s', result) = validate_key redis hash_key fails now (key_of header) s in
      let scope = scope_of result in
      elim (text_discrete header "")
        as (λ d.
          ((min_scope_of redis hash_key true fails
              (ite d (s, no_context, abort 401) (with_scope (key_of header) (s', scope)))).1
            ≡ next)
          ↔ ((header ≢ "") × (1 ≤ scope_level scope))) [
            | yes e ↦ (λ p. ground (arith), λ q. ground (arith))
            | no ne ↦
                let v = min_scope_of-with_scope (key_of header) scope s' in
                (λ p. (ne, v.0 p), λ q. v.1 q.1)
          ]

  keys_let_through :
      (now : ℕ) (path : String) (r : Request) (s : S)
      → ((min_scope_of redis hash_key true fails
            (auth_middleware redis hash_key true fails now path r s)).1
          ≡ next)
        ↔ ((is_public path ≡ false)
            × (auth_header r ≢ "")
            × (1
                ≤ scope_level (
                    scope_of (validate_key redis hash_key fails now (key_of (auth_header r)) s).1)))
  unfolding auth_middleware min_scope_of require_min_scope enough_scope
  keys_let_through now path r s =
      let header = auth_header r in
      let v = min_scope_of-check_header now header s in
      elim (is_public path)
        as (λ b.
          ((min_scope_of redis hash_key true fails (
              if b
              then (s, no_context, next)
              else check_header redis hash_key true fails now header s)).1
            ≡ next)
          ↔ ((b ≡ false)
              × (header ≢ "")
              × (1
                  ≤ scope_level
                      (scope_of (validate_key redis hash_key fails now (key_of header) s).1)))) [
                        | true ↦ (λ p. ground (arith), λ q. ground (arith))
                        | false ↦ (λ p. (refl, (v.0 p).0, (v.0 p).1), λ q. v.1 (q.1, q.2))
                      ]

  -- With the service for API keys, a request on a route of the proxy reaches it exactly if the rate
  -- limiter passes it on, its path is not one that needs no key, it brings an authorization, and
  -- Redis answers that the key in that is valid at the time with a scope of at least the level of
  -- "read".
  pub reaches_proxy_iff :
      (limited : Reply) (now : ℕ) (path : String) (r : Request) (s : S)
      → ((proxy_guard redis hash_key true fails limited now path r s).1 ≡ next) ↔ (
          (limited ≡ next)
          × (is_public path ≡ false)
          × (auth_header r ≢ "")
          × (1
              ≤ scope_level
                  (scope_of (validate_key redis hash_key fails now (key_of (auth_header r)) s).1)))
  unfolding proxy_guard
  reaches_proxy_iff next now path r s =
      let v = keys_let_through now path r s in
      (λ p. (refl, (v.0 p).0, (v.0 p).1, (v.0 p).2), λ q. v.1 (q.1, q.2, q.3))
  reaches_proxy_iff (abort status) now path r s = (λ p. ground arith, λ q. ground arith)

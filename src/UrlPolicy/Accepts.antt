-- ===== src/UrlPolicy/Accepts.antt =====
-- crates/booth-pi/src/url_policy.rs: exactly the URLs of the policy are let through.
use telephone_booth.Base.{
  Result, ok, err, ℕ, Bool, true, false, not, ◌&&◌, String, eq_iff, Option, none, some, List, [],
  ◌∷◌, ◌≡◌, refl, ap, subst, ◌↔◌, ◌⊎◌, inl, inr, arith, any, Option-cases, Bool-cases,
}
use telephone_booth.UrlPolicy.Address.{IpAddr, is_private_or_reserved}
use telephone_booth.UrlPolicy.Policy.{
  invalid_url, UrlParser, AudioFetchPolicy, scheme_ok, host_allowed, literal_ip, is_empty,
  check_literal, to_ascii_lowercase, codes_eq, check_host, check_url, validate,
}

-- The scheme is https, or http where the policy allows it.
abbrev pub SchemeGranted : AudioFetchPolicy → String → Type 0
SchemeGranted p scheme = (scheme ≡ "https") ⊎ ((p.allow_http ≡ true) × (scheme ≡ "http"))

-- One of the hosts is the given one, whatever the case of the letters.
abbrev pub Listed : List String → String → Type 0
Listed [] host = ⊥
Listed (h ∷ hs) host = (to_ascii_lowercase h ≡ to_ascii_lowercase host) ⊎ Listed hs host

-- The allowlist is empty or has the host.
abbrev pub HostGranted : AudioFetchPolicy → String → Type 0
HostGranted p host = (p.allowed_hosts ≡ []) ⊎ Listed p.allowed_hosts host

-- Private addresses are allowed, or the host is no literal address that is private.
abbrev pub LiteralGranted : AudioFetchPolicy → Option IpAddr → Type 0
LiteralGranted p none = Unit {0}
LiteralGranted p (some addr) =
    (p.allow_private_hosts ≡ true) ⊎ (is_private_or_reserved addr ≡ false)

scheme_ok_iff : (p : AudioFetchPolicy) (s : String) → (scheme_ok p s ≡ true) ↔ SchemeGranted p s
unfolding scheme_ok
scheme_ok_iff p s = ground (arith, eq_iff s "https", eq_iff s "http")

codes_eq_sound : (xs ys : List ℕ) → codes_eq xs ys ≡ true → xs ≡ ys
codes_eq_sound [] [] h = refl
codes_eq_sound [] (y ∷ ys) h = cc
codes_eq_sound (x ∷ xs) [] h = cc
codes_eq_sound (x ∷ xs) (y ∷ ys) h = ground (arith, codes_eq_sound xs ys)

codes_eq_refl : (xs : List ℕ) → codes_eq xs xs ≡ true
codes_eq_refl [] = refl
codes_eq_refl (x ∷ xs) = ground (arith, codes_eq_refl xs)

codes_eq_iff : (xs ys : List ℕ) → (codes_eq xs ys ≡ true) ↔ (xs ≡ ys)
codes_eq_iff xs ys = (codes_eq_sound xs ys, λ e. rw e (codes_eq_refl ys))

abbrev matches : String → String → Bool
matches host h = codes_eq (to_ascii_lowercase h) (to_ascii_lowercase host)

any-Listed : (host : String) (hs : List String) → any (matches host) hs ≡ true → Listed hs host
any-Listed host [] h = cc
any-Listed host (h ∷ hs) e = elim (Bool-cases (matches host h)) [
  | inl hit ↦ inl (codes_eq_sound _ _ hit)
  | inr miss ↦ inr (any-Listed host hs (rw (miss, any) at e))
]

Listed-any : (host : String) (hs : List String) → Listed hs host → any (matches host) hs ≡ true
Listed-any host [] h = absurd h
Listed-any host (h ∷ hs) (inl same) = rw (same, codes_eq_refl (to_ascii_lowercase host), any)
Listed-any host (h ∷ hs) (inr l) = ground (arith, Listed-any host hs l)

host_ok_iff :
    (p : AudioFetchPolicy) (host : String)
    → ((not (is_empty p.allowed_hosts) && not (host_allowed p host)) ≡ false) ↔ HostGranted p host
unfolding host_allowed
host_ok_iff p host = (sound p.allowed_hosts, complete p.allowed_hosts)
  where
    sound :
        (hs : List String)
        → (not (is_empty hs) && not (any (matches host) hs)) ≡ false
        → (hs ≡ []) ⊎ Listed hs host
    sound [] e = inl refl
    sound (h ∷ hs) e = inr (any-Listed host (h ∷ hs) (ground arith))

    complete :
        (hs : List String)
        → (hs ≡ []) ⊎ Listed hs host
        → (not (is_empty hs) && not (any (matches host) hs)) ≡ false
    complete hs (inl e) = rw e
    complete hs (inr l) = rw (Listed-any host hs l) (ground arith)

module _ (lib : UrlParser) where
  open lib use {Url, parse, scheme, host_str, host}

  pub record Granted (p : AudioFetchPolicy) (url : Url) : Type 0 where
    pub scheme_granted : SchemeGranted p (scheme url)
    pub name : String
    pub named : host_str url ≡ some name
    pub host_granted : HostGranted p name
    pub literal_granted : LiteralGranted p (literal_ip (host url))

  check_literal_iff :
      (p : AudioFetchPolicy) (a : Option IpAddr) (url : Url)
      → (check_literal p a url ≡ ok url) ↔ LiteralGranted p a
  unfolding check_literal
  check_literal_iff p none url = ground arith
  check_literal_iff p (some addr) url = ground arith

  check_host_iff :
      (p : AudioFetchPolicy) (url : Url) (name : String)
      → (check_host lib p url name ≡ ok url)
        ↔ (HostGranted p name × LiteralGranted p (literal_ip (host url)))
  unfolding check_host
  check_host_iff p url name = (sound, complete)
    where
      sound :
          check_host lib p url name ≡ ok url
          → HostGranted p name × LiteralGranted p (literal_ip (host url))
      sound e = elim (Bool-cases (not (is_empty p.allowed_hosts) && not (host_allowed p name))) [
        | inl refused ↦ absurd (ground arith)
        | inr granted ↦ (
          (host_ok_iff p name).0 granted,
          (check_literal_iff p (literal_ip (host url)) url).0 (rw granted at e),
        )
      ]

      complete :
          HostGranted p name × LiteralGranted p (literal_ip (host url))
          → check_host lib p url name ≡ ok url
      complete (h, l) =
          rw ((host_ok_iff p name).1 h) ((check_literal_iff p (literal_ip (host url)) url).1 l)

  check_url_sound :
      (p : AudioFetchPolicy) (url : Url) → check_url lib p url ≡ ok url → Granted p url
  unfolding check_url
  check_url_sound p url e = elim (Bool-cases (scheme_ok p (scheme url))) [
    | inr refused ↦ absurd (ground arith)
    | inl granted ↦ elim (Option-cases (host_str url)) [
      | inl missing ↦ absurd (ground arith)
      | inr (name, named) ↦
          let (h, l) = (check_host_iff p url name).0 (rw (granted, named) at e) in
          record {
            scheme_granted = (scheme_ok_iff p (scheme url)).0 granted;
            name = name;
            named = named;
            host_granted = h;
            literal_granted = l;
          }
    ]
  ]

  check_url_complete :
      (p : AudioFetchPolicy) (url : Url) → Granted p url → check_url lib p url ≡ ok url
  unfolding check_url
  check_url_complete p url g =
      rw ((scheme_ok_iff p (scheme url)).1 g.scheme_granted, g.named)
        ((check_host_iff p url g.name).1 (g.host_granted, g.literal_granted))

  -- A URL that passes is the one that was given.
  check_url-same :
      (p : AudioFetchPolicy) (url url' : Url) → check_url lib p url ≡ ok url' → url ≡ url'
  unfolding check_url check_host check_literal
  check_url-same p url url' e = ground arith

  -- A text is let through as a URL exactly when it parses as that URL, the scheme is https (or http
  -- where the policy allows it), the URL has a host, the allowlist is empty or names the host in some
  -- case of letters, and the host is no literal address of a refused block (unless the policy allows
  -- private hosts).
  pub validate_iff :
      (p : AudioFetchPolicy) (raw_url : String) (url : Url)
      → (validate lib p raw_url ≡ ok url) ↔ ((parse raw_url ≡ ok url) × Granted p url)
  unfolding validate
  validate_iff p raw_url url = (λ e. sound (parse raw_url) e, complete)
    where
      sound :
          (r : Result String Url)
          → elim r [ err e ↦ err (invalid_url e) | ok u ↦ check_url lib p u ] ≡ ok url
          → (r ≡ ok url) × Granted p url
      sound (err e) h = absurd (ground arith)
      sound (ok u) h =
          let same = check_url-same p u url h in
          (ap ok same, check_url_sound p url (subst (λ v. check_url lib p v ≡ ok url) same h))

      complete : (parse raw_url ≡ ok url) × Granted p url → validate lib p raw_url ≡ ok url
      complete (parsed, g) = rw (parsed, validate) (check_url_complete p url g)

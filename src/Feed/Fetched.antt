-- ===== src/Feed/Fetched.antt =====
-- A fetch connects to public addresses alone.
use rtbh_panel.Common.{
  if◌then◌else◌, ◌⊎◌, ℕ, ◌+◌, ◌<◌, ◌≤◌, String, Bool, true, false, not, ◌≡◌, refl, Option, none,
  some, List, [], ◌∷◌, str_eq, arith, Option-cases, inl, inr,
}
use rtbh_panel.Common.Lists.{All, length}
use rtbh_panel.Common.Results.{Attempt, ok, err}
use rtbh_panel.Net.Addr.{Addr}
use rtbh_panel.Feed.Parse.{Line}
use rtbh_panel.Feed.Public.{is_public_ip, all_public}
use rtbh_panel.Feed.Fetch.{
  Net, Client, Documented, Exchange, FetchError, Url, Fetched, IsAsked, validate_public_url,
  dial_context, dial_first, check_redirect, public_do, fetch, fetch_from, download, from_file,
  is_http,
}

module _ (net : Net) where
  dial_first-public :
      (port : String) (l : List Addr) (a : Addr)
      → dial_first net port l ≡ ok a
      → is_public_ip net.classes a ≡ true
  unfolding all_public
  dial_first-public port [] a h = absurd (ground arith)
  dial_first-public port (x ∷ rest) a h = ground arith

  dial_context-public :
      (moment : ℕ) (address : String) (a : Addr)
      → dial_context net moment address ≡ ok a
      → is_public_ip net.classes a ≡ true
  unfolding dial_context
  dial_context-public moment address a h = elim (Option-cases (net.split_host_port address)) [
    | inl n ↦ absurd (ground arith)
    | inr ((host, port), n) ↦ elim (Option-cases (net.lookup_net_ip moment host)) [
      | inl m ↦ absurd (ground arith)
      | inr (l, m) ↦ dial_first-public port l a (ground arith)
    ]
  ]

  connected_public :
      (l : List Addr)
      → All (λ a. (moment : ℕ) × (address : String) × (dial_context net moment address ≡ ok a)) l
      → All (λ a. is_public_ip net.classes a ≡ true) l
  connected_public [] h = tt
  connected_public (a ∷ l) ((moment, address, h), rest) =
      (dial_context-public moment address a h, connected_public l rest)

  few_redirects :
      (via : ℕ) (l : List String)
      → IsAsked (check_redirect net) via l
      → via ≤ 10
      → via + length l ≤ 10
  unfolding check_redirect
  few_redirects via [] h k = omega arith
  few_redirects via (t ∷ l) ((moment, h), rest) k =
      let below : via < 10 = ground arith in
      let later = few_redirects (via + 1) l rest (omega arith) in omega arith

  module _ (client : Client) (doc : Documented client) where
    -- What a fetch did: nothing on the network, or an exchange with public addresses.
    abbrev pub IsPublicFetch : ℕ → String → Fetched net client → Type 0
    IsPublicFetch moment source f =
        (f.exchange ≡ none)
        ⊎ ((e : Exchange) × (f.exchange ≡ some e)
            × All (λ a. is_public_ip net.classes a ≡ true) e.connected
            × (length e.followed ≤ 9)
            × (validate_public_url net moment source ≡ ok tt))

    public_do-public :
        (source : String)
        → All (λ a. is_public_ip net.classes a ≡ true) (public_do net client source).connected
          × (length (public_do net client source).followed ≤ 9)
    unfolding public_do
    public_do-public source =
        let few =
          few_redirects 1 _ (doc.asked (dial_context net) (check_redirect net) source)
            (omega arith) in
        (
          connected_public _ (doc.dialled (dial_context net) (check_redirect net) source),
          omega arith,
        )

    download-public :
        (makes_request expand : Bool) (moment : ℕ) (source : String)
        (r : Attempt FetchError (Unit {0}))
        → validate_public_url net moment source ≡ r
        → IsPublicFetch moment source (download net client makes_request expand moment source r)
    download-public makes_request expand moment source (err e) h = inl refl
    download-public false expand moment source (ok tt) h = inl refl
    download-public true expand moment source (ok tt) h =
        let (public, few) = public_do-public source in
        inr (public_do net client source, refl, public, few, h)

    if_public :
        (moment : ℕ) (source : String) (b : Bool) (x y : Fetched net client)
        → IsPublicFetch moment source x
        → IsPublicFetch moment source y
        → IsPublicFetch moment source (if b then x else y)
    if_public moment source true x y h k = h
    if_public moment source false x y h k = k

    from_file-public :
        (expand : Bool) (moment : ℕ) (source : String) (f : Option (List Line × Bool))
        → IsPublicFetch moment source (from_file net client expand f)
    from_file-public expand moment source none = inl refl
    from_file-public expand moment source (some (lines, read_error)) = inl refl

    fetch_from-public :
        (files : String → Option (List Line × Bool)) (makes_request expand : Bool) (moment : ℕ)
        (source : String) (u : Option Url)
        → IsPublicFetch moment source
            (fetch_from net client files makes_request expand moment source u)
    fetch_from-public files makes_request expand moment source none = inl refl
    fetch_from-public files makes_request expand moment source (some u) =
        if_public moment source (is_http u) _ _
          (download-public makes_request expand moment source
            (validate_public_url net moment source) refl)
          (if_public moment source (not (str_eq u.scheme "")) _ _ (inl refl)
            (from_file-public expand moment source (files source)))

    -- For an HTTP client that connects by DialContext and asks CheckRedirect as net/http documents,
    -- and whatever names resolve to from one lookup to the next: a Fetch makes no exchange, or its
    -- URL has passed ValidatePublicURL, every address that it connects to is public, and it follows
    -- nine redirects at most.
    pub fetch_public :
        (files : String → Option (List Line × Bool)) (makes_request expand : Bool) (moment : ℕ)
        (raw : String)
        → IsPublicFetch moment
            (net.trim_space raw)
            (fetch net client files makes_request expand moment raw)
    unfolding fetch
    fetch_public files makes_request expand moment raw =
        if_public moment (net.trim_space raw) (str_eq (net.trim_space raw) "") _ _ (inl refl) (
          fetch_from-public files makes_request expand moment (net.trim_space raw)
            (net.parse_url (net.trim_space raw)))

-- ===== src/Driver/HttpSigning/Ssrf/Requests.antt =====
-- The requests that the fetch of a key sends.
use emumet.Prelude.{
  ℕ, zero, suc, ◌+◌, ◌≤◌, ◌≡◌, refl, subst, arith, Option, none, some, false, List, [], ◌∷◌, ◌++◌,
  inl, inr, Bool-cases, All, All-append, length, length-append,
}
use emumet.Kernel.Error.{Result, ok, err, rejected}
use emumet.Kernel.Exec.{Exec, lift, continue, ◌>>=◌}
use emumet.Kernel.HttpSigning.{Text}
use emumet.Kernel.Activity.{Value}
use emumet.Driver.HttpSigning.Ssrf.{
  SocketAddr, IpAddr, Url, Surroundings, Web, Sent, Response, redirection, success, failure,
  is_blocked, validate_public_ip, validate_addresses, validate_fetch_url, resolve_host,
  resolve_public, resolve, is_http, has_credentials, is_localhost, all_public, with_port,
  normal_host, fetch_turns, send, fetch_limited_json, ip_or_name, after_check, or_rejected,
  redirected, answered,
}

abbrev pub IsPublic : SocketAddr → Type 0
IsPublic address = is_blocked address.ip ≡ false

IsPublic-ip : (address : SocketAddr) → validate_public_ip address.ip ≡ ok tt → IsPublic address
unfolding validate_public_ip
IsPublic-ip address h = ground arith

IsPublic-addresses :
    (addresses : List SocketAddr) → validate_addresses addresses ≡ ok tt → All IsPublic addresses
unfolding validate_addresses validate_public_ip
IsPublic-addresses [] h = tt
IsPublic-addresses (address ∷ addresses) h = elim (Bool-cases (is_blocked address.ip)) [
  | inl e ↦ absurd (ground arith)
  | inr e ↦ (e, IsPublic-addresses addresses (ground arith))
]

public_address : (ip : IpAddr) → validate_public_ip ip ≡ ok tt → is_blocked ip ≡ false
unfolding validate_public_ip
public_address ip h = ground arith

-- the addresses of a result
abbrev pub OnlyPublic : Result (List SocketAddr) → Type 0
OnlyPublic (ok addresses) = All IsPublic addresses
OnlyPublic (err e) = Unit

module _ (env : Surroundings) where
  with_port-OnlyPublic :
      (ip : IpAddr) (port : Option ℕ) → is_blocked ip ≡ false → OnlyPublic (with_port env ip port)
  with_port-OnlyPublic ip none public = tt
  with_port-OnlyPublic ip (some port) public = (public, tt)

  after_check-OnlyPublic :
      (r : Result (Unit {0})) (s : Result (List SocketAddr))
      → (r ≡ ok tt → OnlyPublic s)
      → OnlyPublic (after_check env r s)
  after_check-OnlyPublic (ok tt) s h = h refl
  after_check-OnlyPublic (err e) s h = tt

  all_public-OnlyPublic : (r : Result (List SocketAddr)) → OnlyPublic (all_public env r)
  all_public-OnlyPublic (ok addresses) =
      after_check-OnlyPublic (validate_addresses addresses) (ok addresses)
        (IsPublic-addresses addresses)
  all_public-OnlyPublic (err e) = tt

  ip_or_name-OnlyPublic :
      (host : Text) (url : Url) (ip : Option IpAddr) → OnlyPublic (ip_or_name env host url ip)
  ip_or_name-OnlyPublic host url none = all_public-OnlyPublic (resolve env host url)
  ip_or_name-OnlyPublic host url (some ip) =
      after_check-OnlyPublic (validate_public_ip ip) (with_port env ip url.port_or_known_default)
        λ h. with_port-OnlyPublic ip url.port_or_known_default (public_address ip h)

  resolve_public-OnlyPublic : (host : Text) (url : Url) → OnlyPublic (resolve_public env host url)
  unfolding resolve_public
  resolve_public-OnlyPublic host url = elim (Bool-cases (is_localhost host)) [
    | inl e ↦ rw e tt
    | inr e ↦ rw e (ip_or_name-OnlyPublic host url (env.parse_ip host))
  ]

  module _ (production : env.test_mode ≡ false) where
    resolve_host-OnlyPublic :
        (url : Url) (host : Option Text) → OnlyPublic (resolve_host env url host)
    unfolding resolve_host
    resolve_host-OnlyPublic url none = tt
    resolve_host-OnlyPublic url (some host) =
        rw production (resolve_public-OnlyPublic (normal_host host) url)

    -- Outside of the test mode, the addresses that a url is validated to are public.
    pub validate_fetch_url-OnlyPublic : (url : Url) → OnlyPublic (validate_fetch_url env url)
    unfolding validate_fetch_url
    validate_fetch_url-OnlyPublic url = elim (Bool-cases (is_http url.scheme)) [
      | inr e ↦ rw e tt
      | inl e ↦ elim (Bool-cases (has_credentials url)) [
        | inl k ↦ rw (e, k) tt
        | inr k ↦ rw (e, k) (resolve_host-OnlyPublic url url.host)
      ]
    ]

abbrev pub SentPublic : Sent → Type 0
SentPublic request = All IsPublic request.addresses

-- what runs sends at most `n` requests, and all of them to public addresses
record Sends {A : Type 0} (n : ℕ) (m : Exec (List Sent) A) : Type 0 where
  at :
      (sent : List Sent)
      → All SentPublic sent
      → All SentPublic (m sent).1 × (length (m sent).1 ≤ length sent + n)

module _ {A : Type 0} where
  Sends-lift : (n : ℕ) (r : Result A) → Sends n (lift r)
  Sends-lift n r = record { at = λ sent h. (h, omega arith) }

module _ {A B : Type 0} where
  Sends-bind :
      (n : ℕ) (r : Result A) (f : A → Exec (List Sent) B)
      → ((a : A) → r ≡ ok a → Sends n (f a))
      → Sends n (lift r >>= f)
  Sends-bind n (ok a) f h = record { at = (h a refl).at }
  Sends-bind n (err e) f h = record { at = λ sent p. (p, omega arith) }

module _ (env : Surroundings) (web : Web) (max_response_bytes : ℕ) where
  continue-Sends :
      {B : Type 0} (n : ℕ) (r : Result Response) (f : Response → Exec (List Sent) B)
      (request : Sent) (sent : List Sent)
      → ((response : Response) → Sends n (f response))
      → SentPublic request
      → All SentPublic sent
      → All SentPublic (continue r f (sent ++ request ∷ [])).1
        × (length (continue r f (sent ++ request ∷ [])).1 ≤ length sent + suc n)
  continue-Sends n (ok response) f request sent h public all =
      let (p, q) =
        (h response).at (sent ++ request ∷ [])
          (All-append SentPublic sent (request ∷ []) all (public, tt)) in
      (p, omega (arith, q, length-append sent (request ∷ [])))
  continue-Sends n (err e) f request sent h public all = (
    All-append SentPublic sent (request ∷ []) all (public, tt),
    omega (arith, length-append sent (request ∷ [])),
  )

  Sends-send :
      {B : Type 0} (n : ℕ) (url : Url) (addresses : List SocketAddr)
      (f : Response → Exec (List Sent) B)
      → All IsPublic addresses
      → ((response : Response) → Sends n (f response))
      → Sends (suc n) (send env web max_response_bytes url addresses >>= f)
  unfolding send
  Sends-send n url addresses f public h = record {
    at = λ sent all.
        continue-Sends n (or_rejected (web.get url addresses)) f
          (record { url = url; addresses = addresses }) sent h public all;
  }

  answered-Sends :
      (n : ℕ) (again : Url → Exec (List Sent) Value) (url : Url)
      → ((target : Url) → Sends n (again target))
      → (response : Response) → Sends n (answered env web max_response_bytes again url response)
  answered-Sends n again url h (redirection location) =
      Sends-bind n (redirected env web max_response_bytes url location) again λ target _. h target
  answered-Sends n again url h (success chunks) = Sends-lift n _
  answered-Sends n again url h failure = Sends-lift n (err rejected)

  module _ (production : env.test_mode ≡ false) where
    found-IsPublic :
        (url : Url) (addresses : List SocketAddr)
        → validate_fetch_url env url ≡ ok addresses
        → All IsPublic addresses
    found-IsPublic url addresses h =
        subst OnlyPublic h (validate_fetch_url-OnlyPublic env production url)

    fetch_turns-Sends :
        (turns : ℕ) (url : Url) → Sends turns (fetch_turns env web max_response_bytes turns url)
    unfolding fetch_turns
    fetch_turns-Sends zero url = Sends-lift 0 (err rejected)
    fetch_turns-Sends (suc turns) url =
        Sends-bind (suc turns) (validate_fetch_url env url) _ λ addresses h.
          Sends-bind (suc turns) (web.client_for_url url addresses) _ λ _ _.
            Sends-send turns url addresses _ (found-IsPublic url addresses h) (
              answered-Sends turns (fetch_turns env web max_response_bytes turns) url
                (fetch_turns-Sends turns))

    -- Outside of the test mode, a fetch sends at most six requests, whatever the servers answer,
    -- and each of them goes to addresses that are public.
    pub fetch_limited_json-Sends :
        (url : Url)
        → All SentPublic (fetch_limited_json env web max_response_bytes url []).1
          × (length (fetch_limited_json env web max_response_bytes url []).1 ≤ 6)
    unfolding fetch_limited_json
    fetch_limited_json-Sends url = (fetch_turns-Sends 6 url).at [] tt

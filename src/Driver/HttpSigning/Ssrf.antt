-- ===== src/Driver/HttpSigning/Ssrf.antt =====
-- driver/src/http_signing/{ssrf,fetch}.rs: which addresses a request for a key may go to, and the
-- request. The url crate, the resolver and reqwest are parameters, and so is whether the build has
-- the feature `test-mode`.
pub mod Ranges
pub mod Requests
use emumet.Prelude.{
  ℕ, zero, suc, ◌+◌, ◌*◌, ◌/◌, ◌%◌, Option, none, some, Bool, true, false, not, ◌&&◌, ◌||◌, List,
  [], ◌∷◌, ◌++◌, ◌==◌, ltb, leb, if◌then◌else◌, any, is_some, length,
}
use emumet.Kernel.Error.{Result, ok, err, rejected, internal, ok_or, ensure}
use emumet.Kernel.Exec.{Exec, pure, raise, lift, ◌>>=◌, ◌>>◌}
use emumet.Kernel.Text.{chars, trim, is_empty}
use emumet.Kernel.HttpSigning.{Text}
use emumet.Kernel.Activity.{Value}
use emumet.Driver.HttpSigning.Texts.{
  to_ascii_lowercase, eq_ignore_ascii_case, same_text, split, ends_with, trim_end_matches,
}

pub data IpAddr : Type 0 where
  -- the octets
  v4 : ℕ → ℕ → ℕ → ℕ → IpAddr
  -- the segments
  v6 : ℕ → ℕ → ℕ → ℕ → ℕ → ℕ → ℕ → ℕ → IpAddr

abbrev is_private : ℕ → ℕ → Bool
is_private a b = a == 10 || (a == 172) && leb 16 b && leb b 31 || (a == 192) && (b == 168)

abbrev is_broadcast : ℕ → ℕ → ℕ → ℕ → Bool
is_broadcast a b c d = (a == 255) && (b == 255) && (c == 255) && (d == 255)

abbrev is_documentation : ℕ → ℕ → ℕ → Bool
is_documentation a b c =
    (a == 192) && (b == 0) && (c == 2)
    || (a == 198) && (b == 51) && (c == 100)
    || (a == 203) && (b == 0) && (c == 113)

-- the methods of `Ipv4Addr`, and the ranges that it has none for
unfoldable pub is_blocked_ipv4 : ℕ → ℕ → ℕ → ℕ → Bool
is_blocked_ipv4 a b c d =
    is_private a b
    || a == 127
    || (a == 169) && (b == 254)
    || is_broadcast a b c d
    || is_documentation a b c
    || leb 224 a && leb a 239
    || (a == 0) && (b == 0) && (c == 0) && (d == 0)
    || a == 0
    || leb 224 a
    || (a == 100) && leb 64 b && leb b 127
    || (a == 198) && leb 18 b && leb b 19
    || (a == 192) && (b == 0) && (c == 0)

-- the first six segments of an address that maps an IPv4 address
abbrev is_mapped : ℕ → ℕ → ℕ → ℕ → ℕ → ℕ → Bool
is_mapped s0 s1 s2 s3 s4 s5 =
    (s0 == 0) && (s1 == 0) && (s2 == 0) && (s3 == 0) && (s4 == 0) && (s5 == 0xffff)

-- all segments but the last are zero
abbrev has_low_segment : ℕ → ℕ → ℕ → ℕ → ℕ → ℕ → ℕ → Bool
has_low_segment s0 s1 s2 s3 s4 s5 s6 =
    (s0 == 0) && (s1 == 0) && (s2 == 0) && (s3 == 0) && (s4 == 0) && (s5 == 0) && (s6 == 0)

-- `s & 0xfe00` and `s & 0xffc0` clear the low 9 and the low 6 of the 16 bits
unfoldable pub is_blocked_ipv6 : ℕ → ℕ → ℕ → ℕ → ℕ → ℕ → ℕ → ℕ → Bool
unfolding is_blocked_ipv4
is_blocked_ipv6 s0 s1 s2 s3 s4 s5 s6 s7 =
    if is_mapped s0 s1 s2 s3 s4 s5
    then is_blocked_ipv4 (s6 / 0x100) (s6 % 0x100) (s7 / 0x100) (s7 % 0x100)
    else has_low_segment s0 s1 s2 s3 s4 s5 s6 && (s7 == 1)
      || has_low_segment s0 s1 s2 s3 s4 s5 s6 && (s7 == 0)
      || s0 / 0x100 == 0xff
      || s0 / 0x200 * 0x200 == 0xfc00
      || s0 / 0x40 * 0x40 == 0xfe80
      || (s0 == 0x2001) && (s1 == 0x0db8)
      || s0 == 0x2002
      || (s0 == 0x2001) && (s1 == 0)

unfoldable pub is_blocked : IpAddr → Bool
unfolding is_blocked_ipv4 is_blocked_ipv6
is_blocked (v4 a b c d) = is_blocked_ipv4 a b c d
is_blocked (v6 s0 s1 s2 s3 s4 s5 s6 s7) = is_blocked_ipv6 s0 s1 s2 s3 s4 s5 s6 s7

unfoldable pub validate_public_ip : IpAddr → Result (Unit {0})
unfolding is_blocked
validate_public_ip ip = if is_blocked ip then err rejected else ok tt

-- an address and a port
pub record SocketAddr : Type 0 where
  pub ip : IpAddr
  pub port : ℕ

-- the parts of a `Url`
pub record Url : Type 0 where
  pub text : Text
  pub scheme : Text
  pub username : Text
  pub password : Option Text
  pub host : Option Text
  pub port_or_known_default : Option ℕ

pub record Surroundings : Type 0 where
  pub test_mode : Bool
  -- the variable `AP_TEST_ALLOWED_FETCH_HOSTS`
  pub allowed_fetch_hosts : Option Text
  pub parse_ip : Text → Option IpAddr
  pub lookup_host : Text → ℕ → Option (List SocketAddr)

-- `for address in &addresses { validate_public_ip(address.ip())?; }`
unfoldable pub validate_addresses : List SocketAddr → Result (Unit {0})
unfolding validate_public_ip
validate_addresses [] = ok tt
validate_addresses (address ∷ addresses) =
    let rest = validate_addresses addresses in
    elim (validate_public_ip address.ip) [ ok _ ↦ rest | err e ↦ err e ]

abbrev pub or_rejected : {A : Type 0} → Option A → Result A
or_rejected = ok_or rejected

abbrev pub is_http : Text → Bool
is_http scheme = same_text scheme (chars "http") || same_text scheme (chars "https")

abbrev pub has_credentials : Url → Bool
has_credentials url = not (is_empty url.username) || is_some url.password

abbrev pub is_localhost : Text → Bool
is_localhost host = same_text host (chars "localhost") || ends_with (chars ".localhost") host

-- `host.trim_end_matches('.').to_ascii_lowercase()`
abbrev pub normal_host : Text → Text
normal_host host = to_ascii_lowercase (trim_end_matches 0x2e host)

module _ (env : Surroundings) where
  unfoldable pub is_fetch_host_allowed : Text → Bool
  unfolding split trim eq_ignore_ascii_case
  is_fetch_host_allowed host = elim env.allowed_fetch_hosts [
    | none ↦ false
    | some val ↦ any (λ entry. eq_ignore_ascii_case (trim entry) host) (split 0x2c val)
  ]

  -- the addresses that the resolver gives for a name, at least one
  unfoldable pub resolve : Text → Url → Result (List SocketAddr)
  resolve host url = elim url.port_or_known_default [
    | none ↦ err rejected
    | some port ↦ elim (env.lookup_host host port) [
      | none ↦ err rejected
      | some [] ↦ err rejected
      | some (address ∷ addresses) ↦ ok (address ∷ addresses)
    ]
  ]

  abbrev pub with_port : IpAddr → Option ℕ → Result (List SocketAddr)
  with_port ip none = err rejected
  with_port ip (some port) = ok (record { ip = ip; port = port } ∷ [])

  -- the addresses, unless the check on them failed
  abbrev pub after_check : Result (Unit {0}) → Result (List SocketAddr) → Result (List SocketAddr)
  after_check (ok _) addresses = addresses
  after_check (err e) addresses = err e

  abbrev pub all_public : Result (List SocketAddr) → Result (List SocketAddr)
  all_public (err e) = err e
  all_public (ok addresses) = after_check (validate_addresses addresses) (ok addresses)

  abbrev pub ip_or_name : Text → Url → Option IpAddr → Result (List SocketAddr)
  ip_or_name host url (some ip) =
      after_check (validate_public_ip ip) (with_port ip url.port_or_known_default)
  ip_or_name host url none = all_public (resolve host url)

  unfoldable pub resolve_public : Text → Url → Result (List SocketAddr)
  unfolding resolve validate_addresses validate_public_ip same_text ends_with chars
  resolve_public host url =
      if is_localhost host then err rejected else ip_or_name host url (env.parse_ip host)

  unfoldable pub resolve_host : Url → Option Text → Result (List SocketAddr)
  unfolding resolve_public resolve is_fetch_host_allowed to_ascii_lowercase trim_end_matches
  resolve_host url none = err rejected
  resolve_host url (some host) =
      let name = normal_host host in
      if env.test_mode && is_fetch_host_allowed name
      then resolve name url
      else resolve_public name url

  unfoldable pub validate_fetch_url : Url → Result (List SocketAddr)
  unfolding resolve_host same_text chars
  validate_fetch_url url =
      if is_http url.scheme
      then (if has_credentials url then err rejected else resolve_host url url.host)
      else err rejected

-- what reqwest returns of a GET; a chunk that cannot be read is `none`
pub data Response : Type 0 where
  -- the header `Location`
  redirection : Option Text → Response
  success : List (Option (List ℕ)) → Response
  failure : Response

-- one request that was sent, to addresses that were resolved before
pub record Sent : Type 0 where
  pub url : Url
  pub addresses : List SocketAddr

pub record Web : Type 0 where
  -- a client pinned to addresses, or an error where it cannot be built
  pub client_for_url : Url → List SocketAddr → Result (Unit {0})
  pub get : Url → List SocketAddr → Option Response
  pub join : Url → Text → Option Url
  pub from_slice : List ℕ → Option Value

module _ (env : Surroundings) (web : Web) (max_response_bytes : ℕ) where
  -- `while let Some(chunk) = response.chunk().await? { .. }`
  unfoldable pub read_chunks : List ℕ → List (Option (List ℕ)) → Result (List ℕ)
  read_chunks bytes [] = ok bytes
  read_chunks bytes (none ∷ chunks) = err rejected
  read_chunks bytes (some chunk ∷ chunks) =
      elim (ltb max_response_bytes (length bytes + length chunk)) [
        | true ↦ err rejected
        | false ↦ read_chunks (bytes ++ chunk) chunks
      ]

  abbrev pub parsed : Result (List ℕ) → Result Value
  parsed (err e) = err e
  parsed (ok bytes) = or_rejected (web.from_slice bytes)

  unfoldable pub send : Url → List SocketAddr → Exec (List Sent) Response
  send url addresses sent = (
    or_rejected (web.get url addresses),
    sent ++ record { url = url; addresses = addresses } ∷ [],
  )

  abbrev pub redirected : Url → Option Text → Result Url
  redirected url none = err rejected
  redirected url (some location) = or_rejected (web.join url location)

  -- what the answer leads to: the next turn, the document, or an error
  abbrev pub answered : (Url → Exec (List Sent) Value) → Url → Response → Exec (List Sent) Value
  answered again url (redirection location) = lift (redirected url location) >>= again
  answered again url (success chunks) = lift (parsed (read_chunks [] chunks))
  answered again url failure = raise rejected

  -- the loop, with the number of turns that are left
  unfoldable pub fetch_turns : ℕ → Url → Exec (List Sent) Value
  unfolding validate_fetch_url send read_chunks
  fetch_turns zero url = raise rejected
  fetch_turns (suc turns) url = do
    addresses ← lift (validate_fetch_url env url)
    lift (web.client_for_url url addresses)
    response ← send url addresses
    answered (fetch_turns turns) url response

  -- `for _ in 0..=5`
  unfoldable pub fetch_limited_json : Url → Exec (List Sent) Value
  unfolding fetch_turns
  fetch_limited_json url = fetch_turns 6 url

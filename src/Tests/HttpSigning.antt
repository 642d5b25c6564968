-- ===== src/Tests/HttpSigning.antt =====
-- Signatures of requests and the documents they lead to.
use emumet.Prelude.{
  ℕ, ◌≡◌, refl, ◌≤◌, arith, Option, none, some, true, false, List, [], ◌∷◌, length, any, All, map,
}
use emumet.Kernel.Error.{Result, ok}
use emumet.Kernel.Text.{chars, is_whitespace}
use emumet.Kernel.HttpSigning.{Text, HttpSignatureVerificationInput, ActorPublicKey, valid}
use emumet.Kernel.Activity.{string}
use emumet.Driver.HttpSigning.Texts.{to_ascii_lowercase, lower}
use emumet.Driver.HttpSigning.Messages.{good}
use emumet.Driver.HttpSigning.Parser.{CavageSignature, parse_cavage_signature}
use emumet.Driver.HttpSigning.Parser.Headers.{
  IsWord, print_signature, parse_cavage_signature-print_signature,
}
use emumet.Driver.HttpSigning.Cavage.{Crates}
use emumet.Driver.HttpSigning.Verifier.{verify}
use emumet.Driver.HttpSigning.Verifier.Soundness.{HasProof, verify-HasProof}
use emumet.Driver.HttpSigning.Ssrf.{
  v4, Surroundings, Url, Web, redirection, is_blocked_ipv4, fetch_limited_json,
}
use emumet.Driver.HttpSigning.Ssrf.Ranges.{address, in_block, reserved, is_blocked_ipv4-reserved}
use emumet.Driver.HttpSigning.Ssrf.Requests.{SentPublic, fetch_limited_json-Sends}

abbrev base64 : Text → Option (List ℕ)
base64 t = some t

abbrev pub crates : Crates
crates = record {
  parse_target = λ url. some (record { path = chars "/inbox"; query = none });
  decode = base64;
  sha256 = λ bytes. chars "sum";
  parse_http_date = λ date. some 1000;
  rsa_verify = λ text bytes pem. ok true;
  ed25519_verify = λ text bytes pem. ok false;
}

abbrev request : HttpSignatureVerificationInput
request = record {
  method = chars "POST";
  url = chars "https://a.example/inbox";
  headers =
      (chars "host", chars "a.example")
      ∷ (chars "date", chars "Thu, 01 Jan 1970 00:16:40 GMT")
      ∷ (chars "digest", chars "SHA-256=sum")
      ∷ (
        chars "signature",
        chars
            "keyId=\"k\",algorithm=\"rsa-sha256\",headers=\"(request-target) host date digest\",signature=\"s\"",
      )
      ∷ [];
  body = some (1 ∷ []);
}

abbrev fetched : Text → Result ActorPublicKey
fetched key_id = ok (record { id = key_id; owner = chars "o"; public_key_pem = chars "pem" })

verified : verify crates fetched 1200 request ≡ valid (chars "k")
unfolding verify
verified = refl

verify-HasProof_example : HasProof crates fetched 1200 request (chars "k")
verify-HasProof_example = verify-HasProof crates fetched 1200 request (chars "k") verified

abbrev signature : CavageSignature
signature = record {
  key_id = chars "k\"1";
  algorithm = chars "hs2019";
  headers = chars "host" ∷ chars "date" ∷ [];
  signature = 1 ∷ 2 ∷ [];
}

host-IsWord : IsWord (chars "Host")
unfolding chars is_whitespace
host-IsWord = (refl, (refl, (refl, (refl, tt))))

date-IsWord : IsWord (chars "date")
unfolding chars is_whitespace
date-IsWord = (refl, (refl, (refl, (refl, tt))))

lowered : map to_ascii_lowercase (chars "Host" ∷ chars "date" ∷ []) ≡ signature.headers
unfolding chars to_ascii_lowercase lower
lowered = refl

parse_cavage_signature-print_signature_example :
    parse_cavage_signature base64
      (print_signature (λ bytes. bytes) signature (chars "Host") (chars "date" ∷ []))
    ≡ good signature
parse_cavage_signature-print_signature_example =
    parse_cavage_signature-print_signature base64 (λ bytes. bytes) signature (chars "Host")
      (chars "date" ∷ []) host-IsWord (date-IsWord, tt) lowered refl

is_blocked_ipv4-reserved_example :
    is_blocked_ipv4 172 31 0 9 ≡ any (in_block (address 172 31 0 9)) reserved
is_blocked_ipv4-reserved_example =
    is_blocked_ipv4-reserved 172 31 0 9 (omega arith) (omega arith) (omega arith) (omega arith)

abbrev surroundings : Surroundings
surroundings = record {
  test_mode = false;
  allowed_fetch_hosts = none;
  parse_ip = λ host. none;
  lookup_host = λ host port. some (record { ip = v4 93 184 216 34; port = port } ∷ []);
}

-- a server that always redirects to itself
abbrev web : Web
web = record {
  client_for_url = λ url addresses. ok tt;
  get = λ url addresses. some (redirection (some (chars "/")));
  join = λ url location. some url;
  from_slice = λ bytes. some (string "");
}

abbrev url : Url
url = record {
  text = chars "https://b.example/";
  scheme = chars "https";
  username = [];
  password = none;
  host = some (chars "b.example");
  port_or_known_default = some 443;
}

fetch_limited_json-Sends_example :
    All SentPublic (fetch_limited_json surroundings web 1000 url []).1
    × (length (fetch_limited_json surroundings web 1000 url []).1 ≤ 6)
fetch_limited_json-Sends_example = fetch_limited_json-Sends surroundings web 1000 refl url

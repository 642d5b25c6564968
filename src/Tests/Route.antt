-- ===== src/Tests/Route.antt =====
-- A signed request to an inbox.
use emumet.Prelude.{◌≡◌, none, some, false, [], ◌∷◌, ◌⊎◌, refl}
use emumet.Kernel.Error.{Result, ok}
use emumet.Kernel.Text.{chars}
use emumet.Kernel.Activity.{Activity, string}
use emumet.Kernel.HttpSigning.{Text, ActorPublicKey}
use emumet.Application.Inbox.{InboxActivityDto, handle_inbox_activity}
use emumet.Server.Inbox.{Server, InboxRequest, post_inbox, admit, answered}
use emumet.Server.Inbox.Signed.{IsSignedBy, post_inbox-IsSignedBy}
use emumet.Tests.HttpSigning.{crates}
use emumet.Tests.Network.{env, network, alice_url, carol_url}

abbrev activity : Activity
activity = record {
  context = none;
  id = "https://b.example/f/1";
  type_ = "Follow";
  actor = carol_url;
  object = some (string alice_url);
  target = none;
  to = none;
  cc = none;
}

abbrev server : Server
server = record {
  test_mode = false;
  parse_base = λ base. some (record { host = some (chars "a.example"); port = none });
  without_fragment = λ key_id. some (chars carol_url);
  from_slice = λ bytes. some activity;
}

abbrev fetched : Text → Result ActorPublicKey
fetched key_id = ok (record { id = key_id; owner = chars carol_url; public_key_pem = [] })

abbrev request : InboxRequest
request = record {
  nanoid = "a1";
  original_uri = chars "/ap/accounts/a1/inbox";
  method = chars "POST";
  headers =
      (chars "content-type", some (chars "application/activity+json"))
      ∷ (chars "host", some (chars "a.example"))
      ∷ (chars "date", some (chars "Thu, 01 Jan 1970 00:16:40 GMT"))
      ∷ (chars "digest", some (chars "SHA-256=sum"))
      ∷ (
        chars "signature",
        some (
            chars
              "keyId=\"k\",algorithm=\"rsa-sha256\",headers=\"(request-target) host date digest\",signature=\"s\""),
      )
      ∷ [];
  body = 1 ∷ [];
}

-- the request is admitted
request_admitted :
    admit env server crates fetched 1200 request network
    ≡ answered (record { account_id = 7; account_nanoid = "a1"; activity = activity })
unfolding admit emumet.Server.Inbox.check_request emumet.Driver.Accounts.find_by_nanoid
    emumet.Driver.Accounts.account_from_row emumet.Driver.Accounts.to_row
request_admitted = refl

post_inbox-IsSignedBy_example :
    ((post_inbox env server crates fetched 1200 request network).1 ≡ network)
    ⊎ ((dto : InboxActivityDto) × IsSignedBy env server crates fetched 1200 request dto.activity
        × ((post_inbox env server crates fetched 1200 request network).1
            ≡ (handle_inbox_activity env dto network).1))
post_inbox-IsSignedBy_example = post_inbox-IsSignedBy env server crates fetched 1200 request network

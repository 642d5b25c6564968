-- ===== src/Kernel/Actor.antt =====
-- kernel/src/activitypub.rs: the addresses of a local actor, and the documents about it.
use Prim.Native.String.{String}
use mathlib.Core.Option
use emumet.Prelude.{ℕ, Option, none, some, List, [], ◌∷◌}
use emumet.Kernel.Activity.{Value, string, object, field, end, concat, trim_end_slashes}

pub record ActorUrlBuilder : Type 0 where
  pub base_url : String
  pub account_nanoid : String

-- `ActorUrlBuilder::new`
unfoldable pub builder : String → String → ActorUrlBuilder
unfolding trim_end_slashes
builder base_url account_nanoid = record {
  base_url = trim_end_slashes base_url;
  account_nanoid = account_nanoid;
}

abbrev pub actors_path : String
actors_path = "ap/accounts"

unfoldable pub actor_id : ActorUrlBuilder → String
actor_id urls = concat (urls.base_url ∷ "/" ∷ actors_path ∷ "/" ∷ urls.account_nanoid ∷ [])

unfoldable pub inbox : ActorUrlBuilder → String
unfolding actor_id
inbox urls = concat (actor_id urls ∷ "/inbox" ∷ [])

unfoldable pub outbox : ActorUrlBuilder → String
unfolding actor_id
outbox urls = concat (actor_id urls ∷ "/outbox" ∷ [])

unfoldable pub followers : ActorUrlBuilder → String
unfolding actor_id
followers urls = concat (actor_id urls ∷ "/followers" ∷ [])

unfoldable pub following : ActorUrlBuilder → String
unfolding actor_id
following urls = concat (actor_id urls ∷ "/following" ∷ [])

unfoldable pub key_id : ActorUrlBuilder → String
unfolding actor_id
key_id urls = concat (actor_id urls ∷ "#main-key" ∷ [])

pub record PublicKey : Type 0 where
  pub id : String
  pub owner : String
  pub public_key_pem : String

pub record ImageObject : Type 0 where
  pub type_ : String
  pub url : Option String
  pub media_type : Option String

-- `ImageObject::new`
unfoldable pub image_object : String → ImageObject
image_object url = record { type_ = "Image"; url = some url; media_type = none }

pub record Actor : Type 0 where
  pub context : List Value
  pub id : String
  pub object_type : String
  pub preferred_username : String
  pub name : Option String
  pub summary : Option String
  pub icon : Option ImageObject
  pub image : Option ImageObject
  pub url : String
  pub inbox : String
  pub outbox : String
  pub followers : String
  pub following : String
  pub public_key : PublicKey

pub record ActorImages : Type 0 where
  pub icon_url : Option String
  pub banner_url : Option String

-- `Actor::new`
unfoldable pub actor :
    ActorUrlBuilder → String → Option String → Option String → ActorImages → String → String → Actor
unfolding actor_id inbox outbox followers following image_object
actor urls preferred_username display_name summary images public_key_pem public_key_id = record {
  context =
      string "https://www.w3.org/ns/activitystreams"
      ∷ object (field "publicKey" (string "https://w3id.org/security/v1#publicKey") end)
      ∷ [];
  id = actor_id urls;
  object_type = "Person";
  preferred_username = preferred_username;
  name = display_name;
  summary = summary;
  icon = Option.map image_object images.icon_url;
  image = Option.map image_object images.banner_url;
  url = actor_id urls;
  inbox = inbox urls;
  outbox = outbox urls;
  followers = followers urls;
  following = following urls;
  public_key = record {
    id = public_key_id;
    owner = actor_id urls;
    public_key_pem = public_key_pem;
  };
}

pub record OrderedCollection : Type 0 where
  pub context : List Value
  pub id : String
  pub type_ : String
  pub total_items : Option ℕ
  pub first : Option String
  pub last : Option String
  pub ordered_items : Option (List Value)

-- `OrderedCollection::new`
unfoldable pub collection : String → ℕ → Option String → Option String → OrderedCollection
collection id total_items first last = record {
  context = string "https://www.w3.org/ns/activitystreams" ∷ [];
  id = id;
  type_ = "OrderedCollection";
  total_items = some total_items;
  first = first;
  last = last;
  ordered_items = none;
}

unfoldable pub with_ordered_items : String → ℕ → List Value → OrderedCollection
with_ordered_items id total_items ordered_items = record {
  context = string "https://www.w3.org/ns/activitystreams" ∷ [];
  id = id;
  type_ = "OrderedCollection";
  total_items = some total_items;
  first = none;
  last = none;
  ordered_items = some ordered_items;
}

pub record WebFingerLink : Type 0 where
  pub rel : String
  pub type_ : String
  pub href : String

pub record WebFingerResponse : Type 0 where
  pub subject : String
  pub links : Option (List WebFingerLink)
  pub aliases : Option (List String)

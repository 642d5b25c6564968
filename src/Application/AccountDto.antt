-- ===== src/Application/AccountDto.antt =====
-- application/src/dto/account.rs: what the requests about accounts take and return.
use Prim.Native.String.{String}
use emumet.Prelude.{Option, none, some, Bool, List}
use emumet.Kernel.Event.{OffsetDateTime}
use emumet.Kernel.Account.{Account, AccountStatus}
use emumet.Kernel.Account.Status.{active, suspended, banned}
use emumet.Application.Details.{AccountFieldDto}

pub record CreateAccountDto : Type 0 where
  pub name : String
  pub is_bot : Bool

pub data ModerationDto : Type 0 where
  -- reason, suspended_at, expires_at
  suspended_dto : String → OffsetDateTime → Option OffsetDateTime → ModerationDto
  -- reason, banned_at
  banned_dto : String → OffsetDateTime → ModerationDto

pub record AccountDto : Type 0 where
  pub nanoid : String
  pub name : String
  pub is_bot : Bool
  pub created_at : OffsetDateTime
  pub moderation : Option ModerationDto

pub record AccountDetailDto : Type 0 where
  pub nanoid : String
  pub name : String
  pub display_name : Option String
  pub summary : Option String
  pub icon_url : Option String
  pub banner_url : Option String
  pub is_bot : Bool
  pub fields : List AccountFieldDto
  pub created_at : OffsetDateTime
  pub moderation : Option ModerationDto

unfoldable pub moderation_of : AccountStatus → Option ModerationDto
moderation_of active = none
moderation_of (suspended reason suspended_at expires_at) =
    some (suspended_dto reason suspended_at expires_at)
moderation_of (banned reason banned_at) = some (banned_dto reason banned_at)

-- `From<Account> for AccountDto`
unfoldable pub from_account : Account → AccountDto
unfolding moderation_of
from_account account = record {
  nanoid = account.nanoid;
  name = account.name;
  is_bot = account.is_bot;
  created_at = account.created_at;
  moderation = moderation_of account.status;
}

-- the display name, the summary, the two addresses of images and the fields
unfoldable pub into_detail :
    Option String
    → Option String
    → Option String
    → Option String
    → List AccountFieldDto
    → AccountDto
    → AccountDetailDto
into_detail display_name summary icon_url banner_url fields account = record {
  nanoid = account.nanoid;
  name = account.name;
  display_name = display_name;
  summary = summary;
  icon_url = icon_url;
  banner_url = banner_url;
  is_bot = account.is_bot;
  fields = fields;
  created_at = account.created_at;
  moderation = account.moderation;
}

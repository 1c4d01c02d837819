-- ===== src/Accounts/Profiles.antt =====
-- What apps/api-gateway/src/auth/auth.service.ts takes from a profile of Clerk's, as the SDK gives it
-- (`fromClerkUser`) and as the webhook does (`fromWebhookData`).
use Prim.Native.String.{[], ◌∷◌}
use Prim.Native.Char.{code}
use codemind_backend.Common.{
  ℕ, ◌+◌, Bool, false, ◌&&◌, ◌||◌, String, Option, none, some, List, leb, str_eq, str_append,
  if◌then◌else◌,
}
use codemind_backend.Text.{is_empty}
use codemind_backend.Tools.Paths.{begins_with}

pub record NormalizedUser : Type 0 where
  pub clerk_id : String
  pub email : Option String
  pub name : Option String
  pub github_id : Option String
  pub github_username : Option String
  pub avatar_url : Option String

pub record ExternalAccount : Type 0 where
  pub provider : Option String
  pub status : Option String
  pub external_id : Option String
  pub username : Option String

pub record EmailAddress : Type 0 where
  pub id : String
  pub email_address : String

pub record Profile : Type 0 where
  pub id : String
  pub username : Option String
  pub first_name : Option String
  pub last_name : Option String
  pub image_url : Option String
  pub primary_email_address_id : Option String
  pub email_addresses : List EmailAddress
  pub external_accounts : List ExternalAccount

-- `toLowerCase`, as far as the letters of `github` go.
unfoldable pub lower_units : String → List ℕ
lower_units [] = List.[]
lower_units (c ∷ s) =
    let n = code c in List.◌∷◌ (if leb 65 n && leb n 90 then n + 32 else n) (lower_units s)

-- `includes`
unfoldable pub holds : List ℕ → List ℕ → Bool
holds List.[] part = begins_with List.[] part
holds (List.◌∷◌ c cs) part = begins_with (List.◌∷◌ c cs) part || holds cs part

abbrev pub names_github : Option String → Bool
names_github none = false
names_github (some p) = holds (lower_units p) (lower_units "github")

abbrev pub is_verified : Option String → Bool
is_verified none = false
is_verified (some s) = str_eq s "verified"

unfoldable pub is_github : ExternalAccount → Bool
unfolding lower_units holds
is_github a = names_github a.provider && is_verified a.status

unfoldable pub find_github : List ExternalAccount → Option ExternalAccount
unfolding is_github
find_github List.[] = none
find_github (List.◌∷◌ a as_) = let later = find_github as_ in if is_github a then some a else later

abbrev pub is_primary : Option String → EmailAddress → Bool
is_primary none e = false
is_primary (some id) e = str_eq e.id id

unfoldable pub find_email : Option String → List EmailAddress → Option String
find_email id List.[] = none
find_email id (List.◌∷◌ e es) =
    let later = find_email id es in if is_primary id e then some e.email_address else later

abbrev pub first_email : List EmailAddress → Option String
first_email List.[] = none
first_email (List.◌∷◌ e es) = some e.email_address

-- `a ?? b`
abbrev pub or_else {ℓ} : {A : Type ℓ} → Option A → Option A → Option A
or_else none b = b
or_else (some a) b = some a

abbrev pub present : Option String → String
present none = ""
present (some s) = s

-- `[first, last].filter(Boolean).join(' ') || null`
abbrev pub join_names : String → String → Option String
join_names first last =
    if is_empty first
    then (if is_empty last then none else some last)
    else if is_empty last
    then some first
    else some (str_append first (str_append " " last))

abbrev pub account_id : Option ExternalAccount → Option String
account_id none = none
account_id (some a) = a.external_id

abbrev pub account_name : Option ExternalAccount → Option String
account_name none = none
account_name (some a) = a.username

abbrev pub normalize : Profile → Option ExternalAccount → NormalizedUser
normalize p github = record {
  clerk_id = p.id;
  email =
      or_else (find_email p.primary_email_address_id p.email_addresses)
        (first_email p.email_addresses);
  name = join_names (present p.first_name) (present p.last_name);
  github_id = account_id github;
  github_username = or_else (account_name github) p.username;
  avatar_url = p.image_url;
}

unfoldable pub from_clerk_user : Profile → NormalizedUser
unfolding find_github find_email is_empty
from_clerk_user u = normalize u (find_github u.external_accounts)

unfoldable pub from_webhook_data : Profile → NormalizedUser
unfolding find_github find_email is_empty
from_webhook_data d = normalize d (find_github d.external_accounts)

abbrev pub minimal : String → NormalizedUser
minimal clerk_id = record {
  clerk_id = clerk_id;
  email = none;
  name = none;
  github_id = none;
  github_username = none;
  avatar_url = none;
}

-- ===== src/Apiserver/Request.antt =====
-- What the handlers of pkg/apiserver read of an HTTP request and of its context.
use spillway.Prelude.{Bool, true, false, Option, List}
use spillway.Prelude.Text.{Text, text_key}

-- `req.Body`: nil, http.NoBody, one whose reading fails, or its bytes.
pub data Body : Type 0 where
  nil no_body unreadable : Body
  content : Text → Body

-- genericapirequest.RequestInfo, which the handler chain leaves in the context.
pub record RequestInfo : Type 0 where
  pub is_resource_request : Bool
  pub verb : Text
  pub api_group : Text
  pub api_version : Text
  pub namespace : Text
  pub resource : Text
  pub subresource : Text
  pub name : Text

-- user.Info
pub record User : Type 0 where
  pub user_name : Text
  pub uid : Text
  pub groups : List Text
  pub extra : List (Text × List Text)

pub record Request : Type 0 where
  pub method : Text
  pub path : Text
  pub query : List (Text × Text)
  pub content_type : Text
  pub authorization : Option Text
  pub body : Body
  pub info : Option RequestInfo
  pub user : Option User

abbrev pub has_content : Body → Bool
has_content nil = false
has_content no_body = false
has_content unreadable = true
has_content (content _) = true

-- ===== src/Apiserver/Gate/Samples.antt =====
-- Test data: a gate over objects that are their texts, whose chain marks what it sees and refuses
-- one object, and a workspace that logs its calls.
use spillway.Prelude.{true, Option, none, some, List, [], ◌∷◌, ◌++◌, if◌then◌else◌, ◌==◌, ok, err}
use spillway.Prelude.Text.{Text, bytes, text_key}
use spillway.Apiserver.Request.{Request, RequestInfo, User, content}
use spillway.Apiserver.Backend.{Backend, status_error}
use spillway.Apiserver.Gate.{Unstructured, Chain, AdmissionGate}

-- The log of the workspace: the paths that are asked for.
abbrev pub Log : Type 0
Log = List Text

abbrev pub texts : Unstructured Text
texts = record {
  decode = λ body. some body;
  encode = λ object. some object;
  kind_of = λ object. record { group = bytes "example.com"; version = bytes "v1"; kind = object };
  name_of = λ object. object;
  resource_version = λ object. bytes "@7";
  set_resource_version = λ version object. object ++ version;
  deep_equal = λ a b. a == b;
}

abbrev pub mark : Option Text → Option Text
mark none = none
mark (some object) = some (object ++ bytes "!")

abbrev pub judge : Option Text → Option Text
judge none = none
judge (some object) = if object == bytes "bad!" then some (bytes "no") else none

abbrev pub marking : Chain Log Text
marking = record {
  mutates = λ operation. true;
  admit = λ a w. (w, ok (record { object = mark a.object; is_unstructured = true }));
  validates = λ operation. true;
  validate = λ a w. (w, judge a.object);
}

abbrev pub logging : Backend Log
logging = record {
  fetch = λ path w. (path ∷ w, ok (bytes "old"));
  patch_dry_run = λ path query content_type patch w. (path ∷ w, ok patch);
  create = λ path body w. (path ∷ w, err (status_error 409));
}

abbrev pub gate : AdmissionGate Log Text
gate = record { admit = some marking; backend = some logging; matcher = none }

abbrev pub ann : User
ann = record { user_name = bytes "ann"; uid = []; groups = []; extra = [] }

abbrev pub info_of : (verb : Text) → RequestInfo
info_of verb = record {
  is_resource_request = true;
  verb = verb;
  api_group = bytes "example.com";
  api_version = bytes "v1";
  namespace = bytes "n";
  resource = bytes "widgets";
  subresource = [];
  name = bytes "w";
}

abbrev pub request_of : (method verb body : Text) → Request
request_of method verb body = record {
  method = method;
  path = bytes "/w";
  query = [];
  content_type = bytes "application/json";
  authorization = some (bytes "token");
  body = content body;
  info = some (info_of verb);
  user = some ann;
}

-- ===== src/HttpClient/Draft.antt =====
-- The request that a caller of package httpclient puts together: the setters of httpclient/request.go and
-- the bodies of httpclient/body.go. The encoders of JSON, of forms and of multipart bodies are arguments.
-- `A` is what the hooks before a send change, `B` what those after a response read.
pub mod Options
use Prim.Native.String.{String}
use Prim.Native.String.{◌++◌ as str_append}
use garlic.Common.{
  ℕ, Bool, true, false, Option, none, some, List, [], ◌∷◌, ◌++◌, if◌then◌else◌, ◌⊎◌, inl, inr,
  insert, str_eq,
}
use garlic.Errors.Primitive.{kind_system_error}
use garlic.Errors.ErrorT.{Err}
use garlic.HttpClient.Retry.{Headers, Duration, Failure, propagate_as}
use garlic.HttpClient.Assembly.{Provided}

-- An `io.Reader`: a buffer in memory with what it still holds, or a stream with what it will yield.
pub data Reader : Type 0 where
  buffered : String → Reader
  streamed : String → Reader

abbrev pub contents : Reader → String
contents (buffered s) = s
contents (streamed s) = s

-- `readableInMemory`
unfoldable pub readable_in_memory : Reader → Option String
readable_in_memory (buffered s) = some s
readable_in_memory (streamed s) = none

-- A text field has no reader.
pub record MultipartField : Type 0 where
  pub field : String
  pub filename : String
  pub value : String
  pub reader : Option Reader

-- The providers; a negative size is none.
pub data BodyProvider : Type 0 where
  memory_body : String → String → BodyProvider
  stream_body : Reader → Option ℕ → String → BodyProvider
  multipart_body : List MultipartField → BodyProvider

pub record Encoders : Type 0 where
  -- The bytes that a text has.
  pub size : String → ℕ
  pub form : List (String × String) → String
  pub form_data_content_type : String
  pub multipart : List MultipartField → String

-- What `SetBody` is given; the default case has what `json.Marshal` makes of the value.
pub data BodyValue : Type 0 where
  nil_value : BodyValue
  bytes_value : String → BodyValue
  string_value : String → BodyValue
  reader_value : Reader → BodyValue
  other_value : Err ⊎ String → BodyValue

module _ (enc : Encoders) where
  -- `body()` of each provider.
  unfoldable pub provide : BodyProvider → Provided
  provide (memory_body content content_type) = record {
    content = content;
    content_type = content_type;
    content_length = some (enc.size content);
    replayable = true;
  }
  provide (stream_body reader size content_type) = record {
    content = contents reader;
    content_type = content_type;
    content_length = size;
    replayable = false;
  }
  provide (multipart_body fields) = record {
    content = enc.multipart fields;
    content_type = enc.form_data_content_type;
    content_length = none;
    replayable = false;
  }

  abbrev pub set_all : List (String × String) → List (String × String) → List (String × String)
  set_all [] entries = entries
  set_all ((key, value) ∷ values) entries = set_all values (insert key value entries)

  unfoldable pub form_provider : List (String × String) → BodyProvider
  form_provider values =
      memory_body (enc.form (set_all values [])) "application/x-www-form-urlencoded"

-- The fields of `Request` that its setters change. `result` is the address that a response is decoded to.
pub record Draft (A B : Type 0) : Type 0 where
  pub header : Headers
  pub query : List (String × String)
  pub body : Option BodyProvider
  pub result : Option ℕ
  pub no_parse : Bool
  pub timeout : Duration
  pub retry_override : Option Bool
  pub before : List (A → Err ⊎ A)
  pub after : List (B → Err ⊎ B)
  pub auth_token : String
  pub basic_user : String
  pub basic_pass : String
  pub has_basic : Bool
  pub build_err : Option Failure

-- `Client.R`
unfoldable pub new_draft : {A B : Type 0} → Draft A B
new_draft = record {
  header = [];
  query = [];
  body = none;
  result = none;
  no_parse = false;
  timeout = 0;
  retry_override = none;
  before = [];
  after = [];
  auth_token = "";
  basic_user = "";
  basic_pass = "";
  has_basic = false;
  build_err = none;
}

module _ {A B : Type 0} where
  unfoldable pub set_header : String → String → Draft A B → Draft A B
  set_header key value r = record r { header = insert key value r.header }

  unfoldable pub set_headers : List (String × String) → Draft A B → Draft A B
  set_headers [] r = r
  set_headers ((key, value) ∷ headers) r =
      set_headers headers (record r { header = insert key value r.header })

  unfoldable pub set_query_param : String → String → Draft A B → Draft A B
  set_query_param key value r = record r { query = insert key value r.query }

  unfoldable pub set_query_params : List (String × String) → Draft A B → Draft A B
  set_query_params [] r = r
  set_query_params ((key, value) ∷ params) r =
      set_query_params params (record r { query = insert key value r.query })

  unfoldable pub set_auth_token : String → Draft A B → Draft A B
  set_auth_token token r = record r { auth_token = token }

  unfoldable pub set_basic_auth : String → String → Draft A B → Draft A B
  set_basic_auth user password r = record r {
    basic_user = user;
    basic_pass = password;
    has_basic = true;
  }

  -- `fail`: the first failure is kept.
  unfoldable pub fail_with : Failure → Draft A B → Draft A B
  fail_with f r = elim r.build_err [ none ↦ record r { build_err = some f } | some first ↦ r ]

  abbrev pub set_json : Err ⊎ String → Draft A B → Draft A B
  set_json (inl err) r =
      fail_with (propagate_as kind_system_error err "failed to encode JSON request body") r
  set_json (inr content) r = record r { body = some (memory_body content "application/json") }

  abbrev pub set_reader : Reader → Option String → Draft A B → Draft A B
  set_reader reader (some content) r = record r { body = some (memory_body content "") }
  set_reader reader none r = record r { body = some (stream_body reader none "") }

  unfoldable pub set_body : BodyValue → Draft A B → Draft A B
  unfolding fail_with readable_in_memory
  set_body nil_value r = record r { body = none }
  set_body (bytes_value b) r = record r { body = some (memory_body b "application/octet-stream") }
  set_body (string_value b) r = record r { body = some (memory_body b "") }
  set_body (reader_value reader) r = set_reader reader (readable_in_memory reader) r
  set_body (other_value encoded) r = set_json encoded r

  unfoldable pub set_body_json : Err ⊎ String → Draft A B → Draft A B
  unfolding fail_with
  set_body_json encoded r = set_json encoded r

  unfoldable pub set_body_bytes : String → Draft A B → Draft A B
  set_body_bytes b r = record r { body = some (memory_body b "application/octet-stream") }

  unfoldable pub set_body_stream : Reader → Option ℕ → Draft A B → Draft A B
  set_body_stream reader size r = record r { body = some (stream_body reader size "") }

  unfoldable pub set_body_reader : Reader → Draft A B → Draft A B
  set_body_reader reader r = record r { body = some (stream_body reader none "") }

  unfoldable pub set_form_data : Encoders → List (String × String) → Draft A B → Draft A B
  set_form_data enc values r = record r { body = some (form_provider enc values) }

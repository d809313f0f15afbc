-- ===== src/HttpClient/Draft/Options.antt =====
-- The other setters of httpclient/request.go: multipart parts, the result, the deadline, retries and hooks.
use Prim.Native.String.{String}
use garlic.Common.{ℕ, Bool, true, false, Option, none, some, List, [], ◌∷◌, ◌++◌, ◌⊎◌, insert}
use garlic.Errors.ErrorT.{Err}
use garlic.HttpClient.Retry.{Duration}
use garlic.HttpClient.Draft.{
  Reader, MultipartField, BodyProvider, memory_body, stream_body, multipart_body, Draft,
}

-- `ensureMultipart`: the parts so far; a body of another form is replaced.
unfoldable pub ensure_multipart : Option BodyProvider → List MultipartField
ensure_multipart none = []
ensure_multipart (some (memory_body content content_type)) = []
ensure_multipart (some (stream_body reader size content_type)) = []
ensure_multipart (some (multipart_body fields)) = fields

module _ {A B : Type 0} where
  unfoldable pub add_part : MultipartField → Draft A B → Draft A B
  unfolding ensure_multipart
  add_part part r = record r { body = some (multipart_body (ensure_multipart r.body ++ part ∷ [])) }

  unfoldable pub set_file_reader : String → String → Reader → Draft A B → Draft A B
  set_file_reader field filename reader =
      add_part (record { field = field; filename = filename; value = ""; reader = some reader })

  unfoldable pub set_multipart_field : String → String → Draft A B → Draft A B
  set_multipart_field field value =
      add_part (record { field = field; filename = ""; value = value; reader = none })

  unfoldable pub set_content_type : String → Draft A B → Draft A B
  set_content_type content_type r = record r {
    header = insert "Content-Type" content_type r.header;
  }

  unfoldable pub set_result : Option ℕ → Draft A B → Draft A B
  set_result v r = record r { result = v }

  unfoldable pub set_do_not_parse_response : Bool → Draft A B → Draft A B
  set_do_not_parse_response v r = record r { no_parse = v }

  unfoldable pub set_timeout : Duration → Draft A B → Draft A B
  set_timeout d r = record r { timeout = d }

  unfoldable pub enable_retry : Draft A B → Draft A B
  enable_retry r = record r { retry_override = some true }

  unfoldable pub disable_retry : Draft A B → Draft A B
  disable_retry r = record r { retry_override = some false }

  unfoldable pub on_before_request : (A → Err ⊎ A) → Draft A B → Draft A B
  on_before_request h r = record r { before = r.before ++ h ∷ [] }

  unfoldable pub on_after_response : (B → Err ⊎ B) → Draft A B → Draft A B
  on_after_response h r = record r { after = r.after ++ h ∷ [] }

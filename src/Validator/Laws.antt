-- ===== src/Validator/Laws.antt =====
-- What a form that fails its validation shows a client: validator/validator.go with rest/response.go.
use garlic.Common.{
  ℕ, ◌<◌, ◌≡◌, refl, ◌∙◌, ap, sym, String, Bool, true, false, none, some, List, [], ◌∷◌, ◌++◌,
  str_eq, if◌then◌else◌, insert, lookup, lookup-insert, merge, lookup-merge, or_else, or_else_assoc,
  or_else-none, last_with, map, length, get_elem?, set, get_elem?-append_length,
  get_elem?-append_lt,
}
use garlic.Errors.Kind.{is, status_code}
use garlic.Errors.Catalog.{kind_validation_error}
use garlic.Errors.Store.{Store, Table, text, texts, bind-some, new_details, write_details}
use garlic.Errors.ErrorT.{
  nil, plain, ErrorT, Opt, as_error, is_nil, as_garlic, wrap_found, new_error_t, with_opts, apply,
  wrap, no_parts,
}
use garlic.Errors.Store.Laws.{Holds, append-Appended}
use garlic.Errors.ErrorT.Sound.{trace_of}
use garlic.Errors.Chain.{as_error_t}
use garlic.Errors.Dto.{Dto, error_dto}
use garlic.Rest.{Response, write_response, write_error}
use garlic.Rest.Laws.{write_error-user}
use garlic.Validator.{
  FieldError, Messages, message, collected, value, told, apply_errors, invalid, form_hint,
  parse_validation_errors,
}

abbrev pub entry : FieldError → String × String
entry e = (e.field, message e)

lookup-collected :
    (key : String) (errs : List FieldError) (messages : Messages)
    → lookup key (collected errs messages)
      ≡ or_else (last_with key (map entry errs)) (lookup key messages)
unfolding collected last_with
lookup-collected key [] messages = refl
lookup-collected key (e ∷ errs) messages =
    lookup-collected key errs (insert e.field (message e) messages)
    ∙ ap (or_else (last_with key (map entry errs)))
        (lookup-insert e.field key (message e) messages ∙ chosen (str_eq e.field key))
    ∙ sym (
        or_else_assoc (last_with key (map entry errs))
          (if str_eq e.field key then some (message e) else none) (lookup key messages))
  where
    chosen :
        (b : Bool)
        → (if b then some (message e) else lookup key messages)
          ≡ or_else (if b then some (message e) else none) (lookup key messages)
    chosen true = refl
    chosen false = refl

-- The messages of a fresh error.
abbrev pub messages_of : List FieldError → Messages
messages_of errs = merge (value errs) []

lookup-messages_of :
    (key : String) (errs : List FieldError)
    → lookup key (messages_of errs) ≡ last_with key (map entry errs)
unfolding value lookup
lookup-messages_of key errs =
    lookup-merge key (value errs) []
    ∙ sym (or_else-none (lookup key (value errs)))
    ∙ lookup-collected key errs []
    ∙ sym (or_else-none (last_with key (map entry errs)))

abbrev pub table_of : List FieldError → Table
table_of errs = ("hint", text form_hint) ∷ ("validation", texts (messages_of errs)) ∷ []

-- The error that tells the client of wrong fields, with its details at `a`.
pub record Tells (s : Store) (shown : String) (errs : List FieldError) (e : ErrorT) (s' : Store)
    : Type 0 where
  pub kind : e.kind ≡ kind_validation_error
  pub cause : e.cause ≡ plain shown
  pub details : e.parts.details ≡ some (length s.details)
  pub table : get_elem? s'.details (length s.details) ≡ some (table_of errs)
  pub others : (i : ℕ) → i < length s.details → get_elem? s'.details i ≡ get_elem? s.details i
  pub trace : Holds s' (trace_of e)

-- The details with the table of one more error.
abbrev with_table : Store → Table → Store
with_table s table = record s { details = s.details ++ table ∷ [] }

set-append_length :
    (xs : List Table) (x y : Table) → set (xs ++ x ∷ []) (length xs) y ≡ xs ++ y ∷ []
set-append_length [] x y = refl
set-append_length (z ∷ xs) x y = ap (λ t. z ∷ t) (set-append_length xs x y)

write_details-last :
    (s : Store) (table : Table) (key : String) (v : _)
    → write_details (some (length s.details)) key v (with_table s table)
      ≡ some (tt, with_table s (insert key v table))
unfolding write_details
write_details-last s table key v =
    rw (get_elem?-append_length s.details table [], write_details)
      (ap (λ d. some (tt, record s { details = d }))
        (set-append_length s.details table (insert key v table)))

told-last :
    (s : Store) (v : String)
    → told (with_table s (("hint", text v) ∷ [])) (some (length s.details)) ≡ []
unfolding told lookup
told-last s v = rw (get_elem?-append_length s.details (("hint", text v) ∷ []) [], told) refl

module _ (spare : ℕ → ℕ) (line shown : String) (errs : List FieldError) (s : Store) where
  -- The error before and after its trace line.
  untraced : ErrorT
  untraced = record {
    kind = kind_validation_error;
    message = "validation error";
    cause = plain shown;
    origin = nil;
    parts = record no_parts { details = some (length s.details) };
  }

  hinted :
      with_opts spare (Opt.hint form_hint ∷ []) untraced (with_table s [])
      ≡ some (untraced, with_table s (("hint", text form_hint) ∷ []))
  unfolding with_opts apply untraced insert
  hinted = bind-some _ (bind-some _ (write_details-last s [] "hint" (text form_hint)))

  detailed :
      apply_errors errs untraced (with_table s (("hint", text form_hint) ∷ []))
      ≡ some (untraced, with_table s (table_of errs))
  unfolding apply_errors untraced insert
  detailed = rw (told-last s form_hint) (
      bind-some _ (
        write_details-last s (("hint", text form_hint) ∷ []) "validation"
          (texts (messages_of errs))))

  pub parse_validation_errors-Tells :
      (e : ErrorT) × (s' : Store) × (parse_validation_errors spare line (invalid shown errs) s
        ≡ some (as_error e, s'))
      × Tells s shown errs e s'
  unfolding parse_validation_errors new_error_t new_details with_opts apply wrap is_nil as_garlic
      wrap_found untraced
  parse_validation_errors-Tells =
      let s₁ = with_table s (table_of errs) in
      let (x, s', traced, appended) = append-Appended spare s₁ line none tt in
      let same : (i : ℕ) → get_elem? s'.details i ≡ get_elem? s₁.details i =
        λ i. ap (λ d. get_elem? d i) appended.details in
      (
        record untraced { parts = record untraced.parts { reverse_trace = some x } },
        s',
        bind-some _ hinted ∙ bind-some _ detailed ∙ bind-some _ (bind-some _ (bind-some _ traced)),
        record {
          kind = refl;
          cause = refl;
          details = refl;
          table = same (length s.details) ∙ get_elem?-append_length s.details (table_of errs) [];
          others = λ i h. same i ∙ get_elem?-append_lt s.details (table_of errs ∷ []) i h;
          trace = appended.holds;
        },
      )

  -- An error of the third-party validator becomes an error whose details have, under "validation", for
  -- each field the message of its last failure and nothing else; no other detail map changes, and
  -- `WriteError` answers it with status 400 and these details.
  pub parse_validation_errors-shown :
      (unknown : Response Dto)
      → (e : ErrorT) × (s' : Store) × (parse_validation_errors spare line (invalid shown errs) s
          ≡ some (as_error e, s'))
        × Tells s shown errs e s'
        × ((field : String) → lookup field (messages_of errs) ≡ last_with field (map entry errs))
        × (write_error spare unknown (as_error e) s' ≡ some (write_response 400 (error_dto e), s'))
  unfolding as_error_t kind_validation_error is status_code
  parse_validation_errors-shown unknown =
      let (e, s', made, tells) = parse_validation_errors-Tells in
      (
        e,
        s',
        made,
        tells,
        (λ field. lookup-messages_of field errs),
        write_error-user spare unknown (as_error e) s' e refl (rw tells.kind refl)
            ∙ ap (λ k. some (write_response (status_code k) (error_dto e), s')) tells.kind,
      )

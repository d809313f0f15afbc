-- ===== src/Rest/Laws.antt =====
-- What the error responses of rest/response.go show of an error, and what they keep back.
use garlic.Common.{
  ℕ, ◌<◌, ◌≡◌, refl, ◌∙◌, ap, sym, true, false, none, some, [], ◌∷◌, ◌++◌, arith, length, get_elem?,
  set, insert, length-append, get_elem?-append_length, get_elem?-append_lt, get_elem?-set_self,
  get_elem?-set_ne,
}
use garlic.Errors.Kind.{Kind, label, fqn, status_code, is}
use garlic.Errors.Primitive.{kind_user_error, kind_system_error}
use garlic.Errors.Status.{kind_for_status}
use garlic.Errors.Store.{Store, Table, text, bind-some, new_details, write_details}
use garlic.Errors.ErrorT.{
  Err, nil, ErrorT, is_nil, no_parts, new_error_t, with_opts, apply, raw, mirror_override,
}
use garlic.Errors.Chain.{as_error_t, code_of}
use garlic.Errors.Dto.{Dto, error_dto}
use garlic.Rest.{Response, write_response, protect_error_dto, reported, write_error, suppressed}

-- From `s` to `s'` one detail map was added, at `a`, with the content `m`.
pub record Added (s : Store) (a : ℕ) (m : Table) (s' : Store) : Type 0 where
  pub arrays : s'.arrays ≡ s.arrays
  pub contexts : s'.contexts ≡ s.contexts
  pub added : get_elem? s'.details a ≡ some m
  pub older : (i : ℕ) → i < length s.details → get_elem? s'.details i ≡ get_elem? s.details i

abbrev pub hint_table : Table
hint_table = ("hint", text suppressed) ∷ []

-- The body of an error whose class may not be shown.
abbrev pub sanitized : Kind → ℕ → Dto
sanitized kind a =
    let generic = kind_for_status (status_code kind) in
    record {
      name = fqn generic;
      error = (label generic).description;
      code = (label generic).code;
      origin = (label kind).code;
      details = some a;
    }

-- `s` with one new detail map that holds the hint.
abbrev pub hinted : Store → Store
hinted s = record s { details = set (s.details ++ [] ∷ []) (length s.details) hint_table }

hinted-Added : (s : Store) → Added s (length s.details) hint_table (hinted s)
hinted-Added s =
    let grown = s.details ++ [] ∷ [] in
    let longer = length-append s.details ([] ∷ []) in
    record {
      arrays = refl;
      contexts = refl;
      added = get_elem?-set_self grown (length s.details) hint_table (omega (arith, longer));
      older = λ i h.
          get_elem?-set_ne grown (length s.details) i hint_table (λ e. omega (arith, h))
          ∙ get_elem?-append_lt s.details ([] ∷ []) i h;
    }

-- The hint is the first entry of the map that was just allocated.
hint_written :
    (s : Store)
    → write_details
        (some (length s.details))
        "hint"
        (text suppressed)
        (record s { details = s.details ++ [] ∷ [] })
      ≡ some (tt, hinted s)
unfolding write_details insert
hint_written s = rw (get_elem?-append_length s.details [] [], write_details) refl

module _ (spare : ℕ → ℕ) where
  protect_error_dto_user :
      (e : ErrorT) (s : Store)
      → is e.kind kind_user_error ≡ true
      → protect_error_dto spare e s ≡ some (error_dto e, s)
  unfolding protect_error_dto
  protect_error_dto_user e s user = rw (user, protect_error_dto) refl

  protect_error_dto_other :
      (e : ErrorT) (s : Store)
      → is e.kind kind_user_error ≡ false
      → protect_error_dto spare e s ≡ some (sanitized e.kind (length s.details), hinted s)
  unfolding protect_error_dto mirror_override new_error_t new_details with_opts apply error_dto
      code_of
  protect_error_dto_other e s other =
      rw (other, protect_error_dto) (bind-some _ (bind-some _ (bind-some _ (hint_written s))))

  reported_found :
      {e : ErrorT} (err : Err) (s : Store)
      → as_error_t err ≡ some e
      → reported spare err s ≡ some (e, s)
  unfolding reported
  reported_found err s found = rw (found, reported) refl

  found-is_nil : {e : ErrorT} (err : Err) → as_error_t err ≡ some e → is_nil err ≡ false
  unfolding as_error_t is_nil
  found-is_nil nil h = cc
  found-is_nil (Err.error_t k m c o p) h = refl
  found-is_nil (Err.headless _) h = refl
  found-is_nil (Err.plain _) h = refl
  found-is_nil (Err.wrapped _ _) h = refl
  found-is_nil (Err.joined _ _) h = refl

  system_error : ℕ → ErrorT
  system_error a = record {
    kind = kind_system_error;
    message = "internal server error";
    cause = nil;
    origin = nil;
    parts = record no_parts { details = some a };
  }

  reported_missed :
      (err : Err) (s : Store)
      → as_error_t err ≡ none
      → reported spare err s
        ≡ some (system_error (length s.details), record s { details = s.details ++ [] ∷ [] })
  unfolding reported raw new_error_t with_opts new_details system_error
  reported_missed err s missed = rw (missed, reported) refl

  system_is_no_user : is kind_system_error kind_user_error ≡ false
  unfolding is
  system_is_no_user = refl

  module _ (unknown : Response Dto) (err : Err) (s : Store) where
    write_error-reported :
        {e : ErrorT} {dto : Dto} {s₁ s₂ : Store}
        → is_nil err ≡ false
        → reported spare err s ≡ some (e, s₁)
        → protect_error_dto spare e s₁ ≡ some (dto, s₂)
        → write_error spare unknown err s ≡ some (write_response (status_code e.kind) dto, s₂)
    unfolding write_error
    write_error-reported there found body =
        rw (there, write_error) (bind-some _ found ∙ bind-some _ body)

    -- An error whose first garlic error is of a user kind is answered with that error's status and
    -- its wire form in full, and nothing is written to the store.
    pub write_error-user :
        (e : ErrorT)
        → as_error_t err ≡ some e
        → is e.kind kind_user_error ≡ true
        → write_error spare unknown err s
          ≡ some (write_response (status_code e.kind) (error_dto e), s)
    write_error-user e found user =
        write_error-reported (found-is_nil err found) (reported_found err s found)
          (protect_error_dto_user e s user)

    -- An error whose first garlic error is of another kind is answered with that kind's status, and
    -- with the name, description and code of the generic kind for that status; of the error itself
    -- only the code of its kind is shown, and the details are a new map that holds the support hint.
    pub write_error-system :
        (e : ErrorT)
        → as_error_t err ≡ some e
        → is e.kind kind_user_error ≡ false
        → (write_error spare unknown err s
            ≡ some (
              write_response (status_code e.kind) (sanitized e.kind (length s.details)),
              hinted s,
            ))
          × Added s (length s.details) hint_table (hinted s)
    write_error-system e found other = (
      write_error-reported (found-is_nil err found) (reported_found err s found)
          (protect_error_dto_other e s other),
      hinted-Added s,
    )

  -- Two errors whose first garlic errors have the same kind, not a user kind, are answered alike:
  -- no message, cause, origin, detail or trace of theirs reaches the client.
  pub write_error-same :
      (unknown : Response Dto) (err err' : Err) (e e' : ErrorT) (s : Store)
      → as_error_t err ≡ some e
      → as_error_t err' ≡ some e'
      → e.kind ≡ e'.kind
      → is e.kind kind_user_error ≡ false
      → write_error spare unknown err s ≡ write_error spare unknown err' s
  write_error-same unknown err err' e e' s found found' same other =
      let (answer, _) = write_error-system unknown err s e found other in
      let (answer', _) = write_error-system unknown err' s e' found' (rw same at other) in
      answer
      ∙ ap (λ k. some (write_response (status_code k) (sanitized k (length s.details)), hinted s))
          same
      ∙ sym answer'

-- ===== src/Errors/Dto/Laws.antt =====
-- What an error keeps when it crosses the wire by `ErrorDTO` and `DecodeFor` of errors/dto.go.
use garlic.Common.{
  ℕ, String, ◌≡◌, refl, ◌∙◌, ap, sym, inl, inr, some, arith, ltb, ◌==◌, not, ◌&&◌, if◌then◌else◌,
  Bool-cases, ==_iff, str_eq, eq_iff, Option, none, Option-cases, lt→ltb, ◌<◌,
}
use garlic.Errors.Kind.{Kind, label, status_code}
use garlic.Errors.Kind.Laws.{
  SameButStatus, SameButStatus-refl, SameButStatus-trans, customize_status_code_lem,
}
use garlic.Errors.Registry.{Registry, lookup_by_code}
use garlic.Errors.Store.{Store, bind-some}
use garlic.Errors.Store.Tables.{TablesOnly}
use garlic.Errors.ErrorT.{ErrorT, new_headless_error}
use garlic.Errors.ErrorT.Builders.{new_error_t_lem}
use garlic.Errors.Chain.{code_of}
use garlic.Errors.Dto.{Dto, error_dto, decoded, decode, repin, decode_for}

new_headless_error_code : (code : String) → code_of (new_headless_error code) ≡ code
unfolding code_of new_headless_error
new_headless_error_code code = elim (Bool-cases (str_eq code "")) [
  | inl empty ↦ rw empty (sym ((eq_iff code "").0 empty))
  | inr other ↦ rw other
]

-- A kind that differs at most by its status gives the same wire form.
error_dto-same :
    (e e' : ErrorT)
    → SameButStatus e'.kind e.kind
    → e'.message ≡ e.message
    → code_of e'.origin ≡ code_of e.origin
    → e'.parts.details ≡ e.parts.details
    → error_dto e' ≡ error_dto e
unfolding error_dto
error_dto-same e e' k m o d = rw (k.fqn_kept, k.code_kept, m, o, d)

-- The error rebuilt from a wire form with a given kind.
pub record Rebuilt (dto : Dto) (kind : Kind) (e : ErrorT) : Type 0 where
  pub kind_is : e.kind ≡ kind
  pub message_is : e.message ≡ dto.error
  pub origin_is : code_of e.origin ≡ dto.origin
  pub details_is : e.parts.details ≡ dto.details

pub decoded-Rebuilt :
    (dto : Dto) (kind : Kind) (s : Store)
    → (e : ErrorT) × (s' : Store) × (decoded dto kind s ≡ some (e, s'))
      × Rebuilt dto kind e
      × TablesOnly s s'
unfolding decoded
decoded-Rebuilt dto kind s =
    let (a, s', made, _, t) = new_error_t_lem kind dto.error (new_headless_error dto.origin) s in
    (
      _,
      s',
      bind-some _ made,
      record {
        kind_is = refl;
        message_is = refl;
        origin_is = new_headless_error_code dto.origin;
        details_is = refl;
      },
      t,
    )

decode-some :
    {d : ErrorT} {s' : Store} (r : Registry) (dto : Dto) (kind : Kind) (s : Store)
    → lookup_by_code dto.code r ≡ some kind
    → decoded dto kind s ≡ some (d, s')
    → decode r dto s ≡ some (some d, s')
unfolding decode
decode-some r dto kind s found made = rw (found, decode) (bind-some _ made)

pub repin_status :
    (status : ℕ) (e : ErrorT)
    → (status_code (repin status e).kind ≡ (if ltb 0 status then status else status_code e.kind))
      × SameButStatus (repin status e).kind e.kind
      × ((repin status e).message ≡ e.message)
      × ((repin status e).origin ≡ e.origin)
      × ((repin status e).parts ≡ e.parts)
unfolding repin
repin_status status e = elim (Bool-cases (ltb 0 status && not (status_code e.kind == status))) [
  | inl apart ↦
      let (code, same) = customize_status_code_lem e.kind status in
      rw apart (ground (arith, code), same, refl, refl, refl)
  | inr close ↦ rw close (
    ground (arith, ==_iff (status_code e.kind) status),
    SameButStatus-refl e.kind,
    refl,
    refl,
    refl,
  )
]

-- An error whose code the registry knows, under a kind that differs from its own at most in the
-- status, comes back from the wire with the same wire form, so with its name, message, code, origin
-- code and details; it reports the response's status if that is positive, else the status of the
-- registered kind. No trace in the store changes.
pub decode_for-error_dto :
    (r : Registry) (e : ErrorT) (kind : Kind) (status : ℕ) (s : Store)
    → lookup_by_code (label e.kind).code r ≡ some kind
    → SameButStatus kind e.kind
    → (e' : ErrorT) × (s' : Store) × (decode_for r (error_dto e) status s ≡ some (some e', s'))
      × (error_dto e' ≡ error_dto e)
      × (status_code e'.kind ≡ (if ltb 0 status then status else status_code kind))
      × TablesOnly s s'
unfolding decode_for decode error_dto
decode_for-error_dto r e kind status s found same =
    let (d, s', made, b, t) = decoded-Rebuilt (error_dto e) kind s in
    let (code, kept, message, org, parts) = repin_status status d in
    let known : SameButStatus d.kind e.kind = rw b.kind_is same in
    (
      repin status d,
      s',
      bind-some _ (decode-some r (error_dto e) kind s found made),
      error_dto-same e (repin status d) (SameButStatus-trans kept known) (message ∙ b.message_is)
          (ap code_of org ∙ b.origin_is) (ap (λ p. p.details) parts ∙ b.details_is),
      code ∙ ap (λ k. if ltb 0 status then status else status_code k) b.kind_is,
      t,
    )

-- `DecodeFor` always returns: nothing for an unknown code, else an error with the given status.
pub decode_for_returns :
    (r : Registry) (dto : Dto) (status : ℕ) (s : Store)
    → 0 < status
    → (found : Option ErrorT) × (s' : Store) × (decode_for r dto status s ≡ some (found, s'))
      × ((e : ErrorT) → found ≡ some e → status_code e.kind ≡ status)
unfolding decode_for decode
decode_for_returns r dto status s pos = elim (Option-cases (lookup_by_code dto.code r)) [
  | inl unknown ↦ (none, s, rw (unknown, decode) refl, λ e q. cc)
  | inr (kind, known) ↦
      let (d, s', made, b, t) = decoded-Rebuilt dto kind s in
      let (code, kept, message, org, parts) = repin_status status d in
      (
        some (repin status d),
        s',
        bind-some _ (decode-some r dto kind s known made),
        λ e q.
            let same : repin status d ≡ e = cc q in
            ap (λ (x : ErrorT). status_code x.kind) (sym same)
            ∙ code
            ∙ rw (lt→ltb 0 status pos) refl,
      )
]

-- ===== src/HttpClient/DecodeError/Laws.antt =====
-- Whatever a peer sends, the error of `DecodeError` of httpclient/response.go reports the response's status.
use garlic.Common.{
  ℕ, ◌≤◌, ◌<◌, ◌≡◌, refl, ◌∙◌, ap, sym, inl, inr, String, true, false, Option, none, some, [],
  arith, Option-cases, leb,
}
use garlic.Errors.Kind.{Kind, status_code}
use garlic.Errors.Catalog.{kind_unknown_response_error}
use garlic.Errors.Registry.{Registry}
use garlic.Errors.Store.{Store, bind-some}
use garlic.Errors.ErrorT.{Err, nil, ErrorT, as_error, as_garlic, is_nil, raw, with_opts}
use garlic.Errors.ErrorT.Sound.{IsSound}
use garlic.Errors.ErrorT.Builders.{new_error_t_lem, from-Propagated}
use garlic.Errors.Chain.Built.{new-made}
use garlic.Errors.Dto.Laws.{decode_for_returns}
use garlic.HttpClient.StatusKind.{status_kind, kind_with_status}
use garlic.HttpClient.StatusKind.Laws.{kind_with_status_lem, status_kind_lem}
use garlic.HttpClient.Assembly.{is_error}
use garlic.HttpClient.Peer.{Bytes, Json, RawFields}
use garlic.HttpClient.DecodeError.{
  Body, Received, closed, read_all, unknown_kind, no_dto, decode_failed, decode_error, error_dto_of,
}

-- The step gives a garlic error that reports the status.
abbrev pub Reporting : ℕ → Option (Err × Store) → Type 0
Reporting status result =
    (e : ErrorT) × (s' : Store) × (result ≡ some (as_error e, s')) × (status_code e.kind ≡ status)

raw_cause :
    (spare : ℕ → ℕ) (kind : Kind) (message : String) (s : Store)
    → (c : ErrorT) × (s' : Store) × (raw spare kind message [] s ≡ some (c, s'))
      × (c.kind ≡ kind)
      × IsSound s' c
unfolding raw with_opts
raw_cause spare kind message s =
    let (a, s', made, fits, t) = new_error_t_lem kind message nil s in
    (_, s', bind-some _ made, refl, record { details = fits; context = tt; trace = tt })

module _ (spare : ℕ → ℕ) (json : Json) (registry : Registry) (caller line : String) where
  unknown_kind-Reporting :
      (status : ℕ) (fields : RawFields) (s : Store)
      → 0 < status
      → Reporting status (unknown_kind spare json registry caller line status fields s)
  unfolding unknown_kind as_garlic is_nil
  unknown_kind-Reporting status fields s pos =
      let (c, s₁, made, kind, sound) =
        raw_cause spare (status_kind status) "upstream returned an error status" s in
      let (outer, _) = kind_with_status_lem kind_unknown_response_error status pos in
      let (e, s₂, done, p) =
        from-Propagated spare (kind_with_status kind_unknown_response_error status) (as_error c) _
          s₁ refl sound _ refl in
      (
        e,
        s₂,
        bind-some _ made ∙ done,
        p.kind_is.agreed c refl (ap status_code kind ∙ (status_kind_lem status pos).0 ∙ sym outer)
            ∙ outer,
      )

  no_dto-Reporting :
      (status : ℕ) (media_type : Option Bytes) (body : Body) (s : Store)
      → 0 < status
      → ((err : Err) → body.read_err ≡ some err → (is_nil err ≡ false) × (as_garlic err ≡ none))
      → Reporting status (no_dto spare json registry caller line status media_type body s)
  unfolding no_dto
  no_dto-Reporting status media_type body s pos foreign = elim (Option-cases body.read_err) [
    | inl whole ↦
        let (e, s', made, kind, _) = new-made spare (status_kind status) _ _ line s refl in
        rw (whole, no_dto)
          (e, s', bind-some _ made, ap status_code kind ∙ (status_kind_lem status pos).0)
    | inr (err, broken) ↦
        let (there, other) = foreign err broken in
        let (e, s', made, p) =
          from-Propagated spare (status_kind status) err _ s there (rw other tt) _ refl in
        rw (broken, no_dto)
          (e, s', made, ap status_code (p.kind_is.alone other) ∙ (status_kind_lem status pos).0)
  ]

  -- A body that cannot be read to its end fails with an error of another package.
  abbrev pub FailsForeign : Received → Type 0
  FailsForeign r =
      (err : Err)
      → (read_all r.body).read_err ≡ some err
      → (is_nil err ≡ false) × (as_garlic err ≡ none)

  decode_failed-Reporting :
      (r : Received) (s : Store)
      → 0 < r.status
      → FailsForeign r
      → Reporting r.status (decode_failed spare json registry caller line r s)
  unfolding decode_failed
  decode_failed-Reporting r s pos foreign =
      elim (Option-cases (error_dto_of spare json registry caller line (read_all r.body))) [
        | inl other ↦
            rw (other, decode_failed)
              (no_dto-Reporting r.status r.media_type (read_all r.body) s pos foreign)
        | inr ((dto, fields), is_dto) ↦
            let (found, s₁, decoded, reports) = decode_for_returns registry dto r.status s pos in
            rw (is_dto, decode_failed, decoded)
              (elim (Option-cases found) [
                | inl unknown ↦ rw unknown (unknown_kind-Reporting r.status fields s₁ pos)
                | inr (e, known) ↦ rw known (e, s₁, refl, reports e known)
              ])
      ]

  -- For a response of status 400 or more, whatever its body is and whether or not it can be read to its
  -- end, `DecodeError` returns a garlic error that reports exactly that status, and the body is closed.
  -- A failure to read the body is an error of another package.
  pub decode_error-status :
      (r : Received) (s : Store)
      → 400 ≤ r.status
      → FailsForeign r
      → (e : ErrorT) × (s' : Store) × (decode_error spare json registry caller line (some r) s
          ≡ some ((as_error e, some (closed r)), s'))
        × (status_code e.kind ≡ r.status)
  unfolding decode_error is_error
  decode_error-status r s least foreign =
      let is_error : leb 400 r.status ≡ true = ground arith in
      let (e, s', made, status) = decode_failed-Reporting r s (omega arith) foreign in
      (e, s', rw is_error (bind-some _ made), status)

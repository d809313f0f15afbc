-- ===== src/Errors/ErrorT/Wrap.antt =====
-- What `wrap` of errors/errors.go takes over from the cause, and which status the kind reports then.
use garlic.Common.{
  ◌≡◌, refl, ◌∙◌, ap, sym, subst, ◌≢◌, inl, inr, Bool, true, false, Option, none, some, arith, ◌||◌,
  not, Bool-cases, ◌==◌, zero-cases,
}
use garlic.Errors.Kind.{Kind, label, status_code, customize_status_code}
use garlic.Errors.Kind.Laws.{SameButStatus, SameButStatus-refl, customize_status_code_lem}
use garlic.Errors.Store.{Store, Slice}
use garlic.Errors.ErrorT.{Err, ErrorT, Parts, wrap_found, inherit_status_customization}
use garlic.Errors.ErrorT.Sound.{IsSound, trace_of, is_some}

-- What the struct behind an error points to is in the store; other errors point to nothing.
abbrev pub IsSoundErr : Store → Option ErrorT → Type 0
IsSoundErr s none = Unit {0}
IsSoundErr s (some o) = IsSound s o

-- The trace of an error, none if it is not a garlic error.
abbrev pub err_trace : Option ErrorT → Option Slice
err_trace none = none
err_trace (some o) = trace_of o

-- Whether an error that wraps this one has a detail map: its own, unless it takes over a nil one.
abbrev pub has_map : Option ErrorT → Bool
has_map none = true
has_map (some o) = is_some o.parts.details

-- A status pinned by `CustomizeStatusCode`.
abbrev pub IsPinned : Kind → Type 0
IsPinned k = ((label k).custom_status ≡ true) × ((label k).http_status_code ≢ 0)

abbrev pub parts_of : ErrorT → Option ErrorT → Parts
parts_of e none = e.parts
parts_of e (some o) = o.parts

-- The kind of an error that wraps `cause` and was built with `kind`: they differ only where the
-- cause's kind pins a status and `kind` does not, and then the pinned status is taken over.
pub record Inherits (kind : Kind) (cause : Option ErrorT) (kind' : Kind) : Type 0 where
  pub same : SameButStatus kind' kind
  pub pinned :
      (o : ErrorT)
      → cause ≡ some o
      → IsPinned o.kind
      → (label kind).custom_status ≡ false
      → status_code kind' ≡ status_code o.kind
  pub kept : (label kind).custom_status ≡ true → kind' ≡ kind
  pub unpinned : (o : ErrorT) → cause ≡ some o → (label o.kind).custom_status ≡ false → kind' ≡ kind
  pub alone : cause ≡ none → kind' ≡ kind
  pub agreed :
      (o : ErrorT)
      → cause ≡ some o
      → status_code o.kind ≡ status_code kind
      → status_code kind' ≡ status_code kind

status_code_own :
    (k : Kind) → (label k).http_status_code ≢ 0 → status_code k ≡ (label k).http_status_code
unfolding status_code
status_code_own (Kind.root l) ne = ground arith
status_code_own (Kind.child l p) ne = ground arith

-- The fields of an error that wraps another.
pub record Wrapped (e : ErrorT) (cause : Option ErrorT) (err : Err) (w : ErrorT) : Type 0 where
  pub cause_is : w.cause ≡ err
  pub message : w.message ≡ e.message
  pub origin : w.origin ≡ e.origin
  pub parts_taken : w.parts ≡ parts_of e cause
  pub kind : Inherits e.kind cause w.kind

pinned-status :
    (kind cause : Kind)
    → (label cause).http_status_code ≢ 0
    → status_code (customize_status_code kind (label cause).http_status_code) ≡ status_code cause
pinned-status kind cause ne =
    let code = (label cause).http_status_code in
    let positive : (code == 0) ≡ false = ground arith in
    (customize_status_code_lem kind code).0 ∙ rw positive (sym (status_code_own cause ne))

agreed-status :
    (kind cause : Kind)
    → status_code cause ≡ status_code kind
    → status_code (customize_status_code kind (label cause).http_status_code) ≡ status_code kind
agreed-status kind cause same = elim (zero-cases (label cause).http_status_code) [
  | inl none_given ↦
      (customize_status_code_lem kind (label cause).http_status_code).0 ∙ rw none_given refl
  | inr given ↦ pinned-status kind cause given ∙ same
]

customized-Inherits :
    (o : ErrorT) (kind : Kind)
    → (label kind).custom_status ≡ false
    → (label o.kind).custom_status ≡ true
    → Inherits kind (some o) (customize_status_code kind (label o.kind).http_status_code)
customized-Inherits o kind own theirs = record {
  same = (customize_status_code_lem kind (label o.kind).http_status_code).1;
  pinned = λ p q pin _.
      let o-eq-p : o ≡ p = cc q in
      subst
        (λ (x : ErrorT).
          (label x.kind).http_status_code ≢ 0
          → status_code (customize_status_code kind (label o.kind).http_status_code)
            ≡ status_code x.kind)
        o-eq-p (pinned-status kind o.kind) pin.1;
  kept = λ custom. cc;
  unpinned = λ p q custom.
      let o-eq-p : o ≡ p = cc q in cc (ap (λ (x : ErrorT). (label x.kind).custom_status) o-eq-p);
  alone = λ q. cc;
  agreed = λ p q same.
      let o-eq-p : o ≡ p = cc q in
      agreed-status kind o.kind (ap (λ (x : ErrorT). status_code x.kind) o-eq-p ∙ same);
}

kept-Inherits :
    (o : ErrorT) (kind : Kind)
    → (not (label o.kind).custom_status || (label kind).custom_status) ≡ true
    → Inherits kind (some o) kind
kept-Inherits o kind guard = record {
  same = SameButStatus-refl kind;
  pinned = λ p q pin own.
      let o-eq-p : o ≡ p = cc q in
      let theirs : (label o.kind).custom_status ≡ false = ground arith in
      let pinned : (label p.kind).custom_status ≡ true = pin.0 in
      cc (ap (λ (x : ErrorT). (label x.kind).custom_status) o-eq-p);
  kept = λ _. refl;
  unpinned = λ p q _. refl;
  alone = λ q. refl;
  agreed = λ p q same. refl;
}

pub wrap_found-Wrapped :
    (cause : Option ErrorT) (e : ErrorT) (err : Err) → Wrapped e cause err (wrap_found cause e err)
unfolding wrap_found inherit_status_customization
wrap_found-Wrapped none e err = record {
  cause_is = refl;
  message = refl;
  origin = refl;
  parts_taken = refl;
  kind = record {
    same = SameButStatus-refl e.kind;
    pinned = λ o q _ _. cc;
    kept = λ _. refl;
    unpinned = λ o q _. cc;
    alone = λ q. refl;
    agreed = λ o q same. refl;
  };
}
wrap_found-Wrapped (some o) e err =
    elim (Bool-cases (not (label o.kind).custom_status || (label e.kind).custom_status)) [
      | inl guard ↦ rw guard (record {
        cause_is = refl;
        message = refl;
        origin = refl;
        parts_taken = refl;
        kind = kept-Inherits o e.kind guard;
      })
      | inr guard ↦ rw guard (record {
        cause_is = refl;
        message = refl;
        origin = refl;
        parts_taken = refl;
        kind = customized-Inherits o e.kind (ground arith) (ground arith);
      })
    ]

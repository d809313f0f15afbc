-- ===== src/Errors/ErrorT/Builders.antt =====
-- What `From`, `PropagateAs` and `Propagate` of errors/errors.go make of an error.
use garlic.Common.{
  ℕ, String, ◌≡◌, refl, ◌∙◌, ap, sym, subst, inr, Bool, true, false, Option, none, some, List, [],
  ◌∷◌, ◌++◌, arith, ◌&&◌, length, ◌<◌,
}
use garlic.Errors.Kind.{Kind}
use garlic.Errors.Store.{Store, Slice, read_slice, bind, pure, bind-some}
use garlic.Errors.Store.Laws.{Holds, Within}
use garlic.Errors.Store.Tables
use garlic.Errors.Store.Tables.{Below, TablesOnly, Below-le, read_slice_same, Holds-same}
use garlic.Errors.ErrorT.{
  Err, nil, ErrorT, Parts, Opt, as_error, as_garlic, is_nil, new_error_t, wrap, wrap_found,
  with_opts, from_non_nil, from, propagate_as, no_parts,
}
use garlic.Errors.ErrorT.Wrap.{
  IsSoundErr, err_trace, has_map, Inherits, parts_of, wrap_found-Wrapped,
}
use garlic.Errors.ErrorT.Sound.{IsSound, trace_of, is_some, lines, allowed, Applied}
use garlic.Errors.ErrorT.Options.{with_opts-Applied, with_opts_panics}

-- What a builder made of an error `err` in `s`, with the trace lines `added`.
pub record Propagated (s : Store) (kind : Kind) (err : Err) (message : String) (added : List String)
    (e : ErrorT) (s' : Store) : Type 0 where
  pub cause : e.cause ≡ err
  pub message_is : e.message ≡ message
  pub no_origin : e.origin ≡ nil
  pub kind_is : Inherits kind (as_garlic err) e.kind
  pub trace : read_slice s' (trace_of e) ≡ read_slice s (err_trace (as_garlic err)) ++ added
  -- The trace of the cause itself is what it was.
  pub cause_trace :
      read_slice s' (err_trace (as_garlic err)) ≡ read_slice s (err_trace (as_garlic err))
  -- So is every trace that ends before the cause's.
  pub others :
      (z : Option Slice)
      → Holds s z
      → Within z (err_trace (as_garlic err))
      → read_slice s' z ≡ read_slice s z

IsSound-parts : {s : Store} {e w : ErrorT} → w.parts ≡ e.parts → IsSound s e → IsSound s w
IsSound-parts {s} q h = record {
  details = subst (λ (p : Parts). Below (length s.details) p.details) (sym q) h.details;
  context = subst (λ (p : Parts). Below (length s.contexts) p.context) (sym q) h.context;
  trace = subst (λ (p : Parts). Holds s p.reverse_trace) (sym q) h.trace;
}

IsSound-tables : {s s' : Store} {e : ErrorT} → TablesOnly s s' → IsSound s e → IsSound s' e
IsSound-tables {e} t h = record {
  details = Below-le _ _ e.parts.details h.details t.details;
  context = Below-le _ _ e.parts.context h.context t.contexts;
  trace = Holds-same (trace_of e) t h.trace;
}

Within-refl : (z : Option Slice) → Within z z
Within-refl none = tt
Within-refl (some z) = inr (omega arith)

-- The error just made, before its options.
abbrev blank : Kind → String → Err → ℕ → ErrorT
blank kind message origin a = record {
  kind = kind;
  message = message;
  cause = nil;
  origin = origin;
  parts = record no_parts { details = some a };
}

pub new_error_t_lem :
    (kind : Kind) (message : String) (origin : Err) (s : Store)
    → (a : ℕ) × (s' : Store) × (new_error_t kind message origin s
        ≡ some (blank kind message origin a, s'))
      × (a < length s'.details)
      × TablesOnly s s'
unfolding new_error_t
new_error_t_lem kind message origin s =
    let (a, s', made, fits, t) = Tables.new_details_lem s in (a, s', bind-some _ made, fits, t)

-- The wrapping error in the store, before its options.
pub record Prepared (s s' : Store) (cause : Option ErrorT) (w : ErrorT) : Type 0 where
  pub sound : IsSound s' w
  pub map : is_some w.parts.details ≡ has_map cause
  pub shown : read_slice s' (trace_of w) ≡ read_slice s (err_trace cause)
  pub trace : trace_of w ≡ err_trace cause
  pub tables : TablesOnly s s'

blank-Prepared :
    {s s' : Store} (cause : Option ErrorT) (kind : Kind) (message : String) (a : ℕ)
    → a < length s'.details
    → TablesOnly s s'
    → IsSoundErr s cause
    → (w : ErrorT) → w.parts ≡ parts_of (blank kind message nil a) cause
    → Prepared s s' cause w
unfolding read_slice
blank-Prepared {s'} none kind message a fits t h w q = record {
  sound =
      IsSound-parts {e = blank kind message nil a} q
        (record { details = fits; context = tt; trace = tt });
  map = ap (λ (p : Parts). is_some p.details) q;
  shown = ap (λ (p : Parts). read_slice s' p.reverse_trace) q;
  trace = ap (λ (p : Parts). p.reverse_trace) q;
  tables = t;
}
blank-Prepared {s'} (some o) kind message a fits t h w q = record {
  sound = IsSound-parts {e = o} q (IsSound-tables t h);
  map = ap (λ (p : Parts). is_some p.details) q;
  shown = ap (λ (p : Parts). read_slice s' p.reverse_trace) q ∙ read_slice_same (trace_of o) t;
  trace = ap (λ (p : Parts). p.reverse_trace) q;
  tables = t;
}

lines-append_trace :
    (opts : List Opt) (line : String)
    → lines (opts ++ Opt.rev_trace line ∷ []) ≡ lines opts ++ line ∷ []
lines-append_trace [] line = refl
lines-append_trace (Opt.hint _ ∷ opts) line = lines-append_trace opts line
lines-append_trace (Opt.details _ ∷ opts) line = lines-append_trace opts line
lines-append_trace (Opt.context _ _ ∷ opts) line = lines-append_trace opts line
lines-append_trace (Opt.rev_trace l ∷ opts) line = ap (λ t. l ∷ t) (lines-append_trace opts line)
lines-append_trace (Opt.stack_trace _ ∷ opts) line = lines-append_trace opts line

allowed-append_trace :
    (has : Bool) (opts : List Opt) (line : String)
    → allowed has (opts ++ Opt.rev_trace line ∷ []) ≡ allowed has opts
allowed-append_trace has [] line = refl
allowed-append_trace has (Opt.hint _ ∷ opts) line =
    ap (λ b. has && b) (allowed-append_trace has opts line)
allowed-append_trace has (Opt.details _ ∷ opts) line = allowed-append_trace true opts line
allowed-append_trace has (Opt.context _ _ ∷ opts) line = allowed-append_trace has opts line
allowed-append_trace has (Opt.rev_trace _ ∷ opts) line = allowed-append_trace has opts line
allowed-append_trace has (Opt.stack_trace _ ∷ opts) line = allowed-append_trace has opts line

err_trace-Holds :
    (s : Store) (cause : Option ErrorT) → IsSoundErr s cause → Holds s (err_trace cause)
err_trace-Holds s none h = tt
err_trace-Holds s (some o) h = h.trace

module _ (spare : ℕ → ℕ) (kind : Kind) (err : Err) (message : String) (s : Store)
    (there : is_nil err ≡ false) (h : IsSoundErr s (as_garlic err)) where
  pub wrapped : ℕ → ErrorT
  wrapped a = wrap_found (as_garlic err) (blank kind message nil a) err

  -- The error that `from` hands to its options.
  pub from_start :
      (opts : List Opt)
      → (a : ℕ) × (s₀ : Store) × Prepared s s₀ (as_garlic err) (wrapped a)
        × (from spare kind err message opts s
            ≡ bind (with_opts spare opts (wrapped a) s₀) (λ e. pure (as_error e)))
  unfolding from from_non_nil wrap wrapped
  from_start opts =
      let (a, s₀, made, fits, t) = new_error_t_lem kind message nil s in
      let w = wrap_found-Wrapped (as_garlic err) (blank kind message nil a) err in
      (
        a,
        s₀,
        blank-Prepared (as_garlic err) kind message a fits t h (wrapped a) w.parts_taken,
        rw there (bind-some _ made),
      )

  with_opts-Propagated :
      (opts : List Opt) (a : ℕ) (s₀ : Store) (e : ErrorT) (s' : Store)
      → Prepared s s₀ (as_garlic err) (wrapped a)
      → Applied s₀ (wrapped a) (lines opts) e s'
      → Propagated s kind err message (lines opts) e s'
  unfolding wrapped
  with_opts-Propagated opts a s₀ e s' p applied =
      let found = as_garlic err in
      let w = wrap_found-Wrapped found (blank kind message nil a) err in
      let others : (z : Option Slice)
          → Holds s z
          → Within z (err_trace found)
          → read_slice s' z ≡ read_slice s z =
        λ z hz wz.
          (applied.others z (Holds-same z p.tables hz)
            (subst (λ (x : Option Slice). Within z x) (sym p.trace) wz)).0
          ∙ read_slice_same z p.tables in
      record {
        cause = applied.cause ∙ w.cause_is;
        message_is = applied.message ∙ w.message;
        no_origin = applied.origin ∙ w.origin;
        kind_is = subst (Inherits kind found) (sym applied.kind) w.kind;
        trace = applied.trace ∙ ap (λ t. t ++ lines opts) p.shown;
        cause_trace =
            others (err_trace found) (err_trace-Holds s found h) (Within-refl (err_trace found));
        others = others;
      }

  pub from-Propagated :
      (opts : List Opt)
      → allowed (has_map (as_garlic err)) opts ≡ true
      → (e : ErrorT) × (s' : Store) × (from spare kind err message opts s ≡ some (as_error e, s'))
        × Propagated s kind err message (lines opts) e s'
  from-Propagated opts ok =
      let (a, s₀, p, start) = from_start opts in
      let (e, s', done, applied) =
        with_opts-Applied spare opts s₀ (wrapped a) p.sound (ap (λ b. allowed b opts) p.map ∙ ok) in
      (e, s', start ∙ bind-some _ done, with_opts-Propagated opts a s₀ e s' p applied)

  pub from_panics :
      (opts : List Opt)
      → allowed (has_map (as_garlic err)) opts ≡ false
      → from spare kind err message opts s ≡ none
  from_panics opts bad =
      let (a, s₀, p, start) = from_start opts in
      start
      ∙ ap (λ r. bind r (λ e. pure (as_error e)))
          (with_opts_panics spare opts s₀ (wrapped a) p.sound
            (ap (λ b. allowed b opts) p.map ∙ bad))

  -- A non-nil error comes back as a garlic error that wraps it, with the given message and one more
  -- trace line, the options' lines before it. The kind is the one given, with the status that the
  -- cause pins if the given kind pins none; the cause's own trace is unchanged. The one condition
  -- is that no hint meets a cause without a detail map.
  pub propagate_as-Propagated :
      (opts : List Opt) (line : String)
      → allowed (has_map (as_garlic err)) opts ≡ true
      → (e : ErrorT) × (s' : Store) × (propagate_as spare kind err message opts line s
          ≡ some (as_error e, s'))
        × Propagated s kind err message (lines opts ++ line ∷ []) e s'
  unfolding propagate_as
  propagate_as-Propagated opts line ok =
      let opts' = opts ++ Opt.rev_trace line ∷ [] in
      let (e, s', done, p) = from-Propagated opts' (allowed-append_trace _ opts line ∙ ok) in
      (
        e,
        s',
        rw there done,
        subst (λ (added : List String). Propagated s kind err message added e s')
            (lines-append_trace opts line) p,
      )

  -- A hint on the propagation of an error whose detail map is nil panics, unless a details option
  -- comes first.
  pub propagate_as_panics :
      (opts : List Opt) (line : String)
      → allowed (has_map (as_garlic err)) opts ≡ false
      → propagate_as spare kind err message opts line s ≡ none
  unfolding propagate_as
  propagate_as_panics opts line bad =
      rw there
        (from_panics (opts ++ Opt.rev_trace line ∷ []) (allowed-append_trace _ opts line ∙ bad))

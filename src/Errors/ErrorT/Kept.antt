-- ===== src/Errors/ErrorT/Kept.antt =====
-- What `Propagate` of errors/errors.go keeps of a garlic error: its kind and its details.
use garlic.Common.{
  length-set, ℕ, String, ◌≡◌, refl, ◌∙◌, ap, true, some, List, [], ◌∷◌, ◌++◌, arith, get_elem?, set,
  insert, length-append, get_elem?-append_lt, get_elem?-set_self, lt-length_of_get_elem?,
  Bool-cases, inl, inr,
}
use garlic.Errors.Kind.{Kind, label}
use garlic.Errors.Store.{Store, Table, text, bind, pure, bind-some, write_details, new_details}
use garlic.Errors.Store.Laws.{Holds, append-Appended}
use garlic.Errors.Store.Tables.{Holds-same}
use garlic.Errors.ErrorT.{
  nil, ErrorT, Opt, as_error, as_garlic, is_nil, new_error_t, inherit_status_customization,
  wrap_found, wrap, kind_of, with_opts, apply, from_non_nil, from, propagate_as, propagate,
}
use garlic.Errors.ErrorT.Sound.{trace_of}

-- The error is of the kind, and its details are the table at `a`.
pub record Kept (kind : Kind) (a : ℕ) (table : Table) (e : ErrorT) (s : Store) : Type 0 where
  pub kind_is : e.kind ≡ kind
  pub details : e.parts.details ≡ some a
  pub stored : get_elem? s.details a ≡ some table
  pub trace : Holds s (trace_of e)

inherit-same : (kind : Kind) (e : ErrorT) → e.kind ≡ kind → inherit_status_customization kind e ≡ e
unfolding inherit_status_customization
inherit-same kind e same = elim (Bool-cases (label kind).custom_status) [
  | inl pinned ↦
      let also : (label e.kind).custom_status ≡ true =
        ap (λ k. (label k).custom_status) same ∙ pinned in
      rw (pinned, inherit_status_customization, also) refl
  | inr other ↦ rw (other, inherit_status_customization) refl
]

-- The error that wraps `e`, before its options, and the store in which its own map was made.
abbrev around : ErrorT → String → ErrorT
around e message = record e { message = message; cause = as_error e; origin = nil }

abbrev mapped : Store → Store
mapped s = record s { details = s.details ++ [] ∷ [] }

module _ (spare : ℕ → ℕ) (line message : String) (e : ErrorT) (s : Store) where
  propagate_start :
      (opts : List Opt)
      → propagate spare (as_error e) message opts line s
        ≡ bind
            (with_opts spare (opts ++ Opt.rev_trace line ∷ []) (around e message) (mapped s))
            (λ made. pure (as_error made))
  unfolding propagate propagate_as from from_non_nil new_error_t new_details wrap wrap_found is_nil
      as_garlic kind_of
  propagate_start opts =
      rw (inherit-same e.kind (record e { message = message; cause = nil; origin = nil }) refl) refl

  mapped-Kept :
      {kind : Kind} {a : ℕ} {table : Table}
      → Kept kind a table e s
      → Kept kind a table (around e message) (mapped s)
  mapped-Kept {a} {table} h = record {
    kind_is = h.kind_is;
    details = h.details;
    stored =
        get_elem?-append_lt s.details ([] ∷ []) a
          (lt-length_of_get_elem? s.details a table h.stored)
        ∙ h.stored;
    trace =
        Holds-same {s = s} {s' = mapped s} (trace_of e)
          (record {
            arrays = refl;
            details = omega (arith, length-append s.details ([] ∷ []));
            contexts = omega arith;
          })
          h.trace;
  }

module _ (spare : ℕ → ℕ) {kind : Kind} {a : ℕ} where
  traced-Kept :
      (line : String) {table : Table} (e : ErrorT) (s : Store)
      → Kept kind a table e s
      → (e' : ErrorT) × (s' : Store) × (with_opts spare (Opt.rev_trace line ∷ []) e s
          ≡ some (e', s'))
        × Kept kind a table e' s'
  unfolding with_opts apply
  traced-Kept line e s h =
      let (y, s', made, appended) = append-Appended spare s line (trace_of e) h.trace in
      (
        record e { parts = record e.parts { reverse_trace = some y } },
        s',
        bind-some _ (bind-some _ made),
        record {
          kind_is = h.kind_is;
          details = h.details;
          stored = ap (λ d. get_elem? d a) appended.details ∙ h.stored;
          trace = appended.holds;
        },
      )

  hinted-Kept :
      (hint : String) {table : Table} (e : ErrorT) (s : Store)
      → Kept kind a table e s
      → (s' : Store) × (write_details e.parts.details "hint" (text hint) s ≡ some (tt, s'))
        × Kept kind a (insert "hint" (text hint) table) e s'
  unfolding write_details
  hinted-Kept hint {table} e s h =
      let table' = insert "hint" (text hint) table in
      let s' = record s { details = set s.details a table' } in
      (
        s',
        rw (h.details, h.stored, write_details) refl,
        record {
          kind_is = h.kind_is;
          details = h.details;
          stored =
              get_elem?-set_self s.details a table'
                (lt-length_of_get_elem? s.details a table h.stored);
          trace =
              Holds-same {s = s} {s' = s'} (trace_of e)
                (record {
                  arrays = refl;
                  details = omega (arith, length-set s.details a table');
                  contexts = omega arith;
                })
                h.trace;
        },
      )

  -- Without options the details are what they were.
  pub propagate-Kept :
      (line message : String) {table : Table} (e : ErrorT) (s : Store)
      → Kept kind a table e s
      → (e' : ErrorT) × (s' : Store) × (propagate spare (as_error e) message [] line s
          ≡ some (as_error e', s'))
        × Kept kind a table e' s'
  propagate-Kept line message e s h =
      let (e', s', made, kept) =
        traced-Kept line (around e message) (mapped s) (mapped-Kept spare line message e s h) in
      (e', s', propagate_start spare line message e s [] ∙ bind-some _ made, kept)

  -- A hint replaces the one that is there, since the details are those of the cause.
  pub propagate_hint-Kept :
      (hint line message : String) {table : Table} (e : ErrorT) (s : Store)
      → Kept kind a table e s
      → (e' : ErrorT) × (s' : Store) × (propagate spare
            (as_error e)
            message
            (Opt.hint hint ∷ [])
            line
            s
          ≡ some (as_error e', s'))
        × Kept kind a (insert "hint" (text hint) table) e' s'
  unfolding with_opts apply
  propagate_hint-Kept hint line message e s h =
      let (s₁, written, kept) =
        hinted-Kept hint (around e message) (mapped s) (mapped-Kept spare line message e s h) in
      let (e', s', made, kept') = traced-Kept line (around e message) s₁ kept in
      (
        e',
        s',
        propagate_start spare line message e s (Opt.hint hint ∷ [])
            ∙ bind-some _ (bind-some _ (bind-some _ written) ∙ made),
        kept',
      )

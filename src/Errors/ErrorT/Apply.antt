-- ===== src/Errors/ErrorT/Apply.antt =====
-- What one option of the package errors does to an error.
use garlic.Common.{
  ℕ, ◌<◌, inl, inr, String, ◌≡◌, refl, ◌∙◌, ap, Bool, true, Option, some, List, [], ◌∷◌, arith,
  length, Option-cases, subst, sym,
}
use mathlib.Core.List.{append-nil}
use garlic.Errors.Store.{Store, write_details, write_all, write_context, bind-some, text}
use garlic.Errors.Store.Laws.{append-Appended}
use garlic.Errors.Store.Tables
use garlic.Errors.Store.Tables.{
  Below, TablesOnly, TablesOnly-trans, Below-le, read_slice_same, Holds-same,
}
use garlic.Errors.ErrorT.{ErrorT, Opt, apply, ensure_details, ensure_context}
use garlic.Errors.ErrorT.Sound.{
  trace_of, is_some, IsSound, lines, allowed, Applied, Applied-refl, Applied-tables, Applied-write,
}

-- An outcome that adds `added` to the trace of `e`, with or without a detail map.
abbrev pub Outcome : Option (ErrorT × Store) → Store → ErrorT → List String → Bool → Type 0
Outcome result s e added has =
    (e' : ErrorT) × (s' : Store) × (result ≡ some (e', s'))
    × Applied s e added e' s'
    × (is_some e'.parts.details ≡ has)

-- An outcome of the first half of an option, with the map that it gives.
abbrev Ensured :
    Option (ErrorT × Store) → Store → ErrorT → (ErrorT → Option ℕ) → (Store → ℕ) → Bool → Type 0
Ensured result s e map size has =
    (e' : ErrorT) × (s' : Store) × (a : ℕ) × (result ≡ some (e', s'))
    × (map e' ≡ some a)
    × (a < size s')
    × Applied s e [] e' s'
    × (is_some e'.parts.details ≡ has)

module _ (s : Store) (e : ErrorT) (h : IsSound s e) where
  ensure_details-Ensured :
      Ensured (ensure_details e s) s e (λ e'. e'.parts.details) (λ s'. length s'.details) true
  unfolding ensure_details
  ensure_details-Ensured = elim (Option-cases e.parts.details) [
    | inr (a, q) ↦ (
      e,
      s,
      a,
      ground arith,
      q,
      subst (Below (length s.details)) q h.details,
      Applied-refl h,
      rw q,
    )
    | inl q ↦
        let (a, s', made, fits, t) = Tables.new_details_lem s in
        (
          record e { parts = record e.parts { details = some a } },
          s',
          a,
          rw (q, made, ensure_details),
          refl,
          fits,
          Applied-tables (some a) e.parts.context h t fits
              (Below-le _ _ e.parts.context h.context t.contexts),
          refl,
        )
  ]

  ensure_context-Ensured :
      Ensured
        (ensure_context e s)
        s
        e
        (λ e'. e'.parts.context)
        (λ s'. length s'.contexts)
        (is_some e.parts.details)
  unfolding ensure_context
  ensure_context-Ensured = elim (Option-cases e.parts.context) [
    | inr (a, q) ↦ (
      e,
      s,
      a,
      ground arith,
      q,
      subst (Below (length s.contexts)) q h.context,
      Applied-refl h,
      refl,
    )
    | inl q ↦
        let (a, s', made, fits, t) = Tables.new_context_lem s in
        (
          record e { parts = record e.parts { context = some a } },
          s',
          a,
          rw (q, made, ensure_context),
          refl,
          fits,
          Applied-tables e.parts.details (some a) h t
              (Below-le _ _ e.parts.details h.details t.details) fits,
          refl,
        )
  ]

abbrev pub has_after : Bool → Opt → Bool
has_after has (Opt.details _) = true
has_after has (Opt.hint _) = has
has_after has (Opt.context _ _) = has
has_after has (Opt.rev_trace _) = has
has_after has (Opt.stack_trace _) = has

module _ (spare : ℕ → ℕ) (s : Store) (e : ErrorT) (h : IsSound s e) where
  pub apply-Outcome :
      (opt : Opt)
      → allowed (is_some e.parts.details) (opt ∷ []) ≡ true
      → Outcome
          (apply spare opt e s)
          s
          e
          (lines (opt ∷ []))
          (has_after (is_some e.parts.details) opt)
  unfolding apply
  apply-Outcome (Opt.hint message) ok = elim (Option-cases e.parts.details) [
    | inl q ↦ absurd (cc (rw q at ok))
    | inr (a, q) ↦
        let fits = subst (Below (length s.details)) q h.details in
        let (s', wrote, t) = Tables.write_details_lem s a "hint" (text message) fits in
        (
          e,
          s',
          bind-some _ (ap (λ d. write_details d "hint" (text message) s) q ∙ wrote),
          Applied-write (Applied-refl h) t,
          refl,
        )
  ]
  apply-Outcome (Opt.details fields) ok =
      let (e', s₁, a, made, q, fits, applied, has) = ensure_details-Ensured s e h in
      let (s', wrote, t) = Tables.write_all_lem s₁ a fields fits in
      (
        e',
        s',
        bind-some _ made ∙ bind-some _ (ap (λ d. write_all d fields s₁) q ∙ wrote),
        Applied-write applied t,
        has,
      )
  apply-Outcome (Opt.context caller fields) ok =
      let (e', s₁, a, made, q, fits, applied, has) = ensure_context-Ensured s e h in
      let (s', wrote, t) = Tables.write_context_lem s₁ a caller fields fits in
      (
        e',
        s',
        bind-some _ made ∙ bind-some _ (ap (λ d. write_context d caller fields s₁) q ∙ wrote),
        Applied-write applied t,
        has,
      )
  apply-Outcome (Opt.rev_trace line) ok =
      let (y, s', made, appended) = append-Appended spare s line (trace_of e) h.trace in
      (
        record e { parts = record e.parts { reverse_trace = some y } },
        s',
        bind-some _ made,
        record {
          kind = refl;
          message = refl;
          cause = refl;
          origin = refl;
          trace = appended.shows;
          sound = record {
            details = rw appended.details h.details;
            context = rw appended.contexts h.context;
            trace = appended.holds;
          };
          others = appended.others;
        },
        refl,
      )
  apply-Outcome (Opt.stack_trace stack) ok = (
    record e { parts = record e.parts { stack_trace = stack } },
    s,
    refl,
    record {
      kind = refl;
      message = refl;
      cause = refl;
      origin = refl;
      trace = sym (append-nil _);
      sound = record { details = h.details; context = h.context; trace = h.trace };
      others = λ z hz w. (refl, hz, w);
    },
    refl,
  )

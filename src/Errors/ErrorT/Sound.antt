-- ===== src/Errors/ErrorT/Sound.antt =====
-- When an error and its references are sound, and what it means that options were applied to it.
use garlic.Common.{
  ℕ, String, ◌≡◌, refl, ◌∙◌, ap, Bool, true, false, Option, none, some, List, [], ◌∷◌, ◌++◌, length,
  ◌&&◌, sym,
}
use mathlib.Core.List.{append-nil, append_assoc}
use garlic.Errors.Store.{Store, Slice, read_slice}
use garlic.Errors.Store.Laws.{Holds, Within}
use garlic.Errors.Store.Tables.{Below, TablesOnly, Below-le, read_slice_same, Holds-same}
use garlic.Errors.ErrorT.{ErrorT, Opt}

abbrev pub trace_of : ErrorT → Option Slice
trace_of e = e.parts.reverse_trace

abbrev pub is_some {ℓ} : {A : Type ℓ} → Option A → Bool
is_some none = false
is_some (some _) = true

-- The maps and the trace that the error points to are in the store.
pub record IsSound (s : Store) (e : ErrorT) : Type 0 where
  pub details : Below (length s.details) e.parts.details
  pub context : Below (length s.contexts) e.parts.context
  pub trace : Holds s (trace_of e)

-- The trace lines that options add.
abbrev pub lines : List Opt → List String
lines [] = []
lines (Opt.rev_trace line ∷ opts) = line ∷ lines opts
lines (Opt.hint _ ∷ opts) = lines opts
lines (Opt.details _ ∷ opts) = lines opts
lines (Opt.context _ _ ∷ opts) = lines opts
lines (Opt.stack_trace _ ∷ opts) = lines opts

-- Whether no hint meets a nil detail map; `has_map` says whether the map is there at first.
abbrev pub allowed : Bool → List Opt → Bool
allowed has_map [] = true
allowed has_map (Opt.hint _ ∷ opts) = has_map && allowed has_map opts
allowed has_map (Opt.details _ ∷ opts) = allowed true opts
allowed has_map (Opt.rev_trace _ ∷ opts) = allowed has_map opts
allowed has_map (Opt.context _ _ ∷ opts) = allowed has_map opts
allowed has_map (Opt.stack_trace _ ∷ opts) = allowed has_map opts

-- What options that add `added` do: they keep the error's kind, message, cause and origin and every
-- trace that ends before the error's own, and they add exactly those lines to its trace.
pub record Applied (s : Store) (e : ErrorT) (added : List String) (e' : ErrorT) (s' : Store)
    : Type 0 where
  pub kind : e'.kind ≡ e.kind
  pub message : e'.message ≡ e.message
  pub cause : e'.cause ≡ e.cause
  pub origin : e'.origin ≡ e.origin
  pub trace : read_slice s' (trace_of e') ≡ read_slice s (trace_of e) ++ added
  pub sound : IsSound s' e'
  pub others :
      (z : Option Slice)
      → Holds s z
      → Within z (trace_of e)
      → (read_slice s' z ≡ read_slice s z) × Holds s' z × Within z (trace_of e')

pub Applied-refl : {s : Store} {e : ErrorT} → IsSound s e → Applied s e [] e s
Applied-refl h = record {
  kind = refl;
  message = refl;
  cause = refl;
  origin = refl;
  trace = sym (append-nil _);
  sound = h;
  others = λ z hz w. (refl, hz, w);
}

pub Applied-trans :
    {s t u : Store} {e f g : ErrorT} {xs ys : List String}
    → Applied s e xs f t
    → Applied t f ys g u
    → Applied s e (xs ++ ys) g u
Applied-trans {xs} {ys} a b = record {
  kind = b.kind ∙ a.kind;
  message = b.message ∙ a.message;
  cause = b.cause ∙ a.cause;
  origin = b.origin ∙ a.origin;
  trace = b.trace ∙ ap (λ t. t ++ ys) a.trace ∙ append_assoc _ xs ys;
  sound = b.sound;
  others = λ z hz w.
      let (same, hz', w') = a.others z hz w in
      let (same', hz'', w'') = b.others z hz' w' in (same' ∙ same, hz'', w'');
}

-- Only maps changed, and the references of the error are still good.
pub Applied-tables :
    {s s' : Store} {e : ErrorT} (details context : Option ℕ)
    → IsSound s e
    → TablesOnly s s'
    → Below (length s'.details) details
    → Below (length s'.contexts) context
    → Applied s e []
        (record e { parts = record e.parts { details = details; context = context } })
        s'
Applied-tables {e} details context h t d c = record {
  kind = refl;
  message = refl;
  cause = refl;
  origin = refl;
  trace = read_slice_same (trace_of e) t ∙ sym (append-nil _);
  sound = record { details = d; context = c; trace = Holds-same (trace_of e) t h.trace };
  others = λ z hz w. (read_slice_same z t, Holds-same z t hz, w);
}

-- Writes to a map of the error leave the error as it is.
pub Applied-write :
    {s t u : Store} {e e' : ErrorT} → Applied s e [] e' t → TablesOnly t u → Applied s e [] e' u
Applied-write {e'} a w = Applied-trans a (
    Applied-tables e'.parts.details e'.parts.context a.sound w
      (Below-le _ _ e'.parts.details a.sound.details w.details)
      (Below-le _ _ e'.parts.context a.sound.context w.contexts))

-- ===== src/Errors/Tests.antt =====
-- Concrete errors, kinds and registries of the package errors, and what its theorems say of them.
use mathlib.Core.List.{Permᴰ}
use mathlib.Core.List.Permᴰ
use garlic.Common.{
  String, ℕ, ◌≡◌, refl, ◌↔◌, true, ◌||◌, Option, none, some, List, [], ◌∷◌, ◌++◌, arith, insert,
  lookup, All,
}
use garlic.Errors.Kind.{Kind, child, label, status_code, is}
use garlic.Errors.Kind.Laws.{SameButStatus-refl}
use garlic.Errors.Primitive.{declared, kind_user_error, kind_system_error}
use garlic.Errors.Registry.{Registry, empty, ok, register, lookup_by_code}
use garlic.Errors.Registry.Laws.{Finds, Registrable, register-eq-ok_iff}
use garlic.Errors.Set.{Field}
use garlic.Errors.Store.{text}
use garlic.Errors.Catalog.{startup, secondary_kinds}
use garlic.Errors.Catalog.Laws.{catalog, startup-Finds}
use garlic.Errors.Store.{Store, fresh, Slice, read_slice}
use garlic.Errors.Store.Tables.{TablesOnly}
use garlic.Errors.ErrorT.{
  Err, nil, plain, ErrorT, Opt, as_error, as_garlic, is_nil, no_parts, propagate_as,
}
use garlic.Errors.ErrorT.Sound.{IsSound, lines, trace_of}
use garlic.Errors.ErrorT.Builders.{Propagated, propagate_as-Propagated, propagate_as_panics}
use garlic.Errors.ErrorT.Aliasing.{second_propagation_overwrites}
use garlic.Errors.Chain.{is_kind, origin_code_of}
use garlic.Errors.Chain.Laws.{InChain, is_kind_iff, propagate_as_answers}
use garlic.Errors.Dto.{error_dto, decode_for}
use garlic.Errors.Dto.Laws.{decode_for-error_dto}

abbrev spare : ℕ → ℕ
spare n = n

abbrev missing : Kind
missing = child (declared "MissingError" "T00001" "Nothing is there." 404) kind_user_error

-- An error with one line in a trace that has room for another.
abbrev looked_up : ErrorT
looked_up = record {
  kind = missing;
  message = "no such user";
  cause = nil;
  origin = nil;
  parts = record no_parts { reverse_trace = some (record { array = 0; len = 1 }) };
}

abbrev traced : Store
traced = record fresh { arrays = ("find.go:7" ∷ "" ∷ []) ∷ [] }

looked_up-IsSound : IsSound traced looked_up
looked_up-IsSound = record {
  details = tt;
  context = tt;
  trace = ("find.go:7" ∷ "" ∷ [], refl, omega arith);
}

abbrev both : List Kind
both = missing ∷ kind_user_error ∷ []

both-register : (register both empty).0 ≡ ok tt
unfolding register lookup insert
both-register = refl

swapped : Permᴰ both (kind_user_error ∷ missing ∷ [])
swapped = Permᴰ.swap refl refl

register-eq-ok_example : ((register both empty).0 ≡ ok tt) ↔ Registrable empty both
register-eq-ok_example = register-eq-ok_iff both empty

startup-Finds_example :
    ((startup secondary_kinds).0 ≡ ok tt)
    × All (Finds (startup secondary_kinds).1) (catalog secondary_kinds)
startup-Finds_example = startup-Finds secondary_kinds (Permᴰ.refl secondary_kinds)

abbrev shown_line : Option Slice
shown_line = some (record { array = 0; len = 1 })

propagate_as_example :
    (e : ErrorT) × (s' : Store) × (propagate_as spare kind_system_error
        (as_error looked_up)
        "load"
        (Opt.stack_trace "main" ∷ [])
        "load.go:3"
        traced
      ≡ some (as_error e, s'))
    × Propagated traced kind_system_error
        (as_error looked_up)
        "load"
        (lines (Opt.stack_trace "main" ∷ []) ++ "load.go:3" ∷ [])
        e
        s'
unfolding is_nil as_garlic
propagate_as_example =
    propagate_as-Propagated spare kind_system_error (as_error looked_up) "load" traced refl
      looked_up-IsSound (Opt.stack_trace "main" ∷ []) "load.go:3" refl

propagate_as_panics_example :
    propagate_as spare kind_system_error
      (as_error looked_up)
      "load"
      (Opt.hint "retry" ∷ [])
      "load.go:3"
      traced
    ≡ none
unfolding is_nil as_garlic
propagate_as_panics_example =
    propagate_as_panics spare kind_system_error (as_error looked_up) "load" traced refl
      looked_up-IsSound (Opt.hint "retry" ∷ []) "load.go:3" refl

second_propagation_example :
    (e₁ : ErrorT) × (s₁ : Store) × (e₂ : ErrorT) × (s₂ : Store) × (propagate_as spare
        kind_system_error
        (as_error looked_up)
        "load"
        []
        "load.go:3"
        traced
      ≡ some (as_error e₁, s₁))
    × (propagate_as spare kind_system_error (as_error looked_up) "load" [] "save.go:9" s₁
        ≡ some (as_error e₂, s₂))
    × (read_slice s₁ (trace_of e₁) ≡ "find.go:7" ∷ "load.go:3" ∷ [])
    × (read_slice s₂ (trace_of e₁) ≡ "find.go:7" ∷ "save.go:9" ∷ [])
unfolding is_nil as_garlic
second_propagation_example =
    second_propagation_overwrites spare kind_system_error (as_error looked_up) "load" refl
      (record { array = 0; len = 1 }) refl traced ("find.go:7" ∷ "" ∷ []) "load.go:3" "save.go:9"
      looked_up-IsSound refl (omega arith)

is_kind_example :
    (is_kind (as_error looked_up) kind_user_error ≡ true)
    ↔ ((e : ErrorT) × InChain e (as_error looked_up) × (is e.kind kind_user_error ≡ true))
is_kind_example = is_kind_iff (as_error looked_up) kind_user_error

propagate_as_answers_example :
    (r : Err) × (s' : Store) × (propagate_as spare kind_system_error
        (plain "EOF")
        "load"
        []
        "load.go:3"
        traced
      ≡ some (r, s'))
    × ((other : Kind)
        → is_kind r other ≡ (is kind_system_error other || is_kind (plain "EOF") other))
    × (origin_code_of r ≡ origin_code_of (plain "EOF"))
unfolding is_nil as_garlic
propagate_as_answers_example =
    propagate_as_answers spare kind_system_error (plain "EOF") "load" traced [] "load.go:3" refl tt
      refl

abbrev known : Registry
known = record { codes = ("T00001", missing) ∷ []; names = ("MissingError", missing) ∷ [] }

missing-known : lookup_by_code (label looked_up.kind).code known ≡ some missing
unfolding lookup_by_code lookup
missing-known = refl

decode_for_example :
    (e' : ErrorT) × (s' : Store) × (decode_for known (error_dto looked_up) 404 traced
      ≡ some (some e', s'))
    × (error_dto e' ≡ error_dto looked_up)
    × (status_code e'.kind ≡ 404)
    × TablesOnly traced s'
decode_for_example =
    decode_for-error_dto known looked_up missing 404 traced missing-known
      (SameButStatus-refl missing)

abbrev user_field : String → Field
user_field name = record { key = "user"; value = text name }

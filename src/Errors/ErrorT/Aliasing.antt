-- ===== src/Errors/ErrorT/Aliasing.antt =====
-- What two propagations of one error of errors/errors.go share: `wrap` copies the reference to the
-- cause's trace slice, and `append` writes in place while the backing array has room.
use garlic.Common.{
  ℕ, suc, ◌+◌, ◌<◌, ◌≤◌, String, ◌≡◌, refl, ◌∙◌, ap, sym, subst, false, Option, none, some, List,
  [], ◌∷◌, ◌++◌, arith, length, get_elem?, set, take, length-set, get_elem?-set_self,
  lt-length_of_get_elem?,
}
use garlic.Errors.Kind.{Kind}
use garlic.Errors.Store.{Store, Slice, read_slice, append, bind-some}
use garlic.Errors.Store.Tables.{Below-le}
use garlic.Errors.Store.Laws.{Holds, append_in_place, read_slice-some, take-set_le, take-set-suc}
use garlic.Errors.ErrorT.{
  Err, ErrorT, Opt, as_error, as_garlic, is_nil, apply, with_opts, propagate_as,
}
use garlic.Errors.ErrorT.Sound.{trace_of}
use garlic.Errors.ErrorT.Builders.{from_start, wrapped}
use garlic.Errors.ErrorT.Wrap.{IsSoundErr, err_trace}

IsSoundErr-after :
    (o : Option ErrorT) (s s' : Store)
    → IsSoundErr s o
    → length s.details ≤ length s'.details
    → length s.contexts ≤ length s'.contexts
    → Holds s' (err_trace o)
    → IsSoundErr s' o
IsSoundErr-after none s s' h d c t = tt
IsSoundErr-after (some o) s s' h d c t = record {
  details = Below-le _ _ o.parts.details h.details d;
  context = Below-le _ _ o.parts.context h.context c;
  trace = t;
}

-- A slice grown by one shows the line that was written behind it.
read_written :
    (s : Store) (x : Slice) (a : List String) (line : String)
    → get_elem? s.arrays x.array ≡ some (set a x.len line)
    → x.len < length a
    → read_slice s (some (record x { len = x.len + 1 })) ≡ take x.len a ++ line ∷ []
read_written s x a line stored room =
    let next : x.len + 1 ≡ suc x.len = omega arith in
    read_slice-some s (record x { len = x.len + 1 }) (set a x.len line) stored
    ∙ ap (λ n. take n (set a x.len line)) next
    ∙ take-set-suc x.len line a room

take-set-set :
    (n : ℕ) (a : List String) (line₁ line₂ : String)
    → n < length a
    → take n (set a n line₁) ++ line₂ ∷ [] ≡ take n a ++ line₂ ∷ []
take-set-set n a line₁ line₂ room = rw (take-set_le n n line₁ a (omega arith))

module _ (spare : ℕ → ℕ) (kind : Kind) (err : Err) (message : String) (there : is_nil err ≡ false)
    (x : Slice) (is_trace : err_trace (as_garlic err) ≡ some x) where
  -- A propagation whose line fits behind the cause's trace writes it there.
  propagate_in_place :
      (s : Store) (a : List String) (line : String)
      → IsSoundErr s (as_garlic err)
      → get_elem? s.arrays x.array ≡ some a
      → x.len < length a
      → (e : ErrorT) × (s' : Store) × (propagate_as spare kind err message [] line s
          ≡ some (as_error e, s'))
        × (trace_of e ≡ some (record x { len = x.len + 1 }))
        × (get_elem? s'.arrays x.array ≡ some (set a x.len line))
        × IsSoundErr s' (as_garlic err)
  unfolding propagate_as with_opts apply
  propagate_in_place s a line h stored room =
      let (n, s₀, p, start) =
        from_start spare kind err message s there h (Opt.rev_trace line ∷ []) in
      let w = wrapped spare kind err message s there h n in
      let x' : Slice = record x { len = x.len + 1 } in
      let stored₀ : get_elem? s₀.arrays x.array ≡ some a = rw p.tables.arrays stored in
      let made =
        ap (λ t. append spare t line s₀) (p.trace ∙ is_trace)
        ∙ append_in_place spare s₀ line x a stored₀ room in
      let s' : Store = record s₀ { arrays = set s₀.arrays x.array (set a x.len line) } in
      let written =
        get_elem?-set_self s₀.arrays x.array (set a x.len line)
          (lt-length_of_get_elem? s₀.arrays x.array a stored₀) in
      let holds : Holds s' (some x) =
        (set a x.len line, written, omega (arith, length-set a x.len line)) in
      (
        record w { parts = record w.parts { reverse_trace = some x' } },
        s',
        rw there (start ∙ bind-some _ (bind-some _ (bind-some _ made))),
        refl,
        written,
        IsSoundErr-after (as_garlic err) s s' h p.tables.details p.tables.contexts
            (subst (Holds s') (sym is_trace) holds),
      )

  -- Two propagations of one error whose trace has room in its backing array write their lines to
  -- the same place: the first result then shows the second's line, and its own is lost.
  pub second_propagation_overwrites :
      (s : Store) (a : List String) (line₁ line₂ : String)
      → IsSoundErr s (as_garlic err)
      → get_elem? s.arrays x.array ≡ some a
      → x.len < length a
      → (e₁ : ErrorT) × (s₁ : Store) × (e₂ : ErrorT) × (s₂ : Store) × (propagate_as spare kind err
            message [] line₁ s
          ≡ some (as_error e₁, s₁))
        × (propagate_as spare kind err message [] line₂ s₁ ≡ some (as_error e₂, s₂))
        × (read_slice s₁ (trace_of e₁) ≡ take x.len a ++ line₁ ∷ [])
        × (read_slice s₂ (trace_of e₁) ≡ take x.len a ++ line₂ ∷ [])
  second_propagation_overwrites s a line₁ line₂ h stored room =
      let (e₁, s₁, made₁, trace₁, stored₁, h₁) = propagate_in_place s a line₁ h stored room in
      let b = set a x.len line₁ in
      let room₂ : x.len < length b = omega (arith, length-set a x.len line₁) in
      let (e₂, s₂, made₂, trace₂, stored₂, h₂) = propagate_in_place s₁ b line₂ h₁ stored₁ room₂ in
      (
        e₁,
        s₁,
        e₂,
        s₂,
        made₁,
        made₂,
        ap (read_slice s₁) trace₁ ∙ read_written s₁ x a line₁ stored₁ room,
        ap (read_slice s₂) trace₁
            ∙ read_written s₂ x b line₂ stored₂ room₂
            ∙ take-set-set x.len a line₁ line₂ room,
      )

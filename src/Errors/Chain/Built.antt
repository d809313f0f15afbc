-- ===== src/Errors/Chain/Built.antt =====
-- What an error that `New` of errors/errors.go built answers.
use garlic.Common.{refl, some, ℕ, String, ◌≡◌, ◌∙◌, ap, true, List, [], ◌∷◌, ◌++◌, arith, eq_refl}
use garlic.Errors.Kind.{Kind, is, root, child}
use garlic.Errors.Store.{Store, bind-some}
use garlic.Errors.ErrorT.{Err, nil, Opt, ErrorT, as_error, new, raw}
use garlic.Errors.ErrorT.Sound.{allowed}
use garlic.Errors.ErrorT.Options.{with_opts-Applied}
use garlic.Errors.ErrorT.Builders.{new_error_t_lem}
use garlic.Errors.Chain.{as_kind, is_kind}

-- An error built by `New` has the given kind and no cause.
pub new-made :
    (spare : ℕ → ℕ) (kind : Kind) (message : String) (opts : List Opt) (line : String) (s : Store)
    → allowed true (opts ++ Opt.rev_trace line ∷ []) ≡ true
    → (e : ErrorT) × (s' : Store) × (new spare kind message opts line s ≡ some (e, s'))
      × (e.kind ≡ kind)
      × (e.cause ≡ nil)
unfolding new raw
new-made spare kind message opts line s ok =
    let (a, s₀, made, fits, t) = new_error_t_lem kind message nil s in
    let (e, s', done, applied) =
      with_opts-Applied spare (opts ++ Opt.rev_trace line ∷ []) s₀ _
        (record { details = fits; context = tt; trace = tt }) ok in
    (e, s', bind-some _ made ∙ done, applied.kind, applied.cause)

pub is_kind-single :
    (e : ErrorT) (other : Kind) → e.cause ≡ nil → is_kind (as_error e) other ≡ is e.kind other
unfolding is_kind as_kind
is_kind-single e other q = ground (arith, ap (λ (x : Err). as_kind x other) q)

pub is_self : (k : Kind) → is k k ≡ true
unfolding is
is_self (root l) = eq_refl l.code
is_self (child l p) = rw (eq_refl l.code) refl

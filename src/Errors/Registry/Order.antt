-- ===== src/Errors/Registry/Order.antt =====
-- The order of the kinds of a registration does not decide whether it returns.
use mathlib.Core.Path.{subst}
use mathlib.Core.List.{Permᴰ}
use garlic.Common.{◌≡◌, sym, List, ◌∷◌, All-perm}
use garlic.Errors.Kind.{Kind}
use garlic.Errors.Registry.{Registry, ok, register}
use garlic.Errors.Registry.Laws.{Registrable, Differs, register-eq-ok_iff}

module _ (r : Registry) where
  Registrable-swap :
      (k j : Kind) (ks : List Kind) → Registrable r (k ∷ j ∷ ks) → Registrable r (j ∷ k ∷ ks)
  Registrable-swap k j ks (free_k, ((c, n), k_apart), (free_j, j_apart, rest)) =
      (free_j, ((λ e. c (sym e), λ e. n (sym e)), j_apart), (free_k, k_apart, rest))

  Registrable-perm : {xs ys : List Kind} → Permᴰ xs ys → Registrable r xs → Registrable r ys
  Registrable-perm Permᴰ.nil h = tt
  Registrable-perm (Permᴰ.cons {a} {l₂} e p) (free, apart, rest) =
      subst (λ (k : Kind). Registrable r (k ∷ l₂)) e
        (free, All-perm (Differs a) p apart, Registrable-perm p rest)
  Registrable-perm (Permᴰ.swap {a} {b} {a' = j} {l} e f) h =
      subst (λ (x : Kind). Registrable r (j ∷ x ∷ l)) e
        (subst (λ (x : Kind). Registrable r (x ∷ a ∷ l)) f (Registrable-swap a b l h))
  Registrable-perm (Permᴰ.trans p q) h = Registrable-perm q (Registrable-perm p h)

-- If a registration returns, so does one of the same kinds in any other order.
pub register-perm :
    {xs ys : List Kind} (r : Registry)
    → Permᴰ xs ys
    → (register xs r).0 ≡ ok tt
    → (register ys r).0 ≡ ok tt
register-perm {xs} {ys} r p h =
    (register-eq-ok_iff ys r).1 (Registrable-perm r p ((register-eq-ok_iff xs r).0 h))

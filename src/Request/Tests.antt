-- ===== src/Request/Tests.antt =====
-- Concrete parameters, and what the theorems of request/requests.go say of them.
use garlic.Common.{subst, ℕ, String, ◌≡◌, refl, ◌⊎◌, inl, inr, atoi, digits, unsigned, in_range}
use garlic.Errors.Store.{fresh}
use garlic.Errors.ErrorT.{Err, plain, is_nil, as_garlic}
use garlic.Request.{parse_param_pagination}
use garlic.Request.Answers.{IsForeign}
use garlic.Request.Laws.{number, other, parse_param_pagination_lem}

abbrev spare : ℕ → ℕ
spare n = n

parse_param_pagination_example : parse_param_pagination "5000" "many" ≡ (1000, 0)
unfolding atoi unsigned digits in_range
parse_param_pagination_example = parse_param_pagination_lem "5000" "many" 5000 0 number other

abbrev num_error : String → Err
num_error raw = plain "invalid syntax"

invalid_syntax : IsForeign fresh (plain "invalid syntax")
unfolding is_nil as_garlic
invalid_syntax = record { there = refl; sound = tt; mapped = refl }

abbrev parse_uuid : String → Err ⊎ ℕ
parse_uuid raw = inl (plain "invalid syntax")

invalid_for : (err : Err) → parse_uuid "" ≡ inl err → IsForeign fresh err
invalid_for err e =
    let same : plain "invalid syntax" ≡ err = cc in subst (IsForeign fresh) same invalid_syntax

abbrev unescaped : String → Err ⊎ String
unescaped raw = inr "a b"

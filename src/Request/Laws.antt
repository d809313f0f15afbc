-- ===== src/Request/Laws.antt =====
-- What the parsers of request/requests.go accept, and what they return of the rest.
use garlic.Common.{
  sym, subst, ℕ, String, ◌≡◌, refl, ◌∙◌, ap, Bool, true, false, Option, none, some, List, [], ◌∷◌,
  arith, ltb, str_eq, if◌then◌else◌, Parsed, natural, negative, invalid, atoi, min, Bool-cases, ◌⊎◌,
  inl, inr,
}
use garlic.Errors.Store.{Store}
use garlic.Errors.ErrorT.{Err}
use garlic.Request.Answers.{
  IsForeign, Answers, good, absent-Answers, checked-Answers, checked-means,
}
use garlic.Request.{
  non_negative, parse_param_pagination, parse_bool, member, true_texts, false_texts,
  parse_optional_param_bool, parse_param_uuid, parse_optional_param_uuid, parse_resource_uuid,
}

-- The number that a text counts as in a pagination: zero if it is none or negative.
pub data CountsAs : Parsed → ℕ → Type 0 where
  number : {n : ℕ} → CountsAs (natural n) n
  below : {n : ℕ} → CountsAs (negative n) 0
  other : CountsAs invalid 0

non_negative-CountsAs : (p : Parsed) (n : ℕ) → CountsAs p n → non_negative p ≡ n
unfolding non_negative
non_negative-CountsAs p n number = refl
non_negative-CountsAs p n below = refl
non_negative-CountsAs p n other = refl

cut : (n : ℕ) → (if ltb 1000 n then 1000 else n) ≡ min n 1000
cut n = ground arith

-- A pagination has the numbers that its texts count as, the limit cut at 1000.
pub parse_param_pagination_lem :
    (raw_limit raw_start : String) (limit start : ℕ)
    → CountsAs (atoi raw_limit) limit
    → CountsAs (atoi raw_start) start
    → parse_param_pagination raw_limit raw_start ≡ (min limit 1000, start)
unfolding parse_param_pagination
parse_param_pagination_lem raw_limit raw_start limit start a b =
    let e = non_negative-CountsAs (atoi raw_limit) limit a in
    let f = non_negative-CountsAs (atoi raw_start) start b in
    rw (e, f, parse_param_pagination) (ap (λ n. (n, start)) (cut limit))

neither :
    {x err : Err} (p q : Bool)
    → (if p then inr true else if q then inr false else inl x) ≡ inl err
    → x ≡ err
neither true q h = cc
neither false true h = cc
neither false false h = cc

-- A required parameter: nothing where it is empty, else what it is parsed to.
abbrev pub required {ℓ} : {A : Type ℓ} → String → Option A → Option A
required raw parsed = if str_eq raw "" then none else parsed

-- An optional one: the given default where it is empty.
abbrev pub optional {ℓ} : {A : Type ℓ} → A → String → Option A → Option A
optional zero raw parsed = if str_eq raw "" then some zero else parsed

-- The texts that a Boolean parameter may have.
abbrev pub spellings : List (String × Bool)
spellings =
    ("1", true)
    ∷ ("t", true)
    ∷ ("T", true)
    ∷ ("true", true)
    ∷ ("TRUE", true)
    ∷ ("True", true)
    ∷ ("0", false)
    ∷ ("f", false)
    ∷ ("F", false)
    ∷ ("false", false)
    ∷ ("FALSE", false)
    ∷ ("False", false)
    ∷ []

abbrev pub spelled : String → List (String × Bool) → Option Bool
spelled raw [] = none
spelled raw ((text, value) ∷ rest) = if str_eq raw text then some value else spelled raw rest

abbrev pairs : Bool → List String → List (String × Bool) → List (String × Bool)
pairs b [] rest = rest
pairs b (text ∷ texts) rest = (text, b) ∷ pairs b texts rest

spelled-pairs :
    (raw : String) (b : Bool) (texts : List String) (rest : List (String × Bool))
    → spelled raw (pairs b texts rest) ≡ (if member raw texts then some b else spelled raw rest)
spelled-pairs raw b [] rest = refl
spelled-pairs raw b (text ∷ texts) rest = elim (Bool-cases (str_eq raw text)) [
  | inl same ↦ rw same refl
  | inr apart ↦ rw apart (spelled-pairs raw b texts rest)
]

good_bool :
    (x : Err) (p q : Bool)
    → good {A = Bool} (if p then inr true else if q then inr false else inl x)
      ≡ (if p then some true else if q then some false else none)
good_bool x true q = refl
good_bool x false true = refl
good_bool x false false = refl

module _ (spare : ℕ → ℕ) (line : String) (s : Store) (param raw : String) where
  -- The three parsers of UUIDs answer with the UUID that the text is parsed to, and an empty text is an
  -- error where the parameter is required and the nil UUID where it is optional.
  parse_uuids_lem :
      {Uuid : Type 0} (nil_uuid : Uuid) (parse_uuid : String → Err ⊎ Uuid)
      → ((err : Err) → parse_uuid raw ≡ inl err → IsForeign s err)
      → Answers s nil_uuid
          (good (parse_uuid raw))
          (parse_resource_uuid spare line nil_uuid parse_uuid param raw s)
        × Answers s nil_uuid
            (required raw (good (parse_uuid raw)))
            (parse_param_uuid spare line nil_uuid parse_uuid param raw s)
        × Answers s nil_uuid
            (optional nil_uuid raw (good (parse_uuid raw)))
            (parse_optional_param_uuid spare line nil_uuid parse_uuid param raw s)
  unfolding parse_resource_uuid parse_param_uuid parse_optional_param_uuid
  parse_uuids_lem nil_uuid parse_uuid f = elim (Bool-cases (str_eq raw "")) [
    | inl empty ↦
        rw (empty, parse_param_uuid, parse_optional_param_uuid)
          (
            checked-Answers spare line s nil_uuid _ _ (parse_uuid raw) f,
            absent-Answers spare line s nil_uuid _ _,
            refl,
          )
    | inr there ↦
        rw (there, parse_param_uuid, parse_optional_param_uuid)
          (
            checked-Answers spare line s nil_uuid _ _ (parse_uuid raw) f,
            checked-Answers spare line s nil_uuid _ _ (parse_uuid raw) f,
            checked-Answers spare line s nil_uuid _ _ (parse_uuid raw) f,
          )
  ]

  good-parse_bool :
      (num_error : String → Err)
      → good (parse_bool spare line num_error raw) ≡ spelled raw spellings
  unfolding parse_bool
  good-parse_bool num_error =
      good_bool (num_error raw) (member raw true_texts) (member raw false_texts)
      ∙ sym (
          spelled-pairs raw true true_texts (pairs false false_texts [])
          ∙ ap (λ o. if member raw true_texts then some true else o)
              (spelled-pairs raw false false_texts []))

  bad_spelling :
      (num_error : String → Err)
      → IsForeign s (num_error raw)
      → (err : Err) → parse_bool spare line num_error raw ≡ inl err
      → IsForeign s err
  unfolding parse_bool
  bad_spelling num_error f err h =
      subst (IsForeign s) (neither (member raw true_texts) (member raw false_texts) h) f

  -- An optional Boolean parameter is false where it is empty, else it has one of twelve spellings, also
  -- other than `true` and `false`; every other text is an error.
  parse_optional_param_bool_lem :
      (num_error : String → Err)
      → IsForeign s (num_error raw)
      → Answers s false
          (optional false raw (spelled raw spellings))
          (parse_optional_param_bool spare line num_error param raw s)
  unfolding parse_optional_param_bool
  parse_optional_param_bool_lem num_error f = elim (Bool-cases (str_eq raw "")) [
    | inl empty ↦ rw (empty, parse_optional_param_bool) refl
    | inr there ↦
        rw (there, parse_optional_param_bool)
          (checked-means spare line s false _ _ (parse_bool spare line num_error raw)
            (spelled raw spellings) (good-parse_bool num_error) (bad_spelling num_error f))
  ]

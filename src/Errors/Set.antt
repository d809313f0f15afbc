-- ===== src/Errors/Set.antt =====
-- errors/field.go, errors/set.go and errors/template.go: the fields that contexts record, sets of them by
-- key, and templates of errors. A redacted text is its bytes.
pub mod Laws
use garlic.Common.{
  ℕ, ◌+◌, ◌-◌, ◌/◌, ◌*◌, String, Option, none, some, List, [], ◌∷◌, ◌++◌, if◌then◌else◌, ltb,
  str_eq, length, take, drop,
}
use garlic.Errors.Kind.{Kind}
use garlic.Errors.Store.{M, Value}
use garlic.Errors.ErrorT.{Err, ErrorT, Opt, new, propagate_as}

pub record Field : Type 0 where
  pub key : String
  pub value : Value

-- `FieldT.Insert`: the field that is there stays.
unfoldable pub merged : Field → Field → Field
merged f other = f

-- `SetT.Insert`
unfoldable pub insert_field : Field → List Field → List Field
insert_field e [] = e ∷ []
insert_field e (existing ∷ rest) =
    let behind = insert_field e rest in
    if str_eq existing.key e.key then merged existing e ∷ rest else existing ∷ behind

-- `SetT.Extend`
unfoldable pub extend : List Field → List Field → List Field
extend [] entries = entries
extend (e ∷ es) entries = extend es (insert_field e entries)

-- `Set`
unfoldable pub new_set : List Field → List Field
new_set entries = extend entries []

-- "****"
abbrev pub redaction_placeholder : List ℕ
redaction_placeholder = 42 ∷ 42 ∷ 42 ∷ 42 ∷ []

unfoldable pub visible_chars : ℕ → ℕ
visible_chars n = if ltb (n / (3 * 2)) 1 then 1 else n / (3 * 2)

-- The value of `RedactedString`.
unfoldable pub redacted : List ℕ → List ℕ
redacted value =
    let visible = visible_chars (length value) in
    if ltb (length value) 5
    then redaction_placeholder
    else take visible value ++ redaction_placeholder ++ drop (length value - visible) value

-- `TemplateT`
pub record ErrorTemplate : Type 0 where
  pub kind : Kind
  pub message : String
  pub opts : List Opt

module _ (spare : ℕ → ℕ) (t : ErrorTemplate) where
  unfoldable pub template_new : List Opt → String → M ErrorT
  template_new opts line = new spare t.kind t.message (t.opts ++ opts) line

  unfoldable pub template_propagate : Err → List Opt → String → M Err
  template_propagate err opts line = propagate_as spare t.kind err t.message (t.opts ++ opts) line

-- ===== src/Errors/Caller/Laws.antt =====
-- Which frame `findCaller` of errors/revtrace.go finds.
use garlic.Common.{
  ℕ, Bool, Option, ◌==◌, ◌||◌, ==_iff, if◌then◌else◌, ◌≡◌, ◌≢◌, refl, ◌∙◌, ap, sym, ◌↔◌, true,
  false, none, some, List, [], ◌∷◌, ◌++◌, All, inl, inr, Option-cases, Bool-cases,
}
use garlic.Errors.Caller.{
  Name, Frame, has_prefix, own_package, before_last_dot, or_empty, Caller, search, find_caller,
}

abbrev pub StartsWith : Name → Name → Type 0
StartsWith name pkg = (rest : Name) × (name ≡ pkg ++ rest)

has_prefix-StartsWith : (name pkg : Name) → has_prefix name pkg ≡ true → StartsWith name pkg
has_prefix-StartsWith name [] h = (name, refl)
has_prefix-StartsWith [] (p ∷ pkg) h = absurd (cc h)
has_prefix-StartsWith (c ∷ name) (p ∷ pkg) h = elim (Bool-cases (c == p)) [
  | inl same ↦
      let (rest, split) = has_prefix-StartsWith name pkg (rw same at h) in
      (rest, cc (split, (==_iff c p).0 same))
  | inr other ↦ absurd (cc (rw other at h))
]

has_prefix-append : (pkg rest : Name) → has_prefix (pkg ++ rest) pkg ≡ true
has_prefix-append [] rest = refl
has_prefix-append (p ∷ pkg) rest = rw ((==_iff p p).1 refl) (has_prefix-append pkg rest)

has_prefix-not :
    (name pkg : Name) → ((rest : Name) → name ≢ pkg ++ rest) → has_prefix name pkg ≡ false
has_prefix-not name pkg outside = elim (Bool-cases (has_prefix name pkg)) [
  | inl begins ↦
      let (rest, split) = has_prefix-StartsWith name pkg begins in absurd (outside rest split)
  | inr other ↦ other
]

-- The runtime knows no function for the frame, or one whose name starts with the package.
pub data IsPassed (pkg : Name) (frame : Frame) : Type 0 where
  unknown : frame.fn ≡ none → IsPassed pkg frame
  inside : (name : Name) → frame.fn ≡ some name → StartsWith name pkg → IsPassed pkg frame

-- The first frame that is not passed.
pub record IsFirst (pkg : Name) (frames : List Frame) (caller : Caller) : Type 0 where
  pub before : List Frame
  pub frame : Frame
  pub after : List Frame
  pub split : frames ≡ before ++ frame ∷ after
  pub passed : All (IsPassed pkg) before
  pub known : frame.fn ≡ some caller.name
  pub outside : (rest : Name) → caller.name ≢ pkg ++ rest
  pub file : frame.file ≡ caller.file
  pub line : frame.line ≡ caller.line

IsFirst-cons :
    {pkg : Name} {frames : List Frame} {caller : Caller} (frame : Frame)
    → IsPassed pkg frame
    → IsFirst pkg frames caller
    → IsFirst pkg (frame ∷ frames) caller
IsFirst-cons frame passed first = record {
  before = frame ∷ first.before;
  frame = first.frame;
  after = first.after;
  split = ap (λ fs. frame ∷ fs) first.split;
  passed = (passed, first.passed);
  known = first.known;
  outside = first.outside;
  file = first.file;
  line = first.line;
}

search-IsFirst :
    (pkg : Name) (frames : List Frame) (caller : Caller)
    → search pkg frames ≡ some caller
    → IsFirst pkg frames caller
unfolding search
search-IsFirst pkg [] caller found = absurd (cc found)
search-IsFirst pkg (frame ∷ frames) caller found = elim (Option-cases frame.fn) [
  | inl nameless ↦
      IsFirst-cons frame (unknown nameless)
        (search-IsFirst pkg frames caller (rw (nameless, search) at found))
  | inr (name, named) ↦ elim (Bool-cases (has_prefix name pkg)) [
    | inl same ↦
        IsFirst-cons frame (inside name named (has_prefix-StartsWith name pkg same))
          (search-IsFirst pkg frames caller (rw (named, search, same) at found))
    | inr other ↦
        let here : record { file = frame.file; line = frame.line; name = name } ≡ caller =
          let made = rw (named, search, other) at found in cc made in
        record {
          before = [];
          frame = frame;
          after = frames;
          split = refl;
          passed = tt;
          known = named ∙ ap (λ (c : Caller). some c.name) here;
          outside = λ rest split. cc (
            ap (λ (c : Caller). has_prefix c.name pkg) (sym here) ∙ other,
            ap (λ n. has_prefix n pkg) split,
            has_prefix-append pkg rest,
          );
          file = ap (λ (c : Caller). c.file) here;
          line = ap (λ (c : Caller). c.line) here;
        }
  ]
]

search-passed :
    (pkg : Name) (before after : List Frame)
    → All (IsPassed pkg) before
    → search pkg (before ++ after) ≡ search pkg after
unfolding search
search-passed pkg [] after h = refl
search-passed pkg (frame ∷ before) after (unknown nameless, h) =
    rw (nameless, search) (search-passed pkg before after h)
search-passed pkg (frame ∷ before) after (inside name named (rest, split), h) =
    let same : has_prefix name pkg ≡ true =
      ap (λ n. has_prefix n pkg) split ∙ has_prefix-append pkg rest in
    rw (named, search, same) (search-passed pkg before after h)

abbrev pub has_dot : Name → Bool
has_dot [] = false
has_dot (c ∷ s) = (c == b'.') || has_dot s

-- What stands before the last dot of a function's name, nothing where it has no dot.
pub data IsPackage (name pkg : Name) : Type 0 where
  before_dot : (rest : Name) → name ≡ pkg ++ b'.' ∷ rest → has_dot rest ≡ false → IsPackage name pkg
  no_dot : has_dot name ≡ false → pkg ≡ [] → IsPackage name pkg

-- The package of the first frame; none where there is no frame or no function is known.
pub data IsOwn (frames : List Frame) (pkg : Name) : Type 0 where
  no_frame : frames ≡ [] → pkg ≡ [] → IsOwn frames pkg
  no_function :
      (frame : Frame) (others : List Frame)
      → frames ≡ frame ∷ others
      → frame.fn ≡ none
      → pkg ≡ []
      → IsOwn frames pkg
  named :
      (frame : Frame) (others : List Frame) (name : Name)
      → frames ≡ frame ∷ others
      → frame.fn ≡ some name
      → IsPackage name pkg
      → IsOwn frames pkg

-- Where the last dot is, if there is one.
LastDot : Name → Option Name → Type 0
LastDot name none = has_dot name ≡ false
LastDot name (some start) = (rest : Name) × (name ≡ start ++ b'.' ∷ rest) × (has_dot rest ≡ false)

LastDot-cons :
    (c : ℕ) (s : Name) (found : Option Name)
    → LastDot s found
    → LastDot
        (c ∷ s)
        (elim found [ some start ↦ some (c ∷ start) | none ↦ if c == b'.' then some [] else none ])
unfolding LastDot
LastDot-cons c s (some start) (rest, split, plain) = (rest, ap (λ t. c ∷ t) split, plain)
LastDot-cons c s none plain = elim (Bool-cases (c == b'.')) [
  | inl dot ↦ rw dot (s, ap (λ (d : ℕ). d ∷ s) ((==_iff c b'.').0 dot), plain)
  | inr other ↦ rw other (rw other plain)
]

before_last_dot-LastDot : (name : Name) → LastDot name (before_last_dot name)
unfolding before_last_dot LastDot
before_last_dot-LastDot [] = refl
before_last_dot-LastDot (c ∷ s) = LastDot-cons c s (before_last_dot s) (before_last_dot-LastDot s)

LastDot-IsPackage :
    (name : Name) (found : Option Name) → LastDot name found → IsPackage name (or_empty found)
unfolding LastDot
LastDot-IsPackage name none plain = no_dot plain refl
LastDot-IsPackage name (some start) (rest, split, plain) = before_dot rest split plain

own_package-IsOwn : (frames : List Frame) → IsOwn frames (own_package frames)
unfolding own_package
own_package-IsOwn [] = no_frame refl refl
own_package-IsOwn (frame ∷ others) = elim (Option-cases frame.fn) [
  | inl nameless ↦ no_function frame others refl nameless (rw nameless refl)
  | inr (name, known) ↦
      named frame others name refl known
        (rw known (LastDot-IsPackage name (before_last_dot name) (before_last_dot-LastDot name)))
]

-- `findCaller` finds a frame exactly where it is the first whose function is known and has a name that does
-- not start with `pkg`, and `pkg` is what stands before the last dot in the name of the function that
-- called `findCaller`, or is empty where there is no such name or dot.
pub find_caller_iff :
    (frames : List Frame)
    → (pkg : Name) × IsOwn frames pkg
      × ((caller : Caller) → (find_caller frames ≡ some caller) ↔ IsFirst pkg frames caller)
unfolding find_caller search
find_caller_iff frames = (
  own_package frames,
  own_package-IsOwn frames,
  λ caller. (
    search-IsFirst (own_package frames) frames caller,
    λ first.
        ap (search (own_package frames)) first.split
        ∙ search-passed (own_package frames) first.before (first.frame ∷ first.after) first.passed
        ∙ rw
            (
              first.known,
              search,
              has_prefix-not caller.name (own_package frames) first.outside,
              first.file,
              first.line,
            )
            refl,
  ),
)

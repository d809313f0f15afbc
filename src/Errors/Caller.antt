-- ===== src/Errors/Caller.antt =====
-- errors/revtrace.go: which frame of the stack a trace line names. What runtime.Caller and runtime.FuncForPC give is
-- an argument: the frames from the caller of `findCaller` outwards. Names are their bytes.
pub mod Laws
mod Tests
use garlic.Common.{
  ℕ, Bool, true, false, ◌&&◌, ◌==◌, if◌then◌else◌, Option, none, some, List, [], ◌∷◌,
}

abbrev pub Name : Type 0
Name = List ℕ

-- `fn` is nothing where the runtime knows no function for the frame.
pub record Frame : Type 0 where
  pub file : Name
  pub line : ℕ
  pub fn : Option Name

-- `fullName[:strings.LastIndex(fullName, ".")]`, or nothing where there is no dot.
unfoldable pub before_last_dot : Name → Option Name
before_last_dot [] = none
before_last_dot (c ∷ s) = elim (before_last_dot s) [
  | some start ↦ some (c ∷ start)
  | none ↦ if c == b'.' then some [] else none
]

-- `strings.HasPrefix(name, prefix)`
abbrev pub has_prefix : Name → Name → Bool
has_prefix name [] = true
has_prefix [] (p ∷ prefix) = false
has_prefix (c ∷ name) (p ∷ prefix) = (c == p) && has_prefix name prefix

abbrev pub or_empty : Option Name → Name
or_empty none = []
or_empty (some name) = name

abbrev pub package_of : Option Name → Name
package_of none = []
package_of (some name) = or_empty (before_last_dot name)

-- The package of the function that called `findCaller`.
unfoldable pub own_package : List Frame → Name
own_package [] = []
own_package (frame ∷ frames) = package_of frame.fn

pub record Caller : Type 0 where
  pub file : Name
  pub line : ℕ
  pub name : Name

-- The loop of `findCaller`.
unfoldable pub search : Name → List Frame → Option Caller
search pkg [] = none
search pkg (frame ∷ frames) = elim frame.fn [
  | none ↦ search pkg frames
  | some name ↦ elim (has_prefix name pkg) [
    | true ↦ search pkg frames
    | false ↦ some (record { file = frame.file; line = frame.line; name = name })
  ]
]

unfoldable pub find_caller : List Frame → Option Caller
find_caller frames = search (own_package frames) frames

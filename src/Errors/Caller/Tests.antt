-- ===== src/Errors/Caller/Tests.antt =====
-- Stacks that `findCaller` of errors/revtrace.go walks.
use garlic.Common.{◌≡◌, ◌↔◌, refl, none, some, List, [], ◌∷◌}
use garlic.Errors.Caller.{Frame, Caller, Name, find_caller, own_package, search, before_last_dot}
use garlic.Errors.Caller.Laws.{IsFirst, IsOwn, find_caller_iff}

abbrev frame_of : Name → Frame
frame_of name = record { file = b'f' ∷ []; line = 3; fn = some name }

abbrev propagate_name : Name
propagate_name = b'e' ∷ b'.' ∷ b'P' ∷ []

abbrev extended_name : Name
extended_name = b'e' ∷ b'x' ∷ b'.' ∷ b'D' ∷ []

abbrev main_name : Name
main_name = b'm' ∷ b'.' ∷ b'm' ∷ []

-- A function of the package "ex" calls one of the package "e".
abbrev stack : List Frame
stack =
    frame_of propagate_name
    ∷ (record { file = []; line = 0; fn = none })
    ∷ frame_of extended_name
    ∷ frame_of main_name
    ∷ []

abbrev main_caller : Caller
main_caller = record { file = b'f' ∷ []; line = 3; name = main_name }

-- The caller in "ex" is passed over, since the name of its package starts with "e".
extended_passed : find_caller stack ≡ some main_caller
unfolding find_caller own_package search before_last_dot
extended_passed = refl

find_caller_example :
    (pkg : Name) × IsOwn stack pkg
    × ((caller : Caller) → (find_caller stack ≡ some caller) ↔ IsFirst pkg stack caller)
find_caller_example = find_caller_iff stack

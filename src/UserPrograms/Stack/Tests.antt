-- ===== src/UserPrograms/Stack/Tests.antt =====
-- The stack of a new process on a sample command line.
use cs124_my_pintos.Common.{ℕ, ◌≡◌, refl, some, List, [], ◌∷◌, arith}
use cs124_my_pintos.UserPrograms.Segment.{phys_base}
use cs124_my_pintos.UserPrograms.Stack.{Stack, push_arguments}
use cs124_my_pintos.UserPrograms.Stack.Layout.{IsLaidOut, push_arguments-IsLaidOut}

-- "ls a"
abbrev ls_a : List (List ℕ)
ls_a = (108 ∷ 115 ∷ []) ∷ (97 ∷ []) ∷ []

abbrev blank_stack : Stack
blank_stack = record { esp = phys_base; bytes = λ a. 0 }

push_arguments-IsLaidOut_example :
    (t : Stack) × (push_arguments ls_a blank_stack ≡ some t) × IsLaidOut ls_a t
push_arguments-IsLaidOut_example = push_arguments-IsLaidOut ls_a blank_stack refl (omega arith)

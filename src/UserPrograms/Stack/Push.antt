-- ===== src/UserPrograms/Stack/Push.antt =====
-- Bytes pushed on the stack of `setup_stack` in user-programs/userprog/process.c.
use cs124_my_pintos.Common.{
  ℕ, ◌+◌, ◌-◌, ◌≤◌, ◌<◌, ◌≡◌, refl, ◌∙◌, true, false, ◌&&◌, some, List, arith, ltb, leb,
  if◌then◌else◌, length, get_or,
}
use cs124_my_pintos.UserPrograms.Segment.{pg_size, phys_base}
use cs124_my_pintos.UserPrograms.Stack.{Stack, push}

-- The bytes at an address.
pub IsAt : (bytes : ℕ → ℕ) (a : ℕ) → List ℕ → Type 0
IsAt bytes a bs = (i : ℕ) → i < length bs → bytes (a + i) ≡ get_or bs i 0

-- The second stack is the first one with `n` bytes more below.
pub record Grows (n : ℕ) (s t : Stack) : Type 0 where
  pub esp : t.esp + n ≡ s.esp
  pub kept : (a : ℕ) → s.esp ≤ a → t.bytes a ≡ s.bytes a

pub Grows-trans : (m n : ℕ) (s t u : Stack) → Grows m s t → Grows n t u → Grows (m + n) s u
Grows-trans m n s t u g h =
    let a = g.esp in
    let b = h.esp in record { esp = omega arith; kept = λ x l. h.kept x (omega arith) ∙ g.kept x l }

pub IsAt-Grows :
    (n a : ℕ) (bs : List ℕ) (s t : Stack)
    → Grows n s t
    → s.esp ≤ a
    → IsAt s.bytes a bs
    → IsAt t.bytes a bs
unfolding IsAt
IsAt-Grows n a bs s t g l h i k = g.kept (a + i) (omega arith) ∙ h i k

pub push-Grows :
    (bs : List ℕ) (s : Stack)
    → phys_base - pg_size + length bs ≤ s.esp
    → (t : Stack) × (push bs s ≡ some t) × Grows (length bs) s t × IsAt t.bytes t.esp bs
unfolding push IsAt
push-Grows bs s l =
    let esp = s.esp - length bs in
    let b : ltb esp (phys_base - pg_size) ≡ false = ground arith in
    (
      record {
        esp = esp;
        bytes =
            λ a. if leb esp a && ltb a (esp + length bs) then get_or bs (a - esp) 0 else s.bytes a;
      },
      rw b refl,
      record {
        esp = omega arith;
        kept = λ a h.
            let c : (leb esp a && ltb a (esp + length bs)) ≡ false = ground arith in rw c refl;
      },
      λ i h.
          let c : (leb esp (esp + i) && ltb (esp + i) (esp + length bs)) ≡ true = ground arith in
          let d : esp + i - esp ≡ i = omega arith in rw (c, d) refl,
    )

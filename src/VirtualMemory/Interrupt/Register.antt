-- ===== src/VirtualMemory/Interrupt/Register.antt =====
-- The registration of interrupt handlers.
use cs124_my_pintos.Common.{
  ℕ, ◌≤◌, ◌<◌, ◌≡◌, refl, subst, ap, inl, inr, Option, none, some, arith, leb, if◌then◌else◌,
  Bool-cases, Option-cases, length, get_or, get_or-set_self, ◌&&◌,
}
use cs124_my_pintos.VirtualMemory.Interrupt.{
  IntrLevel, intr_off, Interrupts, is_on, make_intr_gate, make_trap_gate, register_handler,
  intr_register_ext,
}

-- What `register_handler` did.
Registered : (vec_no handler : ℕ) → Interrupts → Interrupts → Type 0
Registered vec_no handler s t =
    (get_or s.intr_handlers vec_no none ≡ none)
    × (get_or t.intr_handlers vec_no none ≡ some handler)

some_inj : {A : Type 0} (a b : A) → Path (Option A) (some a) (some b) → a ≡ b
some_inj a b e = ap (λ o. elim o [ none ↦ a | some x ↦ x ]) e

register_handler-Registered :
    (sel : ℕ) (stubs : ℕ → ℕ) (vec_no dpl : ℕ) (level : IntrLevel) (handler name : ℕ)
    (s t : Interrupts)
    → vec_no < length s.intr_handlers
    → register_handler sel stubs vec_no dpl level handler name s ≡ some t
    → Registered vec_no handler s t
unfolding register_handler Registered
register_handler-Registered sel stubs vec_no dpl level handler name s t l e =
    elim (Option-cases (get_or s.intr_handlers vec_no none)) [
      | inr (h, f) ↦ (let n = rw (register_handler, f) at e in cc)
      | inl f ↦
          elim (Option-cases (
            if is_on level
            then make_trap_gate sel (stubs vec_no) dpl
            else make_intr_gate sel (stubs vec_no) dpl)) [
              | inl g ↦ (let n = rw (register_handler, f, g) at e in cc)
              | inr (gate, g) ↦ (
                f,
                subst (λ t. get_or t.intr_handlers vec_no none ≡ some handler)
                    (some_inj _ _ (rw (register_handler, f, g) at e))
                    (get_or-set_self s.intr_handlers vec_no (some handler) none l),
              )
            ]
    ]

-- For a vector with a place in the table, a registration that `intr_register_ext` accepts is for a
-- vector of the controllers without a handler, sets the handler, and is the last one accepted for
-- that vector.
pub intr_register_ext-once :
    (sel_kcseg : ℕ) (intr_stubs : ℕ → ℕ) (vec_no handler name : ℕ) (s t : Interrupts)
    → vec_no < length s.intr_handlers
    → intr_register_ext sel_kcseg intr_stubs vec_no handler name s ≡ some t
    → (0x20 ≤ vec_no)
      × (vec_no ≤ 0x2f)
      × (get_or s.intr_handlers vec_no none ≡ none)
      × (get_or t.intr_handlers vec_no none ≡ some handler)
      × ((other : ℕ) → intr_register_ext sel_kcseg intr_stubs vec_no other name t ≡ none)
unfolding intr_register_ext register_handler Registered
intr_register_ext-once sel stubs vec_no handler name s t l e =
    elim (Bool-cases (leb 0x20 vec_no && leb vec_no 0x2f)) [
      | inr b ↦ (let n = rw (intr_register_ext, b) at e in cc)
      | inl b ↦
          let (before, after) =
            register_handler-Registered sel stubs vec_no 0 intr_off handler name s t l
              (rw (intr_register_ext, b) at e) in
          (
            ground arith,
            ground arith,
            before,
            after,
            λ other. rw (intr_register_ext, b, register_handler, after) refl,
          )
    ]

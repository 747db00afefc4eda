-- ===== src/VirtualMemory/Interrupt/Laws.antt =====
-- Gates, the interrupt flag and the external interrupts of threads/interrupt.c.
use cs124_my_pintos.Common.{
  ℕ, ◌+◌, ◌*◌, ◌/◌, ◌%◌, ◌^◌, ◌≤◌, ◌<◌, ◌≡◌, refl, ◌∙◌, ◌⊎◌, inl, inr, Bool, true, false, Option,
  none, some, List, [], ◌∷◌, ◌++◌, arith, ◌==◌, ltb, leb, if◌then◌else◌, Bool-cases, Option-cases,
  get_or, append_assoc, ◌||◌, ◌&&◌,
}
use cs124_my_pintos.VirtualMemory.Interrupt.{
  intr_off, intr_on, Event, outb, thread_yield, Interrupts, intr_enable, intr_disable,
  intr_set_level, make_gate, is_off, invoke, complete, pic_end_of_interrupt, intr_handler, emit,
  unexpected_interrupt,
}

-- For a code segment of 16 bits, a function of 32 bits that is not NULL, a level up to 3 and a
-- type up to 15, `make_gate` gives a word of 64 bits in which all four are read back at their
-- places and the present bit is set.
pub make_gate-fields :
    (sel_kcseg function dpl type : ℕ)
    → sel_kcseg < 2 ^ 16
    → 0 < function
    → function < 2 ^ 32
    → dpl ≤ 3
    → type ≤ 15
    → (gate : ℕ) × (make_gate sel_kcseg function dpl type ≡ some gate)
      × (gate < 2 ^ 64)
      × (gate / 2 ^ 48 * 2 ^ 16 + gate % 2 ^ 16 ≡ function)
      × (gate / 2 ^ 16 % 2 ^ 16 ≡ sel_kcseg)
      × (gate / 2 ^ 40 % 16 ≡ type)
      × (gate / 2 ^ 45 % 4 ≡ dpl)
      × (gate / 2 ^ 47 % 2 ≡ 1)
unfolding make_gate
make_gate-fields sel f dpl type h k l m n = (
  (f % 2 ^ 16 + sel * 2 ^ 16)
      + (f / 2 ^ 16 * 2 ^ 16 + 2 ^ 15 + dpl * 2 ^ 13 + type * 2 ^ 8) * 2 ^ 32,
  ground arith,
  omega arith,
  omega arith,
  omega arith,
  omega arith,
  omega arith,
  omega arith,
)

-- Setting a level that `intr_disable` returned puts the interrupt flag back, outside the handlers
-- of external interrupts.
pub intr_set_level-intr_disable :
    (s : Interrupts)
    → s.in_external_intr ≡ false
    → let (old, t) = intr_disable s in intr_set_level old t ≡ some (intr_off, s)
unfolding intr_set_level intr_enable intr_disable
intr_set_level-intr_disable s h = ground arith

-- What a handler of an external interrupt may not do: enable interrupts, or end the context.
unfoldable pub Keeps : (ℕ → ℕ → Interrupts → Option Interrupts) → Type 0
Keeps run =
    (handler vec_no : ℕ) (s : Interrupts)
    → (t : Interrupts) × (run handler vec_no s ≡ some t)
      × (t.level ≡ s.level)
      × (t.in_external_intr ≡ s.in_external_intr)

-- The events that complete an external interrupt `vec_no`.
abbrev pub completion : (vec_no : ℕ) (yields : Bool) → List Event
completion vec_no yields =
    (outb 0x20 0x20 ∷ (if leb 0x28 vec_no then outb 0xa0 0x20 ∷ [] else []))
    ++ (if yields then thread_yield ∷ [] else [])

unexpected_interrupt-keeps :
    (vec_no : ℕ) (s : Interrupts)
    → ((unexpected_interrupt vec_no s).level ≡ s.level)
      × ((unexpected_interrupt vec_no s).in_external_intr ≡ s.in_external_intr)
unfolding unexpected_interrupt
unexpected_interrupt-keeps vec_no s = ground arith

invoke-Keeps :
    (run : ℕ → ℕ → Interrupts → Option Interrupts) (vec_no : ℕ) (s : Interrupts)
    → Keeps run
    → (t : Interrupts) × (invoke run vec_no s ≡ some t)
      × (t.level ≡ s.level)
      × (t.in_external_intr ≡ s.in_external_intr)
unfolding invoke Keeps
invoke-Keeps run vec_no s keeps = elim (Option-cases (get_or s.intr_handlers vec_no none)) [
  | inr (handler, e) ↦ let (t, r, l, m) = keeps handler vec_no s in (t, rw (e, invoke) r, l, m)
  | inl e ↦ elim (Bool-cases ((vec_no == 0x27) || (vec_no == 0x2f))) [
    | inl b ↦ (s, rw (e, b, invoke) refl, refl, refl)
    | inr b ↦ (
      unexpected_interrupt vec_no s,
      rw (e, b, invoke) refl,
      (unexpected_interrupt-keeps vec_no s).0,
      (unexpected_interrupt-keeps vec_no s).1,
    )
  ]
]

complete-events :
    (vec_no : ℕ) (t : Interrupts)
    → 0x20 ≤ vec_no
    → vec_no < 0x30
    → t.level ≡ intr_off
    → t.in_external_intr ≡ true
    → (u : Interrupts) × (complete vec_no t ≡ some u)
      × (u.level ≡ intr_off)
      × (u.in_external_intr ≡ false)
      × (u.events ≡ t.events ++ completion vec_no t.yield_on_return)
unfolding complete pic_end_of_interrupt
complete-events vec_no t h k l m =
    let a : leb 0x20 vec_no ≡ true = ground arith in
    let b : ltb vec_no 0x30 ≡ true = ground arith in
    elim (Bool-cases (leb 0x28 vec_no)) [
      | inl c ↦ elim (Bool-cases t.yield_on_return) [
        | inl y ↦ (
          emit thread_yield (
              emit (outb 0xa0 0x20)
                (emit (outb 0x20 0x20) (record t { in_external_intr = false }))),
          rw (complete, l, m, a, b, c, y) refl,
          l,
          refl,
          rw (c, y) (simp append_assoc),
        )
        | inr y ↦ (
          emit (outb 0xa0 0x20) (emit (outb 0x20 0x20) (record t { in_external_intr = false })),
          rw (complete, l, m, a, b, c, y) refl,
          l,
          refl,
          rw (c, y) (simp append_assoc),
        )
      ]
      | inr c ↦ elim (Bool-cases t.yield_on_return) [
        | inl y ↦ (
          emit thread_yield (emit (outb 0x20 0x20) (record t { in_external_intr = false })),
          rw (complete, l, m, a, b, c, y) refl,
          l,
          refl,
          rw (c, y) (simp append_assoc),
        )
        | inr y ↦ (
          emit (outb 0x20 0x20) (record t { in_external_intr = false }),
          rw (complete, l, m, a, b, c, y) refl,
          l,
          refl,
          rw (c, y) refl,
        )
      ]
    ]

-- An external interrupt that arrives with interrupts off and outside another one is handled; if
-- handlers keep the flag and the context, it is acknowledged once, on the slave too where due, the
-- context ends, and `thread_yield` is called last exactly when the handler asked for it.
pub intr_handler-external :
    (run : ℕ → ℕ → Interrupts → Option Interrupts) (vec_no : ℕ) (s : Interrupts)
    → Keeps run
    → 0x20 ≤ vec_no
    → vec_no < 0x30
    → s.level ≡ intr_off
    → s.in_external_intr ≡ false
    → (t u : Interrupts) × (invoke run vec_no
          (record s { in_external_intr = true; yield_on_return = false })
        ≡ some t)
      × (intr_handler run vec_no s ≡ some u)
      × (u.level ≡ intr_off)
      × (u.in_external_intr ≡ false)
      × (u.events ≡ t.events ++ completion vec_no t.yield_on_return)
unfolding intr_handler
intr_handler-external run vec_no s keeps h k l m =
    let a : leb 0x20 vec_no ≡ true = ground arith in
    let b : ltb vec_no 0x30 ≡ true = ground arith in
    let (t, i, tl, tm) =
      invoke-Keeps run vec_no (record s { in_external_intr = true; yield_on_return = false })
        keeps in
    let (u, c, ul, um, ue) = complete-events vec_no t h k (tl ∙ l) tm in
    (t, u, i, rw (a, b, l, m, i, c) refl, ul, um, ue)

-- External interrupts do not nest: `intr_handler` refuses one that arrives with interrupts on, or
-- during another one.
pub intr_handler-refuses :
    (run : ℕ → ℕ → Interrupts → Option Interrupts) (vec_no : ℕ) (s : Interrupts)
    → 0x20 ≤ vec_no
    → vec_no < 0x30
    → (s.level ≡ intr_on) ⊎ (s.in_external_intr ≡ true)
    → intr_handler run vec_no s ≡ none
unfolding intr_handler
intr_handler-refuses run vec_no s h k (inl e) =
    let a : leb 0x20 vec_no ≡ true = ground arith in
    let b : ltb vec_no 0x30 ≡ true = ground arith in rw (a, b, e) refl
intr_handler-refuses run vec_no s h k (inr e) =
    let a : leb 0x20 vec_no ≡ true = ground arith in
    let b : ltb vec_no 0x30 ≡ true = ground arith in rw (a, b, e) (no_branch _ (is_off s))
  where
    no_branch : {A : Type 0} (x : Option A) (b : Bool) → (if b && false then x else none) ≡ none
    no_branch x true = refl
    no_branch x false = refl

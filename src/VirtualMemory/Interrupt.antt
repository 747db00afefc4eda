-- ===== src/VirtualMemory/Interrupt.antt =====
-- virtual-memory/threads/interrupt.c: the interrupt flag, the handlers and gates of the interrupt
-- descriptor table, and the dispatch of an interrupt. `none` is a failed assertion. Code outside the
-- repository is an event: what is sent to a port, a message, a call of `thread_yield`. Handlers are
-- named by numbers, and `run` is what each does when it is called.
pub mod Laws
pub mod Register
mod Tests
use cs124_my_pintos.Common.{
  ℕ, zero, suc, ◌+◌, ◌-◌, ◌*◌, ◌/◌, ◌%◌, ◌^◌, Bool, true, false, not, ◌&&◌, ◌||◌, Option, none,
  some, List, [], ◌∷◌, ◌++◌, ◌==◌, ltb, leb, if◌then◌else◌, get_or, set, is_some,
}

pub data IntrLevel : Type 0 where
  intr_off : IntrLevel
  intr_on : IntrLevel

pub data Event : Type 0 where
  outb : (port value : ℕ) → Event
  print_unexpected : (vec_no : ℕ) → Event
  thread_yield : Event

-- A gate is a word of 64 bits; a handler that is not registered is `none`, NULL in the code.
pub record Interrupts : Type 0 where
  pub level : IntrLevel
  pub idt : List ℕ
  pub intr_handlers : List (Option ℕ)
  pub intr_names : List ℕ
  pub unexpected_cnt : List ℕ
  pub in_external_intr : Bool
  pub yield_on_return : Bool
  pub events : List Event

abbrev pub is_on : IntrLevel → Bool
is_on intr_off = false
is_on intr_on = true

abbrev pub intr_get_level : Interrupts → IntrLevel
intr_get_level s = s.level

abbrev pub intr_context : Interrupts → Bool
intr_context s = s.in_external_intr

unfoldable pub intr_enable : Interrupts → Option (IntrLevel × Interrupts)
intr_enable s =
    if intr_context s then none else some (intr_get_level s, record s { level = intr_on })

unfoldable pub intr_disable : Interrupts → IntrLevel × Interrupts
intr_disable s = (intr_get_level s, record s { level = intr_off })

unfoldable pub intr_set_level : IntrLevel → Interrupts → Option (IntrLevel × Interrupts)
unfolding intr_enable intr_disable
intr_set_level level s = if is_on level then intr_enable s else some (intr_disable s)

unfoldable pub intr_yield_on_return : Interrupts → Option Interrupts
intr_yield_on_return s = if intr_context s then some (record s { yield_on_return = true }) else none

abbrev pub emit : Event → Interrupts → Interrupts
emit e s = record s { events = s.events ++ (e ∷ []) }

-- `irq < 0x28` is delivered by the master alone.
unfoldable pub pic_end_of_interrupt : ℕ → Interrupts → Option Interrupts
pic_end_of_interrupt irq s =
    if leb 0x20 irq && ltb irq 0x30
    then if leb 0x28 irq
      then some (emit (outb 0xa0 0x20) (emit (outb 0x20 0x20) s))
      else some (emit (outb 0x20 0x20) s)
    else none

module _ (sel_kcseg : ℕ) where
  -- The two words of a gate; the parts that `|` joins have no bits in common, and are added.
  -- `function` is an address of 32 bits, 0 for NULL, and `sel_kcseg` the kernel's code segment.
  unfoldable pub make_gate : (function dpl type : ℕ) → Option ℕ
  make_gate function dpl type =
      let e0 = function % 2 ^ 16 + sel_kcseg * 2 ^ 16 in
      let e1 = function / 2 ^ 16 * 2 ^ 16 + 2 ^ 15 + dpl * 2 ^ 13 + type * 2 ^ 8 in
      if function == 0
      then none
      else if not (leb dpl 3)
      then none
      else if not (leb type 15)
      then none
      else some (e0 + e1 * 2 ^ 32)

  unfoldable pub make_intr_gate : (function dpl : ℕ) → Option ℕ
  unfolding make_gate
  make_intr_gate function dpl = make_gate function dpl 14

  unfoldable pub make_trap_gate : (function dpl : ℕ) → Option ℕ
  unfolding make_gate
  make_trap_gate function dpl = make_gate function dpl 15

  -- `intr_stubs` are the entry points of the assembly stubs.
  unfoldable pub register_handler :
      (intr_stubs : ℕ → ℕ) (vec_no dpl : ℕ)
      → IntrLevel
      → (handler name : ℕ) → Interrupts
      → Option Interrupts
  unfolding make_intr_gate make_trap_gate
  register_handler intr_stubs vec_no dpl level handler name s =
      if is_some (get_or s.intr_handlers vec_no none)
      then none
      else elim (if is_on level
          then make_trap_gate (intr_stubs vec_no) dpl
          else make_intr_gate (intr_stubs vec_no) dpl) [
            | none ↦ none
            | some gate ↦ some (record s {
              idt = set s.idt vec_no gate;
              intr_handlers = set s.intr_handlers vec_no (some handler);
              intr_names = set s.intr_names vec_no name;
            })
          ]

  unfoldable pub intr_register_ext :
      (intr_stubs : ℕ → ℕ) (vec_no handler name : ℕ) → Interrupts → Option Interrupts
  unfolding register_handler
  intr_register_ext intr_stubs vec_no handler name s =
      if leb 0x20 vec_no && leb vec_no 0x2f
      then register_handler intr_stubs vec_no 0 intr_off handler name s
      else none

  unfoldable pub intr_register_int :
      (intr_stubs : ℕ → ℕ) (vec_no dpl : ℕ)
      → IntrLevel
      → (handler name : ℕ) → Interrupts
      → Option Interrupts
  unfolding register_handler
  intr_register_int intr_stubs vec_no dpl level handler name s =
      if ltb vec_no 0x20 || ltb 0x2f vec_no
      then register_handler intr_stubs vec_no dpl level handler name s
      else none

-- `&` on words of `w` bits
unfoldable pub bit_and : (w m n : ℕ) → ℕ
bit_and zero m n = 0
bit_and (suc w) m n = (m % 2) * (n % 2) + 2 * bit_and w (m / 2) (n / 2)

unfoldable pub unexpected_interrupt : (vec_no : ℕ) → Interrupts → Interrupts
unfolding bit_and
unexpected_interrupt vec_no s =
    let n = (get_or s.unexpected_cnt vec_no 0 + 1) % 2 ^ 32 in
    let counted : Interrupts = record s { unexpected_cnt = set s.unexpected_cnt vec_no n } in
    if bit_and 32 n ((n + 2 ^ 32 - 1) % 2 ^ 32) == 0
    then emit (print_unexpected vec_no) counted
    else counted

abbrev pub is_off : Interrupts → Bool
is_off s = not (is_on (intr_get_level s))

-- Calls the handler, if there is one.
unfoldable pub invoke :
    (run : ℕ → (vec_no : ℕ) → Interrupts → Option Interrupts) (vec_no : ℕ)
    → Interrupts
    → Option Interrupts
unfolding unexpected_interrupt
invoke run vec_no s = elim (get_or s.intr_handlers vec_no none) [
  | some handler ↦ run handler vec_no s
  | none ↦
      if (vec_no == 0x27) || (vec_no == 0x2f) then some s else some (unexpected_interrupt vec_no s)
]

-- The end of an external interrupt.
unfoldable pub complete : (vec_no : ℕ) → Interrupts → Option Interrupts
unfolding pic_end_of_interrupt
complete vec_no s =
    if is_off s && intr_context s
    then elim (pic_end_of_interrupt vec_no (record s { in_external_intr = false })) [
      | none ↦ none
      | some t ↦ some (if t.yield_on_return then emit thread_yield t else t)
    ]
    else none

unfoldable pub intr_handler :
    (run : ℕ → (vec_no : ℕ) → Interrupts → Option Interrupts) (vec_no : ℕ)
    → Interrupts
    → Option Interrupts
unfolding invoke complete
intr_handler run vec_no s =
    if leb 0x20 vec_no && ltb vec_no 0x30
    then if is_off s && not (intr_context s)
      then elim (invoke run vec_no
          (record s { in_external_intr = true; yield_on_return = false })) [
            | none ↦ none
            | some t ↦ complete vec_no t
          ]
      else none
    else invoke run vec_no s

-- ===== src/VirtualMemory/Interrupt/Tests.antt =====
-- The theorems at the timer's interrupt, with the kernel's code segment 8.
use cs124_my_pintos.Common.{
  ℕ, ◌+◌, ◌*◌, ◌/◌, ◌%◌, ◌^◌, ◌<◌, ◌≡◌, refl, true, false, Option, none, some, [], ◌++◌, arith, set,
  replicate,
}
use cs124_my_pintos.VirtualMemory.Interrupt.{
  intr_off, Interrupts, intr_disable, intr_set_level, make_gate, invoke, intr_handler,
  intr_register_ext, register_handler,
}
use cs124_my_pintos.VirtualMemory.Interrupt.Laws.{
  Keeps, make_gate-fields, intr_set_level-intr_disable, intr_handler-external, completion,
}

abbrev booted : Interrupts
booted = record {
  level = intr_off;
  idt = replicate 256 0;
  intr_handlers = replicate 256 none;
  intr_names = replicate 256 0;
  unexpected_cnt = replicate 256 0;
  in_external_intr = false;
  yield_on_return = false;
  events = [];
}

-- Every handler asks to yield.
abbrev yielding : ℕ → ℕ → Interrupts → Option Interrupts
yielding handler vec_no s = some (record s { yield_on_return = true })

abbrev with_timer : Interrupts
with_timer = record booted { intr_handlers = set (replicate 256 none) 0x20 (some 7) }

yielding-Keeps : Keeps yielding
unfolding Keeps
yielding-Keeps handler vec_no s = (record s { yield_on_return = true }, refl, refl, refl)

make_gate-fields_example :
    (gate : ℕ) × (make_gate 8 0xc0021234 3 15 ≡ some gate)
    × (gate < 2 ^ 64)
    × (gate / 2 ^ 48 * 2 ^ 16 + gate % 2 ^ 16 ≡ 0xc0021234)
    × (gate / 2 ^ 16 % 2 ^ 16 ≡ 8)
    × (gate / 2 ^ 40 % 16 ≡ 15)
    × (gate / 2 ^ 45 % 4 ≡ 3)
    × (gate / 2 ^ 47 % 2 ≡ 1)
make_gate-fields_example =
    make_gate-fields 8 0xc0021234 3 15 (omega arith) (omega arith) (omega arith) (omega arith)
      (omega arith)

intr_set_level-intr_disable_example :
    let (old, t) = intr_disable booted in intr_set_level old t ≡ some (intr_off, booted)
intr_set_level-intr_disable_example = intr_set_level-intr_disable booted refl

intr_handler-external_example :
    (t u : Interrupts) × (invoke yielding 0x20
        (record with_timer { in_external_intr = true; yield_on_return = false })
      ≡ some t)
    × (intr_handler yielding 0x20 with_timer ≡ some u)
    × (u.level ≡ intr_off)
    × (u.in_external_intr ≡ false)
    × (u.events ≡ t.events ++ completion 0x20 t.yield_on_return)
intr_handler-external_example =
    intr_handler-external yielding 0x20 with_timer yielding-Keeps (omega arith) (omega arith) refl
      refl

abbrev small : Interrupts
small = record booted { intr_handlers = replicate 0x30 none; idt = []; intr_names = [] }

registered :
    intr_register_ext 8 (λ v. v + 1) 0x20 7 1 small
    ≡ some (record small { intr_handlers = set (replicate 0x30 none) 0x20 (some 7) })
unfolding intr_register_ext register_handler make_gate
registered = refl

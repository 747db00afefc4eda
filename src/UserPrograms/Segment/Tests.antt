-- ===== src/UserPrograms/Segment/Tests.antt =====
-- A text segment of 0x1234 bytes in the file at 0x40, mapped at 0x8048040.
use cs124_my_pintos.Common.{◌≡◌, refl, true, some, List, arith}
use cs124_my_pintos.UserPrograms.Segment.{
  Phdr, validate_segment, plan, PageFill, Environment, load_segment,
}
use cs124_my_pintos.UserPrograms.Segment.Laws.{
  IsPhdr, IsLoadable, validate_segment-IsLoadable, load_segment-IsLoaded, IsLoaded,
}

abbrev text_segment : Phdr
text_segment = record { p_offset = 0x40; p_vaddr = 0x8048040; p_filesz = 0x1234; p_memsz = 0x3000 }

abbrev everything : Environment
everything a = true

text_segment-IsPhdr : IsPhdr text_segment
text_segment-IsPhdr = record {
  vaddr_word = omega arith;
  memsz_word = omega arith;
  filesz_word = omega arith;
}

text_segment-IsLoadable : IsLoadable text_segment 0x2000
text_segment-IsLoadable = record {
  same_offset = refl;
  in_file = omega arith;
  size_order = omega arith;
  not_empty = omega arith;
  above_first_page = omega arith;
  in_user_memory = omega arith;
}

validate_segment-IsLoadable_example :
    (validate_segment text_segment 0x2000 ≡ true → IsLoadable text_segment 0x2000)
    × (IsLoadable text_segment 0x2000 → validate_segment text_segment 0x2000 ≡ true)
validate_segment-IsLoadable_example =
    validate_segment-IsLoadable text_segment 0x2000 text_segment-IsPhdr

load_segment-IsLoaded_example :
    (pages : List PageFill) × (load_segment everything (plan text_segment) ≡ some (true, pages))
    × IsLoaded text_segment pages
load_segment-IsLoaded_example =
    load_segment-IsLoaded everything text_segment 0x2000 (λ a. refl) text_segment-IsLoadable

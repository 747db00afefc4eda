-- ===== src/UserPrograms/Segment/Laws.antt =====
-- The checks, the plan and the pages of a segment of process.c.
use cs124_my_pintos.Common.{
  ℕ, zero, suc, ◌+◌, ◌-◌, ◌*◌, ◌/◌, ◌%◌, ◌≤◌, ◌<◌, ◌≡◌, refl, sym, subst, ◌∙◌, ap, Bool, true,
  false, Option, some, List, [], ◌∷◌, arith, ◌==◌, ltb, if◌then◌else◌, length, get_elem?, min,
}
use cs124_my_pintos.UserPrograms.Segment.{
  pg_size, phys_base, u32, Phdr, validate_segment, Plan, plan, PageFill, Environment, load_loop,
  load_segment,
}

-- The fields are `uint32_t`.
pub record IsPhdr (phdr : Phdr) : Type 0 where
  pub vaddr_word : phdr.p_vaddr < u32
  pub memsz_word : phdr.p_memsz < u32
  pub filesz_word : phdr.p_filesz < u32

-- What a loadable segment is, with no arithmetic that wraps.
pub record IsLoadable (phdr : Phdr) (file_length : ℕ) : Type 0 where
  pub same_offset : phdr.p_offset % pg_size ≡ phdr.p_vaddr % pg_size
  pub in_file : phdr.p_offset ≤ file_length
  pub size_order : phdr.p_filesz ≤ phdr.p_memsz
  pub not_empty : 0 < phdr.p_memsz
  pub above_first_page : pg_size ≤ phdr.p_vaddr
  pub in_user_memory : phdr.p_vaddr + phdr.p_memsz < phys_base

-- For fields of 32 bits, `validate_segment` accepts exactly the segments that begin in the file,
-- at the same offset in a page as in memory, that are not empty and not shorter than their part in
-- the file, and that lie between the first page and PHYS_BASE, ending below it, with no arithmetic
-- that wraps.
pub validate_segment-IsLoadable :
    (phdr : Phdr) (file_length : ℕ)
    → IsPhdr phdr
    → (validate_segment phdr file_length ≡ true → IsLoadable phdr file_length)
      × (IsLoadable phdr file_length → validate_segment phdr file_length ≡ true)
unfolding validate_segment
validate_segment-IsLoadable phdr n h = (λ e. ground arith, λ l. ground arith)

-- For a loadable segment what PT_LOAD computes is a whole number of pages that cover the segment
-- and end in user memory, and the bytes read end where the file part of the segment ends.
pub plan-IsLoadable :
    (phdr : Phdr) (file_length : ℕ)
    → IsLoadable phdr file_length
    → let p = plan phdr in
      ((p.read_bytes + p.zero_bytes) % pg_size ≡ 0)
      × (phdr.p_vaddr + phdr.p_memsz ≤ p.mem_page + (p.read_bytes + p.zero_bytes))
      × (p.mem_page + (p.read_bytes + p.zero_bytes) ≤ phys_base)
      × (0 < phdr.p_filesz → p.mem_page + p.read_bytes ≡ phdr.p_vaddr + phdr.p_filesz)
unfolding plan
plan-IsLoadable phdr n l = ground arith

-- Page `i` of a segment.
abbrev pub page_at : (upage pos read_bytes i : ℕ) → PageFill
page_at upage pos read_bytes i = record {
  upage = upage + i * pg_size;
  from = pos + min read_bytes (i * pg_size);
  bytes = min pg_size (read_bytes - i * pg_size);
  zeros = pg_size - min pg_size (read_bytes - i * pg_size);
}

abbrev pub Filled : (n upage pos read_bytes : ℕ) → Option (Bool × List PageFill) → Type 0
Filled n upage pos read_bytes r =
    (pages : List PageFill) × (r ≡ some (true, pages))
    × (length pages ≡ n)
    × ((i : ℕ) → i < n → get_elem? pages i ≡ some (page_at upage pos read_bytes i))

page_at_zero :
    (upage pos r : ℕ)
    → page_at upage pos r 0
      ≡ record { upage = upage; from = pos; bytes = min pg_size r; zeros = pg_size - min pg_size r }
page_at_zero upage pos r =
    let a : upage + 0 * pg_size ≡ upage = omega arith in
    let b : pos + min r (0 * pg_size) ≡ pos = omega arith in
    let c : r - 0 * pg_size ≡ r = omega arith in
    λ j. record {
      upage = a j;
      from = b j;
      bytes = min pg_size (c j);
      zeros = pg_size - min pg_size (c j);
    }

page_at_next :
    (upage pos r i : ℕ)
    → page_at (upage + pg_size) (pos + min pg_size r) (r - min pg_size r) i
      ≡ page_at upage pos r (suc i)
page_at_next upage pos r i =
    let a : (upage + pg_size) + i * pg_size ≡ upage + suc i * pg_size = omega arith in
    let b : (pos + min pg_size r) + min (r - min pg_size r) (i * pg_size)
        ≡ pos + min r (suc i * pg_size) =
      omega arith in
    let c : min pg_size (r - min pg_size r - i * pg_size) ≡ min pg_size (r - suc i * pg_size) =
      omega arith in
    λ j. record { upage = a j; from = b j; bytes = c j; zeros = pg_size - c j }

-- One round that installs a page.
load_loop_round :
    (env : Environment) (fuel upage pos r z : ℕ) (pages : List PageFill)
    → env upage ≡ true
    → 0 < r + z
    → upage + pg_size < u32
    → pg_size - min pg_size r ≤ z
    → z < u32
    → load_loop env fuel
        (upage + pg_size)
        (pos + min pg_size r)
        (r - min pg_size r)
        (z - (pg_size - min pg_size r))
      ≡ some (true, pages)
    → load_loop env (suc fuel) upage pos r z ≡ some (true, page_at upage pos r 0 ∷ pages)
unfolding load_loop
load_loop_round env fuel upage pos r z pages ok some_left fits enough word got =
    let t : (r + z == 0) ≡ false = ground arith in
    let b : (if ltb r pg_size then r else pg_size) ≡ min pg_size r = ground arith in
    let next : (upage + pg_size) % u32 ≡ upage + pg_size = omega arith in
    let left : (z + u32 - (pg_size - min pg_size r)) % u32 ≡ z - (pg_size - min pg_size r) =
      omega arith in
    rw (page_at_zero upage pos r, t, ok, b, next, left, got, b) refl

load_loop-Filled :
    (env : Environment)
    → ((a : ℕ) → env a ≡ true)
    → (n fuel upage pos read_bytes zero_bytes : ℕ) → read_bytes + zero_bytes ≡ n * pg_size
    → upage + n * pg_size < u32
    → n < fuel
    → Filled n upage pos read_bytes (load_loop env fuel upage pos read_bytes zero_bytes)
unfolding load_loop
load_loop-Filled env ok n zero upage pos r z e u f = absurd (omega arith)
load_loop-Filled env ok zero (suc fuel) upage pos r z e u f =
    let t : (r + z == 0) ≡ true = ground arith in ([], rw t refl, refl, λ i l. absurd (omega arith))
load_loop-Filled env ok (suc n) (suc fuel) upage pos r z e u f =
    let (pages, got, count, each) =
      load_loop-Filled env ok n fuel (upage + pg_size) (pos + min pg_size r) (r - min pg_size r)
        (z - (pg_size - min pg_size r)) (omega arith) (omega arith) (omega arith) in
    (
      page_at upage pos r 0 ∷ pages,
      load_loop_round env fuel upage pos r z pages (ok upage) (omega arith) (omega arith)
          (omega arith) (omega arith) got,
      ap suc count,
      page_each upage pos r n pages each,
    )
  where
    page_each :
        (upage pos r n : ℕ) (pages : List PageFill)
        → ((i : ℕ)
            → i < n
            → get_elem? pages i
              ≡ some (page_at (upage + pg_size) (pos + min pg_size r) (r - min pg_size r) i))
        → (i : ℕ) → i < suc n
        → get_elem? (page_at upage pos r 0 ∷ pages) i ≡ some (page_at upage pos r i)
    page_each upage pos r n pages each zero l = refl
    page_each upage pos r n pages each (suc i) l =
        each i (omega arith) ∙ ap some (page_at_next upage pos r i)

-- The page with the address `a`, in the pages from `first` on.
abbrev HasPage : (first a : ℕ) → List PageFill → PageFill → Type 0
HasPage first a pages page =
    (get_elem? pages ((a - first) / pg_size) ≡ some page) × (page.upage ≡ a - a % pg_size)

-- The byte at `a` is the one of the file at `offset`.
abbrev pub HoldsFile : (first a offset : ℕ) → List PageFill → Type 0
HoldsFile first a offset pages =
    (page : PageFill) × HasPage first a pages page
    × (a % pg_size < page.bytes)
    × (page.from + a % pg_size ≡ offset)

-- The byte at `a` is zero.
abbrev pub HoldsZero : (first a : ℕ) → List PageFill → Type 0
HoldsZero first a pages =
    (page : PageFill) × HasPage first a pages page
    × (page.bytes ≤ a % pg_size)
    × (a % pg_size < page.bytes + page.zeros)

-- What a program finds of its segment: the pages go from that of its first address up and reach past
-- its last one, and its bytes are those of the file, then zeros.
pub record IsLoaded (phdr : Phdr) (pages : List PageFill) : Type 0 where
  pub covers :
      phdr.p_vaddr + phdr.p_memsz ≤ phdr.p_vaddr - phdr.p_vaddr % pg_size + length pages * pg_size
  pub from_file :
      (k : ℕ)
      → k < phdr.p_filesz
      → HoldsFile
          (phdr.p_vaddr - phdr.p_vaddr % pg_size)
          (phdr.p_vaddr + k)
          (phdr.p_offset + k)
          pages
  pub zeros :
      (k : ℕ)
      → phdr.p_filesz ≤ k
      → k < phdr.p_memsz
      → HoldsZero (phdr.p_vaddr - phdr.p_vaddr % pg_size) (phdr.p_vaddr + k) pages

page_at-file :
    (upage pos r a : ℕ)
    → upage % pg_size ≡ 0
    → upage ≤ a
    → a < upage + r
    → let page = page_at upage pos r ((a - upage) / pg_size) in
      (page.upage ≡ a - a % pg_size)
      × (a % pg_size < page.bytes)
      × (page.from + a % pg_size ≡ pos + (a - upage))
page_at-file upage pos r a al l h = (omega arith, omega arith, omega arith)

page_at-zeros :
    (upage pos r a : ℕ)
    → upage % pg_size ≡ 0
    → upage + r ≤ a
    → let page = page_at upage pos r ((a - upage) / pg_size) in
      (page.upage ≡ a - a % pg_size)
      × (page.bytes ≤ a % pg_size)
      × (a % pg_size < page.bytes + page.zeros)
page_at-zeros upage pos r a al l = (omega arith, omega arith, omega arith)

-- The pages that `load_segment` installs, in the terms of the plan.
load_segment-Filled :
    (env : Environment) (phdr : Phdr) (file_length : ℕ)
    → ((a : ℕ) → env a ≡ true)
    → IsLoadable phdr file_length
    → let p = plan phdr in
      Filled
        ((p.read_bytes + p.zero_bytes) / pg_size)
        p.mem_page
        p.file_page
        p.read_bytes
        (load_segment env p)
unfolding load_segment plan
load_segment-Filled env phdr n ok l =
    let (whole, covers, below, at) = plan-IsLoadable phdr n l in
    fits env ok (plan phdr) whole below (ground arith) (ground arith)
  where
    fits :
        (env : Environment)
        → ((a : ℕ) → env a ≡ true)
        → (p : Plan) → (p.read_bytes + p.zero_bytes) % pg_size ≡ 0
        → p.mem_page + (p.read_bytes + p.zero_bytes) ≤ phys_base
        → p.mem_page % pg_size ≡ 0
        → p.file_page % pg_size ≡ 0
        → Filled
            ((p.read_bytes + p.zero_bytes) / pg_size)
            p.mem_page
            p.file_page
            p.read_bytes
            (load_segment env p)
    fits env ok p whole below m f =
        let a : (p.mem_page % pg_size == 0) ≡ true = ground arith in
        let b : (p.file_page % pg_size == 0) ≡ true = ground arith in
        let t : ((p.read_bytes + p.zero_bytes) % u32 % pg_size == 0) ≡ true = ground arith in
        let (pages, got, count, each) =
          load_loop-Filled env ok ((p.read_bytes + p.zero_bytes) / pg_size)
            ((p.read_bytes + p.zero_bytes) / pg_size + 1) p.mem_page p.file_page p.read_bytes
            p.zero_bytes (omega arith) (omega arith) (omega arith) in
        (pages, rw (t, a, b) got, count, each)

Filled-IsLoaded :
    (phdr : Phdr) (pages : List PageFill) (n pos r : ℕ)
    → let first = phdr.p_vaddr - phdr.p_vaddr % pg_size in
      pos + phdr.p_vaddr % pg_size ≡ phdr.p_offset
      → (0 < phdr.p_filesz → first + r ≡ phdr.p_vaddr + phdr.p_filesz)
      → (phdr.p_filesz ≡ 0 → r ≡ 0)
      → phdr.p_vaddr + phdr.p_memsz ≤ first + n * pg_size
      → length pages ≡ n
      → phdr.p_filesz ≤ phdr.p_memsz
      → ((i : ℕ) → i < n → get_elem? pages i ≡ some (page_at first pos r i))
      → IsLoaded phdr pages
Filled-IsLoaded phdr pages n pos r from read none_read covers count order each =
    let first = phdr.p_vaddr - phdr.p_vaddr % pg_size in
    let al : first % pg_size ≡ 0 = omega arith in
    record {
      covers = omega arith;
      from_file = λ k h.
          let end = read (omega arith) in
          let a = phdr.p_vaddr + k in
          let i = (a - first) / pg_size in
          let (at, inside, offset) = page_at-file first pos r a al (omega arith) (omega arith) in
          (page_at first pos r i, (each i (omega arith), at), inside, offset ∙ omega arith);
      zeros = λ k l h.
          let a = phdr.p_vaddr + k in
          let i = (a - first) / pg_size in
          let past : first + r ≤ a = ground (arith, read, none_read) in
          let (at, outside, zero_) = page_at-zeros first pos r a al past in
          (page_at first pos r i, (each i (omega arith), at), outside, zero_);
    }

plan-parts :
    (phdr : Phdr) (file_length : ℕ)
    → IsLoadable phdr file_length
    → let p = plan phdr in
      (p.mem_page ≡ phdr.p_vaddr - phdr.p_vaddr % pg_size)
      × (p.file_page + phdr.p_vaddr % pg_size ≡ phdr.p_offset)
      × (phdr.p_filesz ≡ 0 → p.read_bytes ≡ 0)
unfolding plan
plan-parts phdr n l = ground arith

-- When memory, the file and `install_page` give all they are asked for, `load_segment` succeeds
-- for the plan of a loadable segment; its pages cover the segment, from the page of the first
-- address on, and byte k of the segment is the byte of the file at `p_offset` + k where k is below
-- `p_filesz`, and zero from there up to `p_memsz`.
pub load_segment-IsLoaded :
    (env : Environment) (phdr : Phdr) (file_length : ℕ)
    → ((a : ℕ) → env a ≡ true)
    → IsLoadable phdr file_length
    → (pages : List PageFill) × (load_segment env (plan phdr) ≡ some (true, pages))
      × IsLoaded phdr pages
load_segment-IsLoaded env phdr n ok l =
    let (whole, covers, below, end) = plan-IsLoadable phdr n l in
    let (first, from, none_read) = plan-parts phdr n l in
    let (pages, got, count, each) = load_segment-Filled env phdr n ok l in
    let p = plan phdr in
    let m = (p.read_bytes + p.zero_bytes) / pg_size in
    (
      pages,
      got,
      Filled-IsLoaded phdr pages m p.file_page p.read_bytes from
          (λ h. ap (λ a. a + p.read_bytes) (sym first) ∙ end h) none_read (omega arith) count
          l.size_order
          (subst
            (λ a. (i : ℕ) → i < m → get_elem? pages i ≡ some (page_at a p.file_page p.read_bytes i))
            first each),
    )

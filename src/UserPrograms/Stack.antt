-- ===== src/UserPrograms/Stack.antt =====
-- user-programs/userprog/process.c: `setup_stack`, with `install_page`. The stack of a new process is a
-- function from addresses to bytes, with its `esp`; the page under PHYS_BASE is the one that is mapped.
-- A token is its bytes without the 0.
pub mod Push
pub mod Strings
pub mod Layout
mod Tests
use cs124_my_pintos.Common.{
  ℕ, zero, suc, ◌+◌, ◌-◌, ◌*◌, ◌/◌, ◌%◌, Bool, true, false, ◌&&◌, Option, none, some, List, [], ◌∷◌,
  ◌++◌, ltb, leb, if◌then◌else◌, length, get_or, replicate,
}
use cs124_my_pintos.UserPrograms.Segment.{pg_size, phys_base}
use cs124_my_pintos.VirtualMemory.Pagedir.{Memory, pagedir_get_page, pagedir_set_page}

pub record Stack : Type 0 where
  pub esp : ℕ
  pub bytes : ℕ → ℕ

-- Moves `*esp` down and stores bytes there; `none` is a store below the page, which is not mapped.
unfoldable pub push : List ℕ → Stack → Option Stack
push bs s =
    let esp = s.esp - length bs in
    if ltb esp (phys_base - pg_size)
    then none
    else some (record {
      esp = esp;
      bytes =
          λ a. if leb esp a && ltb a (esp + length bs) then get_or bs (a - esp) 0 else s.bytes a;
    })

-- The 4 bytes of a word, the lowest first.
unfoldable pub bytes_of_word : ℕ → List ℕ
bytes_of_word n = (n % 256) ∷ (n / 256 % 256) ∷ (n / 65536 % 256) ∷ (n / 16777216 % 256) ∷ []

-- The loop over the strings, the last one first; `tokens[i]` becomes the address of its string.
unfoldable pub push_strings : (tokens : List (List ℕ)) → Stack → Option (List ℕ × Stack)
push_strings [] s = some ([], s)
push_strings (token ∷ tokens) s = elim (push_strings tokens s) [
  | none ↦ none
  | some (addresses, t) ↦ elim (push (token ++ (0 ∷ [])) t) [
    | none ↦ none
    | some u ↦ some (u.esp ∷ addresses, u)
  ]
]

-- The loop over the addresses, the last one first.
unfoldable pub push_addresses : (tokens : List ℕ) → Stack → Option Stack
push_addresses [] s = some s
push_addresses (token ∷ tokens) s = elim (push_addresses tokens s) [
  | none ↦ none
  | some t ↦ push (bytes_of_word token) t
]

unfoldable pub push_arguments : (tokens : List (List ℕ)) → Stack → Option Stack
push_arguments tokens s = elim (push_strings tokens s) [
  | none ↦ none
  | some (addresses, t) ↦ elim (push (replicate ((t.esp - 4) % 4) 0) t) [
    | none ↦ none
    | some aligned ↦ elim (push (0 ∷ 0 ∷ 0 ∷ 0 ∷ []) aligned) [
      | none ↦ none
      | some u ↦ elim (push_addresses addresses u) [
        | none ↦ none
        | some argv ↦ elim (push (bytes_of_word argv.esp) argv) [
          | none ↦ none
          | some v ↦ elim (push (bytes_of_word (length tokens)) v) [
            | none ↦ none
            | some w ↦ push (0 ∷ 0 ∷ 0 ∷ 0 ∷ []) w
          ]
        ]
      ]
    ]
  ]
]

module _ (init_page_dir init_ram_pages : ℕ) where
  unfoldable pub install_page :
      (page : Option ℕ) (pd upage kpage : ℕ) (writable : Bool) → Memory → Option (Bool × Memory)
  install_page page pd upage kpage writable m = elim (pagedir_get_page pd upage m) [
    | none ↦ none
    | some (some k) ↦ some (false, m)
    | some none ↦ pagedir_set_page init_page_dir init_ram_pages page pd upage kpage writable m
  ]

  -- `kpage` is the page of zeros that `palloc_get_page` returns; a page that cannot be installed is
  -- given back.
  unfoldable pub setup_stack :
      (page kpage : Option ℕ) (pd : ℕ) (tokens : List (List ℕ))
      → Memory
      → Option (Bool × Option Stack × Memory)
  unfolding install_page
  setup_stack page kpage pd tokens m = elim kpage [
    | none ↦ some (false, none, m)
    | some k ↦ elim (install_page page pd (phys_base - pg_size) k true m) [
      | none ↦ none
      | some (false, n) ↦ some (false, none, record n { freed = k ∷ n.freed })
      | some (true, n) ↦ elim (push_arguments tokens (record { esp = phys_base; bytes = λ a. 0 })) [
        | none ↦ none
        | some s ↦ some (true, some s, n)
      ]
    ]
  ]

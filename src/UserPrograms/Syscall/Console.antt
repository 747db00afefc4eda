-- ===== src/UserPrograms/Syscall/Console.antt =====
-- Writing to the console with `sys_write` of user-programs/userprog/syscall.c.
use cs124_my_pintos.Common.{
  ℕ, zero, suc, ◌+◌, ◌-◌, ◌*◌, ◌%◌, ◌≤◌, ◌<◌, ◌≡◌, refl, sym, ap, ◌∙◌, ◌⊎◌, inl, inr, true, false,
  Option, none, some, List, [], ◌∷◌, ◌++◌, arith, leb, take, append_assoc, Option-cases, append-nil,
}
use cs124_my_pintos.UserPrograms.Segment.{u32}
use cs124_my_pintos.UserPrograms.Syscall.{
  System, returned, World, user_kaddr, is_valid_uaddr, valid_bytes, read_bytes,
}
use cs124_my_pintos.UserPrograms.Syscall.Calls.{
  std_out, max_putbuf_len, putbuf, putbuf_loop, sys_write,
}
use cs124_my_pintos.UserPrograms.Syscall.Arguments.{valid_bytes-read_bytes}

-- `bs`, `q` times.
abbrev pub repeated : (q : ℕ) → List ℕ → List ℕ
repeated zero bs = []
repeated (suc q) bs = bs ++ repeated q bs

module _ (system : System) where
  read_bytes-take :
      (n m uaddr : ℕ) (bs : List ℕ) (w : World system)
      → read_bytes system n uaddr w ≡ some bs
      → m ≤ n
      → read_bytes system m uaddr w ≡ some (take m bs)
  unfolding read_bytes
  read_bytes-take n zero uaddr bs w e h = refl
  read_bytes-take zero (suc m) uaddr bs w e h = absurd (omega arith)
  read_bytes-take (suc n) (suc m) uaddr bs w e h = elim (Option-cases (user_kaddr system uaddr w)) [
    | inl k ↦ (let c = rw (read_bytes, k) at e in cc)
    | inr (kaddr, k) ↦ elim (Option-cases (read_bytes system n ((uaddr + 1) % u32) w)) [
      | inl r ↦ (let c = rw (read_bytes, k, r) at e in cc)
      | inr (rest, r) ↦
          let f = rw (read_bytes, k, r) at e in
          let same : w.ram kaddr ∷ rest ≡ bs = cc in
          let later = read_bytes-take n m ((uaddr + 1) % u32) rest w r (omega arith) in
          rw (← same, read_bytes, k, later) refl
    ]
  ]

  read_bytes-console :
      (n uaddr : ℕ) (c : List ℕ) (w : World system)
      → read_bytes system n uaddr (record w { console = c }) ≡ read_bytes system n uaddr w
  unfolding read_bytes user_kaddr
  read_bytes-console zero uaddr c w = refl
  read_bytes-console (suc n) uaddr c w =
      ap
        (λ (o : Option (List ℕ)). elim (user_kaddr system uaddr w) as (λ x. Option (List ℕ)) [
          | none ↦ none
          | some kaddr ↦ elim o as (λ x. Option (List ℕ)) [
            | none ↦ none
            | some rest ↦ some (w.ram kaddr ∷ rest)
          ]
        ])
        (read_bytes-console n ((uaddr + 1) % u32) c w)

  putbuf-take :
      (size n buffer : ℕ) (bs c : List ℕ) (w : World system)
      → read_bytes system size buffer w ≡ some bs
      → n ≤ size
      → putbuf system buffer n (record w { console = c })
        ≡ some (record w { console = c ++ take n bs })
  unfolding putbuf
  putbuf-take size n buffer bs c w e h =
      let r = read_bytes-console n buffer c w ∙ read_bytes-take size n buffer bs w e h in
      rw (putbuf, r) refl

  putbuf_loop-last :
      (fuel buffer remaining : ℕ) (w : World system)
      → remaining ≤ max_putbuf_len
      → putbuf_loop system (suc fuel) buffer remaining w ≡ some (remaining, w)
  unfolding putbuf_loop
  putbuf_loop-last fuel buffer remaining w h =
      let b : leb remaining max_putbuf_len ≡ true = ground arith in rw b refl

  putbuf_loop-more :
      (fuel buffer remaining : ℕ) (w t : World system)
      → max_putbuf_len < remaining
      → putbuf system buffer max_putbuf_len w ≡ some t
      → putbuf_loop system (suc fuel) buffer remaining w
        ≡ putbuf_loop system fuel buffer (remaining - max_putbuf_len) t
  unfolding putbuf_loop
  putbuf_loop-more fuel buffer remaining w t h e =
      let b : leb remaining max_putbuf_len ≡ false = ground arith in rw (putbuf_loop, b, e) refl

  -- The loop prints the first bytes of the buffer once for each round.
  putbuf_loop-repeated :
      (q r remaining size fuel buffer : ℕ) (bs c : List ℕ) (w : World system)
      → read_bytes system size buffer w ≡ some bs
      → r ≤ max_putbuf_len
      → (q ≡ 0) ⊎ (0 < r)
      → remaining ≡ max_putbuf_len * q + r
      → remaining ≤ size
      → remaining < fuel
      → putbuf_loop system fuel buffer remaining (record w { console = c })
        ≡ some (r, record w { console = c ++ repeated q (take max_putbuf_len bs) })
  putbuf_loop-repeated q r remaining size zero buffer bs c w e h k p s f = absurd (omega arith)
  putbuf_loop-repeated zero r remaining size (suc fuel) buffer bs c w e h k p s f =
      let same : remaining ≡ r = omega arith in
      putbuf_loop-last fuel buffer remaining (record w { console = c }) (omega arith)
      ∙ (ap (λ n. some (n, record w { console = c })) same
          ∙ ap (λ xs. some (r, record w { console = xs })) (sym (append-nil c)))
  putbuf_loop-repeated (suc q) r remaining size (suc fuel) buffer bs c w e h k p s f =
      let b = take max_putbuf_len bs in
      let l : max_putbuf_len < remaining = elim k [
        | inl z ↦ absurd (omega arith)
        | inr z ↦ omega arith
      ] in
      let z : (q ≡ 0) ⊎ (0 < r) = elim k [ inl z ↦ absurd (omega arith) | inr z ↦ inr z ] in
      let first = putbuf-take size max_putbuf_len buffer bs c w e (omega arith) in
      let rest =
        putbuf_loop-repeated q r (remaining - max_putbuf_len) size fuel buffer bs (c ++ b) w e h z
          (omega arith) (omega arith) (omega arith) in
      putbuf_loop-more fuel buffer remaining (record w { console = c })
        (record w { console = c ++ b }) l first
      ∙ (rest ∙ ap (λ xs. some (r, record w { console = xs })) (append_assoc c b (repeated q b)))

  sys_write-steps :
      (size r buffer : ℕ) (w t u : World system)
      → is_valid_uaddr system buffer w ≡ true
      → valid_bytes system size buffer w ≡ true
      → putbuf_loop system (suc size) buffer size w ≡ some (r, t)
      → putbuf system buffer r t ≡ some u
      → sys_write system std_out buffer size w ≡ returned size u
  unfolding sys_write
  sys_write-steps size r buffer w t u v vs l p = rw (sys_write, v, vs, l, p) refl

  -- `sys_write` to the console of a valid buffer of q times 300 bytes and r more, where r is up to
  -- 300 and is not 0 unless q is, returns the size; it has printed the first 300 bytes of the
  -- buffer q times and then the first r bytes, since the buffer is not advanced.
  pub sys_write-repeated :
      (q r buffer : ℕ) (w : World system)
      → r ≤ max_putbuf_len
      → (q ≡ 0) ⊎ (0 < r)
      → is_valid_uaddr system buffer w ≡ true
      → valid_bytes system (max_putbuf_len * q + r) buffer w ≡ true
      → (bs : List ℕ) × (read_bytes system (max_putbuf_len * q + r) buffer w ≡ some bs)
        × (sys_write system std_out buffer (max_putbuf_len * q + r) w
            ≡ returned (max_putbuf_len * q + r) (record w {
              console = (w.console ++ repeated q (take max_putbuf_len bs)) ++ take r bs;
            }))
  sys_write-repeated q r buffer w h k v vs =
      let size = max_putbuf_len * q + r in
      let (bs, e) = valid_bytes-read_bytes system size buffer w vs in
      let printed = w.console ++ repeated q (take max_putbuf_len bs) in
      (
        bs,
        e,
        sys_write-steps size r buffer w (record w { console = printed })
            (record w { console = printed ++ take r bs }) v vs
            (putbuf_loop-repeated q r size size (suc size) buffer bs w.console w e h k refl
              (omega arith) (omega arith))
            (putbuf-take size r buffer bs printed w e (omega arith)),
      )

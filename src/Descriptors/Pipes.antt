-- ===== src/Descriptors/Pipes.antt =====
-- `sys_pipe` opens both ends of a pipe or nothing.
use learn_linux.Common.{
  ℕ, suc, ◌+◌, ◌-◌, ◌<◌, ◌≡◌, refl, sym, ap, ◌∙◌, inl, inr, true, false, Option, none, some, arith,
  ◌==◌, Bool-cases, Option-cases, if◌then◌else◌, update,
}
use learn_linux.Descriptors.{nr_open, Files, is_open}
use learn_linux.Descriptors.Dup.{Found, found, all_used, first_free-Found}
use learn_linux.Descriptors.Opening.{
  nr_file, in_use, set_count, set_filp, join_inode, second_descriptor, first_descriptor,
  second_file, first_file, sys_pipe,
}

-- What `sys_pipe` does: it fails with every descriptor and every use count as it was; or two free
-- descriptors are open on two files that were in use nowhere, for reading and for writing, on the
-- pipe's inode, and no other descriptor or use count has changed.
pub data Piped (s : Files) (inode : Option ℕ) (r : Files × Option (ℕ × ℕ)) : Type 0 where
  failed :
      r.1 ≡ none
      → ((file : ℕ) → r.0.f_count file ≡ s.f_count file)
      → ((fd : ℕ) → r.0.filp fd ≡ s.filp fd)
      → Piped s inode r
  opened :
      (a b c d n : ℕ)
      → (r.1 ≡ some (c, d)) × (inode ≡ some n)
      → (a < b) × (b < nr_file) × (in_use s a ≡ false) × (in_use s b ≡ false)
      → (c < d) × (d < nr_open) × (is_open s c ≡ false) × (is_open s d ≡ false)
      → ((file : ℕ)
          → r.0.f_count file ≡ (if a == file then 1 else if b == file then 1 else s.f_count file))
      → ((fd : ℕ)
          → r.0.filp fd ≡ (if c == fd then some a else if d == fd then some b else s.filp fd))
      → (r.0.f_inode a ≡ some n) × (r.0.f_inode b ≡ some n)
      → (r.0.f_mode a ≡ 1) × (r.0.f_mode b ≡ 2)
      → Piped s inode r

module _ (s : Files) (inode : Option ℕ) where
  -- The files a and b, in use nowhere, are taken.
  abbrev two_files : (a b : ℕ) → Files
  two_files a b = set_count b 1 (set_count a 1 s)

  -- Once their counts are 0 again, all is as it was.
  freed :
      (a b file : ℕ)
      → in_use s a ≡ false
      → in_use s b ≡ false
      → update (update (update (update s.f_count a 1) b 1) b 0) a 0 file ≡ s.f_count file
  freed a b file free_a free_b =
      let za : s.f_count a ≡ 0 = ground arith in
      let zb : s.f_count b ≡ 0 = ground arith in
      elim (Bool-cases (a == file)) [
        | inl here ↦
            let e : s.f_count a ≡ s.f_count file = ap s.f_count (ground arith) in
            rw here (omega arith)
        | inr other ↦ elim (Bool-cases (b == file)) [
          | inl here ↦
              let e : s.f_count b ≡ s.f_count file = ap s.f_count (ground arith) in
              rw (other, here) (omega arith)
          | inr others ↦ rw (other, others) refl
        ]
      ]

  freed_one :
      (a file : ℕ) → in_use s a ≡ false → update (update s.f_count a 1) a 0 file ≡ s.f_count file
  freed_one a file free =
      let z : s.f_count a ≡ 0 = ground arith in
      elim (Bool-cases (a == file)) [
        | inl here ↦
            let e : s.f_count a ≡ s.f_count file = ap s.f_count (ground arith) in
            rw here (omega arith)
        | inr other ↦ rw other refl
      ]

  closed :
      (c fd : ℕ) (o : Option ℕ)
      → is_open s c ≡ false
      → update (update s.filp c o) c none fd ≡ s.filp fd
  closed c fd o free = elim (Option-cases (s.filp c)) [
    | inr (g, at) ↦ let open_c : is_open s c ≡ true = rw at refl in cc
    | inl at ↦ elim (Bool-cases (c == fd)) [
      | inr other ↦ rw other refl
      | inl here ↦ let e : s.filp c ≡ s.filp fd = ap s.filp (ground arith) in rw here (sym at ∙ e)
    ]
  ]

  -- A descriptor that is free, on the way back.
  closed_two :
      (c d fd : ℕ) (o p : Option ℕ)
      → is_open s c ≡ false
      → is_open s d ≡ false
      → update (update (update (update s.filp c o) d p) d none) c none fd ≡ s.filp fd
  closed_two c d fd o p free_c free_d =
      let one = closed d fd p free_d in
      let other = closed c fd o free_c in
      elim (Bool-cases (c == fd)) [
        | inl here ↦ rw here (rw here at other)
        | inr apart ↦ elim (Bool-cases (d == fd)) [
          | inl here ↦ rw (apart, here) (rw here at one)
          | inr others ↦ rw (apart, others) refl
        ]
      ]

  join_inode-Piped :
      (a b c d : ℕ)
      → (a < b) × (b < nr_file) × (in_use s a ≡ false) × (in_use s b ≡ false)
      → (c < d) × (d < nr_open) × (is_open s c ≡ false) × (is_open s d ≡ false)
      → (o : Option ℕ) → inode ≡ o
      → Piped s inode
          (join_inode a b c d o (set_filp d (some b) (set_filp c (some a) (two_files a b))))
  join_inode-Piped a b c d files fds none e =
      failed refl (λ f. freed a b f files.2 files.3)
        (λ fd. closed_two c d fd (some a) (some b) fds.2 fds.3)
  join_inode-Piped a b c d files fds (some n) e =
      let ab : (a == b) ≡ false = let l = files.0 in ground arith in
      let ba : (b == a) ≡ false = let l = files.0 in ground arith in
      let cd : (c == d) ≡ false = let l = fds.0 in ground arith in
      opened a b c d n (refl, e) files fds (λ f. ground arith) (λ fd. ground arith)
        (ground arith, ground arith) (ground arith, ground arith)

  second_descriptor-Piped :
      (a b c : ℕ)
      → (a < b) × (b < nr_file) × (in_use s a ≡ false) × (in_use s b ≡ false)
      → (c < nr_open) × (is_open s c ≡ false)
      → (o : Option ℕ)
      → (let s' = set_filp c (some a) (two_files a b) in
          Found (is_open s') (nr_open - suc c) (suc c) o)
      → Piped s inode (second_descriptor a b c inode o (set_filp c (some a) (two_files a b)))
  second_descriptor-Piped a b c files fd o (all_used e all) =
      rw e (failed refl (λ f. freed a b f files.2 files.3) (λ i. closed c i (some a) fd.1))
  second_descriptor-Piped a b c files fd o (found d e low free below) =
      let apart : (c == d) ≡ false = ground arith in
      let free_d : is_open s d ≡ false = rw apart at free in
      rw e (join_inode-Piped a b c d files (omega arith, omega arith, fd.1, free_d) inode refl)

  first_descriptor-Piped :
      (a b : ℕ)
      → (a < b) × (b < nr_file) × (in_use s a ≡ false) × (in_use s b ≡ false)
      → (o : Option ℕ) → Found (is_open s) nr_open 0 o
      → Piped s inode (first_descriptor a b inode o (two_files a b))
  first_descriptor-Piped a b files o (all_used e all) =
      rw e (failed refl (λ f. freed a b f files.2 files.3) (λ i. refl))
  first_descriptor-Piped a b files o (found c e low free below) = rw e (
      second_descriptor-Piped a b c files (omega arith, free) _
        (first_free-Found (is_open (set_filp c (some a) (two_files a b))) (nr_open - suc c)
          (suc c)))

  second_file-Piped :
      (a : ℕ)
      → (a < nr_file) × (in_use s a ≡ false)
      → (o : Option ℕ) → Found (in_use (set_count a 1 s)) (nr_file - suc a) (suc a) o
      → Piped s inode (second_file a inode o (set_count a 1 s))
  second_file-Piped a file o (all_used e all) =
      rw e (failed refl (λ f. freed_one a f file.1) (λ i. refl))
  second_file-Piped a file o (found b e low free below) =
      let apart : (a == b) ≡ false = ground arith in
      let free_b : in_use s b ≡ false = rw apart at free in
      let none_yet : s.f_count b ≡ 0 = ground arith in
      let one : update s.f_count a 1 b + 1 ≡ 1 = rw apart (omega arith) in
      rw (e, second_file, one)
        (first_descriptor-Piped a b (omega arith, omega arith, file.1, free_b) _
          (first_free-Found (is_open s) nr_open 0))

  first_file-Piped :
      (o : Option ℕ) → Found (in_use s) nr_file 0 o → Piped s inode (first_file inode o s)
  first_file-Piped o (all_used e all) = rw e (failed refl (λ f. refl) (λ i. refl))
  first_file-Piped o (found a e low free below) =
      let none_yet : s.f_count a ≡ 0 = ground arith in
      let one : s.f_count a + 1 ≡ 1 = omega arith in
      rw (e, first_file, one)
        (second_file-Piped a (omega arith, free) _
          (first_free-Found (in_use (set_count a 1 s)) (nr_file - suc a) (suc a)))

  -- `sys_pipe` either fails, and then every descriptor and every use count is as it was; or it opens
  -- two free descriptors, the lower one for reading and the other for writing, on two files that
  -- were in use nowhere and that have the pipe's inode, and no other descriptor or use count changes.
  pub sys_pipe-Piped : Piped s inode (sys_pipe inode s)
  unfolding sys_pipe
  sys_pipe-Piped = first_file-Piped _ (first_free-Found (in_use s) nr_file 0)

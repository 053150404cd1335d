-- ===== src/Names/Paths.antt =====
-- The use counts of the inodes along a path name of linux-0.11/fs/namei.c.
use learn_linux.Common.{
  ℕ, zero, suc, ◌+◌, ◌<◌, ◌≡◌, refl, ap, inl, inr, not, ◌&&◌, Option, none, some, List, [], ◌∷◌,
  length, arith, ◌==◌, by_test, Bool-cases, if◌then◌else◌,
}
use learn_linux.Inodes.{Fs, FsRun, pure, ◌>>◌, hold, change}
use learn_linux.Inodes.Table.{iput, iget, root_ino}
use learn_linux.Inodes.Held.{Held, Ends, bind-Ends, change-Held, Room, spare_less, hold-Held}
use learn_linux.Inodes.Balance.{iput-Held}
use learn_linux.Inodes.Gets.{put_and-Held, iget-Held, made}
use learn_linux.Names.{Caller, name_len, shorten, is_dotdot, covered, leave_mount, find_entry}
use learn_linux.Names.Walk.{
  next_name, number_at, leave_dir, enter_at, follow_name, walk_on, is_passable, walk, is_lost,
  walk_from, start_walk, get_dir, basename, touch_atime, found_name, name_in, namei,
}

next_name_shorter :
    (path rest : List ℕ) → (next_name path).1 ≡ some rest → length rest < length path
unfolding next_name
next_name_shorter [] rest e = cc
next_name_shorter (c ∷ cs) rest e = elim (Bool-cases (c == 47)) [
  | inl slash ↦
      let e' : some cs ≡ some rest = rw (slash, next_name) at e in
      let same : cs ≡ rest = cc in
      let le : length cs ≡ length rest = ap (λ (x : List ℕ). length x) same in omega arith
  | inr other ↦ let ih = next_name_shorter cs rest (rw (other, next_name) at e) in omega arith
]

module _ (who : Caller) (l : List ℕ) (s0 : Fs) (spare : Room 2 l s0) where
  leave_mount-Held :
      (dir : ℕ) (o : Option ℕ) (s : Fs)
      → Held (dir ∷ l) s0 s
      → Ends (λ d. d ∷ l) s0 (leave_mount who dir o s)
  leave_mount-Held dir none s h = h
  leave_mount-Held dir (some m) s h =
      bind-Ends (λ (_ : Unit {0}). l) (λ d. d ∷ l) s0 (iput who.now dir s) (λ _. hold m >> pure m)
        (iput-Held l s0 s who.now dir h)
        λ _ s' h'.
          bind-Ends (λ (_ : Unit {0}). m ∷ l) (λ d. d ∷ l) s0 (hold m s') (λ _. pure m)
            (hold-Held l s0 s' m (spare_less 1 2 l s0 (omega arith) spare) h') λ _ s'' h''. h''

  abbrev pub at_dir : ℕ × Option ℕ → List ℕ
  at_dir (d, o) = d ∷ l

  pub find_entry-Held :
      (dir : ℕ) (name : List ℕ) (s : Fs)
      → Held (dir ∷ l) s0 s
      → Ends at_dir s0 (find_entry who dir name s)
  unfolding find_entry
  find_entry-Held dir long s h =
      let up =
        is_dotdot (shorten name_len long)
        && not (dir == who.root)
        && (s.inode_table dir).i_num == root_ino in
      bind-Ends (λ d. d ∷ l) at_dir s0 (leave_mount who dir (if up then covered s dir else none) s)
        _ (leave_mount-Held dir _ s h) λ d s' h'. h'

  pub enter_at-Held :
      (dir i : ℕ) (s : Fs) → Held (dir ∷ l) s0 s → Ends (λ p. p ∷ l) s0 (enter_at who dir i s)
  enter_at-Held dir i s h =
      let inr' = number_at s dir i in
      let idev = (s.inode_table dir).i_dev in
      bind-Ends (λ (_ : Unit {0}). l) (λ p. p ∷ l) s0 (iput who.now dir s)
        (λ _. iget who.now idev inr') (iput-Held l s0 s who.now dir h)
        λ _ s' h'. iget-Held l s0 who.now spare idev inr' s' h'

  leave_dir-Held : (p : ℕ) (s : Fs) → Held (p ∷ l) s0 s → Ends (made l) s0 (leave_dir who p s)
  leave_dir-Held p s h = put_and-Held l s0 who.now (made l) p none s h

  abbrev Goes : (again : (p : ℕ) → FsRun (Option ℕ)) → Type 0
  Goes again = (p : ℕ) (s : Fs) → Held (p ∷ l) s0 s → Ends (made l) s0 (again p s)

  follow_name-Held :
      (again : (p : ℕ) → FsRun (Option ℕ)) (found : ℕ × Option ℕ) (s : Fs)
      → Goes again
      → Held (at_dir found) s0 s
      → Ends (made l) s0 (follow_name who again found s)
  follow_name-Held again (dir, none) s next h = leave_dir-Held dir s h
  follow_name-Held again (dir, some i) s next h =
      bind-Ends (λ p. p ∷ l) (made l) s0 (enter_at who dir i s) again (enter_at-Held dir i s h)
        λ p s' h'. next p s' h'

  walk_on-Held :
      (p : ℕ) (name : List ℕ) (o : Option (List ℕ)) (again : List ℕ → (p : ℕ) → FsRun (Option ℕ))
      (s : Fs)
      → ((rest : List ℕ) → o ≡ some rest → Goes (again rest))
      → Held (p ∷ l) s0 s
      → Ends (made l) s0 (walk_on who p name o again s)
  walk_on-Held p name none again s next h = h
  walk_on-Held p name (some rest) again s next h =
      bind-Ends at_dir (made l) s0 (find_entry who p name s) (follow_name who (again rest))
        (find_entry-Held p name s h)
        λ found s' h'. follow_name-Held (again rest) found s' (next rest refl) h'

  walk-Held : (fuel : ℕ) (path : List ℕ) → length path < fuel → Goes (walk who fuel path)
  unfolding walk
  walk-Held zero path low p s h = let no : ⊥ = omega arith in elim no [ ]
  walk-Held (suc fuel) path low p s h =
      by_test (λ (m : FsRun (Option ℕ)). Ends (made l) s0 (m s)) (is_passable who (s.inode_table p))
        _ _
        (λ e.
          walk_on-Held p (next_name path).0 (next_name path).1 (walk who fuel) s
            (λ rest e'.
              let less = next_name_shorter path rest e' in walk-Held fuel rest (omega arith))
            h)
        (λ e. leave_dir-Held p s h)

  walk_from-Held :
      (path : List ℕ) (p : ℕ) (s : Fs) → Held l s0 s → Ends (made l) s0 (walk_from who path p s)
  walk_from-Held path p s h =
      bind-Ends (λ (_ : Unit {0}). p ∷ l) (made l) s0 (hold p s)
        (λ _. walk who (length path + 1) path p)
        (hold-Held l s0 s p (spare_less 1 2 l s0 (omega arith) spare) h)
        λ _ s' h'. walk-Held (length path + 1) path (omega arith) p s' h'

  start_walk-Held :
      (path : List ℕ) (s : Fs) → Held l s0 s → Ends (made l) s0 (start_walk who path s)
  start_walk-Held [] s h = h
  start_walk-Held (c ∷ path) s h =
      by_test (λ (m : FsRun (Option ℕ)). Ends (made l) s0 (m s)) (c == 47) _ _
        (λ e. walk_from-Held path who.root s h) (λ e. walk_from-Held (c ∷ path) who.pwd s h)

  pub get_dir-Held : (path : List ℕ) (s : Fs) → Held l s0 s → Ends (made l) s0 (get_dir who path s)
  unfolding get_dir
  get_dir-Held path s h =
      by_test (λ (m : FsRun (Option ℕ)). Ends (made l) s0 (m s)) (is_lost who s) _ _ (λ e. tt)
        (λ e. start_walk-Held path s h)

  found_name-Held :
      (found : ℕ × Option ℕ) (s : Fs)
      → Held (at_dir found) s0 s
      → Ends (made l) s0 (found_name who found s)
  found_name-Held (dir, none) s h = leave_dir-Held dir s h
  found_name-Held (dir, some i) s h =
      bind-Ends (λ p. p ∷ l) (made l) s0 (enter_at who dir i s) _ (enter_at-Held dir i s h)
        λ p s' h'.
          bind-Ends (λ (_ : Unit {0}). p ∷ l) (made l) s0 (change p (touch_atime who.now) s')
            (λ _. pure (some p)) (change-Held (p ∷ l) s0 s' p (touch_atime who.now) h')
            λ _ s'' h''. h''

  name_in-Held :
      (base : List ℕ) (o : Option ℕ) (s : Fs)
      → Held (made l o) s0 s
      → Ends (made l) s0 (name_in who base o s)
  name_in-Held base none s h = h
  name_in-Held base (some dir) s h =
      by_test (λ (m : FsRun (Option ℕ)). Ends (made l) s0 (m s)) (length base == 0) _ _ (λ e. h)
        λ e.
          bind-Ends at_dir (made l) s0 (find_entry who dir base s) (found_name who)
            (find_entry-Held dir base s h) λ found s' h'. found_name-Held found s' h'

  pub namei-Held : (path : List ℕ) (s : Fs) → Held l s0 s → Ends (made l) s0 (namei who path s)
  unfolding namei
  namei-Held path s h =
      bind-Ends (made l) (made l) s0 (get_dir who path s) (name_in who (basename path path))
        (get_dir-Held path s h) λ o s' h'. name_in-Held (basename path path) o s' h'

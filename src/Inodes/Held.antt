-- ===== src/Inodes/Held.antt =====
-- The inodes that a call holds, by the use counts of linux-0.11/fs/inode.c.
use learn_linux.Common.{
  ℕ, ◌+◌, ◌%◌, ◌≤◌, Bool, true, false, ◌≡◌, refl, ap, ◌∙◌, inl, inr, List, [], ◌∷◌, arith, ◌==◌,
  Bool-cases, if◌then◌else◌, update,
}
use learn_linux.Inodes.{
  Inode, Fs, Outcome, done, no_inodes, bad_put, stops, never_ends, no_fuel, FsRun, ◌>>=◌, change,
  hold,
}

-- How often the caller holds the inode j
abbrev pub times_in : (j : ℕ) → List ℕ → ℕ
times_in j [] = 0
times_in j (p ∷ l) = (if p == j then 1 else 0) + times_in j l

abbrev pub uses : Fs → (j : ℕ) → ℕ
uses s j = (s.inode_table j).i_count

-- Each inode has as many uses more than in s0 as it stands in the list.
abbrev pub Held : (l : List ℕ) (s0 s : Fs) → Type 0
Held l s0 s = (j : ℕ) → uses s j ≡ uses s0 j + times_in j l

-- A run from s0 that has a result holds the inodes of the list then; no run puts a free inode.
abbrev pub Ends : {A : Type 0} → (post : A → List ℕ) (s0 : Fs) → Outcome A → Type 0
Ends post s0 (done a s) = Held (post a) s0 s
Ends post s0 no_inodes = Unit
Ends post s0 bad_put = ⊥
Ends post s0 stops = Unit
Ends post s0 never_ends = Unit
Ends post s0 no_fuel = ⊥

pub bind-Ends :
    {A B : Type 0} (p : A → List ℕ) (q : B → List ℕ) (s0 : Fs) (o : Outcome A) (f : A → FsRun B)
    → Ends p s0 o
    → ((a : A) (s : Fs) → Held (p a) s0 s → Ends q s0 (f a s))
    → Ends q s0 (((λ _. o) >>= f) s0)
bind-Ends p q s0 (done a s) f h next = next a s h
bind-Ends p q s0 no_inodes f h next = tt
bind-Ends p q s0 bad_put f h next = h
bind-Ends p q s0 stops f h next = tt
bind-Ends p q s0 never_ends f h next = tt
bind-Ends p q s0 no_fuel f h next = h

-- A change of one inode that leaves its count
pub same_count :
    (l : List ℕ) (s0 s : Fs) (p : ℕ) (new : Inode)
    → new.i_count ≡ uses s p
    → Held l s0 s
    → (j : ℕ) → (update s.inode_table p new j).i_count ≡ uses s0 j + times_in j l
same_count l s0 s p new e h j = elim (Bool-cases (p == j)) [
  | inl here ↦ let same : p ≡ j = ground arith in rw here (e ∙ ap (uses s) same ∙ h j)
  | inr apart ↦ rw apart (h j)
]

pub one_more :
    (l : List ℕ) (s0 s : Fs) (p : ℕ) (new : Inode)
    → new.i_count ≡ uses s p + 1
    → Held l s0 s
    → (j : ℕ) → (update s.inode_table p new j).i_count ≡ uses s0 j + times_in j (p ∷ l)
one_more l s0 s p new e h j = elim (Bool-cases (p == j)) [
  | inl here ↦
      let same : p ≡ j = ground arith in
      let before : uses s p ≡ uses s0 j + times_in j l = ap (uses s) same ∙ h j in
      rw here (omega arith)
  | inr apart ↦ let before = h j in rw apart (omega arith)
]

pub one_less :
    (l : List ℕ) (s0 s : Fs) (p : ℕ) (new : Inode)
    → new.i_count + 1 ≡ uses s p
    → Held (p ∷ l) s0 s
    → (j : ℕ) → (update s.inode_table p new j).i_count ≡ uses s0 j + times_in j l
one_less l s0 s p new e h j = elim (Bool-cases (p == j)) [
  | inl here ↦
      let same : p ≡ j = ground arith in
      let before : uses s p ≡ uses s0 j + times_in j (p ∷ l) = ap (uses s) same ∙ h j in
      let before' : uses s p ≡ uses s0 j + (1 + times_in j l) = rw here at before in
      rw here (omega arith)
  | inr apart ↦ let before = rw apart at (h j) in rw apart (omega arith)
]

pub change-Held :
    (l : List ℕ) (s0 s : Fs) (p : ℕ) (f : Inode → Inode)
    → Held l s0 s
    → Ends (λ (_ : Unit {0}). l) s0 (change p f s)
change-Held l s0 s p f h = same_count l s0 s p _ refl h

-- Each inode can be used n times more than the list holds it: i_count is an unsigned short.
abbrev pub Room : (n : ℕ) (l : List ℕ) (s0 : Fs) → Type 0
Room n l s0 = (j : ℕ) → uses s0 j + times_in j l + n ≤ 65535

pub spare_less : (n m : ℕ) (l : List ℕ) (s0 : Fs) → n ≤ m → Room m l s0 → Room n l s0
spare_less n m l s0 le room j = let r = room j in omega arith

at_most_one : (b : Bool) → (if b then 1 else 0) ≤ 1
at_most_one true = omega arith
at_most_one false = omega arith

pub spare_cons : (n p : ℕ) (l : List ℕ) (s0 : Fs) → Room (n + 1) l s0 → Room n (p ∷ l) s0
spare_cons n p l s0 room j = let r = room j in let one = at_most_one (p == j) in omega arith

pub spare_two : (l : List ℕ) (s0 : Fs) → Room 3 l s0 → Room 2 l s0
spare_two l s0 = spare_less 2 3 l s0 (omega arith)

pub hold-Held :
    (l : List ℕ) (s0 s : Fs) (p : ℕ)
    → Room 1 l s0
    → Held l s0 s
    → Ends (λ (_ : Unit {0}). p ∷ l) s0 (hold p s)
hold-Held l s0 s p room h =
    let r = room p in
    let now = h p in
    let fits : (uses s p + 1) % 65536 ≡ uses s p + 1 = omega arith in one_more l s0 s p _ fits h

-- ===== src/Zones/Slots.antt =====
-- The places of _bmap of linux-0.11/fs/inode.c: slots, and the blocks on the way.
use learn_linux.Common.{
  ℕ, ◌≡◌, ◌≢◌, refl, sym, ap, ◌∙◌, Bool, true, false, not, ◌&&◌, ◌||◌, List, [], ◌∷◌, arith, ◌%◌,
  ◌<◌, ltb, ◌==◌, ==_refl, by_test, if◌then◌else◌,
}
use learn_linux.Zones.{File, Slot, in_inode, in_block, get, put, given}

-- The blocks of numbers on the way that are there
unfoldable pub trail : Slot → (ats : List ℕ) → File → List ℕ
trail s [] f = []
trail s (at ∷ ats) f =
    let z = get f s in
    let further = trail (in_block z at) ats f in if z == 0 then [] else z ∷ further

abbrev pub is_in : (x : ℕ) → List ℕ → Bool
is_in x [] = false
is_in x (y ∷ l) = x == y || is_in x l

abbrev pub all_differ : List ℕ → Bool
all_differ [] = true
all_differ (x ∷ l) = not (is_in x l) && all_differ l

-- Is the slot in a block of the list?
abbrev pub slot_in : Slot → List ℕ → Bool
slot_in (in_inode n) l = false
slot_in (in_block b at) l = is_in b l

pub or_false : (a b : Bool) → (a || b) ≡ false → (a ≡ false) × (b ≡ false)
or_false true b e = cc
or_false false b e = (refl, e)

and_true : (a b : Bool) → (a && b) ≡ true → (a ≡ true) × (b ≡ true)
and_true true b e = (refl, e)
and_true false b e = cc

pub slot_in-tail : (t : Slot) (z : ℕ) (l : List ℕ) → slot_in t (z ∷ l) ≡ false → slot_in t l ≡ false
slot_in-tail (in_inode n) z l e = refl
slot_in-tail (in_block b at) z l e = (or_false (b == z) (is_in b l) e).1

pub off_block : (t : Slot) (z at : ℕ) (l : List ℕ) → slot_in t (z ∷ l) ≡ false → t ≢ in_block z at
off_block t z at l out e =
    let here : slot_in (in_block z at) (z ∷ l) ≡ true = rw (==_refl z) refl in
    let there : slot_in t (z ∷ l) ≡ true = ap (λ x. slot_in x (z ∷ l)) e ∙ here in
    let no : ⊥ = ground arith in no

pub differ-head : (z : ℕ) (l : List ℕ) → all_differ (z ∷ l) ≡ true → is_in z l ≡ false
differ-head z l e = let h = (and_true (not (is_in z l)) (all_differ l) e).0 in ground arith

pub differ-tail : (z : ℕ) (l : List ℕ) → all_differ (z ∷ l) ≡ true → all_differ l ≡ true
differ-tail z l e = (and_true (not (is_in z l)) (all_differ l) e).1

pub trail-none : (ats : List ℕ) (s : Slot) (f : File) → get f s ≡ 0 → trail s ats f ≡ []
unfolding trail
trail-none [] s f e = refl
trail-none (at ∷ ats) s f e = ap (λ x. if x == 0 then [] else x ∷ trail (in_block x at) ats f) e

pub trail-some :
    (at : ℕ) (ats : List ℕ) (s : Slot) (f : File)
    → (get f s == 0) ≡ false
    → trail s (at ∷ ats) f ≡ get f s ∷ trail (in_block (get f s) at) ats f
unfolding trail
trail-some at ats s f e =
    by_test (λ l. l ≡ get f s ∷ trail (in_block (get f s) at) ats f) (get f s == 0) [] _
      (λ e'. let no : ⊥ = ground arith in elim no [ ]) (λ e'. refl)

-- Are all the numbers unsigned shorts?
abbrev pub all_short : List ℕ → Bool
all_short [] = true
all_short (z ∷ l) = ltb z 65536 && all_short l

pub short-head : (z : ℕ) (l : List ℕ) → all_short (z ∷ l) ≡ true → z < 65536
short-head z l e = let h = (and_true (ltb z 65536) (all_short l) e).0 in ground arith

pub short-tail : (z : ℕ) (l : List ℕ) → all_short (z ∷ l) ≡ true → all_short l ≡ true
short-tail z l e = (and_true (ltb z 65536) (all_short l) e).1

pub given_lem : (s : Slot) (z : ℕ) → z < 65536 → given s z ≡ z
given_lem (in_inode n) z low = omega arith
given_lem (in_block b at) z low = refl

-- A new block is cleared.
abbrev pub cleared : File → (z : ℕ) (rest : List ℕ) → File
cleared f z rest = record f { supply = rest; word = λ b at. if b == z then 0 else f.word b at }

module _ (now : ℕ) where
  pub get-put : (s : Slot) (z : ℕ) (f : File) → z < 65536 → get (put now s z f) s ≡ z
  get-put (in_inode n) z f low = rw (==_refl n) (omega arith)
  get-put (in_block b at) z f low = rw (==_refl b, ==_refl at) (omega arith)

  pub get-put_other : (s t : Slot) (z : ℕ) (f : File) → t ≢ s → get (put now s z f) t ≡ get f t
  get-put_other (in_inode n) (in_block b at) z f ne = refl
  get-put_other (in_block b at) (in_inode n) z f ne = refl
  get-put_other (in_inode n) (in_inode m) z f ne =
      by_test (λ x. x ≡ f.i_zone m) (n == m) (z % 65536) (f.i_zone m)
        (λ e.
          let same : n ≡ m = ground arith in let no = ne (ap in_inode (sym same)) in elim no [ ])
        (λ e. refl)
  get-put_other (in_block b at) (in_block b' at') z f ne =
      by_test (λ x. x ≡ f.word b' at') (b == b' && at == at') (z % 65536) (f.word b' at')
        (λ e.
          let (e1, e2) = and_true (b == b') (at == at') e in
          let same_block : b' ≡ b = ground arith in
          let same_at : at' ≡ at = ground arith in
          let no = ne (ap (λ x. in_block x at') same_block ∙ ap (λ x. in_block b x) same_at) in
          elim no [ ])
        (λ e. refl)

  get-cleared :
      (t : Slot) (f : File) (z : ℕ) (rest : List ℕ)
      → slot_in t (z ∷ rest) ≡ false
      → get (cleared f z rest) t ≡ get f t
  get-cleared (in_inode n) f z rest out = refl
  get-cleared (in_block b at) f z rest out =
      let other = (or_false (b == z) (is_in b rest) out).0 in rw other refl

  pub put-supply : (s : Slot) (z : ℕ) (f : File) → (put now s z f).supply ≡ f.supply
  put-supply (in_inode n) z f = refl
  put-supply (in_block b at) z f = refl

  pub get-given_other :
      (s t : Slot) (f : File) (z : ℕ) (rest : List ℕ)
      → t ≢ s
      → slot_in t (z ∷ rest) ≡ false
      → get (put now s z (cleared f z rest)) t ≡ get f t
  get-given_other s t f z rest ne out =
      get-put_other s t z (cleared f z rest) ne ∙ get-cleared t f z rest out

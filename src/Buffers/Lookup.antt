-- ===== src/Buffers/Lookup.antt =====
-- The searches of the buffer cache.
use learn_linux.Common.{
  ℕ, ◌≡◌, refl, ◌≢◌, ◌⊎◌, inl, inr, Bool, true, false, ◌&&◌, ◌||◌, Option, none, some, List, [],
  ◌∷◌, ◌++◌, arith, ◌==◌, Bool-cases,
}
use learn_linux.Buffers.{Buf, remove, is_block, find_in, badness, is_better, choose}

abbrev pub has : ℕ → List ℕ → Bool
has a [] = false
has a (x ∷ xs) = a == x || has a xs

pub has-remove : (a b : ℕ) (l : List ℕ) → (a == b) ≡ false → has a (remove b l) ≡ has a l
has-remove a b [] other = refl
has-remove a b (x ∷ xs) other = let ih = has-remove a b xs other in ground arith

pub has-append : (a : ℕ) (l m : List ℕ) → has a (l ++ m) ≡ has a l || has a m
has-append a [] m = refl
has-append a (x ∷ xs) m = let ih = has-append a xs m in ground arith

has-further : (b x : ℕ) (xs : List ℕ) → has b xs ≡ true → has b (x ∷ xs) ≡ true
has-further b x xs h = ground arith

has-first : (b x : ℕ) (xs : List ℕ) → some x ≡ some b → has b (x ∷ xs) ≡ true
has-first b x xs e = let same : x ≡ b = cc in ground arith

module _ (buf : ℕ → Buf) where
  pub find_in-some :
      (dev block : ℕ) (l : List ℕ) (b : ℕ)
      → find_in buf dev block l ≡ some b
      → is_block dev block (buf b) ≡ true
  unfolding find_in
  find_in-some dev block [] b e = cc
  find_in-some dev block (x ∷ xs) b e = elim (Bool-cases (is_block dev block (buf x))) [
    | inl here ↦
        let e' : some x ≡ some b = rw (here, find_in) at e in
        let same : x ≡ b = cc in rw same at here
    | inr other ↦ find_in-some dev block xs b (rw (other, find_in) at e)
  ]

  pub find_in-has :
      (dev block : ℕ) (l : List ℕ) (b : ℕ) → find_in buf dev block l ≡ some b → has b l ≡ true
  unfolding find_in
  find_in-has dev block [] b e = cc
  find_in-has dev block (x ∷ xs) b e = elim (Bool-cases (is_block dev block (buf x))) [
    | inl here ↦ has-first b x xs (rw (here, find_in) at e)
    | inr other ↦ has-further b x xs (find_in-has dev block xs b (rw (other, find_in) at e))
  ]

  pub find_in-none :
      (dev block : ℕ) (l : List ℕ) (b : ℕ)
      → find_in buf dev block l ≡ none
      → has b l ≡ true
      → is_block dev block (buf b) ≡ false
  unfolding find_in
  find_in-none dev block [] b e h = cc
  find_in-none dev block (x ∷ xs) b e h = elim (Bool-cases (is_block dev block (buf x))) [
    | inl here ↦ let e' : some x ≡ none = rw (here, find_in) at e in cc
    | inr other ↦ elim (Bool-cases (b == x)) [
      | inl same ↦ let e' : x ≡ b = ground arith in rw e' at other
      | inr apart ↦ find_in-none dev block xs b (rw (other, find_in) at e) (rw apart at h)
    ]
  ]

  -- Is the buffer unused, where there is one?
  abbrev pub is_unused : Option ℕ → Bool
  is_unused none = true
  is_unused (some b) = (buf b).b_count == 0

  pub choose-is_unused :
      (l : List ℕ) (best : Option ℕ) → is_unused best ≡ true → is_unused (choose buf l best) ≡ true
  unfolding choose
  choose-is_unused [] best h = h
  choose-is_unused (x ∷ xs) best h =
      elim (Bool-cases ((buf x).b_count == 0 && is_better buf x best)) [
        | inr worse ↦ rw worse (choose-is_unused xs best h)
        | inl better ↦
            let unused : (buf x).b_count == 0 ≡ true = ground arith in
            elim (Bool-cases (badness (buf x) == 0)) [
              | inl perfect ↦ rw (better, perfect) unused
              | inr poor ↦ rw (better, poor) (choose-is_unused xs (some x) unused)
            ]
      ]

  pub choose-has :
      (l : List ℕ) (best : Option ℕ) (b : ℕ)
      → choose buf l best ≡ some b
      → (best ≡ some b) ⊎ (has b l ≡ true)
  unfolding choose
  choose-has [] best b e = inl e
  choose-has (x ∷ xs) best b e =
      let further = λ (h : has b xs ≡ true). has-further b x xs h in
      elim (Bool-cases ((buf x).b_count == 0 && is_better buf x best)) [
        | inr worse ↦ elim (choose-has xs best b (rw (worse, choose) at e)) [
          | inl kept ↦ inl kept
          | inr later ↦ inr (further later)
        ]
        | inl better ↦ elim (Bool-cases (badness (buf x) == 0)) [
          | inl perfect ↦ inr (has-first b x xs (rw (better, perfect, choose) at e))
          | inr poor ↦ elim (choose-has xs (some x) b (rw (better, poor, choose) at e)) [
            | inl kept ↦ inr (has-first b x xs kept)
            | inr later ↦ inr (further later)
          ]
        ]
      ]

  pub choose-some : (l : List ℕ) (a : ℕ) → choose buf l (some a) ≢ none
  unfolding choose
  choose-some [] a e = cc
  choose-some (x ∷ xs) a e = elim (Bool-cases ((buf x).b_count == 0 && is_better buf x (some a))) [
    | inr worse ↦ choose-some xs a (rw (worse, choose) at e)
    | inl better ↦ elim (Bool-cases (badness (buf x) == 0)) [
      | inl perfect ↦ let e' : some x ≡ none = rw (better, perfect, choose) at e in cc
      | inr poor ↦ choose-some xs x (rw (better, poor, choose) at e)
    ]
  ]

  -- Where no buffer is chosen, every buffer of the list is in use.
  pub choose-none :
      (l : List ℕ) (b : ℕ)
      → choose buf l none ≡ none
      → has b l ≡ true
      → ((buf b).b_count == 0) ≡ false
  unfolding choose
  choose-none [] b e h = cc
  choose-none (x ∷ xs) b e h = elim (Bool-cases ((buf x).b_count == 0)) [
    | inl free ↦ elim (Bool-cases (badness (buf x) == 0)) [
      | inl perfect ↦ let e' : some x ≡ none = rw (free, perfect, choose) at e in cc
      | inr poor ↦ elim (choose-some xs x (rw (free, poor, choose) at e)) [ ]
    ]
    | inr used ↦ elim (Bool-cases (b == x)) [
      | inl same ↦ let e' : b ≡ x = ground arith in rw e' used
      | inr apart ↦ choose-none xs b (rw (used, choose) at e) (rw apart at h)
    ]
  ]

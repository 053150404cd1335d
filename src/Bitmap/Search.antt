-- ===== src/Bitmap/Search.antt =====
-- The search for a free bit in linux-0.11/fs/bitmap.c.
use mathlib.Core.Path.{subst}
use learn_linux.Common.{
  ℕ, zero, suc, ◌+◌, ◌*◌, ◌≤◌, ◌<◌, ◌≡◌, refl, sym, ◌∙◌, inl, inr, Bool, true, false, Option, none,
  some, arith, ◌==◌, ltb, Bool-cases,
}
use learn_linux.Bitmap.{Map, low_zero, zero_in_words, find_first_zero, Spot, spot_in, find_spot}

-- Of the n bits from `base` on, all below a place, or all of them, are set.
abbrev pub AllSet : (bits : ℕ → Bool) (base end : ℕ) → Type 0
AllSet bits base end = (q : ℕ) → base ≤ q → q < end → bits q ≡ true

-- What a search of the bits from `base` to `end` gives
pub data FirstZero (bits : ℕ → Bool) (base end : ℕ) : Option ℕ → Type 0 where
  first :
      {o : Option ℕ} (r : ℕ)
      → o ≡ some r
      → base ≤ r
      → r < end
      → bits r ≡ false
      → AllSet bits base r
      → FirstZero bits base end o
  full : {o : Option ℕ} → o ≡ none → AllSet bits base end → FirstZero bits base end o

module _ (bits : ℕ → Bool) where
  set_from : (base end : ℕ) → bits base ≡ true → AllSet bits (base + 1) end → AllSet bits base end
  set_from base end here rest q low high = elim (Bool-cases (q == base)) [
    | inl same ↦ let e : q ≡ base = ground arith in rw e here
    | inr apart ↦ rest q (ground arith) high
  ]

  set_up_to :
      (base middle end : ℕ)
      → AllSet bits base middle
      → AllSet bits middle end
      → AllSet bits base end
  set_up_to base middle end one two q low high = elim (Bool-cases (ltb q middle)) [
    | inl below ↦ one q low (ground arith)
    | inr past ↦ two q (ground arith) high
  ]

  none_between : (base : ℕ) → AllSet bits base base
  none_between base q low high = ground arith

  low_zero-FirstZero : (n base : ℕ) → FirstZero bits base (base + n) (low_zero bits base n)
  unfolding low_zero
  low_zero-FirstZero zero base = full refl (λ q low high. none_between base q low (omega arith))
  low_zero-FirstZero (suc n) base = elim (Bool-cases (bits base)) [
    | inr clear ↦ first base (rw clear refl) (omega arith) (omega arith) clear (none_between base)
    | inl set ↦ elim (low_zero-FirstZero n (base + 1)) [
      | first r e low high clear below ↦
          first r (rw set e) (omega arith) (omega arith) clear (set_from base r set below)
      | full e all ↦
          let all' : AllSet bits (base + 1) (base + suc n) =
            λ q low high. all q low (omega arith) in
          full (rw set e) (set_from base (base + suc n) set all')
    ]
  ]

  zero_in_words-FirstZero :
      (n base : ℕ) → FirstZero bits base (base + n * 32) (zero_in_words bits base n)
  unfolding zero_in_words
  zero_in_words-FirstZero zero base =
      full refl (λ q low high. none_between base q low (omega arith))
  zero_in_words-FirstZero (suc n) base = elim (low_zero-FirstZero 32 base) [
    | first r e low high clear below ↦ first r (rw e refl) low (omega arith) clear below
    | full e all ↦ elim (zero_in_words-FirstZero n (base + 32)) [
      | first r e' low high clear below ↦
          first r (rw e e') (omega arith) (omega arith) clear
            (set_up_to base (base + 32) r all below)
      | full e' all' ↦
          full (rw e e') (λ q low high. set_up_to base (base + 32) _ all all' q low (omega arith))
    ]
  ]

  pub find_first_zero-FirstZero : FirstZero bits 0 8192 (find_first_zero bits)
  unfolding find_first_zero
  find_first_zero-FirstZero = zero_in_words-FirstZero 256 0

-- Every bit of the bitmaps from i to `end` is set, where they are in memory.
abbrev pub Full : (zmap : ℕ → Option Map) (i end : ℕ) → Type 0
Full zmap i end = (h : ℕ) → i ≤ h → h < end → (m : Map) → zmap h ≡ some m → AllSet m.bits 0 8192

-- The first free bit of the bitmaps from i to `end`
pub data FirstSpot (zmap : ℕ → Option Map) (i end : ℕ) : Option Spot → Type 0 where
  spot :
      {o : Option Spot} (s : Spot)
      → o ≡ some s
      → i ≤ s.i
      → s.i < end
      → zmap s.i ≡ some s.map
      → s.j < 8192
      → s.map.bits s.j ≡ false
      → AllSet s.map.bits 0 s.j
      → Full zmap i s.i
      → FirstSpot zmap i end o
  none_free : {o : Option Spot} → o ≡ none → Full zmap i end → FirstSpot zmap i end o

same_map : (m m' : Map) → m ≡ m' → AllSet m.bits 0 8192 → AllSet m'.bits 0 8192
same_map m m' e all = subst (λ (x : Map). AllSet x.bits 0 8192) e all

module _ (zmap : ℕ → Option Map) where
  with_map :
      (i end : ℕ)
      → ((m : Map) → zmap i ≡ some m → AllSet m.bits 0 8192)
      → Full zmap (i + 1) end
      → Full zmap i end
  with_map i end here rest h low high m at = elim (Bool-cases (h == i)) [
    | inl same ↦ let e : h ≡ i = ground arith in here m (rw e at at)
    | inr apart ↦ rest h (ground arith) high m at
  ]

  join_maps : (i middle end : ℕ) → Full zmap i middle → Full zmap middle end → Full zmap i end
  join_maps i middle end one two h low high = elim (Bool-cases (ltb h middle)) [
    | inl below ↦ one h low (ground arith)
    | inr past ↦ two h (ground arith) high
  ]

  no_maps : (i : ℕ) → Full zmap i i
  no_maps i h low high m at = let no : ⊥ = omega arith in elim no [ ]

  -- The search in one bitmap
  spot_in-FirstSpot : (i : ℕ) (o : Option Map) → zmap i ≡ o → FirstSpot zmap i (i + 1) (spot_in i o)
  unfolding spot_in
  spot_in-FirstSpot i none e =
      none_free refl
        (with_map i (i + 1) (λ m at. let no : none ≡ some m = sym e ∙ at in cc) (no_maps (i + 1)))
  spot_in-FirstSpot i (some m) e = elim (find_first_zero-FirstZero m.bits) [
    | first r found low high clear below ↦
        spot record { i = i; j = r; map = m } (rw found refl) (omega arith) (omega arith) e high
          clear below (no_maps i)
    | full found all ↦ none_free (rw found refl) (
        with_map i (i + 1) (λ m' at. let same : m ≡ m' = cc in same_map m m' same all)
          (no_maps (i + 1)))
  ]

  pub find_spot-FirstSpot : (n i : ℕ) → FirstSpot zmap i (i + n) (find_spot zmap i n)
  unfolding find_spot
  find_spot-FirstSpot zero i = none_free refl (λ h low high. no_maps i h low (omega arith))
  find_spot-FirstSpot (suc n) i = elim (spot_in-FirstSpot i (zmap i) refl) [
    | spot s e low high here j_lt clear below before ↦
        spot s (rw e refl) low (omega arith) here j_lt clear below before
    | none_free e all ↦ elim (find_spot-FirstSpot n (i + 1)) [
      | spot s e' low high here j_lt clear below before ↦
          spot s (rw e e') (omega arith) (omega arith) here j_lt clear below
            (join_maps i (i + 1) s.i all before)
      | none_free e' all' ↦
          none_free (rw e e') (λ h low high. join_maps i (i + 1) _ all all' h low (omega arith))
    ]
  ]

-- What is known of a bit that was found
abbrev pub IsFree : (zmap : ℕ → Option Map) (end : ℕ) → Spot → Type 0
IsFree zmap end s = (s.i < end) × (zmap s.i ≡ some s.map) × (s.j < 8192) × (s.map.bits s.j ≡ false)

pub spot-IsFree :
    (zmap : ℕ → Option Map) (i end : ℕ) (s : Spot)
    → FirstSpot zmap i end (some s)
    → IsFree zmap end s
spot-IsFree zmap i end s (none_free e all) = cc
spot-IsFree zmap i end s (spot s' e low high here j_lt clear below before) =
    let same : s' ≡ s = cc in subst (IsFree zmap end) same (high, here, j_lt, clear)

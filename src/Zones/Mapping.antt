-- ===== src/Zones/Mapping.antt =====
-- _bmap of linux-0.11/fs/inode.c with and without `create`.
use learn_linux.Common.{
  ℕ, ◌+◌, ◌*◌, ◌≡◌, ◌≢◌, refl, sym, ap, ◌∙◌, Bool, true, false, Option, none, some, List, [], ◌∷◌,
  ◌++◌, arith, ◌==◌, ==_refl, by_test, leb, if◌then◌else◌,
}
use mathlib.Core.Path.{subst}
use learn_linux.Zones.{
  File, Slot, in_block, get, put, fill_slot, slot, follow_slots, way_to, map_block,
}
use learn_linux.Zones.Slots.{
  trail, is_in, all_differ, slot_in, or_false, slot_in-tail, off_block, differ-head, differ-tail,
  all_short, short-head, short-tail, given_lem, trail-none, trail-some, get-put, get-put_other,
  put-supply, cleared, get-given_other,
}

-- Along the way the blocks are different from one another and from those that new_block would give.
abbrev pub Clear : Slot → (ats : List ℕ) → File → Type 0
Clear s ats f =
    (all_short f.supply ≡ true)
    × (is_in 0 f.supply ≡ false)
    × (slot_in s (trail s ats f ++ f.supply) ≡ false)
    × (all_differ (trail s ats f ++ f.supply) ≡ true)

-- What the first run can read, the second one can.
module _ (now : ℕ) (bad bad' : ℕ → Bool) (kept : (b : ℕ) → bad b ≡ false → bad' b ≡ false) where
  -- What has been made on the way is found again, and every slot off the way, in a block that new_block
  -- would not give, is as before.
  abbrev Made : Slot → (ats : List ℕ) → File → ℕ × File → Type 0
  Made s ats f (r, f') =
      (r ≢ 0 → follow_slots bad' false now s ats f' ≡ (r, f'))
      × ((t : Slot) → t ≢ s → slot_in t (trail s ats f ++ f.supply) ≡ false → get f' t ≡ get f t)

  fill_slot-Made :
      (s : Slot) (f : File) (supply : List ℕ)
      → get f s ≡ 0
      → f.supply ≡ supply
      → all_short supply ≡ true
      → Made s [] f (fill_slot now s supply f)
  unfolding follow_slots trail
  fill_slot-Made s f [] empty e short = ((λ no. let z = no refl in elim z [ ]), λ t ne out. refl)
  fill_slot-Made s f (z ∷ rest) empty e short =
      let f1 = put now s z (cleared f z rest) in
      (
        (λ real.
            let low = short-head z rest short in
            ap (λ x. (x, f1)) (get-put now s z (cleared f z rest) low ∙ sym (given_lem s z low))),
        (λ t ne out. get-given_other now s t f z rest ne (ap (slot_in t) (sym e) ∙ out)),
      )

  slot-Made : (s : Slot) (f : File) → all_short f.supply ≡ true → Made s [] f (slot true now s f)
  unfolding follow_slots
  slot-Made s f short =
      by_test (Made s [] f) (get f s == 0) _ _
        (λ empty. fill_slot-Made s f f.supply (ground arith) refl short)
        (λ full. ((λ real. refl), λ t ne out. refl))

  -- What the further slots make is made on the way from s.
  module _ (s : Slot) (at : ℕ) (ats : List ℕ) (f f1 : File) (z : ℕ) (real : (z == 0) ≡ false)
      (readable : bad z ≡ false) (here : get f1 s ≡ z)
      (apart : slot_in s (z ∷ (trail (in_block z at) ats f1 ++ f1.supply)) ≡ false)
      (same : (t : Slot)
        → t ≢ s
        → slot_in t (trail s (at ∷ ats) f ++ f.supply) ≡ false
        → (get f1 t ≡ get f t)
          × (slot_in t (z ∷ (trail (in_block z at) ats f1 ++ f1.supply)) ≡ false)) where
    abbrev busy : List ℕ
    busy = trail (in_block z at) ats f1 ++ f1.supply

    extend-Made : (r : ℕ × File) → Made (in_block z at) ats f1 r → Made s (at ∷ ats) f r
    unfolding follow_slots
    extend-Made (r, f') (found, frame) =
        let unchanged : get f' s ≡ z =
          frame s (off_block s z at busy apart) (slot_in-tail s z busy apart) ∙ here in
        let first : follow_slots bad' false now s (at ∷ ats) f'
            ≡ follow_slots bad' false now (in_block z at) ats f' =
          ap
            (λ x.
              if x == 0
              then (0, f')
              else (if bad' x then (0, f') else follow_slots bad' false now (in_block x at) ats f'))
            unchanged
          ∙ rw (real, kept z readable) refl in
        (
          (λ nz. first ∙ found nz),
          (λ t ne out.
              let (before, off) = same t ne out in
              frame t (off_block t z at busy off) (slot_in-tail t z busy off) ∙ before),
        )

  abbrev go : (at : ℕ) (ats : List ℕ) → ℕ × File → ℕ × File
  go at ats m =
      if m.0 == 0
      then (0, m.1)
      else (if bad m.0 then (0, m.1) else follow_slots bad true now (in_block m.0 at) ats m.1)

  module _ (at : ℕ) (ats : List ℕ)
      (further : (s : Slot) (f : File)
        → Clear s ats f
        → Made s ats f (follow_slots bad true now s ats f)) where
    full-Made :
        (s : Slot) (f : File)
        → (get f s == 0) ≡ false
        → Clear s (at ∷ ats) f
        → Made s (at ∷ ats) f (go at ats (get f s, f))
    full-Made s f full (short, real, out, differ) =
        let z = get f s in
        let l = trail (in_block z at) ats f ++ f.supply in
        let way : trail s (at ∷ ats) f ++ f.supply ≡ z ∷ l =
          ap (λ x. x ++ f.supply) (trail-some at ats s f full) in
        let differ' : all_differ (z ∷ l) ≡ true = ap all_differ (sym way) ∙ differ in
        by_test (Made s (at ∷ ats) f) (z == 0) _ _ (λ e. let no : ⊥ = ground arith in elim no [ ])
          λ nz.
            by_test (Made s (at ∷ ats) f) (bad z) _ _
              (λ e. ((λ no. let z' = no refl in elim z' [ ]), λ t ne o. refl))
              λ ok.
                extend-Made s at ats f f z nz ok refl (ap (slot_in s) (sym way) ∙ out)
                  (λ t ne o. (refl, ap (slot_in t) (sym way) ∙ o)) _
                  (further (in_block z at) f
                    (short, real, differ-head z l differ', differ-tail z l differ'))

    new-Made :
        (s : Slot) (f : File) (z : ℕ) (rest : List ℕ)
        → f.supply ≡ z ∷ rest
        → get f s ≡ 0
        → Clear s (at ∷ ats) f
        → Made s (at ∷ ats) f (go at ats (z, put now s z (cleared f z rest)))
    new-Made s f z rest e empty (short, real, out, differ) =
        let f1 = put now s z (cleared f z rest) in
        let s1 = in_block z at in
        let way : trail s (at ∷ ats) f ++ f.supply ≡ z ∷ rest =
          ap (λ x. x ++ f.supply) (trail-none (at ∷ ats) s f empty) ∙ e in
        let out' : slot_in s (z ∷ rest) ≡ false = ap (slot_in s) (sym way) ∙ out in
        let differ' : all_differ (z ∷ rest) ≡ true = ap all_differ (sym way) ∙ differ in
        let short' : all_short (z ∷ rest) ≡ true = ap all_short (sym e) ∙ short in
        let low = short-head z rest short' in
        let real' : is_in 0 (z ∷ rest) ≡ false = ap (is_in 0) (sym e) ∙ real in
        let ne : s ≢ s1 = off_block s z at rest out' in
        let zeros : get f1 s1 ≡ 0 =
          get-put_other now s s1 z (cleared f z rest) (λ e'. ne (sym e')) ∙ (rw (==_refl z) refl) in
        let way1 : trail s1 ats f1 ++ f1.supply ≡ rest =
          ap (λ x. x ++ f1.supply) (trail-none ats s1 f1 zeros)
          ∙ put-supply now s z (cleared f z rest) in
        let l = trail s1 ats f1 ++ f1.supply in
        let on : (t : Slot) → slot_in t (z ∷ rest) ≡ false → slot_in t (z ∷ l) ≡ false =
          λ t o. ap (λ x. slot_in t (z ∷ x)) way1 ∙ o in
        by_test (Made s (at ∷ ats) f) (z == 0) _ _
          (λ e'.
            let h = (or_false (0 == z) (is_in 0 rest) real').0 in
            let no : ⊥ = ground arith in elim no [ ])
          λ nz.
            by_test (Made s (at ∷ ats) f) (bad z) _ _
              (λ e'. (
                (λ no. let z' = no refl in elim z' [ ]),
                (λ t ne' o. get-given_other now s t f z rest ne' (ap (slot_in t) (sym way) ∙ o)),
              ))
              λ ok.
                extend-Made s at ats f f1 z nz ok (get-put now s z (cleared f z rest) low)
                  (on s out')
                  (λ t ne' o.
                    let o' : slot_in t (z ∷ rest) ≡ false = ap (slot_in t) (sym way) ∙ o in
                    (get-given_other now s t f z rest ne' o', on t o'))
                  _
                  (further s1 f1 (
                    ap all_short (put-supply now s z (cleared f z rest)) ∙ short-tail z rest short',
                    ap (is_in 0) (put-supply now s z (cleared f z rest))
                        ∙ (or_false (0 == z) (is_in 0 rest) real').1,
                    ap (is_in z) way1 ∙ differ-head z rest differ',
                    ap all_differ way1 ∙ differ-tail z rest differ',
                  ))

    empty-Made :
        (s : Slot) (f : File) (supply : List ℕ)
        → f.supply ≡ supply
        → get f s ≡ 0
        → Clear s (at ∷ ats) f
        → Made s (at ∷ ats) f (go at ats (fill_slot now s supply f))
    empty-Made s f [] e empty clear = ((λ no. let z = no refl in elim z [ ]), λ t ne out. refl)
    empty-Made s f (z ∷ rest) e empty clear =
        let f1 = put now s z (cleared f z rest) in
        let low = short-head z rest (ap all_short (sym e) ∙ clear.0) in
        subst (λ x. Made s (at ∷ ats) f (go at ats (x, f1))) (sym (given_lem s z low))
          (new-Made s f z rest e empty clear)

  follow_slots-Made :
      (ats : List ℕ) (s : Slot) (f : File)
      → Clear s ats f
      → Made s ats f (follow_slots bad true now s ats f)
  unfolding follow_slots
  follow_slots-Made [] s f clear = slot-Made s f clear.0
  follow_slots-Made (at ∷ ats) s f clear =
      by_test (λ m. Made s (at ∷ ats) f (go at ats m)) (get f s == 0) _ _
        (λ empty. empty-Made at ats (follow_slots-Made ats) s f f.supply refl (ground arith) clear)
        (λ full. full-Made at ats (follow_slots-Made ats) s f full clear)

abbrev out_of : (r : ℕ × File) → Option (ℕ × File) → ℕ × File
out_of r none = r
out_of r (some x) = x

-- If _bmap with `create` gives a block of the disk for a block of a file, where the blocks of
-- numbers on the way and those that new_block would give are all different, the latter are unsigned
-- shorts and none of them is 0, then bmap finds the same block there afterwards and changes nothing,
-- if it can read every block of numbers that _bmap could; and every other number in the inode, and
-- every number in a block that is neither on the way nor one that new_block would give, is as it
-- was.
pub map_block-map_block :
    (now block z : ℕ) (bad bad' : ℕ → Bool) (f f' : File)
    → ((b : ℕ) → bad b ≡ false → bad' b ≡ false)
    → Clear (way_to block).0 (way_to block).1 f
    → map_block bad true now block f ≡ some (z, f')
    → z ≢ 0
    → (map_block bad' false now block f' ≡ some (z, f'))
      × ((t : Slot)
          → t ≢ (way_to block).0
          → slot_in t (trail (way_to block).0 (way_to block).1 f ++ f.supply) ≡ false
          → get f' t ≡ get f t)
unfolding map_block
map_block-map_block now block z bad bad' f f' can_read clear made nz =
    let (s, ats) = way_to block in
    let Kept : Type 0 =
      (t : Slot) → t ≢ s → slot_in t (trail s ats f ++ f.supply) ≡ false → get f' t ≡ get f t in
    let Found : Bool → Type 0 = λ big.
      (if big then none else some (follow_slots bad true now s ats f)) ≡ some (z, f')
      → ((if big then none else some (follow_slots bad' false now s ats f')) ≡ some (z, f'))
        × Kept in
    let either : (big : Bool) → Found big = λ big. elim big as Found [
      | true ↦ λ e. cc
      | false ↦ λ e.
          let same : follow_slots bad true now s ats f ≡ (z, f') = ap (out_of (z, f')) e in
          let (found, kept) =
            subst (Made now bad bad' can_read s ats f) same
              (follow_slots-Made now bad bad' can_read ats s f clear) in
          (ap some (found nz), kept)
    ] in
    either (leb (7 + 512 + 512 * 512) block) made

-- ===== src/Console/Bounds.antt =====
-- The cursor and the screen stay in their bounds.
use native.Mathlib.Nat.{add-mul}
use learn_linux.Common.{
  ℕ, zero, suc, ◌+◌, ◌-◌, ◌*◌, ◌≤◌, ◌<◌, ◌≡◌, refl, ap, ◌∙◌, arith, false, ◌&&◌, ◌||◌, ◌==◌, ltb,
  leb, Bool-cases, inl, inr,
}
use learn_linux.Console.{
  Video, Console, gotoxy, scrup, next_row, rewind, scrdown, lf, ri, cr, back, del, insert_line,
  delete_line, from_cursor, region_of, repeat,
}

-- A display with rows of at least eight columns, and video memory for all lines.
pub record IsVideo (v : Video) : Type 0 where
  pub row : v.size_row ≡ v.num_columns * 2
  pub columns : 8 ≤ v.num_columns
  pub fits : v.mem_start + v.num_lines * v.size_row ≤ v.mem_end

-- The cursor is on a line, in a column or just past the last one; `pos` is its address; the screen is
-- within video memory; and the scrolling region is a region of lines.
pub record IsPlaced (v : Video) (x y pos origin scr_end top bottom : ℕ) : Type 0 where
  pub x_le : x ≤ v.num_columns
  pub y_lt : y < v.num_lines
  pub pos_at : pos ≡ origin + y * v.size_row + x * 2
  pub end_at : scr_end ≡ origin + v.num_lines * v.size_row
  pub from_start : v.mem_start ≤ origin
  pub to_end : scr_end ≤ v.mem_end
  pub region : top < bottom
  pub region_le : bottom ≤ v.num_lines

abbrev pub IsConsole : Video → Console → Type 0
IsConsole v c = IsPlaced v c.x c.y c.pos c.origin c.scr_end c.top c.bottom

module _ (v : Video) (iv : IsVideo v) where
  pub gotoxy-IsConsole :
      (new_x new_y : ℕ) (c : Console) → IsConsole v c → IsConsole v (gotoxy v new_x new_y c)
  gotoxy-IsConsole new_x new_y c i =
      elim (Bool-cases (ltb v.num_columns new_x || leb v.num_lines new_y)) [
        | inl out ↦ rw out i
        | inr inside ↦ rw inside (record {
          x_le = ground arith;
          y_lt = ground arith;
          pos_at = refl;
          end_at = i.end_at;
          from_start = i.from_start;
          to_end = i.to_end;
          region = i.region;
          region_le = i.region_le;
        })
      ]

  rewind-IsConsole : (c : Console) → IsConsole v c → IsConsole v (rewind v (next_row v c))
  rewind-IsConsole c i =
      let b = iv.fits in
      let p = i.pos_at in
      let s = i.from_start in
      let e = i.end_at in
      record {
        x_le = i.x_le;
        y_lt = i.y_lt;
        pos_at = omega arith;
        end_at = omega arith;
        from_start = omega arith;
        to_end = omega arith;
        region = i.region;
        region_le = i.region_le;
      }

  next_row-IsConsole :
      (c : Console)
      → ltb v.mem_end (c.scr_end + v.size_row) ≡ false
      → IsConsole v c
      → IsConsole v (next_row v c)
  next_row-IsConsole c room i =
      let s = i.from_start in
      let p = i.pos_at in
      let e = i.end_at in
      record {
        x_le = i.x_le;
        y_lt = i.y_lt;
        pos_at = omega arith;
        end_at = omega arith;
        from_start = omega arith;
        to_end = ground arith;
        region = i.region;
        region_le = i.region_le;
      }

  pub scrup-IsConsole : (c : Console) → IsConsole v c → IsConsole v (scrup v c)
  unfolding scrup
  scrup-IsConsole c i = elim (Bool-cases (v.is_ega && (c.top == 0 && c.bottom == v.num_lines))) [
    | inr part ↦ rw part i
    | inl whole ↦ elim (Bool-cases (ltb v.mem_end (c.scr_end + v.size_row))) [
      | inl past ↦ rw (whole, past) (rewind-IsConsole c i)
      | inr room ↦ rw (whole, room) (next_row-IsConsole c room i)
    ]
  ]

  pub scrdown-IsConsole : (c : Console) → IsConsole v c → IsConsole v (scrdown v c)
  unfolding scrdown
  scrdown-IsConsole c i = i

  -- A move of the cursor within its bounds.
  pub moved :
      (c : Console) (x y pos : ℕ)
      → x ≤ v.num_columns
      → y < v.num_lines
      → pos ≡ c.origin + y * v.size_row + x * 2
      → IsConsole v c
      → IsPlaced v x y pos c.origin c.scr_end c.top c.bottom
  moved c x y pos x_ok y_ok pos_ok i = record {
    x_le = x_ok;
    y_lt = y_ok;
    pos_at = pos_ok;
    end_at = i.end_at;
    from_start = i.from_start;
    to_end = i.to_end;
    region = i.region;
    region_le = i.region_le;
  }

  pub lf-IsConsole : (c : Console) → IsConsole v c → IsConsole v (lf v c)
  unfolding lf
  lf-IsConsole c i = elim (Bool-cases (ltb (c.y + 1) c.bottom)) [
    | inr last ↦ rw last (scrup-IsConsole c i)
    | inl inside ↦
        let m = add-mul c.y 1 v.size_row in
        let p = i.pos_at in
        let b = i.region_le in
        let low : c.y + 1 < v.num_lines = ground arith in
        rw inside (moved c c.x (c.y + 1) (c.pos + v.size_row) i.x_le low (omega arith) i)
  ]

  pub lf-x : (c : Console) → (lf v c).x ≡ c.x
  unfolding lf scrup
  lf-x c = elim (Bool-cases (ltb (c.y + 1) c.bottom)) [
    | inl inside ↦ rw inside refl
    | inr last ↦ elim (Bool-cases (v.is_ega && (c.top == 0 && c.bottom == v.num_lines))) [
      | inr part ↦ rw (last, part) refl
      | inl whole ↦ elim (Bool-cases (ltb v.mem_end (c.scr_end + v.size_row))) [
        | inl past ↦ rw (last, whole, past) refl
        | inr room ↦ rw (last, whole, room) refl
      ]
    ]
  ]

  pub ri-IsConsole : (c : Console) → IsConsole v c → IsConsole v (ri v c)
  unfolding ri
  ri-IsConsole c i = elim (Bool-cases (ltb c.top c.y)) [
    | inr first ↦ rw first (scrdown-IsConsole c i)
    | inl inside ↦
        let pred : c.y ≡ c.y - 1 + 1 = ground arith in
        let m = ap (λ (n : ℕ). n * v.size_row) pred ∙ add-mul (c.y - 1) 1 v.size_row in
        let p = i.pos_at in
        let low : c.y - 1 < v.num_lines = omega (arith, i.y_lt) in
        rw inside (moved c c.x (c.y - 1) (c.pos - v.size_row) i.x_le low (omega arith) i)
  ]

  -- To an earlier column of the row, n columns back.
  column_back :
      (c : Console) (n : ℕ)
      → n ≤ c.x
      → IsConsole v c
      → IsPlaced v (c.x - n) c.y (c.pos - n * 2) c.origin c.scr_end c.top c.bottom
  column_back c n low i =
      let p = i.pos_at in
      moved c (c.x - n) c.y (c.pos - n * 2) (omega (arith, i.x_le)) i.y_lt (omega arith) i

  pub cr-IsConsole : (c : Console) → IsConsole v c → IsConsole v (cr c)
  cr-IsConsole c i =
      let zero_x : c.x - c.x ≡ 0 = omega arith in rw zero_x at (column_back c c.x (omega arith) i)

  pub back-IsConsole : (c : Console) → (c.x == 0) ≡ false → IsConsole v c → IsConsole v (back c)
  back-IsConsole c some_x i = column_back c 1 (ground arith) i

  pub del-IsConsole : (c : Console) → IsConsole v c → IsConsole v (del v c)
  del-IsConsole c i = elim (Bool-cases (c.x == 0)) [
    | inl start ↦ rw start i
    | inr some_x ↦ rw some_x (back-IsConsole c some_x i)
  ]

  pub insert_line-IsConsole : (c : Console) → IsConsole v c → IsConsole v (insert_line v c)
  unfolding insert_line
  insert_line-IsConsole c i = i

  -- The region is put back after the scrolling.
  region_back : (c d : Console) → IsConsole v c → IsConsole v d → IsConsole v (region_of c d)
  region_back c d i j = record {
    x_le = j.x_le;
    y_lt = j.y_lt;
    pos_at = j.pos_at;
    end_at = j.end_at;
    from_start = j.from_start;
    to_end = j.to_end;
    region = i.region;
    region_le = i.region_le;
  }

  from_cursor-IsConsole : (c : Console) → IsConsole v c → IsConsole v (from_cursor v.num_lines c)
  from_cursor-IsConsole c i = record {
    x_le = i.x_le;
    y_lt = i.y_lt;
    pos_at = i.pos_at;
    end_at = i.end_at;
    from_start = i.from_start;
    to_end = i.to_end;
    region = i.y_lt;
    region_le = omega arith;
  }

  pub delete_line-IsConsole : (c : Console) → IsConsole v c → IsConsole v (delete_line v c)
  unfolding delete_line
  delete_line-IsConsole c i =
      region_back c (scrup v (from_cursor v.num_lines c)) i
        (scrup-IsConsole (from_cursor v.num_lines c) (from_cursor-IsConsole c i))

  pub repeat-IsConsole :
      (f : Console → Console)
      → ((c : Console) → IsConsole v c → IsConsole v (f c))
      → (n : ℕ) (c : Console) → IsConsole v c
      → IsConsole v (repeat f n c)
  repeat-IsConsole f keeps zero c i = i
  repeat-IsConsole f keeps (suc n) c i = repeat-IsConsole f keeps n (f c) (keeps c i)

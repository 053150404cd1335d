-- ===== src/Console.antt =====
-- linux-0.11/kernel/chr_drv/console.c: the screen. The words of video memory are a function of their
-- address. The moves by `rep movsl` and the fills by `rep stosw` are written by their effect. The
-- cursor's and the origin's registers in the video chip follow `pos` and `origin` and are left out.
pub mod Escape
pub mod Bounds
pub mod Chars
pub mod Moves
pub mod Writes
mod Tests
use learn_linux.Common.{
  ℕ, zero, suc, ◌+◌, ◌-◌, ◌*◌, ◌/◌, ◌%◌, ◌^◌, Bool, true, false, not, ◌&&◌, ◌||◌, List, [], ◌∷◌,
  ◌++◌, ◌==◌, ltb, leb, if◌then◌else◌,
}

-- What `con_init` sets and nothing changes later.
pub record Video : Type 0 where
  pub is_ega : Bool
  pub num_columns : ℕ
  pub size_row : ℕ
  pub num_lines : ℕ
  pub mem_start : ℕ
  pub mem_end : ℕ
  pub erase_char : ℕ

pub record Console : Type 0 where
  pub mem : ℕ → ℕ
  pub origin : ℕ
  pub scr_end : ℕ
  pub pos : ℕ
  pub x : ℕ
  pub y : ℕ
  pub top : ℕ
  pub bottom : ℕ
  pub state : ℕ
  pub npar : ℕ
  pub par : ℕ → ℕ
  pub ques : Bool
  pub attr : ℕ
  pub saved_x : ℕ
  pub saved_y : ℕ
  pub beepcount : ℕ
  pub answers : List ℕ

-- `dwords` double words are moved from src to dst; the blocks may overlap.
abbrev pub move : (dst src dwords : ℕ) → (ℕ → ℕ) → ℕ → ℕ
move dst src dwords mem a =
    if leb dst a && ltb a (dst + 4 * dwords) then mem (src + (a - dst)) else mem a

-- `words` words from dst on are set.
abbrev pub fill : (dst words value : ℕ) → (ℕ → ℕ) → ℕ → ℕ
fill dst words value mem a = if leb dst a && ltb a (dst + 2 * words) then value else mem a

abbrev pub store_word : (a value : ℕ) → Console → Console
store_word a value c = record c { mem = fill a 1 value c.mem }

abbrev pub cr : Console → Console
cr c = record c { pos = c.pos - c.x * 2; x = 0 }

abbrev pub back : Console → Console
back c = record c { pos = c.pos - 2; x = c.x - 1 }

-- The words from the cursor to the end of the row, i columns on, move right by one.
unfoldable pub insert_from : (n p old : ℕ) → (ℕ → ℕ) → ℕ → ℕ
insert_from zero p old mem = mem
insert_from (suc n) p old mem = insert_from n (p + 2) (mem p) (fill p 1 old mem)

-- The region is the rows from the cursor's on while the rows are moved.
abbrev pub from_cursor : (num_lines : ℕ) → Console → Console
from_cursor num_lines c = record c { top = c.y; bottom = num_lines }

abbrev pub region_of : (old c : Console) → Console
region_of old c = record c { top = old.top; bottom = old.bottom }

abbrev pub repeat : (Console → Console) → (nr : ℕ) → Console → Console
repeat f zero c = c
repeat f (suc nr) c = repeat f nr (f c)

-- A count of 0 stands for 1, and none is above the bound.
abbrev pub count : (bound nr : ℕ) → ℕ
count bound nr = if ltb bound nr then bound else if nr == 0 then 1 else nr

abbrev pub save_cur : Console → Console
save_cur c = record c { saved_x = c.x; saved_y = c.y }

module _ (v : Video) where
  abbrev pub gotoxy : (new_x new_y : ℕ) → Console → Console
  gotoxy new_x new_y c =
      if ltb v.num_columns new_x || leb v.num_lines new_y
      then c
      else record c { x = new_x; y = new_y; pos = c.origin + new_y * v.size_row + new_x * 2 }

  -- The rows of the region but the first go up by one, and the last is erased.
  abbrev pub region_up : Console → Console
  region_up c =
      let dwords = (c.bottom - c.top - 1) * v.num_columns / 2 in
      let dst = c.origin + v.size_row * c.top in
      record c {
        mem =
            fill (dst + 4 * dwords) v.num_columns v.erase_char
              (move dst (c.origin + v.size_row * (c.top + 1)) dwords c.mem);
      }

  -- The whole screen goes back to the start of video memory.
  abbrev pub rewind : Console → Console
  rewind c =
      let dwords = (v.num_lines - 1) * v.num_columns / 2 in
      record c {
        mem =
            fill (v.mem_start + 4 * dwords) v.num_columns v.erase_char
              (move v.mem_start c.origin dwords c.mem);
        scr_end = c.scr_end - (c.origin - v.mem_start);
        pos = c.pos - (c.origin - v.mem_start);
        origin = v.mem_start;
      }

  abbrev pub erase_last_row : Console → Console
  erase_last_row c = record c {
    mem = fill (c.scr_end - v.size_row) v.num_columns v.erase_char c.mem;
  }

  -- The origin goes down by a row.
  abbrev pub next_row : Console → Console
  next_row c = record c {
    origin = c.origin + v.size_row;
    pos = c.pos + v.size_row;
    scr_end = c.scr_end + v.size_row;
  }

  abbrev pub scroll_origin : Console → Console
  scroll_origin c = if ltb v.mem_end c.scr_end then rewind c else erase_last_row c

  unfoldable pub scrup : Console → Console
  scrup c =
      if v.is_ega && (c.top == 0 && c.bottom == v.num_lines)
      then scroll_origin (next_row c)
      else region_up c

  -- Both kinds of display move the rows in the same way. The moves go down from the end.
  unfoldable pub scrdown : Console → Console
  scrdown c =
      let dwords = (c.bottom - c.top - 1) * v.num_columns / 2 in
      let end = c.origin + v.size_row * c.bottom in
      record c {
        mem =
            fill (end - 4 * dwords - 2 * v.num_columns) v.num_columns v.erase_char
              (move (end - 4 * dwords) (end - v.size_row - 4 * dwords) dwords c.mem);
      }

  unfoldable pub lf : Console → Console
  unfolding scrup
  lf c =
      if ltb (c.y + 1) c.bottom then record c { y = c.y + 1; pos = c.pos + v.size_row } else scrup c

  unfoldable pub ri : Console → Console
  unfolding scrdown
  ri c = if ltb c.top c.y then record c { y = c.y - 1; pos = c.pos - v.size_row } else scrdown c

  abbrev pub del : Console → Console
  del c = if c.x == 0 then c else store_word (c.pos - 2) v.erase_char (back c)

  unfoldable pub csi_J : (par : ℕ) → Console → Console
  csi_J par c =
      if par == 0
      then record c { mem = fill c.pos ((c.scr_end - c.pos) / 2) v.erase_char c.mem }
      else if par == 1
      then record c { mem = fill c.origin ((c.pos - c.origin) / 2) v.erase_char c.mem }
      else if par == 2
      then record c { mem = fill c.origin (v.num_columns * v.num_lines) v.erase_char c.mem }
      else c

  unfoldable pub csi_K : (par : ℕ) → Console → Console
  csi_K par c =
      if par == 0
      then (if leb v.num_columns c.x
          then c
          else record c { mem = fill c.pos (v.num_columns - c.x) v.erase_char c.mem })
      else if par == 1
      then record c {
        mem =
            fill (c.pos - c.x * 2) (if ltb c.x v.num_columns then c.x else v.num_columns)
              v.erase_char c.mem;
      }
      else if par == 2
      then record c { mem = fill (c.pos - c.x * 2) v.num_columns v.erase_char c.mem }
      else c

  unfoldable pub insert_char : Console → Console
  unfolding insert_from
  insert_char c = record c { mem = insert_from (v.num_columns - c.x) c.pos v.erase_char c.mem }

  unfoldable pub delete_from : (n p : ℕ) → (ℕ → ℕ) → ℕ → ℕ
  delete_from zero p mem = fill p 1 v.erase_char mem
  delete_from (suc n) p mem = delete_from n (p + 2) (fill p 1 (mem (p + 2)) mem)

  unfoldable pub delete_char : Console → Console
  unfolding delete_from
  delete_char c =
      if leb v.num_columns c.x
      then c
      else record c { mem = delete_from (v.num_columns - c.x - 1) c.pos c.mem }

  unfoldable pub insert_line : Console → Console
  unfolding scrdown
  insert_line c = region_of c (scrdown (from_cursor v.num_lines c))

  unfoldable pub delete_line : Console → Console
  unfolding scrup
  delete_line c = region_of c (scrup (from_cursor v.num_lines c))

  unfoldable pub csi_at : (nr : ℕ) → Console → Console
  unfolding insert_char
  csi_at nr = repeat insert_char (count v.num_columns nr)

  unfoldable pub csi_L : (nr : ℕ) → Console → Console
  unfolding insert_line
  csi_L nr = repeat insert_line (count v.num_lines nr)

  unfoldable pub csi_P : (nr : ℕ) → Console → Console
  unfolding delete_char
  csi_P nr = repeat delete_char (count v.num_columns nr)

  unfoldable pub csi_M : (nr : ℕ) → Console → Console
  unfolding delete_line
  csi_M nr = repeat delete_line (count v.num_lines nr)

  abbrev pub restore_cur : Console → Console
  restore_cur c = gotoxy c.saved_x c.saved_y c

-- ===== src/Yaft/Keymap.antt =====
-- apps/yaft/keymap.h and keymap.cpp: what the keys of a physical keyboard stand for. A key is named
-- by its number in linux/input-event-codes.h, a character by its code.
use r_m2_stuff_rocket.Base.{ℕ, List, [], ◌∷◌}
use r_m2_stuff_rocket.Yaft.Layout.{
  escape, tab, backspace, enter, del, home, end, left, up, right, down, page_up, page_down, mod1,
  mod2, shift, ctrl, alt,
}

pub record EvKeyInfo : Type 0 where
  pub scancode : ℕ
  pub shift_scancode : ℕ
  pub mod1_scancode : ℕ
  pub mod2_scancode : ℕ
  hold_code : ℕ

abbrev ev_key : ℕ → ℕ → ℕ → ℕ → ℕ → EvKeyInfo
ev_key c s m n h = record {
  scancode = c;
  shift_scancode = s;
  mod1_scancode = m;
  mod2_scancode = n;
  hold_code = h;
}

-- A key with no other meaning.
abbrev pub plain : ℕ → EvKeyInfo
plain c = ev_key c 0 0 0 0

abbrev pub KeyMap : Type 0
KeyMap = List (ℕ × EvKeyInfo)

unfoldable qwerty_keymap : KeyMap
qwerty_keymap =
    (1, plain escape)
    ∷ (2, ev_key 0x31 0x21 0 0 0)
    ∷ (3, ev_key 0x32 0x40 0 0 0)
    ∷ (4, ev_key 0x33 0x23 0 0 0)
    ∷ (5, ev_key 0x34 0x24 0 0 0)
    ∷ (6, ev_key 0x35 0x25 0 0 0)
    ∷ (7, ev_key 0x36 0x5e 0 0 0)
    ∷ (8, ev_key 0x37 0x26 0 0 0)
    ∷ (9, ev_key 0x38 0x2a 0 0 0)
    ∷ (10, ev_key 0x39 0x28 0 0 0)
    ∷ (11, ev_key 0x30 0x29 0 0 0)
    ∷ (12, ev_key 0x2d 0x5f 0 0 0)
    ∷ (13, ev_key 0x3d 0x2b 0 0 0)
    ∷ (14, plain backspace)
    ∷ (15, plain tab)
    ∷ (16, plain 0x51)
    ∷ (17, plain 0x57)
    ∷ (18, plain 0x45)
    ∷ (19, plain 0x52)
    ∷ (20, plain 0x54)
    ∷ (21, plain 0x59)
    ∷ (22, plain 0x55)
    ∷ (23, plain 0x49)
    ∷ (24, plain 0x4f)
    ∷ (25, plain 0x50)
    ∷ (26, ev_key 0x5b 0x7b 0 0 0)
    ∷ (27, ev_key 0x5d 0x7d 0 0 0)
    ∷ (28, plain enter)
    ∷ (29, plain ctrl)
    ∷ (30, plain 0x41)
    ∷ (31, plain 0x53)
    ∷ (32, plain 0x44)
    ∷ (33, plain 0x46)
    ∷ (34, plain 0x47)
    ∷ (35, plain 0x48)
    ∷ (36, plain 0x4a)
    ∷ (37, plain 0x4b)
    ∷ (38, plain 0x4c)
    ∷ (39, ev_key 0x3b 0x3a 0 0 0)
    ∷ (40, ev_key 0x27 0x22 0 0 0)
    ∷ (41, ev_key 0x60 0x7e 0 0 0)
    ∷ (42, plain shift)
    ∷ (43, ev_key 0x5c 0x7c 0 0 0)
    ∷ (44, plain 0x5a)
    ∷ (45, plain 0x58)
    ∷ (46, plain 0x43)
    ∷ (47, plain 0x56)
    ∷ (48, plain 0x42)
    ∷ (49, plain 0x4e)
    ∷ (50, plain 0x4d)
    ∷ (51, ev_key 0x2c 0x3c 0 0 0)
    ∷ (52, ev_key 0x2e 0x3e 0 0 0)
    ∷ (53, ev_key 0x2f 0x3f 0 0 0)
    ∷ (54, plain shift)
    ∷ (55, plain 0x2a)
    ∷ (56, plain alt)
    ∷ (57, plain 0x20)
    ∷ (71, plain 0x37)
    ∷ (72, plain 0x38)
    ∷ (73, plain 0x39)
    ∷ (74, plain 0x2d)
    ∷ (75, plain 0x34)
    ∷ (76, plain 0x35)
    ∷ (77, plain 0x36)
    ∷ (78, plain 0x2b)
    ∷ (79, plain 0x31)
    ∷ (80, plain 0x32)
    ∷ (81, plain 0x33)
    ∷ (82, plain 0x30)
    ∷ (83, plain 0x2e)
    ∷ (96, plain enter)
    ∷ (97, plain ctrl)
    ∷ (98, plain 0x2f)
    ∷ (100, plain alt)
    ∷ (101, plain enter)
    ∷ (102, plain home)
    ∷ (103, plain up)
    ∷ (104, plain page_up)
    ∷ (105, plain left)
    ∷ (106, plain right)
    ∷ (107, plain end)
    ∷ (108, plain down)
    ∷ (109, plain page_down)
    ∷ (111, plain del)
    ∷ (117, plain 0x3d)
    ∷ (118, ev_key 0x2b 0x2d 0 0 0)
    ∷ []

unfoldable rm_qwerty_keymap : KeyMap
rm_qwerty_keymap =
    (1, plain escape)
    ∷ (2, ev_key 0x31 0x21 0 0 0)
    ∷ (3, ev_key 0x32 0x40 0 0 0)
    ∷ (4, ev_key 0x33 0x23 0 0 0)
    ∷ (5, ev_key 0x34 0x24 0 0 0)
    ∷ (6, ev_key 0x35 0x25 0 0 0)
    ∷ (7, ev_key 0x36 0x5e 0 0 0)
    ∷ (8, ev_key 0x37 0x26 0 0 0)
    ∷ (9, ev_key 0x38 0x2a 0 0 0)
    ∷ (10, ev_key 0x39 0x28 0 0 0)
    ∷ (11, ev_key 0x30 0x29 0x2b 0 0)
    ∷ (13, ev_key 0x2d 0x5f 0x3d 0 0)
    ∷ (14, plain backspace)
    ∷ (15, plain tab)
    ∷ (16, plain 0x51)
    ∷ (17, plain 0x57)
    ∷ (18, plain 0x45)
    ∷ (19, plain 0x52)
    ∷ (20, plain 0x54)
    ∷ (21, plain 0x59)
    ∷ (22, plain 0x55)
    ∷ (23, plain 0x49)
    ∷ (24, plain 0x4f)
    ∷ (25, plain 0x50)
    ∷ (28, plain enter)
    ∷ (29, plain ctrl)
    ∷ (30, plain 0x41)
    ∷ (31, plain 0x53)
    ∷ (32, plain 0x44)
    ∷ (33, plain 0x46)
    ∷ (34, plain 0x47)
    ∷ (35, plain 0x48)
    ∷ (36, plain 0x4a)
    ∷ (37, plain 0x4b)
    ∷ (38, plain 0x4c)
    ∷ (39, ev_key 0x3b 0x3a 0 0 0)
    ∷ (40, ev_key 0x27 0x22 0 0 0)
    ∷ (41, ev_key 0x60 0x7e 0 0 0)
    ∷ (42, plain shift)
    ∷ (43, ev_key 0x5c 0x7c 0 0 0)
    ∷ (44, plain 0x5a)
    ∷ (45, plain 0x58)
    ∷ (46, plain 0x43)
    ∷ (47, plain 0x56)
    ∷ (48, plain 0x42)
    ∷ (49, plain 0x4e)
    ∷ (50, plain 0x4d)
    ∷ (51, ev_key 0x2c 0x3c 0 0 0)
    ∷ (52, ev_key 0x2e 0x3e 0 0 0)
    ∷ (53, ev_key 0x2f 0x3f 0 0 0)
    ∷ (54, plain shift)
    ∷ (56, plain alt)
    ∷ (57, plain 0x20)
    ∷ (58, plain escape)
    ∷ (100, plain alt)
    ∷ (103, plain up)
    ∷ (105, plain left)
    ∷ (106, plain right)
    ∷ (107, plain mod1)
    ∷ (108, plain down)
    ∷ []

unfoldable timower_keymap : KeyMap
timower_keymap =
    (2, ev_key 0x31 0x21 0 0 0)
    ∷ (3, ev_key 0x32 0x40 0 0 0)
    ∷ (4, ev_key 0x33 0x23 0 0 0)
    ∷ (5, ev_key 0x34 0x24 0 0 0)
    ∷ (6, ev_key 0x35 0x25 0 0 0)
    ∷ (7, ev_key 0x36 0x5e 0 0 0)
    ∷ (8, ev_key 0x37 0x26 0 0 0)
    ∷ (9, ev_key 0x38 0x2a 0 0 0)
    ∷ (10, ev_key 0x39 0x28 0 0 0)
    ∷ (11, ev_key 0x30 0x29 0x2b 0 0)
    ∷ (13, ev_key 0x2d 0x5f 0x3d 0 0)
    ∷ (14, plain backspace)
    ∷ (15, plain tab)
    ∷ (16, plain 0x51)
    ∷ (17, plain 0x57)
    ∷ (18, plain 0x45)
    ∷ (19, plain 0x52)
    ∷ (20, plain 0x54)
    ∷ (21, plain 0x59)
    ∷ (22, plain 0x55)
    ∷ (23, plain 0x49)
    ∷ (24, plain 0x4f)
    ∷ (25, plain 0x50)
    ∷ (28, plain enter)
    ∷ (29, plain ctrl)
    ∷ (30, plain 0x41)
    ∷ (31, plain 0x53)
    ∷ (32, plain 0x44)
    ∷ (33, plain 0x46)
    ∷ (34, plain 0x47)
    ∷ (35, plain 0x48)
    ∷ (36, plain 0x4a)
    ∷ (37, plain 0x4b)
    ∷ (38, plain 0x4c)
    ∷ (39, ev_key 0x3b 0x3a 0 0 0)
    ∷ (40, ev_key 0x27 0x22 0 0 0)
    ∷ (41, ev_key 0x60 0x7e 0x7b 0x5b 0)
    ∷ (42, plain shift)
    ∷ (43, ev_key 0x5c 0x7c 0x7d 0x5d 0)
    ∷ (44, plain 0x5a)
    ∷ (45, plain 0x58)
    ∷ (46, plain 0x43)
    ∷ (47, plain 0x56)
    ∷ (48, plain 0x42)
    ∷ (49, plain 0x4e)
    ∷ (50, plain 0x4d)
    ∷ (51, ev_key 0x2c 0x3c 0 0 0)
    ∷ (52, ev_key 0x2e 0x3e 0 0 0)
    ∷ (53, ev_key 0x2f 0x3f 0 0 0)
    ∷ (54, plain shift)
    ∷ (56, plain mod1)
    ∷ (57, plain 0x20)
    ∷ (58, ev_key escape 0 0 0 ctrl)
    ∷ (100, plain mod2)
    ∷ (103, plain up)
    ∷ (105, plain left)
    ∷ (106, plain right)
    ∷ (107, plain alt)
    ∷ (108, plain down)
    ∷ []

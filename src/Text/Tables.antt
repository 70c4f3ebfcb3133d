-- ===== src/Text/Tables.antt =====
-- The character tables of Unicode 14, in runs: those of Python's `unicodedata`.
use localcloud_cli.Prelude.{ℕ, List, [], ◌∷◌}

abbrev pub space_ranges : List (ℕ × ℕ)
space_ranges =
    (133, 133)
    ∷ (160, 160)
    ∷ (5760, 5760)
    ∷ (8192, 8202)
    ∷ (8232, 8233)
    ∷ (8239, 8239)
    ∷ (8287, 8287)
    ∷ (12288, 12288)
    ∷ []

-- The blocks of decimal digits (Unicode category Nd) outside ASCII: the value of a digit is its
-- distance from the start of its block, modulo 10.
abbrev pub decimal_ranges : List (ℕ × ℕ)
decimal_ranges =
    (1632, 1641)
    ∷ (1776, 1785)
    ∷ (1984, 1993)
    ∷ (2406, 2415)
    ∷ (2534, 2543)
    ∷ (2662, 2671)
    ∷ (2790, 2799)
    ∷ (2918, 2927)
    ∷ (3046, 3055)
    ∷ (3174, 3183)
    ∷ (3302, 3311)
    ∷ (3430, 3439)
    ∷ (3558, 3567)
    ∷ (3664, 3673)
    ∷ (3792, 3801)
    ∷ (3872, 3881)
    ∷ (4160, 4169)
    ∷ (4240, 4249)
    ∷ (6112, 6121)
    ∷ (6160, 6169)
    ∷ (6470, 6479)
    ∷ (6608, 6617)
    ∷ (6784, 6793)
    ∷ (6800, 6809)
    ∷ (6992, 7001)
    ∷ (7088, 7097)
    ∷ (7232, 7241)
    ∷ (7248, 7257)
    ∷ (42528, 42537)
    ∷ (43216, 43225)
    ∷ (43264, 43273)
    ∷ (43472, 43481)
    ∷ (43504, 43513)
    ∷ (43600, 43609)
    ∷ (44016, 44025)
    ∷ (65296, 65305)
    ∷ (66720, 66729)
    ∷ (68912, 68921)
    ∷ (69734, 69743)
    ∷ (69872, 69881)
    ∷ (69942, 69951)
    ∷ (70096, 70105)
    ∷ (70384, 70393)
    ∷ (70736, 70745)
    ∷ (70864, 70873)
    ∷ (71248, 71257)
    ∷ (71360, 71369)
    ∷ (71472, 71481)
    ∷ (71904, 71913)
    ∷ (72016, 72025)
    ∷ (72784, 72793)
    ∷ (73040, 73049)
    ∷ (73120, 73129)
    ∷ (92768, 92777)
    ∷ (92864, 92873)
    ∷ (93008, 93017)
    ∷ (120782, 120831)
    ∷ (123200, 123209)
    ∷ (123632, 123641)
    ∷ (125264, 125273)
    ∷ (130032, 130041)
    ∷ []

-- Superscripts, circled digits and the like: digits to `str.isdigit`, and not to `int`.
abbrev pub other_digit_ranges : List (ℕ × ℕ)
other_digit_ranges =
    (178, 179)
    ∷ (185, 185)
    ∷ (4969, 4977)
    ∷ (6618, 6618)
    ∷ (8304, 8304)
    ∷ (8308, 8313)
    ∷ (8320, 8329)
    ∷ (9312, 9320)
    ∷ (9332, 9340)
    ∷ (9352, 9360)
    ∷ (9450, 9450)
    ∷ (9461, 9469)
    ∷ (9471, 9471)
    ∷ (10102, 10110)
    ∷ (10112, 10120)
    ∷ (10122, 10130)
    ∷ (68160, 68163)
    ∷ (69216, 69224)
    ∷ (69714, 69722)
    ∷ (127232, 127242)
    ∷ []

-- Runs of letters with a lower case outside ASCII: first, last, stride, and what is added and
-- what is taken away.
abbrev pub lower_runs : List (ℕ × ℕ × ℕ × ℕ × ℕ)
lower_runs =
    (192, 214, 1, 32, 0)
    ∷ (216, 222, 1, 32, 0)
    ∷ (256, 302, 2, 1, 0)
    ∷ (306, 310, 2, 1, 0)
    ∷ (313, 327, 2, 1, 0)
    ∷ (330, 374, 2, 1, 0)
    ∷ (376, 376, 1, 0, 121)
    ∷ (377, 381, 2, 1, 0)
    ∷ (385, 385, 1, 210, 0)
    ∷ (386, 388, 2, 1, 0)
    ∷ (390, 390, 1, 206, 0)
    ∷ (391, 391, 1, 1, 0)
    ∷ (393, 394, 1, 205, 0)
    ∷ (395, 395, 1, 1, 0)
    ∷ (398, 398, 1, 79, 0)
    ∷ (399, 399, 1, 202, 0)
    ∷ (400, 400, 1, 203, 0)
    ∷ (401, 401, 1, 1, 0)
    ∷ (403, 403, 1, 205, 0)
    ∷ (404, 404, 1, 207, 0)
    ∷ (406, 406, 1, 211, 0)
    ∷ (407, 407, 1, 209, 0)
    ∷ (408, 408, 1, 1, 0)
    ∷ (412, 412, 1, 211, 0)
    ∷ (413, 413, 1, 213, 0)
    ∷ (415, 415, 1, 214, 0)
    ∷ (416, 420, 2, 1, 0)
    ∷ (422, 422, 1, 218, 0)
    ∷ (423, 423, 1, 1, 0)
    ∷ (425, 425, 1, 218, 0)
    ∷ (428, 428, 1, 1, 0)
    ∷ (430, 430, 1, 218, 0)
    ∷ (431, 431, 1, 1, 0)
    ∷ (433, 434, 1, 217, 0)
    ∷ (435, 437, 2, 1, 0)
    ∷ (439, 439, 1, 219, 0)
    ∷ (440, 440, 1, 1, 0)
    ∷ (444, 444, 1, 1, 0)
    ∷ (452, 452, 1, 2, 0)
    ∷ (453, 453, 1, 1, 0)
    ∷ (455, 455, 1, 2, 0)
    ∷ (456, 456, 1, 1, 0)
    ∷ (458, 458, 1, 2, 0)
    ∷ (459, 475, 2, 1, 0)
    ∷ (478, 494, 2, 1, 0)
    ∷ (497, 497, 1, 2, 0)
    ∷ (498, 500, 2, 1, 0)
    ∷ (502, 502, 1, 0, 97)
    ∷ (503, 503, 1, 0, 56)
    ∷ (504, 542, 2, 1, 0)
    ∷ (544, 544, 1, 0, 130)
    ∷ (546, 562, 2, 1, 0)
    ∷ (570, 570, 1, 10795, 0)
    ∷ (571, 571, 1, 1, 0)
    ∷ (573, 573, 1, 0, 163)
    ∷ (574, 574, 1, 10792, 0)
    ∷ (577, 577, 1, 1, 0)
    ∷ (579, 579, 1, 0, 195)
    ∷ (580, 580, 1, 69, 0)
    ∷ (581, 581, 1, 71, 0)
    ∷ (582, 590, 2, 1, 0)
    ∷ (880, 882, 2, 1, 0)
    ∷ (886, 886, 1, 1, 0)
    ∷ (895, 895, 1, 116, 0)
    ∷ (902, 902, 1, 38, 0)
    ∷ (904, 906, 1, 37, 0)
    ∷ (908, 908, 1, 64, 0)
    ∷ (910, 911, 1, 63, 0)
    ∷ (913, 929, 1, 32, 0)
    ∷ (931, 939, 1, 32, 0)
    ∷ (975, 975, 1, 8, 0)
    ∷ (984, 1006, 2, 1, 0)
    ∷ (1012, 1012, 1, 0, 60)
    ∷ (1015, 1015, 1, 1, 0)
    ∷ (1017, 1017, 1, 0, 7)
    ∷ (1018, 1018, 1, 1, 0)
    ∷ (1021, 1023, 1, 0, 130)
    ∷ (1024, 1039, 1, 80, 0)
    ∷ (1040, 1071, 1, 32, 0)
    ∷ (1120, 1152, 2, 1, 0)
    ∷ (1162, 1214, 2, 1, 0)
    ∷ (1216, 1216, 1, 15, 0)
    ∷ (1217, 1229, 2, 1, 0)
    ∷ (1232, 1326, 2, 1, 0)
    ∷ (1329, 1366, 1, 48, 0)
    ∷ (4256, 4293, 1, 7264, 0)
    ∷ (4295, 4295, 1, 7264, 0)
    ∷ (4301, 4301, 1, 7264, 0)
    ∷ (5024, 5103, 1, 38864, 0)
    ∷ (5104, 5109, 1, 8, 0)
    ∷ (7312, 7354, 1, 0, 3008)
    ∷ (7357, 7359, 1, 0, 3008)
    ∷ (7680, 7828, 2, 1, 0)
    ∷ (7838, 7838, 1, 0, 7615)
    ∷ (7840, 7934, 2, 1, 0)
    ∷ (7944, 7951, 1, 0, 8)
    ∷ (7960, 7965, 1, 0, 8)
    ∷ (7976, 7983, 1, 0, 8)
    ∷ (7992, 7999, 1, 0, 8)
    ∷ (8008, 8013, 1, 0, 8)
    ∷ (8025, 8031, 2, 0, 8)
    ∷ (8040, 8047, 1, 0, 8)
    ∷ (8072, 8079, 1, 0, 8)
    ∷ (8088, 8095, 1, 0, 8)
    ∷ (8104, 8111, 1, 0, 8)
    ∷ (8120, 8121, 1, 0, 8)
    ∷ (8122, 8123, 1, 0, 74)
    ∷ (8124, 8124, 1, 0, 9)
    ∷ (8136, 8139, 1, 0, 86)
    ∷ (8140, 8140, 1, 0, 9)
    ∷ (8152, 8153, 1, 0, 8)
    ∷ (8154, 8155, 1, 0, 100)
    ∷ (8168, 8169, 1, 0, 8)
    ∷ (8170, 8171, 1, 0, 112)
    ∷ (8172, 8172, 1, 0, 7)
    ∷ (8184, 8185, 1, 0, 128)
    ∷ (8186, 8187, 1, 0, 126)
    ∷ (8188, 8188, 1, 0, 9)
    ∷ (8486, 8486, 1, 0, 7517)
    ∷ (8490, 8490, 1, 0, 8383)
    ∷ (8491, 8491, 1, 0, 8262)
    ∷ (8498, 8498, 1, 28, 0)
    ∷ (8544, 8559, 1, 16, 0)
    ∷ (8579, 8579, 1, 1, 0)
    ∷ (9398, 9423, 1, 26, 0)
    ∷ (11264, 11311, 1, 48, 0)
    ∷ (11360, 11360, 1, 1, 0)
    ∷ (11362, 11362, 1, 0, 10743)
    ∷ (11363, 11363, 1, 0, 3814)
    ∷ (11364, 11364, 1, 0, 10727)
    ∷ (11367, 11371, 2, 1, 0)
    ∷ (11373, 11373, 1, 0, 10780)
    ∷ (11374, 11374, 1, 0, 10749)
    ∷ (11375, 11375, 1, 0, 10783)
    ∷ (11376, 11376, 1, 0, 10782)
    ∷ (11378, 11378, 1, 1, 0)
    ∷ (11381, 11381, 1, 1, 0)
    ∷ (11390, 11391, 1, 0, 10815)
    ∷ (11392, 11490, 2, 1, 0)
    ∷ (11499, 11501, 2, 1, 0)
    ∷ (11506, 11506, 1, 1, 0)
    ∷ (42560, 42604, 2, 1, 0)
    ∷ (42624, 42650, 2, 1, 0)
    ∷ (42786, 42798, 2, 1, 0)
    ∷ (42802, 42862, 2, 1, 0)
    ∷ (42873, 42875, 2, 1, 0)
    ∷ (42877, 42877, 1, 0, 35332)
    ∷ (42878, 42886, 2, 1, 0)
    ∷ (42891, 42891, 1, 1, 0)
    ∷ (42893, 42893, 1, 0, 42280)
    ∷ (42896, 42898, 2, 1, 0)
    ∷ (42902, 42920, 2, 1, 0)
    ∷ (42922, 42922, 1, 0, 42308)
    ∷ (42923, 42923, 1, 0, 42319)
    ∷ (42924, 42924, 1, 0, 42315)
    ∷ (42925, 42925, 1, 0, 42305)
    ∷ (42926, 42926, 1, 0, 42308)
    ∷ (42928, 42928, 1, 0, 42258)
    ∷ (42929, 42929, 1, 0, 42282)
    ∷ (42930, 42930, 1, 0, 42261)
    ∷ (42931, 42931, 1, 928, 0)
    ∷ (42932, 42946, 2, 1, 0)
    ∷ (42948, 42948, 1, 0, 48)
    ∷ (42949, 42949, 1, 0, 42307)
    ∷ (42950, 42950, 1, 0, 35384)
    ∷ (42951, 42953, 2, 1, 0)
    ∷ (42960, 42960, 1, 1, 0)
    ∷ (42966, 42968, 2, 1, 0)
    ∷ (42997, 42997, 1, 1, 0)
    ∷ (65313, 65338, 1, 32, 0)
    ∷ (66560, 66599, 1, 40, 0)
    ∷ (66736, 66771, 1, 40, 0)
    ∷ (66928, 66938, 1, 39, 0)
    ∷ (66940, 66954, 1, 39, 0)
    ∷ (66956, 66962, 1, 39, 0)
    ∷ (66964, 66965, 1, 39, 0)
    ∷ (68736, 68786, 1, 64, 0)
    ∷ (71840, 71871, 1, 32, 0)
    ∷ (93760, 93791, 1, 32, 0)
    ∷ (125184, 125217, 1, 34, 0)
    ∷ []

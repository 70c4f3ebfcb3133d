-- ===== src/Text/Capitals.antt =====
-- The upper case of Unicode 14 outside ASCII, in runs: those of Python's `str.upper`.
use localcloud_cli.Prelude.{ℕ, List, [], ◌∷◌}

-- Runs of letters: first, last, stride, and what is added and what is taken away.
abbrev pub upper_runs : List (ℕ × ℕ × ℕ × ℕ × ℕ)
upper_runs =
    (181, 181, 1, 743, 0)
    ∷ (224, 246, 1, 0, 32)
    ∷ (248, 254, 1, 0, 32)
    ∷ (255, 255, 1, 121, 0)
    ∷ (257, 303, 2, 0, 1)
    ∷ (305, 305, 1, 0, 232)
    ∷ (307, 311, 2, 0, 1)
    ∷ (314, 328, 2, 0, 1)
    ∷ (331, 375, 2, 0, 1)
    ∷ (378, 382, 2, 0, 1)
    ∷ (383, 383, 1, 0, 300)
    ∷ (384, 384, 1, 195, 0)
    ∷ (387, 389, 2, 0, 1)
    ∷ (392, 392, 1, 0, 1)
    ∷ (396, 396, 1, 0, 1)
    ∷ (402, 402, 1, 0, 1)
    ∷ (405, 405, 1, 97, 0)
    ∷ (409, 409, 1, 0, 1)
    ∷ (410, 410, 1, 163, 0)
    ∷ (414, 414, 1, 130, 0)
    ∷ (417, 421, 2, 0, 1)
    ∷ (424, 424, 1, 0, 1)
    ∷ (429, 429, 1, 0, 1)
    ∷ (432, 432, 1, 0, 1)
    ∷ (436, 438, 2, 0, 1)
    ∷ (441, 441, 1, 0, 1)
    ∷ (445, 445, 1, 0, 1)
    ∷ (447, 447, 1, 56, 0)
    ∷ (453, 453, 1, 0, 1)
    ∷ (454, 454, 1, 0, 2)
    ∷ (456, 456, 1, 0, 1)
    ∷ (457, 457, 1, 0, 2)
    ∷ (459, 459, 1, 0, 1)
    ∷ (460, 460, 1, 0, 2)
    ∷ (462, 476, 2, 0, 1)
    ∷ (477, 477, 1, 0, 79)
    ∷ (479, 495, 2, 0, 1)
    ∷ (498, 498, 1, 0, 1)
    ∷ (499, 499, 1, 0, 2)
    ∷ (501, 501, 1, 0, 1)
    ∷ (505, 543, 2, 0, 1)
    ∷ (547, 563, 2, 0, 1)
    ∷ (572, 572, 1, 0, 1)
    ∷ (575, 576, 1, 10815, 0)
    ∷ (578, 578, 1, 0, 1)
    ∷ (583, 591, 2, 0, 1)
    ∷ (592, 592, 1, 10783, 0)
    ∷ (593, 593, 1, 10780, 0)
    ∷ (594, 594, 1, 10782, 0)
    ∷ (595, 595, 1, 0, 210)
    ∷ (596, 596, 1, 0, 206)
    ∷ (598, 599, 1, 0, 205)
    ∷ (601, 601, 1, 0, 202)
    ∷ (603, 603, 1, 0, 203)
    ∷ (604, 604, 1, 42319, 0)
    ∷ (608, 608, 1, 0, 205)
    ∷ (609, 609, 1, 42315, 0)
    ∷ (611, 611, 1, 0, 207)
    ∷ (613, 613, 1, 42280, 0)
    ∷ (614, 614, 1, 42308, 0)
    ∷ (616, 616, 1, 0, 209)
    ∷ (617, 617, 1, 0, 211)
    ∷ (618, 618, 1, 42308, 0)
    ∷ (619, 619, 1, 10743, 0)
    ∷ (620, 620, 1, 42305, 0)
    ∷ (623, 623, 1, 0, 211)
    ∷ (625, 625, 1, 10749, 0)
    ∷ (626, 626, 1, 0, 213)
    ∷ (629, 629, 1, 0, 214)
    ∷ (637, 637, 1, 10727, 0)
    ∷ (640, 640, 1, 0, 218)
    ∷ (642, 642, 1, 42307, 0)
    ∷ (643, 643, 1, 0, 218)
    ∷ (647, 647, 1, 42282, 0)
    ∷ (648, 648, 1, 0, 218)
    ∷ (649, 649, 1, 0, 69)
    ∷ (650, 651, 1, 0, 217)
    ∷ (652, 652, 1, 0, 71)
    ∷ (658, 658, 1, 0, 219)
    ∷ (669, 669, 1, 42261, 0)
    ∷ (670, 670, 1, 42258, 0)
    ∷ (837, 837, 1, 84, 0)
    ∷ (881, 883, 2, 0, 1)
    ∷ (887, 887, 1, 0, 1)
    ∷ (891, 893, 1, 130, 0)
    ∷ (940, 940, 1, 0, 38)
    ∷ (941, 943, 1, 0, 37)
    ∷ (945, 961, 1, 0, 32)
    ∷ (962, 962, 1, 0, 31)
    ∷ (963, 971, 1, 0, 32)
    ∷ (972, 972, 1, 0, 64)
    ∷ (973, 974, 1, 0, 63)
    ∷ (976, 976, 1, 0, 62)
    ∷ (977, 977, 1, 0, 57)
    ∷ (981, 981, 1, 0, 47)
    ∷ (982, 982, 1, 0, 54)
    ∷ (983, 983, 1, 0, 8)
    ∷ (985, 1007, 2, 0, 1)
    ∷ (1008, 1008, 1, 0, 86)
    ∷ (1009, 1009, 1, 0, 80)
    ∷ (1010, 1010, 1, 7, 0)
    ∷ (1011, 1011, 1, 0, 116)
    ∷ (1013, 1013, 1, 0, 96)
    ∷ (1016, 1016, 1, 0, 1)
    ∷ (1019, 1019, 1, 0, 1)
    ∷ (1072, 1103, 1, 0, 32)
    ∷ (1104, 1119, 1, 0, 80)
    ∷ (1121, 1153, 2, 0, 1)
    ∷ (1163, 1215, 2, 0, 1)
    ∷ (1218, 1230, 2, 0, 1)
    ∷ (1231, 1231, 1, 0, 15)
    ∷ (1233, 1327, 2, 0, 1)
    ∷ (1377, 1414, 1, 0, 48)
    ∷ (4304, 4346, 1, 3008, 0)
    ∷ (4349, 4351, 1, 3008, 0)
    ∷ (5112, 5117, 1, 0, 8)
    ∷ (7296, 7296, 1, 0, 6254)
    ∷ (7297, 7297, 1, 0, 6253)
    ∷ (7298, 7298, 1, 0, 6244)
    ∷ (7299, 7300, 1, 0, 6242)
    ∷ (7301, 7301, 1, 0, 6243)
    ∷ (7302, 7302, 1, 0, 6236)
    ∷ (7303, 7303, 1, 0, 6181)
    ∷ (7304, 7304, 1, 35266, 0)
    ∷ (7545, 7545, 1, 35332, 0)
    ∷ (7549, 7549, 1, 3814, 0)
    ∷ (7566, 7566, 1, 35384, 0)
    ∷ (7681, 7829, 2, 0, 1)
    ∷ (7835, 7835, 1, 0, 59)
    ∷ (7841, 7935, 2, 0, 1)
    ∷ (7936, 7943, 1, 8, 0)
    ∷ (7952, 7957, 1, 8, 0)
    ∷ (7968, 7975, 1, 8, 0)
    ∷ (7984, 7991, 1, 8, 0)
    ∷ (8000, 8005, 1, 8, 0)
    ∷ (8017, 8023, 2, 8, 0)
    ∷ (8032, 8039, 1, 8, 0)
    ∷ (8048, 8049, 1, 74, 0)
    ∷ (8050, 8053, 1, 86, 0)
    ∷ (8054, 8055, 1, 100, 0)
    ∷ (8056, 8057, 1, 128, 0)
    ∷ (8058, 8059, 1, 112, 0)
    ∷ (8060, 8061, 1, 126, 0)
    ∷ (8112, 8113, 1, 8, 0)
    ∷ (8126, 8126, 1, 0, 7205)
    ∷ (8144, 8145, 1, 8, 0)
    ∷ (8160, 8161, 1, 8, 0)
    ∷ (8165, 8165, 1, 7, 0)
    ∷ (8526, 8526, 1, 0, 28)
    ∷ (8560, 8575, 1, 0, 16)
    ∷ (8580, 8580, 1, 0, 1)
    ∷ (9424, 9449, 1, 0, 26)
    ∷ (11312, 11359, 1, 0, 48)
    ∷ (11361, 11361, 1, 0, 1)
    ∷ (11365, 11365, 1, 0, 10795)
    ∷ (11366, 11366, 1, 0, 10792)
    ∷ (11368, 11372, 2, 0, 1)
    ∷ (11379, 11379, 1, 0, 1)
    ∷ (11382, 11382, 1, 0, 1)
    ∷ (11393, 11491, 2, 0, 1)
    ∷ (11500, 11502, 2, 0, 1)
    ∷ (11507, 11507, 1, 0, 1)
    ∷ (11520, 11557, 1, 0, 7264)
    ∷ (11559, 11559, 1, 0, 7264)
    ∷ (11565, 11565, 1, 0, 7264)
    ∷ (42561, 42605, 2, 0, 1)
    ∷ (42625, 42651, 2, 0, 1)
    ∷ (42787, 42799, 2, 0, 1)
    ∷ (42803, 42863, 2, 0, 1)
    ∷ (42874, 42876, 2, 0, 1)
    ∷ (42879, 42887, 2, 0, 1)
    ∷ (42892, 42892, 1, 0, 1)
    ∷ (42897, 42899, 2, 0, 1)
    ∷ (42900, 42900, 1, 48, 0)
    ∷ (42903, 42921, 2, 0, 1)
    ∷ (42933, 42947, 2, 0, 1)
    ∷ (42952, 42954, 2, 0, 1)
    ∷ (42961, 42961, 1, 0, 1)
    ∷ (42967, 42969, 2, 0, 1)
    ∷ (42998, 42998, 1, 0, 1)
    ∷ (43859, 43859, 1, 0, 928)
    ∷ (43888, 43967, 1, 0, 38864)
    ∷ (65345, 65370, 1, 0, 32)
    ∷ (66600, 66639, 1, 0, 40)
    ∷ (66776, 66811, 1, 0, 40)
    ∷ (66967, 66977, 1, 0, 39)
    ∷ (66979, 66993, 1, 0, 39)
    ∷ (66995, 67001, 1, 0, 39)
    ∷ (67003, 67004, 1, 0, 39)
    ∷ (68800, 68850, 1, 0, 64)
    ∷ (71872, 71903, 1, 0, 32)
    ∷ (93792, 93823, 1, 0, 32)
    ∷ (125218, 125251, 1, 0, 34)
    ∷ []

-- The letters whose upper case is more than one.
abbrev pub upper_expansions : List (ℕ × List ℕ)
upper_expansions =
    (223, 83 ∷ 83 ∷ [])
    ∷ (329, 700 ∷ 78 ∷ [])
    ∷ (496, 74 ∷ 780 ∷ [])
    ∷ (912, 921 ∷ 776 ∷ 769 ∷ [])
    ∷ (944, 933 ∷ 776 ∷ 769 ∷ [])
    ∷ (1415, 1333 ∷ 1362 ∷ [])
    ∷ (7830, 72 ∷ 817 ∷ [])
    ∷ (7831, 84 ∷ 776 ∷ [])
    ∷ (7832, 87 ∷ 778 ∷ [])
    ∷ (7833, 89 ∷ 778 ∷ [])
    ∷ (7834, 65 ∷ 702 ∷ [])
    ∷ (8016, 933 ∷ 787 ∷ [])
    ∷ (8018, 933 ∷ 787 ∷ 768 ∷ [])
    ∷ (8020, 933 ∷ 787 ∷ 769 ∷ [])
    ∷ (8022, 933 ∷ 787 ∷ 834 ∷ [])
    ∷ (8064, 7944 ∷ 921 ∷ [])
    ∷ (8065, 7945 ∷ 921 ∷ [])
    ∷ (8066, 7946 ∷ 921 ∷ [])
    ∷ (8067, 7947 ∷ 921 ∷ [])
    ∷ (8068, 7948 ∷ 921 ∷ [])
    ∷ (8069, 7949 ∷ 921 ∷ [])
    ∷ (8070, 7950 ∷ 921 ∷ [])
    ∷ (8071, 7951 ∷ 921 ∷ [])
    ∷ (8072, 7944 ∷ 921 ∷ [])
    ∷ (8073, 7945 ∷ 921 ∷ [])
    ∷ (8074, 7946 ∷ 921 ∷ [])
    ∷ (8075, 7947 ∷ 921 ∷ [])
    ∷ (8076, 7948 ∷ 921 ∷ [])
    ∷ (8077, 7949 ∷ 921 ∷ [])
    ∷ (8078, 7950 ∷ 921 ∷ [])
    ∷ (8079, 7951 ∷ 921 ∷ [])
    ∷ (8080, 7976 ∷ 921 ∷ [])
    ∷ (8081, 7977 ∷ 921 ∷ [])
    ∷ (8082, 7978 ∷ 921 ∷ [])
    ∷ (8083, 7979 ∷ 921 ∷ [])
    ∷ (8084, 7980 ∷ 921 ∷ [])
    ∷ (8085, 7981 ∷ 921 ∷ [])
    ∷ (8086, 7982 ∷ 921 ∷ [])
    ∷ (8087, 7983 ∷ 921 ∷ [])
    ∷ (8088, 7976 ∷ 921 ∷ [])
    ∷ (8089, 7977 ∷ 921 ∷ [])
    ∷ (8090, 7978 ∷ 921 ∷ [])
    ∷ (8091, 7979 ∷ 921 ∷ [])
    ∷ (8092, 7980 ∷ 921 ∷ [])
    ∷ (8093, 7981 ∷ 921 ∷ [])
    ∷ (8094, 7982 ∷ 921 ∷ [])
    ∷ (8095, 7983 ∷ 921 ∷ [])
    ∷ (8096, 8040 ∷ 921 ∷ [])
    ∷ (8097, 8041 ∷ 921 ∷ [])
    ∷ (8098, 8042 ∷ 921 ∷ [])
    ∷ (8099, 8043 ∷ 921 ∷ [])
    ∷ (8100, 8044 ∷ 921 ∷ [])
    ∷ (8101, 8045 ∷ 921 ∷ [])
    ∷ (8102, 8046 ∷ 921 ∷ [])
    ∷ (8103, 8047 ∷ 921 ∷ [])
    ∷ (8104, 8040 ∷ 921 ∷ [])
    ∷ (8105, 8041 ∷ 921 ∷ [])
    ∷ (8106, 8042 ∷ 921 ∷ [])
    ∷ (8107, 8043 ∷ 921 ∷ [])
    ∷ (8108, 8044 ∷ 921 ∷ [])
    ∷ (8109, 8045 ∷ 921 ∷ [])
    ∷ (8110, 8046 ∷ 921 ∷ [])
    ∷ (8111, 8047 ∷ 921 ∷ [])
    ∷ (8114, 8122 ∷ 921 ∷ [])
    ∷ (8115, 913 ∷ 921 ∷ [])
    ∷ (8116, 902 ∷ 921 ∷ [])
    ∷ (8118, 913 ∷ 834 ∷ [])
    ∷ (8119, 913 ∷ 834 ∷ 921 ∷ [])
    ∷ (8124, 913 ∷ 921 ∷ [])
    ∷ (8130, 8138 ∷ 921 ∷ [])
    ∷ (8131, 919 ∷ 921 ∷ [])
    ∷ (8132, 905 ∷ 921 ∷ [])
    ∷ (8134, 919 ∷ 834 ∷ [])
    ∷ (8135, 919 ∷ 834 ∷ 921 ∷ [])
    ∷ (8140, 919 ∷ 921 ∷ [])
    ∷ (8146, 921 ∷ 776 ∷ 768 ∷ [])
    ∷ (8147, 921 ∷ 776 ∷ 769 ∷ [])
    ∷ (8150, 921 ∷ 834 ∷ [])
    ∷ (8151, 921 ∷ 776 ∷ 834 ∷ [])
    ∷ (8162, 933 ∷ 776 ∷ 768 ∷ [])
    ∷ (8163, 933 ∷ 776 ∷ 769 ∷ [])
    ∷ (8164, 929 ∷ 787 ∷ [])
    ∷ (8166, 933 ∷ 834 ∷ [])
    ∷ (8167, 933 ∷ 776 ∷ 834 ∷ [])
    ∷ (8178, 8186 ∷ 921 ∷ [])
    ∷ (8179, 937 ∷ 921 ∷ [])
    ∷ (8180, 911 ∷ 921 ∷ [])
    ∷ (8182, 937 ∷ 834 ∷ [])
    ∷ (8183, 937 ∷ 834 ∷ 921 ∷ [])
    ∷ (8188, 937 ∷ 921 ∷ [])
    ∷ (64256, 70 ∷ 70 ∷ [])
    ∷ (64257, 70 ∷ 73 ∷ [])
    ∷ (64258, 70 ∷ 76 ∷ [])
    ∷ (64259, 70 ∷ 70 ∷ 73 ∷ [])
    ∷ (64260, 70 ∷ 70 ∷ 76 ∷ [])
    ∷ (64261, 83 ∷ 84 ∷ [])
    ∷ (64262, 83 ∷ 84 ∷ [])
    ∷ (64275, 1348 ∷ 1350 ∷ [])
    ∷ (64276, 1348 ∷ 1333 ∷ [])
    ∷ (64277, 1348 ∷ 1339 ∷ [])
    ∷ (64278, 1358 ∷ 1350 ∷ [])
    ∷ (64279, 1348 ∷ 1341 ∷ [])
    ∷ []

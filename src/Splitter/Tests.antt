-- ===== src/Splitter/Tests.antt =====
-- Runs of ysplit, and the theorems at strings.
use old_tools.Common.{List, [], ◌∷◌, ◌++◌, ◌≡◌, refl, arith, CString, strsep}
use old_tools.Common.Run.{done, fault}
use old_tools.Splitter.{ysplit, ysplit1, split_loop, grow, store, advance, finish}
use old_tools.Splitter.Laws.{join, AllFree, ysplit-join, ysplit_past_end, ysplit_char}

-- The string of splitter/main.c, cut short: "h22e22l"
ysplit_main :
    ysplit (b'h' ∷ b'2' ∷ b'2' ∷ b'e' ∷ b'2' ∷ b'2' ∷ b'l' ∷ []) (b'2' ∷ b'2' ∷ [])
    ≡ done ((b'h' ∷ []) ∷ (b'e' ∷ []) ∷ (b'l' ∷ []) ∷ [])
unfolding ysplit ysplit1 split_loop grow store advance finish strsep
ysplit_main = refl

ysplit-join_example :
    ysplit (join (b'2' ∷ b'3' ∷ []) (b'h' ∷ []) ((b'e' ∷ []) ∷ [] ∷ [])) (b'2' ∷ b'3' ∷ [])
    ≡ done ((b'h' ∷ []) ∷ (b'e' ∷ []) ∷ [] ∷ [])
ysplit-join_example =
    ysplit-join b'2' (b'3' ∷ []) (b'h' ∷ []) ((b'e' ∷ []) ∷ [] ∷ [])
      ((refl, tt), ((refl, tt), (tt, tt)))

ysplit_past_end_example : ysplit ((b'h' ∷ []) ++ (b'2' ∷ [])) (b'2' ∷ b'2' ∷ []) ≡ fault
ysplit_past_end_example =
    ysplit_past_end b'2' (b'2' ∷ []) (b'h' ∷ []) b'2' [] (refl, tt) refl (omega arith)

ysplit_char_example :
    (part : CString) × (parts : List CString) × (b'a' ∷ b',' ∷ [] ≡ join (b',' ∷ []) part parts)
    × AllFree (b',' ∷ []) (part ∷ parts)
    × (ysplit (b'a' ∷ b',' ∷ []) (b',' ∷ []) ≡ done (part ∷ parts))
ysplit_char_example = ysplit_char b',' (b'a' ∷ b',' ∷ [])

-- ===== src/Splitter.antt =====
-- Splitting a string at a separator (splitter/ysplit.c; liby/src/base.c has the same code under
-- the names liby_split1 and liby_split).
pub mod Laws
mod Tests
use old_tools.Common.{
  ℕ, zero, suc, ◌+◌, ◌-◌, ◌*◌, ◌<◌, Bool, true, false, Option, none, some, List, [], ◌∷◌, ◌++◌,
  ◌==◌, ltb, if◌then◌else◌, length, drop, CString, strsep,
}
use old_tools.Common.Run.{Run, done, fault, ◌>>=◌}

-- `ret`, its capacity `n`, and `i`: the strings stored so far are `ret[0 .. i)`.
pub record Slots : Type 0 where
  pub n : ℕ
  pub i : ℕ
  pub ret : List CString

-- `if (i == n - 2) { n = n * 2; ret = realloc(ret, …); }`
unfoldable pub grow : Slots → Slots
grow s = if s.i == s.n - 2 then record s { n = s.n * 2 } else s

-- `ret[i++] = strdup(token)`, a fault past the capacity
unfoldable pub store : CString → Slots → Run Slots
store token s =
    if ltb s.i s.n then done (record s { i = s.i + 1; ret = s.ret ++ (token ∷ []) }) else fault

-- `if (s1) s1 += nsp;`: a pointer past the terminator is a fault, since the loop reads through it.
unfoldable pub advance : ℕ → Option CString → Run (Option CString)
advance nsp none = done none
advance nsp (some s) = if ltb (length s) nsp then fault else done (some (drop nsp s))

-- `while (s1)`; each round but the last removes a character, so `length src + 1` rounds are enough.
unfoldable pub split_loop : ℕ → CString → Option CString → Slots → Run Slots
split_loop fuel sp none s = done s
split_loop zero sp (some s1) s = fault
split_loop (suc fuel) sp (some s1) s = do
  s1' ← advance (length sp - 1) (strsep sp s1).1
  s' ← store (strsep sp s1).0 (grow s)
  split_loop fuel sp s1' s'

-- `ret[i] = NULL`, a fault past the capacity
unfoldable pub finish : Slots → Run (List CString)
finish s = if ltb s.i s.n then done s.ret else fault

-- With an empty `sp` no token ends before the string does, so `nsp` is not used.
unfoldable pub ysplit1 : CString → CString → Run (List CString)
ysplit1 src sp = do
  s ← split_loop (length src + 1) sp (some src) (record { n = 8; i = 0; ret = [] })
  finish s

-- `ysplit` splits a copy.
unfoldable pub ysplit : CString → CString → Run (List CString)
ysplit src sp = ysplit1 src sp

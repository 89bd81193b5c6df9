-- ===== src/Liby/Loop.antt =====
-- The lists of servers and clients of a loop (get_servers_of_loop, get_clients_of_loop and
-- get_clients_of_server in liby/src/liby.c).
use old_tools.Common.{
  ℕ, ◌+◌, ◌<◌, ◌≡◌, refl, sym, ap, ◌∙◌, List, [], ◌∷◌, ◌++◌, append_assoc, append-nil, ltb, lt→ltb,
  if◌then◌else◌, length, length-append, arith,
}
use old_tools.Common.Run.{Run, done, fault, ◌>>=◌, >>=-done}
use old_tools.Liby.Links.{Memory, load, list_empty, list_for_each}
use old_tools.Liby.Links.Ring.{Ring, load-Mapped, front}
use old_tools.Liby.Links.Ring.Walk.{
  fold, next_front, list_empty-Ring-nil, list_empty-Ring-cons, list_for_each-Ring,
}

-- `ret++`
unfoldable pub count_entry : ℕ → ℕ → Run ℕ
count_entry pos ret = done (ret + 1)

-- `servers[i++] = list_entry(pos, …)`, where `i` values are stored and `ret` is the capacity
unfoldable pub store_entry : ℕ → ℕ → List ℕ → Run (List ℕ)
store_entry ret pos servers =
    if ltb (length servers) ret then done (servers ++ (pos ∷ [])) else fault

-- The two loops over a list that is not empty
unfoldable pub copy_entries : ℕ → ℕ → Memory → Run (ℕ × List ℕ)
unfolding load list_for_each count_entry store_entry
copy_entries fuel head m = do
  first ← load m.next head
  ret ← list_for_each (λ s. m) count_entry fuel head first 0
  servers ← list_for_each (λ s. m) (store_entry ret) fuel head first []
  done (ret, servers)

-- The three functions differ in the list only: the result, and what `*p` is set to.
unfoldable pub get_entries : ℕ → ℕ → Memory → Run (ℕ × List ℕ)
unfolding list_empty copy_entries
get_entries fuel head m = do
  empty ← list_empty head m
  if empty then done (0, []) else copy_entries fuel head m

abbrev add : List ℕ → List ℕ → List ℕ
add servers xs = fold (λ x s. s ++ (x ∷ [])) xs servers

fold-count : (xs : List ℕ) (n : ℕ) → fold (λ x s. s + 1) xs n ≡ n + length xs
fold-count [] n = omega arith
fold-count (x ∷ xs) n = omega (arith, fold-count xs (n + 1))

fold-store : (xs servers : List ℕ) → add servers xs ≡ servers ++ xs
fold-store [] servers = sym (append-nil servers)
fold-store (x ∷ xs) servers = fold-store xs (servers ++ (x ∷ [])) ∙ append_assoc servers (x ∷ []) xs

copy_entries-Ring :
    (fuel head : ℕ) (m : Memory) (xs : List ℕ)
    → Ring m head xs
    → length xs < fuel
    → copy_entries fuel head m ≡ done (length xs, xs)
unfolding copy_entries count_entry store_entry
copy_entries-Ring fuel head m xs r lt =
    let n = length xs in
    >>=-done (load m.next head) _
      (load-Mapped m.next head (front head xs) (next_front m head head xs r.path))
      (>>=-done (list_for_each (λ s. m) count_entry fuel head (front head xs) 0) _
        (list_for_each-Ring m count_entry (λ x s. s + 1) (λ s. s) n xs fuel head 0 (λ x s h. refl)
            (λ x s. refl) r lt (omega arith)
          ∙ ap done (fold-count xs 0 ∙ omega arith))
        (>>=-done (list_for_each (λ s. m) (store_entry n) fuel head (front head xs) []) _
          (list_for_each-Ring m (store_entry n) (λ x s. s ++ (x ∷ [])) length n xs fuel head []
              (λ x s h. rw (lt→ltb (length s) n h) refl) (λ x s. length-append s (x ∷ [])) r lt
              (omega arith)
            ∙ ap done (fold-store xs []))
          refl))

-- With more fuel than the ring has entries, get_servers_of_loop, get_clients_of_loop and
-- get_clients_of_server end without a fault and give the number of entries and the entries in
-- order.
pub get_entries-Ring :
    (fuel head : ℕ) (m : Memory) (xs : List ℕ)
    → Ring m head xs
    → length xs < fuel
    → get_entries fuel head m ≡ done (length xs, xs)
unfolding get_entries
get_entries-Ring fuel head m [] r lt =
    >>=-done (list_empty head m) _ (list_empty-Ring-nil m head r) refl
get_entries-Ring fuel head m (x ∷ xs) r lt =
    >>=-done (list_empty head m) _ (list_empty-Ring-cons m head x xs r)
      (copy_entries-Ring fuel head m (x ∷ xs) r lt)

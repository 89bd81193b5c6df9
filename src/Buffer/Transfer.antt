-- ===== src/Buffer/Transfer.antt =====
-- How bytes go into a Buffer and out of it: append, prepend, retrieve and the conversions
-- (liby_cpp/Buffer.cpp), for bytes that are not the buffer's own.
pub mod Append
pub mod Overrun
pub mod Prepend
pub mod Retrieve
use old_tools.Common.{
  ℕ, zero, suc, ◌+◌, ◌-◌, Bool, true, false, ◌||◌, Option, none, some, List, [], ◌∷◌, ◌++◌, ◌==◌,
  ltb, leb, if◌then◌else◌, length,
}
use old_tools.Common.Run.{Run, done, exited, fault, ◌>>=◌, ◌>>?◌}
use old_tools.Buffer.{
  Buffer, with_capacity, read_at, write_at, cells_of, assert_data, size, data_of, safe_append,
  moved, reindexed,
}
use old_tools.Buffer.Space.{forward, backward, reserve}

-- What append does before it copies: nothing, move the bytes to the front, or make room
unfoldable pub make_room : ℕ → (ℕ → ℕ) → Buffer → ℕ → Run (Option Buffer)
unfolding size forward reserve
make_room fuel fresh b len =
    if leb len (b.capacity - b.right)
    then done (some b)
    else (size b >>= λ n.
        if leb (len + n) b.capacity
        then (forward b 0 >>= λ b'. done (some b'))
        else reserve fuel fresh b (n + len + b.left))

-- append(const char *, off_t), whose assertion refuses no bytes
unfoldable pub append_bytes : ℕ → (ℕ → ℕ) → Buffer → List ℕ → Run (Option Buffer)
unfolding make_room safe_append
append_bytes fuel fresh b [] = exited 134
append_bytes fuel fresh b (c ∷ bytes) = make_room fuel fresh b (length (c ∷ bytes)) >>? λ b'.
    (safe_append b' (c ∷ bytes) >>= λ b''. done (some b''))

-- append(const Buffer &), for another buffer
unfoldable pub append_buffer : ℕ → (ℕ → ℕ) → Buffer → Buffer → Run (Option Buffer)
unfolding data_of append_bytes
append_buffer fuel fresh b that = data_of that >>= λ bytes. append_bytes fuel fresh b bytes

-- append(const std::string &)
unfoldable pub append_string : ℕ → (ℕ → ℕ) → Buffer → List ℕ → Run (Option Buffer)
unfolding append_bytes
append_string fuel fresh b str = append_bytes fuel fresh b (str ++ (0 ∷ []))

-- safePreappend: in front of the first cell is no memory of the buffer.
unfoldable pub safe_prepend : Buffer → List ℕ → Run Buffer
unfolding assert_data write_at
safe_prepend b bytes = do
  cells ← assert_data b
  cells' ←
      (if leb (length bytes) b.left then write_at cells (b.left - length bytes) bytes else fault)
  done (moved b cells' (b.left - length bytes) b.right)

-- What prepend does before it copies: nothing, move the bytes back, or change to a new buffer
unfoldable pub make_room_before : ℕ → (ℕ → ℕ) → Buffer → ℕ → Run (Option Buffer)
unfolding size backward with_capacity append_buffer
make_room_before fuel fresh b len =
    if leb len b.left
    then done (some b)
    else (size b >>= λ n.
        if leb (len + n) b.capacity
        then (backward b (len - b.left) >>= λ b'. done (some b'))
        else append_buffer fuel fresh (with_capacity fresh (len + n)) b)

-- prepend(const char *, off_t)
unfoldable pub prepend_bytes : ℕ → (ℕ → ℕ) → Buffer → List ℕ → Run (Option Buffer)
unfolding make_room_before safe_prepend
prepend_bytes fuel fresh b [] = exited 134
prepend_bytes fuel fresh b (c ∷ bytes) =
    make_room_before fuel fresh b (length (c ∷ bytes)) >>? λ b'.
    (safe_prepend b' (c ∷ bytes) >>= λ b''. done (some b''))

-- prepend(const Buffer &), for another buffer
unfoldable pub prepend_buffer : ℕ → (ℕ → ℕ) → Buffer → Buffer → Run (Option Buffer)
unfolding data_of prepend_bytes
prepend_buffer fuel fresh b that = data_of that >>= λ bytes. prepend_bytes fuel fresh b bytes

-- prepend(const std::string &)
unfoldable pub prepend_string : ℕ → (ℕ → ℕ) → Buffer → List ℕ → Run (Option Buffer)
unfolding prepend_bytes
prepend_string fuel fresh b str = prepend_bytes fuel fresh b (str ++ (0 ∷ []))

-- retrieve()
unfoldable pub retrieve_all : Buffer → Buffer
retrieve_all b = reindexed b 0 0

-- retrieve(off_t)
unfoldable pub retrieve : Buffer → ℕ → Run Buffer
unfolding size
retrieve b len = do
  n ← size b
  done (
      if n == 0
      then b
      else (if ltb n len then reindexed b 0 0 else reindexed b (b.left + len) b.right))

-- `std::string ret(data(), len); retrieve(len); return ret;`
unfoldable pub take_now : Buffer → ℕ → Run (Option (List ℕ × Buffer))
unfolding assert_data read_at retrieve
take_now b len = do
  cells ← assert_data b
  bytes ← read_at cells b.left len
  b' ← retrieve b len
  done (some (bytes, b'))

-- retriveveAsString with at most `fuel` calls of itself
unfoldable pub take_string : ℕ → Buffer → ℕ → Run (Option (List ℕ × Buffer))
unfolding size take_now
take_string zero b len = done none
take_string (suc fuel) b len = do
  n ← size b
  let again = take_string fuel b n
  if (len == 0) || ltb n len then again else take_now b len

-- retriveveAllAsString
unfoldable pub take_all_string : ℕ → Buffer → Run (Option (List ℕ × Buffer))
unfolding size take_string
take_all_string fuel b = size b >>= λ n. take_string fuel b n

-- retriveveAsVector, by way of retriveveAllAsVector, with at most `fuel` calls of itself
unfoldable pub take_vector : ℕ → Buffer → ℕ → Run (Option (List ℕ × Buffer))
unfolding size cells_of read_at retrieve
take_vector zero b len = done none
take_vector (suc fuel) b len = do
  n ← size b
  let again = take_vector fuel b n
  if (len == 0) || ltb n len
      then again
      else (cells_of b >>= λ cells. read_at cells b.left (b.right - b.left) >>= λ bytes.
          retrieve b len >>= λ b'. done (some (bytes, b')))

-- retriveveAllAsVector
unfoldable pub take_all_vector : ℕ → Buffer → Run (Option (List ℕ × Buffer))
unfolding size take_vector
take_all_vector fuel b = size b >>= λ n. take_vector fuel b n

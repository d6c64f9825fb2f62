-- ===== src/Strings/Copies.antt =====
-- libmpathutil/util.c: the copies stay in the buffer and end in NUL.
use multipath_tools.Base.{
  ltb, ◌==◌, length, take, drop, length-append, All, ℕ, zero, suc, ◌+◌, ◌-◌, ◌≤◌, ◌<◌, ◌≡◌, refl,
  ap, ◌∙◌, true, false, [], ◌∷◌, ◌++◌, append_assoc, arith,
}
use multipath_tools.Base.Text.{Text}
use multipath_tools.Strbuf.{poke}
use multipath_tools.Strbuf.Memory.{poke_lem, poke-append, poke_end}
use multipath_tools.Strings.{copy_loop, libmp_strlcpy, find_end, libmp_strlcat}

-- A full buffer is not written to.
copy_loop-full :
    (size : ℕ) (src : Text) (d bytes : ℕ) (mem : Text)
    → size ≤ bytes + 1
    → copy_loop size src d bytes mem ≡ (mem, d, bytes + length src)
unfolding copy_loop
copy_loop-full size [] d bytes mem h = let e : bytes + 0 ≡ bytes = omega arith in rw e refl
copy_loop-full size (c ∷ src) d bytes mem h =
    let t : ltb (bytes + 1) size ≡ false = ground arith in
    let e : bytes + 1 + length src ≡ bytes + suc (length src) = omega arith in
    let ih = copy_loop-full size src d (bytes + 1) mem (omega arith) in
    rw (copy_loop, t) (ih ∙ rw e refl)

-- What fits is written.
copy_loop_lem :
    (size room : ℕ) (src : Text) (d : ℕ) (mem : Text)
    → size ≡ d + 1 + room
    → copy_loop size src d d mem
      ≡ (poke d (take room src) mem, d + length (take room src), d + length src)
unfolding copy_loop
copy_loop_lem size zero [] d mem h = let e : d + 0 ≡ d = omega arith in rw e refl
copy_loop_lem size (suc room) [] d mem h = let e : d + 0 ≡ d = omega arith in rw e refl
copy_loop_lem size zero (c ∷ src) d mem h =
    let e : d + 0 ≡ d = omega arith in rw e (copy_loop-full size (c ∷ src) d d mem (omega arith))
copy_loop_lem size (suc room) (c ∷ src) d mem h =
    let t : ltb (d + 1) size ≡ true = ground arith in
    let ih = copy_loop_lem size room src (d + 1) (poke d (c ∷ []) mem) (omega arith) in
    let e : d + 1 + length (take room src) ≡ d + suc (length (take room src)) = omega arith in
    let f : d + 1 + length src ≡ d + suc (length src) = omega arith in
    let p = poke-append d (d + 1) (c ∷ []) (take room src) mem refl in
    rw (copy_loop, t) (ih ∙ rw (p, e, f) refl)

length-take_le : (n : ℕ) (s : Text) → length (take n s) ≤ n
length-take_le zero s = omega arith
length-take_le (suc n) [] = omega arith
length-take_le (suc n) (c ∷ s) = let k = length-take_le n s in omega arith

-- `libmp_strlcpy` into a buffer of at least `size` bytes, which is above 0: it returns the length of the
-- string; the buffer begins with the string, cut to `size - 1` bytes, and a NUL; the bytes behind are as
-- before.
pub libmp_strlcpy_copies :
    (mem src : Text) (size : ℕ)
    → 0 < size
    → size ≤ length mem
    → let t = take (size - 1) src in
      libmp_strlcpy mem src size ≡ (length src, t ++ 0 ∷ drop (length t + 1) mem)
unfolding libmp_strlcpy
libmp_strlcpy_copies mem src size h k =
    let t = take (size - 1) src in
    let l = length-take_le (size - 1) src in
    let c = copy_loop_lem size (size - 1) src 0 mem (omega arith) in
    let e : (size == 0) ≡ false = ground arith in
    let p = poke-append 0 (0 + length t) t (0 ∷ []) mem refl in
    let n = length-append t (0 ∷ []) in
    let m : length (t ++ 0 ∷ []) ≡ length t + 1 = omega arith in
    let q : poke 0 (t ++ 0 ∷ []) mem ≡ (t ++ 0 ∷ []) ++ drop (length (t ++ 0 ∷ [])) mem =
      poke_lem [] (t ++ 0 ∷ []) mem (omega arith) in
    let z : 0 + length src ≡ length src = omega arith in
    rw (libmp_strlcpy, c, e, p, q, m, z)
      (ap (λ x. (length src, x)) (append_assoc t (0 ∷ []) (drop (length t + 1) mem)))

-- A string that ends before `size` bytes.
find_end-ended :
    (size : ℕ) (a rest : Text)
    → All (λ c. (c == 0) ≡ false) a
    → length a < size
    → find_end size (a ++ 0 ∷ rest) ≡ length a
unfolding find_end
find_end-ended zero a rest n h = absurd (omega arith)
find_end-ended (suc size) [] rest n h = refl
find_end-ended (suc size) (c ∷ a) rest (e, n) h =
    rw (find_end, e) (ap suc (find_end-ended size a rest n (omega arith)))

-- `libmp_strlcat` to a string `a` that ends before `size` bytes, in a buffer of at least `size` bytes: it
-- returns the sum of the lengths; the buffer begins with `a`, the string, cut so that both have at most
-- `size - 1` bytes, and a NUL; the bytes behind are as before.
pub libmp_strlcat_appends :
    (a rest src : Text) (size : ℕ)
    → All (λ c. (c == 0) ≡ false) a
    → length a < size
    → size ≤ length (a ++ 0 ∷ rest)
    → let t = take (size - 1 - length a) src in
      libmp_strlcat (a ++ 0 ∷ rest) src size
      ≡ (length a + length src, a ++ (t ++ 0 ∷ drop (length t) rest))
unfolding libmp_strlcat
libmp_strlcat_appends a rest src size n h k =
    let room = size - 1 - length a in
    let t = take room src in
    let l = length-take_le room src in
    let mem = a ++ 0 ∷ rest in
    let f = find_end-ended size a rest n h in
    let c = copy_loop_lem size room src (length a) mem (omega arith) in
    let e : (length a == size) ≡ false = ground arith in
    let p = poke-append (length a) (length a + length t) t (0 ∷ []) mem refl in
    let x = length-append a (0 ∷ rest) in
    let q = poke_end a t rest (omega arith) in
    rw (libmp_strlcat, f, c, e, p, q)
      (ap (λ y. (length a + length src, y)) (append_assoc a t (0 ∷ drop (length t) rest)))

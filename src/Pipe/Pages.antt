-- ===== src/Pipe/Pages.antt =====
-- `End::read`: how bytes go from a page to slices.
use umi.Base.{
  ℕ, ◌+◌, ◌-◌, ◌≤◌, ◌<◌, ◌≡◌, refl, sym, ap, ◌∙◌, List, [], ◌∷◌, ◌++◌, inl, inr, take, drop, length,
  min, map, flatten, arith, append_assoc, append-nil, length-append, length-take, length-drop,
  take-take, drop-take, drop-drop, drop-nil, drop_within, drop_beyond, take_add, le_or_lt, lt→ltb,
  le→ltb,
}
use native.Mathlib.Nat.{zero-add}
use umi.Pipe.{End, read_from, read_end}

-- A frame of one page, of which the bytes from `start` to `end` wait to be read.
pub record IsPage (e : End) : Type 0 where
  pub sized : length e.frame ≡ 4096
  pub ordered : e.start ≤ e.end
  pub bounded : e.end ≤ 4096

abbrev pub bytes : End → List ℕ
bytes e = take (e.end - e.start) (drop e.start e.frame)

pub length-bytes : (e : End) → IsPage e → length (bytes e) ≡ e.end - e.start
length-bytes e p = omega (
  arith,
  length-take (e.end - e.start) (drop e.start e.frame),
  length-drop e.start e.frame,
  p.sized,
  p.ordered,
  p.bounded,
)

-- The page after `n` of its bytes were read.
abbrev pub advanced : End → ℕ → End
advanced e n = record e { start = e.start + n }

bytes-advanced : (e : End) (n : ℕ) → bytes (advanced e n) ≡ drop n (bytes e)
bytes-advanced e n =
    let rest : e.end - (e.start + n) ≡ e.end - e.start - n = omega arith in
    rw rest (
      sym (
        drop-take n (e.end - e.start) (drop e.start e.frame)
        ∙ ap (take (e.end - e.start - n)) (drop-drop n e.start e.frame)))

-- One slice that is longer than what is left.
fill_short :
    (k : ℕ) (xs f rest : List ℕ)
    → k ≤ length f
    → (xs ++ drop k f) ++ rest ≡ xs ++ drop k (f ++ rest)
fill_short k xs f rest h = ground (arith, append_assoc xs (drop k f) rest, drop_within k f rest h)

-- One slice that is filled, and the slices behind it.
fill_long :
    (n : ℕ) (b f rest : List ℕ)
    → (take (length f) b ++ drop (length f) f) ++ (take n (drop (length f) b) ++ drop n rest)
      ≡ take (length f + n) b ++ drop (length f + n) (f ++ rest)
fill_long n b f rest =
    let k = length f in
    let none_left : drop k f ≡ [] =
      ap (drop k) (sym (append-nil f)) ∙ drop_beyond k f [] (omega arith) ∙ drop-nil (k - k) in
    let behind : drop (k + n) (f ++ rest) ≡ drop n rest =
      drop_beyond (k + n) f rest (omega arith) ∙ ap (λ (i : ℕ). drop i rest) (omega arith) in
    rw (none_left, behind, append-nil (take k b), take_add k n b)
      (sym (append_assoc (take k b) (take n (drop k b)) (drop n rest)))

-- What a read of `n` bytes leaves.
record Read (e : End) (buf : List (List ℕ)) (so_far n : ℕ) : Type 0 where
  page : (read_from e buf so_far).0 ≡ advanced e n
  count : (read_from e buf so_far).2 ≡ so_far + n
  filled : flatten (read_from e buf so_far).1 ≡ take n (bytes e) ++ drop n (flatten buf)
  shape : map length (read_from e buf so_far).1 ≡ map length buf

Read-nil : (e : End) (so_far : ℕ) → Read e [] so_far 0
unfolding read_from
Read-nil e so_far = record { page = ground arith; count = omega arith; filled = refl; shape = refl }

-- The last slice is not filled to its end.
Read-part :
    (e : End) (f : List ℕ) (next : List (List ℕ)) (so_far n : ℕ)
    → IsPage e
    → n ≡ e.end - e.start
    → n < length f
    → Read e (f ∷ next) so_far n
unfolding read_from
Read-part e f next so_far n p whole h =
    let len : min (length f) (e.end - e.start) ≡ n = omega arith in
    let short = lt→ltb n (length f) h in
    let same : take n (bytes e) ≡ take n (drop e.start e.frame) =
      take-take n (e.end - e.start) (drop e.start e.frame) (omega arith) in
    record {
      page = ground arith;
      count = ground arith;
      filled =
          rw (len, short, same)
            (fill_short n (take n (drop e.start e.frame)) f (flatten next) (omega arith));
      shape =
          rw (len, short)
            (ap (λ (k : ℕ). k ∷ map length next)
              (omega (
                arith,
                length-append (take n (drop e.start e.frame)) (drop n f),
                length-take n (drop e.start e.frame),
                length-drop n f,
                length-drop e.start e.frame,
                p.sized,
                p.bounded,
                p.ordered,
              )));
    }

Read-full :
    (e : End) (f : List ℕ) (next : List (List ℕ)) (so_far n : ℕ)
    → IsPage e
    → length f ≤ e.end - e.start
    → Read (advanced e (length f)) next (so_far + length f) n
    → Read e (f ∷ next) so_far (length f + n)
unfolding read_from
Read-full e f next so_far n p h r =
    let k = length f in
    let len : min (length f) (e.end - e.start) ≡ k = omega arith in
    let long = le→ltb k k (omega arith) in
    let same : take k (bytes e) ≡ take k (drop e.start e.frame) =
      take-take k (e.end - e.start) (drop e.start e.frame) h in
    record {
      page = rw (len, long) (r.page ∙ ground arith);
      count = rw (len, long) (r.count ∙ omega arith);
      filled =
          rw (len, long, r.filled, bytes-advanced e k, ← same)
            (fill_long n (bytes e) f (flatten next));
      shape =
          rw (len, long, r.shape)
            (ap (λ (k : ℕ). k ∷ map length next)
              (omega (
                arith,
                length-append (take k (drop e.start e.frame)) (drop k f),
                length-take k (drop e.start e.frame),
                length-drop k f,
                length-drop e.start e.frame,
                p.sized,
                p.bounded,
                p.ordered,
              )));
    }

advanced-IsPage : (e : End) (n : ℕ) → IsPage e → n ≤ e.end - e.start → IsPage (advanced e n)
advanced-IsPage e n p h = record {
  sized = p.sized;
  ordered = omega (arith, p.ordered);
  bounded = p.bounded;
}

read_from_lem :
    (e : End) (buf : List (List ℕ)) (so_far n : ℕ)
    → IsPage e
    → n ≡ min (length (flatten buf)) (e.end - e.start)
    → Read e buf so_far n
read_from_lem e [] so_far n p h =
    let none_read : n ≡ 0 = omega arith in rw none_read (Read-nil e so_far)
read_from_lem e (f ∷ next) so_far n p h =
    let k = length f in
    let total = length-append f (flatten next) in
    elim (le_or_lt k (e.end - e.start)) [
      | inr part ↦ Read-part e f next so_far n p (omega arith) (omega arith)
      | inl whole ↦
          let sum : k + (n - k) ≡ n = omega arith in
          rw (← sum) (
            Read-full e f next so_far (n - k) p whole (
              read_from_lem (advanced e k) next (so_far + k) (n - k) (advanced-IsPage e k p whole)
                (omega (arith, p.ordered))))
    ]

-- A read moves as many bytes as both sides have: they come first in the slices, the rest of the
-- slices is as it was, and the page keeps its other bytes.
pub record IsRead (e : End) (buf : List (List ℕ)) (n : ℕ) : Type 0 where
  pub page : IsPage (read_end e buf).0
  pub frame : (read_end e buf).0 ≡ advanced e n
  pub rest : bytes (read_end e buf).0 ≡ drop n (bytes e)
  pub count : (read_end e buf).2 ≡ n
  pub filled : flatten (read_end e buf).1 ≡ take n (bytes e) ++ drop n (flatten buf)
  pub shape : map length (read_end e buf).1 ≡ map length buf

pub read_end_lem :
    (e : End) (buf : List (List ℕ))
    → IsPage e
    → IsRead e buf (min (length (flatten buf)) (length (bytes e)))
unfolding read_end
read_end_lem e buf p =
    let n = min (length (flatten buf)) (length (bytes e)) in
    let len = length-bytes e p in
    let r = read_from_lem e buf 0 n p (omega arith) in
    record {
      page = rw r.page (advanced-IsPage e n p (omega arith));
      frame = r.page;
      rest = rw r.page (bytes-advanced e n);
      count = r.count ∙ zero-add n;
      filled = r.filled;
      shape = r.shape;
    }

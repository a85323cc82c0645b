-- ===== src/Pipe/Frames.antt =====
-- `End::write`: how bytes go from slices to a page.
use umi.Base.{
  ℕ, ◌+◌, ◌-◌, ◌≤◌, ◌<◌, ◌≡◌, refl, sym, ap, ◌∙◌, List, [], ◌∷◌, ◌++◌, inl, inr, take, drop, length,
  min, flatten, arith, append_assoc, length-append, length-take, length-drop, drop-take, drop-drop,
  take-nil, take_within, drop_within, take_beyond, drop_beyond, take_all, le_or_lt,
  take-append-drop, lt→ltb, le→ltb,
}
use native.Mathlib.Nat.{zero-add}
use umi.Pipe.{End, write_from, write_end}
use umi.Pipe.Pages.{IsPage, bytes, length-bytes}

-- The frame after `xs` was written from the offset `i`, and the page.
spliced : ℕ → List ℕ → List ℕ → List ℕ
spliced i xs frame = take i frame ++ (xs ++ drop (i + length xs) frame)

abbrev grown : End → List ℕ → End
grown e xs = record e { frame = spliced e.end xs e.frame; end = e.end + length xs }

spliced_nil : (i : ℕ) (frame : List ℕ) → spliced i [] frame ≡ frame
unfolding spliced
spliced_nil i frame = ground (arith, take-append-drop i frame)

spliced-spliced :
    (i : ℕ) (xs ys frame : List ℕ)
    → i + length xs ≤ length frame
    → spliced (i + length xs) ys (spliced i xs frame) ≡ spliced i (xs ++ ys) frame
unfolding spliced
spliced-spliced i xs ys frame h =
    let front = take i frame ++ xs in
    let k = i + length xs in
    let rest = drop k frame in
    let len : length front ≡ k =
      omega (arith, length-append (take i frame) xs, length-take i frame) in
    let whole : take i frame ++ (xs ++ rest) ≡ front ++ rest =
      sym (append_assoc (take i frame) xs rest) in
    let head : take k (front ++ rest) ≡ front =
      take_within k front rest (omega arith) ∙ take_all k front (omega arith) in
    let tail : drop (k + length ys) (front ++ rest) ≡ drop (i + length (xs ++ ys)) frame =
      drop_beyond (k + length ys) front rest (omega arith)
      ∙ drop-drop (k + length ys - length front) k frame
      ∙ ap (λ (j : ℕ). drop j frame) (omega (arith, length-append xs ys)) in
    rw (whole, head, tail)
      (append_assoc (take i frame) xs (ys ++ drop (i + length (xs ++ ys)) frame)
        ∙ ap (λ l. take i frame ++ l)
            (sym (append_assoc xs ys (drop (i + length (xs ++ ys)) frame))))

length-spliced :
    (i : ℕ) (xs frame : List ℕ)
    → i + length xs ≤ length frame
    → length (spliced i xs frame) ≡ length frame
unfolding spliced
length-spliced i xs frame h = omega (
  arith,
  length-append (take i frame) (xs ++ drop (i + length xs) frame),
  length-append xs (drop (i + length xs) frame),
  length-take i frame,
  length-drop (i + length xs) frame,
)

grown-IsPage : (e : End) (xs : List ℕ) → IsPage e → length xs ≤ 4096 - e.end → IsPage (grown e xs)
grown-IsPage e xs p h = record {
  sized = length-spliced e.end xs e.frame (omega (arith, p.sized, p.bounded)) ∙ p.sized;
  ordered = omega (arith, p.ordered);
  bounded = omega (arith, p.bounded);
}

bytes-grown :
    (e : End) (xs : List ℕ)
    → IsPage e
    → length xs ≤ 4096 - e.end
    → bytes (grown e xs) ≡ bytes e ++ xs
unfolding spliced
bytes-grown e xs p h =
    let i = e.end in
    let rest = drop (i + length xs) e.frame in
    let len : length (take i e.frame) ≡ i =
      omega (arith, length-take i e.frame, p.sized, p.bounded) in
    let front : drop e.start (take i e.frame ++ (xs ++ rest)) ≡ bytes e ++ (xs ++ rest) =
      drop_within e.start (take i e.frame) (xs ++ rest) (omega (arith, p.ordered))
      ∙ ap (λ l. l ++ (xs ++ rest)) (drop-take e.start i e.frame) in
    let behind : bytes e ++ (xs ++ rest) ≡ (bytes e ++ xs) ++ rest =
      sym (append_assoc (bytes e) xs rest) in
    let n = i + length xs - e.start in
    let sum : length (bytes e ++ xs) ≡ n =
      omega (arith, length-append (bytes e) xs, length-bytes e p, p.ordered) in
    rw (front, behind)
      (take_within n (bytes e ++ xs) rest (omega arith) ∙ take_all n (bytes e ++ xs) (omega arith))

-- What a write of the bytes `xs` leaves.
record Written (e : End) (buf : List (List ℕ)) (so_far : ℕ) (xs : List ℕ) : Type 0 where
  page : (write_from e buf so_far).0 ≡ grown e xs
  count : (write_from e buf so_far).1 ≡ so_far + length xs

write_nil : (e : End) (so_far : ℕ) → Written e [] so_far []
unfolding write_from
write_nil e so_far = record {
  page = ap (λ frame. record e { frame = frame }) (sym (spliced_nil e.end e.frame)) ∙ ground arith;
  count = omega arith;
}

-- The last slice does not fit: what is left of the page is filled.
write_part :
    (e : End) (f : List ℕ) (next : List (List ℕ)) (so_far n : ℕ)
    → n ≡ 4096 - e.end
    → n < length f
    → Written e (f ∷ next) so_far (take n (f ++ flatten next))
unfolding write_from spliced
write_part e f next so_far n room h =
    let len : min (length f) (4096 - e.end) ≡ n = omega arith in
    let short = lt→ltb n (length f) h in
    let cut : take n (f ++ flatten next) ≡ take n f =
      take_within n f (flatten next) (omega arith) in
    let size : length (take n f) ≡ n = omega (arith, length-take n f) in
    rw cut (record { page = rw (len, short, size) refl; count = rw (len, short, size) refl })

write_full :
    (e : End) (f : List ℕ) (next : List (List ℕ)) (so_far : ℕ) (xs : List ℕ)
    → IsPage e
    → length f ≤ 4096 - e.end
    → Written (grown e f) next (so_far + length f) xs
    → Written e (f ∷ next) so_far (f ++ xs)
unfolding write_from spliced
write_full e f next so_far xs p h w =
    let k = length f in
    let len : min k (4096 - e.end) ≡ k = omega arith in
    let long = le→ltb k k (omega arith) in
    let all : take k f ≡ f = take_all k f (omega arith) in
    let twice : grown (grown e f) xs ≡ grown e (f ++ xs) =
      ap (λ frame. record e { frame = frame; end = e.end + k + length xs })
        (spliced-spliced e.end f xs e.frame (omega (arith, p.sized, p.bounded)))
      ∙ ap (λ (n : ℕ). record e { frame = spliced e.end (f ++ xs) e.frame; end = n })
          (omega (arith, length-append f xs)) in
    record {
      page = rw (len, long, all) (w.page ∙ twice);
      count = rw (len, long, all) (w.count ∙ omega (arith, length-append f xs));
    }

write_from_lem :
    (e : End) (buf : List (List ℕ)) (so_far n : ℕ)
    → IsPage e
    → n ≡ min (length (flatten buf)) (4096 - e.end)
    → Written e buf so_far (take n (flatten buf))
write_from_lem e [] so_far n p h = rw (take-nil n) (write_nil e so_far)
write_from_lem e (f ∷ next) so_far n p h =
    let k = length f in
    let total = length-append f (flatten next) in
    elim (le_or_lt k (4096 - e.end)) [
      | inr part ↦ write_part e f next so_far n (omega arith) (omega arith)
      | inl whole ↦ rw (take_beyond n f (flatten next) (omega arith)) (
          write_full e f next so_far (take (n - k) (flatten next)) p whole (
            write_from_lem (grown e f) next (so_far + k) (n - k) (grown-IsPage e f p whole)
              (omega (arith, p.bounded))))
    ]

-- A write appends as many bytes as the slices have and the page has room for.
pub record IsWritten (e : End) (buf : List (List ℕ)) (n : ℕ) : Type 0 where
  pub page : IsPage (write_end e buf).0
  pub start : (write_end e buf).0.start ≡ e.start
  pub end : (write_end e buf).0.end ≡ e.end + n
  pub appended : bytes (write_end e buf).0 ≡ bytes e ++ take n (flatten buf)
  pub count : (write_end e buf).1 ≡ n

pub write_end_lem :
    (e : End) (buf : List (List ℕ))
    → IsPage e
    → IsWritten e buf (min (length (flatten buf)) (4096 - e.end))
unfolding write_end
write_end_lem e buf p =
    let n = min (length (flatten buf)) (4096 - e.end) in
    let xs = take n (flatten buf) in
    let size : length xs ≡ n = omega (arith, length-take n (flatten buf)) in
    let w = write_from_lem e buf 0 n p refl in
    record {
      page = rw w.page (grown-IsPage e xs p (omega arith));
      start = rw w.page refl;
      end = rw w.page (ap (λ (i : ℕ). e.end + i) size);
      appended = rw w.page (bytes-grown e xs p (omega arith));
      count = w.count ∙ zero-add (length xs) ∙ size;
    }

-- ===== src/Pipe/Sending.antt =====
-- `Sender::write` appends to the stream of a pipe.
use umi.Base.{
  ℕ, ◌+◌, ◌≤◌, ◌<◌, ◌≡◌, ◌⊎◌, inl, inr, refl, sym, ap, subst, ◌∙◌, List, [], ◌∷◌, ◌++◌, false,
  Bool-cases, Option, none, some, Option-cases, ltb, ◌==◌, take, length, flatten, arith,
  append_assoc, append-nil, length-append, done, All,
}
use umi.Crates.{SegQueue}
use umi.Pipe.{
  End, page_size, Pipe, is_buffer_full, is_empty, write_end, write_page, alloc_new, write_taken,
  try_write,
}
use umi.Pipe.Pages.{IsPage, bytes}
use umi.Pipe.Frames.{write_end_lem}
use umi.Pipe.Stream.{IsFull, IsOpen, Kept, held, queued, pages, IsStream, stream}

module _ (seg_queue : SegQueue End) where
  open seg_queue use {Queue, contents}

  -- What a write of `n` bytes means for the stream, which was `before`.
  pub record Sends (before : List ℕ) (p : Pipe seg_queue) (buf : List (List ℕ)) (n : ℕ)
      : Type 0 where
    pub stays : IsStream seg_queue p
    pub grows : stream seg_queue p ≡ before ++ take n (flatten buf)
    pub bounded : n ≤ length (flatten buf)
    pub progress : 0 < length (flatten buf) → 0 < n

  All-append : (xs ys : List End) → All IsFull xs → All IsFull ys → All IsFull (xs ++ ys)
  All-append [] ys h g = g
  All-append (x ∷ xs) ys h g = (h.0, All-append xs ys h.1 g)

  queued-append : (xs ys : List End) → queued (xs ++ ys) ≡ queued xs ++ queued ys
  queued-append [] ys = refl
  queued-append (x ∷ xs) ys =
      ap (λ l. bytes x ++ l) (queued-append xs ys)
      ∙ sym (append_assoc (bytes x) (queued xs) (queued ys))

  -- The page is the last of the stream, and there is a place for it in the queue.
  write_page_lem :
      (p : Pipe seg_queue) (e : End) (buf : List (List ℕ)) (front : List ℕ)
      → IsStream seg_queue (record p { writer = some e })
      → front ≡ held p.reader ++ queued (contents p.buffer)
      → (p' : Pipe seg_queue) × (n : ℕ) × (write_page seg_queue p e buf ≡ done (p', some n))
        × Sends (front ++ bytes e) p' buf n
  unfolding write_page is_buffer_full is_empty
  write_page_lem p e buf front s before =
      let w = write_end_lem e buf s.writer.page in
      let e' = (write_end e buf).0 in
      let n = (write_end e buf).1 in
      let grows : front ++ bytes e' ≡ (front ++ bytes e) ++ take n (flatten buf) =
        ap (λ l. front ++ l)
          (w.appended ∙ ap (λ (k : ℕ). bytes e ++ take k (flatten buf)) (sym w.count))
        ∙ sym (append_assoc front (bytes e) (take n (flatten buf))) in
      let pages_before = queued (contents p.buffer) in
      let flat : held p.reader ++ (pages_before ++ bytes e') ≡ front ++ bytes e' =
        sym (append_assoc (held p.reader) pages_before (bytes e'))
        ∙ ap (λ l. l ++ bytes e') (sym before) in
      elim (Bool-cases (e'.end == page_size)) [
        | inl full ↦
            let whole : e'.end ≡ 4096 = ground arith in
            let unread : e'.start < 4096 =
              omega (arith, w.start, s.writer.page.ordered, s.writer.part) in
            let some_bytes : (e'.start == e'.end) ≡ false = ground arith in
            let p' : Pipe seg_queue = record p {
              buffer = seg_queue.push p.buffer e';
              writer = none;
            } in
            let pushed = seg_queue.push_back p.buffer e' in
            let page : IsFull e' = record { page = w.page; whole = whole; unread = unread } in
            (
              p',
              n,
              rw (full, some_bytes) refl,
              record {
                stays = record {
                  reader = s.reader;
                  queue = rw pushed (All-append (contents p.buffer) (e' ∷ []) s.queue (page, tt));
                  writer = tt;
                  room = omega (
                    arith,
                    ap length pushed,
                    length-append (contents p.buffer) (e' ∷ []),
                    s.room,
                  );
                };
                grows =
                    rw
                      (
                        pushed,
                        append-nil (queued (contents p.buffer ++ e' ∷ [])),
                        queued-append (contents p.buffer) (e' ∷ []),
                        append-nil (bytes e'),
                      )
                      (flat ∙ grows);
                bounded = omega (arith, w.count);
                progress = λ h. omega (arith, w.count, s.writer.part);
              },
            )
        | inr part ↦
            let p' : Pipe seg_queue = record p { writer = some e' } in
            (
              p',
              n,
              rw part refl,
              record {
                stays = record {
                  reader = s.reader;
                  queue = s.queue;
                  writer = record { page = w.page; part = ground (arith, w.page.bounded) };
                  room = s.room;
                };
                grows = flat ∙ grows;
                bounded = omega (arith, w.count);
                progress = λ h. omega (arith, w.count, s.writer.part);
              },
            )
      ]

  at_end :
      (p : Pipe seg_queue) (w : Option End)
      → p.writer ≡ w
      → (held p.reader ++ queued (contents p.buffer)) ++ held w ≡ stream seg_queue p
  at_end p w h =
      append_assoc (held p.reader) (queued (contents p.buffer)) (held w)
      ∙ ap (λ w. held p.reader ++ (queued (contents p.buffer) ++ held w)) (sym h)

  -- What `Frame::new` returns: a frame of one page, or an error.
  abbrev pub IsFrame : Option (List ℕ) → Type 0
  IsFrame none = Unit
  IsFrame (some frame) = length frame ≡ 4096

  -- On a well formed pipe, a write appends the first bytes of the slices to the stream and at least
  -- one where there is one; it has to wait only if no page is open and the queue is full or there
  -- is no frame, and never panics.
  pub try_write_lem :
      (p : Pipe seg_queue) (frame : Option (List ℕ)) (buf : List (List ℕ))
      → IsStream seg_queue p
      → IsFrame frame
      → ((try_write seg_queue p frame buf ≡ done (p, none))
          × (p.writer ≡ none)
          × ((frame ≡ none) ⊎ (length (contents p.buffer) ≡ p.max_buffers)))
        ⊎ ((p' : Pipe seg_queue) × (n : ℕ) × (try_write seg_queue p frame buf ≡ done (p', some n))
            × Sends (stream seg_queue p) p' buf n)
  unfolding try_write write_taken alloc_new
  try_write_lem p frame buf s v =
      let before = held p.reader ++ queued (contents p.buffer) in
      elim (Option-cases p.writer) [
        | inr (e, writing) ↦
            let t : IsStream seg_queue (record p { writer = some e }) = record {
              reader = s.reader;
              queue = s.queue;
              writer = subst (Kept IsOpen) writing s.writer;
              room =
                  subst (λ w. length (contents p.buffer) + pages w ≤ p.max_buffers) writing s.room;
            } in
            let (p', n, run, sends) = write_page_lem p e buf before t refl in
            let same : try_write seg_queue p frame buf ≡ write_page seg_queue p e buf =
              ground arith in
            inr (p', n, same ∙ run, subst (λ b. Sends b p' buf n) (at_end p (some e) writing) sends)
        | inl closed ↦ elim (Option-cases frame) [
          | inl no_frame ↦ inl (rw (closed, no_frame) refl, closed, inl no_frame)
          | inr (f, given) ↦ elim (Bool-cases (ltb (seg_queue.len p.buffer) p.max_buffers)) [
            | inr full ↦ inl (
              rw (closed, given, full) refl,
              closed,
              inr (ground (arith, seg_queue.len_contents p.buffer, s.room)),
            )
            | inl room ↦
                let e : End = record { frame = f; start = 0; end = 0 } in
                let size : length f ≡ 4096 = subst IsFrame given v in
                let page : IsPage e = record {
                  sized = size;
                  ordered = omega arith;
                  bounded = omega arith;
                } in
                let t : IsStream seg_queue (record p { writer = some e }) = record {
                  reader = s.reader;
                  queue = s.queue;
                  writer = record { page = page; part = omega arith };
                  room = ground (arith, seg_queue.len_contents p.buffer);
                } in
                let (p', n, run, sends) = write_page_lem p e buf before t refl in
                let same : try_write seg_queue p frame buf ≡ write_page seg_queue p e buf =
                  ground arith in
                inr (p', n, same ∙ run, subst (λ b. Sends b p' buf n) (at_end p none closed) sends)
          ]
        ]
      ]

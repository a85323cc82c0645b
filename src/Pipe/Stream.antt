-- ===== src/Pipe/Stream.antt =====
-- A pipe is a stream of bytes, first in, first out: what `Receiver::read` and `Sender::write` do to
-- the pages is what they do to the stream.
use umi.Base.{
  ℕ, ◌+◌, ◌-◌, ◌≤◌, ◌<◌, ◌≡◌, ◌⊎◌, inl, inr, refl, sym, ap, subst, ◌∙◌, List, [], ◌∷◌, ◌++◌, true,
  false, Bool-cases, Option, none, some, Option-cases, list_cases, ◌==◌, if◌then◌else◌, take, drop,
  length, min, map, flatten, arith, append_assoc, append-nil, length-append, take_within,
  drop_within, Run, done, All,
}
use umi.Crates.{SegQueue}
use umi.Pipe.{
  End, page_size, Pipe, pipe, is_buffer_full, should_discard, is_empty, read_end, read_page,
  read_writer, read_second, read_first, try_read,
}
use umi.Pipe.Pages.{IsPage, bytes, length-bytes, read_end_lem}

-- A page that the reader takes: its end is written, and not all of it is read.
pub record IsFull (e : End) : Type 0 where
  pub page : IsPage e
  pub whole : e.end ≡ 4096
  pub unread : e.start < 4096

pub record IsOpen (e : End) : Type 0 where
  pub page : IsPage e
  pub part : e.end < 4096

abbrev pub Kept : (End → Type 0) → Option End → Type 0
Kept P none = Unit
Kept P (some e) = P e

abbrev pub held : Option End → List ℕ
held none = []
held (some e) = bytes e

abbrev pub queued : List End → List ℕ
queued [] = []
queued (e ∷ es) = bytes e ++ queued es

abbrev pub pages : Option End → ℕ
pages none = 0
pages (some e) = 1

module _ (seg_queue : SegQueue End) where
  open seg_queue use {Queue, contents}

  pub record IsStream (p : Pipe seg_queue) : Type 0 where
    pub reader : Kept IsFull p.reader
    pub queue : All IsFull (contents p.buffer)
    pub writer : Kept IsOpen p.writer
    pub room : length (contents p.buffer) + pages p.writer ≤ p.max_buffers

  -- The bytes that were written and not yet read.
  abbrev pub stream : Pipe seg_queue → List ℕ
  stream p = held p.reader ++ (queued (contents p.buffer) ++ held p.writer)

  pub pipe_lem : IsStream (pipe seg_queue) × (stream (pipe seg_queue) ≡ [])
  unfolding pipe
  pipe_lem = (
    record {
      reader = tt;
      queue = rw seg_queue.new_empty tt;
      writer = tt;
      room = rw seg_queue.new_empty (omega arith);
    },
    rw seg_queue.new_empty refl,
  )

  -- What a read of `n` bytes means for the stream, which was `before`.
  pub record Receives (before : List ℕ) (p : Pipe seg_queue) (buf out : List (List ℕ)) (n : ℕ)
      : Type 0 where
    pub stays : IsStream p
    pub rest : stream p ≡ drop n before
    pub filled : flatten out ≡ take n before ++ drop n (flatten buf)
    pub shape : map length out ≡ map length buf
    pub bounded : n ≤ length (flatten buf)
    pub within : n ≤ length before
    pub progress : 0 < length (flatten buf) → 0 < n

  -- A read that yields bytes.
  abbrev pub Yields :
      List ℕ → List (List ℕ) → Run (Pipe seg_queue × Option (List (List ℕ) × ℕ)) → Type 0
  Yields before buf r =
      (p : Pipe seg_queue) × (out : List (List ℕ)) × (n : ℕ) × (r ≡ done (p, some (out, n)))
      × Receives before p buf out n

  -- The bytes of a page are the first of the stream.
  first_page :
      (e : End) (buf : List (List ℕ)) (others : List ℕ) (p : Pipe seg_queue)
      → IsPage e
      → e.start < e.end
      → IsStream p
      → stream p ≡ bytes (read_end e buf).0 ++ others
      → Receives (bytes e ++ others) p buf (read_end e buf).1 (read_end e buf).2
  first_page e buf others p page unread s after =
      let n = min (length (flatten buf)) (length (bytes e)) in
      let r = read_end_lem e buf page in
      let len = length-bytes e page in
      let taken = take_within n (bytes e) others (omega arith) in
      let left = drop_within n (bytes e) others (omega arith) in
      rw r.count (record {
        stays = s;
        rest = after ∙ ap (λ l. l ++ others) r.rest ∙ sym left;
        filled = r.filled ∙ ap (λ l. l ++ drop n (flatten buf)) (sym taken);
        shape = r.shape;
        bounded = omega arith;
        within = omega (arith, length-append (bytes e) others);
        progress = λ h. omega arith;
      })

  -- What the reader keeps of a page.
  kept :
      (e : End)
      → IsPage e
      → e.end ≡ 4096
      → Kept IsFull (if should_discard e then none else some e)
        × (held (if should_discard e then none else some e) ≡ bytes e)
  unfolding should_discard
  kept e p h = elim (Bool-cases (e.start == page_size)) [
    | inl over ↦
        let start : e.start ≡ 4096 = ground arith in
        let gap : e.end - e.start ≡ 0 = omega arith in
        let nothing : bytes e ≡ [] = ap (λ (n : ℕ). take n (drop e.start e.frame)) gap in
        rw over (tt, sym nothing)
    | inr more ↦ rw more (record { page = p; whole = h; unread = ground (arith, p.ordered) }, refl)
  ]

  read_page_lem :
      (p : Pipe seg_queue) (e : End) (buf : List (List ℕ))
      → IsFull e
      → IsStream p
      → Yields
          (bytes e ++ (queued (contents p.buffer) ++ held p.writer))
          buf
          (read_page seg_queue p e buf)
  unfolding read_page is_buffer_full
  read_page_lem p e buf full s =
      let r = read_end_lem e buf full.page in
      let e' = (read_end e buf).0 in
      let (keeps, holds) = kept e' r.page (ap (λ x. x.end) r.frame ∙ full.whole) in
      let others = queued (contents p.buffer) ++ held p.writer in
      let whole : (e.end == page_size) ≡ true = ground (arith, full.whole) in
      let p' : Pipe seg_queue = record p { reader = if should_discard e' then none else some e' } in
      (
        p',
        (read_end e buf).1,
        (read_end e buf).2,
        rw whole refl,
        first_page e buf others p' full.page (omega (arith, full.whole, full.unread))
            (record { reader = keeps; queue = s.queue; writer = s.writer; room = s.room })
            (ap (λ l. l ++ others) holds),
      )

  -- The page that the writer fills is the whole stream.
  read_writer_lem :
      (p : Pipe seg_queue) (w : Option End) (buf : List (List ℕ))
      → IsStream p
      → p.reader ≡ none
      → contents p.buffer ≡ []
      → Kept IsOpen w
      → p.writer ≡ w
      → ((held w ≡ []) × (read_writer seg_queue p w buf ≡ done (record p { writer = none }, none)))
        ⊎ Yields (held w) buf (read_writer seg_queue p w buf)
  unfolding read_writer is_empty should_discard
  read_writer_lem p none buf s no_reader no_pages o same = inl (refl, refl)
  read_writer_lem p (some e) buf s no_reader no_pages o same =
      let r = read_end_lem e buf o.page in
      let e' = (read_end e buf).0 in
      let p' : Pipe seg_queue = record p { writer = some e' } in
      elim (Bool-cases (e.start == e.end)) [
        | inl over ↦
            let gap : e.end - e.start ≡ 0 = ground arith in
            inl (ap (λ (n : ℕ). take n (drop e.start e.frame)) gap, rw over refl)
        | inr more ↦
            let end' : e'.end ≡ e.end = ap (λ x. x.end) r.frame in
            let stays : (e'.start == page_size) ≡ false =
              ground (arith, r.page.ordered, end', o.part) in
            inr (
              p',
              (read_end e buf).1,
              (read_end e buf).2,
              rw (more, stays) refl,
              subst (λ before. Receives before p' buf (read_end e buf).1 (read_end e buf).2)
                  (append-nil (bytes e))
                  (first_page e buf [] p' o.page (ground (arith, o.page.ordered))
                    (record {
                      reader = s.reader;
                      queue = s.queue;
                      writer = record { page = r.page; part = rw end' o.part };
                      room =
                          subst (λ w. length (contents p.buffer) + pages w ≤ p.max_buffers) same
                            s.room;
                    })
                    (rw (no_reader, no_pages) (sym (append-nil (bytes e'))))),
            )
      ]

  -- A page of the queue is the front of it.
  pop_page :
      (p : Pipe seg_queue) (e : End) (rest : List End)
      → IsStream p
      → contents p.buffer ≡ e ∷ rest
      → (seg_queue.pop p.buffer ≡ ((seg_queue.pop p.buffer).0, some e))
        × IsFull e
        × IsStream (record p { buffer = (seg_queue.pop p.buffer).0 })
        × (queued (contents p.buffer) ≡ bytes e ++ queued (contents (seg_queue.pop p.buffer).0))
  pop_page p e rest s h =
      let (yields, left) = seg_queue.pop_front p.buffer e rest h in
      let full : All IsFull (e ∷ rest) = subst (All IsFull) h s.queue in
      (
        ground (arith, yields),
        full.0,
        record {
          reader = s.reader;
          queue = rw left full.1;
          writer = s.writer;
          room = omega (arith, ap length h, ap length left, s.room);
        },
        rw (h, left) refl,
      )

  -- On a well formed pipe, a read yields the first bytes of the stream and at least one where one
  -- is asked for; it has to wait only if the stream is empty, and never panics.
  pub try_read_lem :
      (p : Pipe seg_queue) (buf : List (List ℕ))
      → IsStream p
      → ((stream p ≡ [])
          × (p' : Pipe seg_queue) × (try_read seg_queue p buf ≡ done (p', none))
          × IsStream p'
          × (stream p' ≡ []))
        ⊎ Yields (stream p) buf (try_read seg_queue p buf)
  unfolding try_read read_first read_second
  try_read_lem p buf s = elim (Option-cases p.reader) [
    | inr (e, reading) ↦
        let full : IsFull e = subst (Kept IsFull) reading s.reader in
        let cleared : Pipe seg_queue = record p { reader = none } in
        inr (
          rw reading (
            read_page_lem cleared e buf full
              (record { reader = tt; queue = s.queue; writer = s.writer; room = s.room })))
    | inl idle ↦ elim (list_cases (contents p.buffer)) [
      | inr (e, rest, front) ↦
          let (pops, full, left, split) = pop_page p e rest s front in
          let behind = queued (contents (seg_queue.pop p.buffer).0) in
          let popped : Pipe seg_queue = record p {
            buffer = (seg_queue.pop p.buffer).0;
            reader = none;
          } in
          inr (
            rw (idle, split, append_assoc (bytes e) behind (held p.writer), pops)
              (read_page_lem popped e buf full (record {
                reader = tt;
                queue = left.queue;
                writer = left.writer;
                room = left.room;
              })))
      | inl no_pages ↦
          let pops = seg_queue.pop_empty p.buffer no_pages in
          let q : Pipe seg_queue = record p { reader = none } in
          let t : IsStream q = record {
            reader = tt;
            queue = s.queue;
            writer = s.writer;
            room = s.room;
          } in
          elim (read_writer_lem q p.writer buf t refl no_pages s.writer refl) [
            | inr yields ↦ inr (rw (idle, no_pages, pops, pops) yields)
            | inl (nothing, run) ↦ inl (
              rw (idle, no_pages) nothing,
              record q { writer = none },
              rw (idle, pops, pops) run,
              record { reader = tt; queue = s.queue; writer = tt; room = omega (arith, s.room) },
              rw no_pages refl,
            )
          ]
    ]
  ]

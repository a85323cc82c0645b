-- ===== src/Sygnal/Queue/Search.antt =====
-- The search of `pop` for a queue that is not masked and yields a signal.
use umi.Base.{
  ℕ, zero, suc, ◌+◌, ◌<◌, ◌≡◌, ◌⊎◌, inl, inr, refl, List, [], ◌∷◌, Bool, true, false, none, some,
  get_elem?, set, length, arith, ap, ◌∙◌,
}
use umi.Crates.{ArrayQueue}
use umi.Sygnal.{SigSet, contains_index}
use umi.Sygnal.Queue.{SigInfo, SigPending, popped, search}

module _ (array_queue : ArrayQueue SigInfo) where
  open array_queue use {Queue, contents, capacity}

  -- The queues before `k` of a search are masked or empty.
  abbrev pub Passed : SigSet → ℕ → ℕ → List (SigPending array_queue) → Type 0
  Passed masked i n ps =
      (j : ℕ) (q : SigPending array_queue)
      → j < n
      → get_elem? ps j ≡ some q
      → (contains_index masked (i + j) ≡ true) ⊎ (contents q.queue ≡ [])

  abbrev pub Nothing : SigSet → ℕ → List (SigPending array_queue) → Type 0
  Nothing masked i ps =
      (search array_queue masked i ps ≡ (ps, none)) × Passed masked i (length ps) ps

  -- The search stops at the queue `k`.
  pub record Stops (masked : SigSet) (i : ℕ) (ps : List (SigPending array_queue)) : Type 0 where
    pub k : ℕ
    pub p : SigPending array_queue
    pub info : SigInfo
    pub rest : List SigInfo
    pub there : get_elem? ps k ≡ some p
    pub items : contents p.queue ≡ info ∷ rest
    pub open_to : contains_index masked (i + k) ≡ false
    pub result : search array_queue masked i ps ≡ (
      set ps k (popped array_queue p),
      some (info, array_queue.is_empty (popped array_queue p).queue),
    )
    pub before : Passed masked i k ps

  Passed-cons :
      (masked : SigSet) (i n : ℕ) (p : SigPending array_queue) (ps : List (SigPending array_queue))
      → (contains_index masked i ≡ true) ⊎ (contents p.queue ≡ [])
      → Passed masked (suc i) n ps
      → Passed masked i (suc n) (p ∷ ps)
  Passed-cons masked i n p ps h rest zero q b e =
      let same : p ≡ q = cc in let here : i ≡ i + 0 = omega arith in rw (← here, ← same) h
  Passed-cons masked i n p ps h rest (suc j) q b e =
      let shift : suc i + j ≡ i + suc j = omega arith in rw (← shift) (rest j q (omega arith) e)

  skip :
      (masked : SigSet) (i : ℕ) (p : SigPending array_queue) (ps : List (SigPending array_queue))
      → (contains_index masked i ≡ true) ⊎ (contents p.queue ≡ [])
      → search array_queue masked i (p ∷ ps)
        ≡ (p ∷ (search array_queue masked (suc i) ps).0, (search array_queue masked (suc i) ps).1)
  unfolding search
  skip masked i p ps (inl h) = ground arith
  skip masked i p ps (inr h) =
      let same = array_queue.pop_empty p.queue h in
      let yields : (array_queue.pop p.queue).1 ≡ none = ap (λ r. r.1) same in
      let keeps : (array_queue.pop p.queue).0 ≡ p.queue = ap (λ r. r.0) same in ground arith

  skipped :
      (masked : SigSet) (i : ℕ) (p : SigPending array_queue) (ps : List (SigPending array_queue))
      → (contains_index masked i ≡ true) ⊎ (contents p.queue ≡ [])
      → Nothing masked (suc i) ps ⊎ Stops masked (suc i) ps
      → Nothing masked i (p ∷ ps) ⊎ Stops masked i (p ∷ ps)
  skipped masked i p ps h (inl (e, passed)) = inl (
    skip masked i p ps h ∙ ap (λ r. (p ∷ r.0, r.1)) e,
    Passed-cons masked i (length ps) p ps h passed,
  )
  skipped masked i p ps h (inr s) =
      let shift : suc i + s.k ≡ i + suc s.k = omega arith in
      inr (record {
        k = suc s.k;
        p = s.p;
        info = s.info;
        rest = s.rest;
        there = s.there;
        items = s.items;
        open_to = rw (← shift) s.open_to;
        result = skip masked i p ps h ∙ ap (λ r. (p ∷ r.0, r.1)) s.result;
        before = Passed-cons masked i s.k p ps h s.before;
      })

  pub search_lem :
      (masked : SigSet) (i : ℕ) (ps : List (SigPending array_queue))
      → Nothing masked i ps ⊎ Stops masked i ps
  unfolding search
  search_lem masked i [] = inl (refl, λ j q b e. absurd (omega arith))
  search_lem masked i (p ∷ ps) =
      go (contains_index masked i) refl (contents p.queue) refl (search_lem masked (suc i) ps)
    where
      go :
          (b : Bool)
          → contains_index masked i ≡ b
          → (l : List SigInfo) → contents p.queue ≡ l
          → Nothing masked (suc i) ps ⊎ Stops masked (suc i) ps
          → Nothing masked i (p ∷ ps) ⊎ Stops masked i (p ∷ ps)
      go true e l f ih = skipped masked i p ps (inl e) ih
      go false e [] f ih = skipped masked i p ps (inr f) ih
      go false e (info ∷ rest) f ih =
          let here : i ≡ i + 0 = omega arith in
          let (yields, left, cap) = array_queue.pop_front p.queue info rest f in
          inr (record {
            k = 0;
            p = p;
            info = info;
            rest = rest;
            there = refl;
            items = f;
            open_to = rw (← here) e;
            result = ground arith;
            before = λ j q b e. absurd (omega arith);
          })

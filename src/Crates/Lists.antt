-- ===== src/Crates/Lists.antt =====
-- The queues of the kernel's crates as lists: the simplest structures that behave as documented.
use umi.Base.{
  ◌≡◌, ◌↔◌, refl, List, [], ◌∷◌, ◌++◌, Bool, true, false, ltb, Option, none, some, if◌then◌else◌,
  length, arith, ℕ, ◌==◌, ◌≤◌, ◌<◌, take, take_all, take-nil, length-take, length-append, ap,
}
use mathlib.Core.Option
use umi.Crates.{HashMap, ArrayQueue, MpMcQueue, SegQueue}

pub record Bounded (A : Type 0) : Type 0 where
  pub items : List A
  pub room : ℕ

module _ {A : Type 0} where
  push_bounded : Bounded A → A → Bounded A × Bool
  push_bounded q a =
      if ltb (length q.items) q.room
      then (record q { items = q.items ++ a ∷ [] }, true)
      else (q, false)

  pop_list : List A → List A × Option A
  pop_list [] = ([], none)
  pop_list (a ∷ l) = (l, some a)

  pop_bounded : Bounded A → Bounded A × Option A
  unfolding pop_list
  pop_bounded q = (record q { items = (pop_list q.items).0 }, (pop_list q.items).1)

  is_nil : List A → Bool
  is_nil [] = true
  is_nil (a ∷ l) = false

  is_nil_iff : (l : List A) → (is_nil l ≡ true) ↔ (l ≡ [])
  unfolding is_nil
  is_nil_iff [] = (λ e. refl, λ e. refl)
  is_nil_iff (a ∷ l) = (λ e. absurd (cc), λ e. absurd (cc))

  pub list_queue : ArrayQueue A
  unfolding push_bounded pop_bounded pop_list
  list_queue = record {
    Queue = Bounded A;
    new = λ n. record { items = []; room = n };
    push = push_bounded;
    pop = pop_bounded;
    is_empty = λ q. is_nil q.items;
    contents = λ q. q.items;
    capacity = λ q. q.room;
    new_empty = λ n h. (refl, refl);
    push_room = λ q a h. ground arith;
    push_full = λ q a h. ground arith;
    pop_empty = λ q h. ground arith;
    pop_front = λ q a rest h. ground arith;
    is_empty_iff = λ q. is_nil_iff q.items;
  }

  unfoldable pub seg_list : SegQueue A
  unfolding pop_list
  seg_list = record {
    Queue = List A;
    new = [];
    push = λ q a. q ++ a ∷ [];
    pop = pop_list;
    len = length;
    contents = λ q. q;
    new_empty = refl;
    push_back = λ q a. refl;
    pop_empty = λ q h. ground arith;
    pop_front = λ q a rest h. ground arith;
    len_contents = λ q. refl;
  }

module _ {A : Type 0} (cap : ℕ) where
  unfoldable pub enqueue_list : List A → A → List A × Bool
  enqueue_list q a =
      if ltb (length (take cap q)) cap then (take cap q ++ a ∷ [], true) else (q, false)

  unfoldable pub dequeue_list : List A → List A → List A × Option A
  dequeue_list q [] = (q, none)
  dequeue_list q (a ∷ l) = (l, some a)

  pub enqueue_list_room :
      (q : List A) (a : A)
      → length (take cap q) < cap
      → ((enqueue_list q a).1 ≡ true) × (take cap (enqueue_list q a).0 ≡ take cap q ++ a ∷ [])
  unfolding enqueue_list
  enqueue_list_room q a h =
      let test : ltb (length (take cap q)) cap ≡ true = ground arith in
      rw test (
        refl,
        take_all cap (take cap q ++ a ∷ []) (omega (arith, length-append (take cap q) (a ∷ []))),
      )

  pub dequeue_list_front :
      (q : List A) (a : A) (rest : List A)
      → take cap q ≡ a ∷ rest
      → ((dequeue_list q (take cap q)).1 ≡ some a)
        × (take cap (dequeue_list q (take cap q)).0 ≡ rest)
  unfolding dequeue_list
  dequeue_list_front q a rest h =
      rw h (refl, take_all cap rest (omega (arith, length-take cap q, ap length h)))

  pub take_within_cap : (q : List A) → length (take cap q) ≤ cap
  take_within_cap q = omega (arith, length-take cap q)

  pub enqueue_list_full :
      (q : List A) (a : A) → cap ≤ length (take cap q) → enqueue_list q a ≡ (q, false)
  unfolding enqueue_list
  enqueue_list_full q a h =
      let test : ltb (length (take cap q)) cap ≡ false = ground arith in rw test refl

  pub dequeue_list_empty : (q : List A) → take cap q ≡ [] → dequeue_list q (take cap q) ≡ (q, none)
  unfolding dequeue_list
  dequeue_list_empty q h = rw h refl

  -- The queue is what the first `cap` items of a list are.
  abbrev pub list_mpmc : MpMcQueue A cap
  list_mpmc = record {
    Queue = List A;
    new = [];
    enqueue = enqueue_list;
    dequeue = λ q. dequeue_list q (take cap q);
    contents = take cap;
    new_empty = take-nil cap;
    within = take_within_cap;
    enqueue_room = enqueue_list_room;
    enqueue_full = enqueue_list_full;
    dequeue_empty = dequeue_list_empty;
    dequeue_front = dequeue_list_front;
  }

module _ {V : Type 0} where
  pub look : ℕ → List (ℕ × V) → Option V
  look k [] = none
  look k ((j, v) ∷ m) = if j == k then some v else look k m

  pub without : ℕ → List (ℕ × V) → List (ℕ × V)
  without k [] = []
  without k ((j, v) ∷ m) = if j == k then without k m else (j, v) ∷ without k m

  pub revise : ℕ → (V → V) → List (ℕ × V) → List (ℕ × V)
  revise k f [] = []
  revise k f ((j, v) ∷ m) = (j, if j == k then f v else v) ∷ revise k f m

  pub look-without :
      (j k : ℕ) (m : List (ℕ × V)) → look j (without k m) ≡ (if k == j then none else look j m)
  unfolding look without
  look-without j k [] = ground arith
  look-without j k ((i, v) ∷ m) = ground (arith, look-without j k m)

  pub look-revise :
      (j k : ℕ) (f : V → V) (m : List (ℕ × V))
      → look j (revise k f m) ≡ (if k == j then Option.map f (look j m) else look j m)
  unfolding look revise
  look-revise j k f [] = ground arith
  look-revise j k f ((i, v) ∷ m) = ground (arith, look-revise j k f m)

  unfoldable pub list_map : HashMap V
  unfolding look without
  list_map = record {
    Map = List (ℕ × V);
    empty = [];
    get = look;
    insert = λ k v m. (k, v) ∷ without k m;
    insert_unique_unchecked = λ k v m. (k, v) ∷ without k m;
    remove = without;
    update = revise;
    len = length;
    get-empty = λ k. refl;
    get-insert = λ j k v m. ground (arith, look-without j k m);
    insert_unique = λ k v m h. refl;
    get-remove = look-without;
    get-update = look-revise;
  }

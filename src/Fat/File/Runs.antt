-- ===== src/Fat/File/Runs.antt =====
-- The list of clusters that grows by a run is that of the longer chain.
use umi.Base.{
  ℕ, zero, suc, ◌+◌, ◌-◌, ◌<◌, ◌≡◌, refl, sym, ap, ◌∙◌, List, [], ◌∷◌, ◌++◌, Bool, true, false,
  ◌==◌, ◌&&◌, if◌then◌else◌, Option, some, last?, arith, Bool-cases, inl, inr,
}
use umi.Fat.Chain.{with_end, with_ends}
use umi.Fat.Chain.Chains.{elem, Distinct}
use umi.Fat.Chain.Freeing.{elem-apart}
use umi.Fat.File.{extend_ends, run_of, joined_ends, add_run}

-- `from..(from + n)`.
unfoldable pub upto : ℕ → ℕ → List ℕ
upto from zero = []
upto from (suc n) = from ∷ upto (suc from) n

front_of :
    (c n stop : ℕ) (l rest : List (ℕ × ℕ))
    → l ≡ (n, stop) ∷ rest
    → c + 1 ≡ n
    → ◌≡◌ {A = List (ℕ × ℕ)} ((c, stop) ∷ l) ((c, with_end c l) ∷ l)
unfolding with_end
front_of c n stop l rest h behind =
    let test : (c + 1 == n) ≡ true = ground arith in rw h (rw test refl)

run_of-upto : (new n stop : ℕ) → new + n ≡ suc stop → run_of new n stop ≡ with_ends (upto new n)
unfolding run_of with_ends with_end upto
run_of-upto new zero stop h = refl
run_of-upto new (suc zero) stop h = let same : stop ≡ new = omega arith in rw same refl
run_of-upto new (suc (suc n)) stop h =
    let rest = run_of-upto (suc new) (suc n) stop (omega arith) in
    ap (λ l. (new, stop) ∷ l) rest
    ∙ front_of new (suc new) stop (with_ends (upto (suc new) (suc n)))
        (run_of (suc (suc new)) n stop) (sym rest) (ground arith)

last-elem : (c L : ℕ) (cs : List ℕ) → last? (c ∷ cs) ≡ some L → elem L (c ∷ cs) ≡ true
unfolding elem
last-elem c L [] h = let same : c ≡ L = cc in ground arith
last-elem c L (n ∷ cs) h = ground (arith, last-elem n L cs h)

last-with_ends :
    (c L : ℕ) (cs : List ℕ) → last? (c ∷ cs) ≡ some L → last? (with_ends (c ∷ cs)) ≡ some (L, L)
unfolding with_ends with_end
last-with_ends c L [] h = let same : c ≡ L = cc in rw same refl
last-with_ends c L (n ∷ cs) h = last-with_ends n L cs h

-- A cluster in front of a list whose last run was extended, as `extend_ends` and `with_end` see it.
extend_step :
    (c n stop after L E : ℕ) (tail back : List (ℕ × ℕ)) (x : List (ℕ × ℕ) × Bool)
    → (n, after) ∷ tail ≡ x.0 ++ back
    → after ≡ (if x.1 then E else stop)
    → (x.1 ≡ true → stop ≡ L)
    → (c == L) ≡ false
    → let own = if c + 1 == n then stop else c in
      let y : List (ℕ × ℕ) × Bool =
        if x.1 && own == L then ((c, E) ∷ x.0, true) else ((c, own) ∷ x.0, false) in
      ((c, if c + 1 == n then after else c) ∷ (n, after) ∷ tail ≡ y.0 ++ back)
      × ((if c + 1 == n then after else c) ≡ (if y.1 then E else own))
      × (y.1 ≡ true → own ≡ L)
extend_step c n stop after L E tail back (l, true) all first flag apart =
    elim (Bool-cases (c + 1 == n)) [
      | inl behind ↦
          let last : (stop == L) ≡ true = ground (arith, flag refl) in
          rw (behind, last)
            (ap (λ z. (c, after) ∷ z) all ∙ rw first refl, rw first refl, λ q. flag refl)
      | inr away ↦ rw (away, apart) (ap (λ z. (c, c) ∷ z) all, refl, λ q. absurd (cc))
    ]
extend_step c n stop after L E tail back (l, false) all first flag apart = (
  ap (λ z. (c, if c + 1 == n then after else c) ∷ z) all ∙ rw first refl,
  rw first refl,
  λ q. absurd (cc),
)

-- A run that follows on: the ends of the last run move.
extend_lem :
    (c L E r : ℕ) (cs rs : List ℕ)
    → last? (c ∷ cs) ≡ some L
    → Distinct (c ∷ cs)
    → L + 1 ≡ r
    → with_end r (with_ends rs) ≡ E
    → (with_ends ((c ∷ cs) ++ r ∷ rs)
        ≡ (extend_ends L E (with_ends (c ∷ cs))).0 ++ with_ends (r ∷ rs))
      × (with_end c (with_ends (cs ++ r ∷ rs))
          ≡ (if (extend_ends L E (with_ends (c ∷ cs))).1 then E else with_end c (with_ends cs)))
      × ((extend_ends L E (with_ends (c ∷ cs))).1 ≡ true → with_end c (with_ends cs) ≡ L)
unfolding with_ends with_end extend_ends Distinct
extend_lem c L E r [] rs h u next head =
    let same : c ≡ L = cc in
    let here : (c + 1 == r) ≡ true = ground arith in
    let self : (c == L) ≡ true = ground arith in
    (rw (head, here, self) refl, rw (head, here, self) refl, λ q. same)
extend_lem c L E r (n ∷ cs) rs h u next head =
    let (all, first, flag) = extend_lem n L E r cs rs h u.1 next head in
    let apart : (c == L) ≡ false = elem-apart c L (n ∷ cs) u.0 (last-elem n L cs h) in
    extend_step c n (with_end n (with_ends cs)) (with_end n (with_ends (cs ++ r ∷ rs))) L E
      (with_ends (cs ++ r ∷ rs)) (with_ends (r ∷ rs)) (extend_ends L E (with_ends (n ∷ cs))) all
      first flag apart

-- A run that does not follow on: the two lists stand one behind the other.
apart_lem :
    (c L r : ℕ) (cs rs : List ℕ)
    → last? (c ∷ cs) ≡ some L
    → (L + 1 == r) ≡ false
    → (with_ends ((c ∷ cs) ++ r ∷ rs) ≡ with_ends (c ∷ cs) ++ with_ends (r ∷ rs))
      × (with_end c (with_ends (cs ++ r ∷ rs)) ≡ with_end c (with_ends cs))
unfolding with_ends with_end
apart_lem c L r [] rs h away =
    let same : c ≡ L = cc in
    let test : (c + 1 == r) ≡ false = rw same away in (rw test refl, rw test refl)
apart_lem c L r (n ∷ cs) rs h away =
    let (all, first) = apart_lem n L r cs rs h away in
    (
      ap (λ l. (c, if c + 1 == n then with_end n (with_ends (cs ++ r ∷ rs)) else c) ∷ l) all
          ∙ rw first refl,
      rw first refl,
    )

last-some : (c : ℕ) (cs : List ℕ) → (L : ℕ) × (last? (c ∷ cs) ≡ some L)
last-some c [] = (c, refl)
last-some c (n ∷ cs) = last-some n cs

first-end :
    (a b c : ℕ) (l m : List (ℕ × ℕ)) → ◌≡◌ {A = List (ℕ × ℕ)} ((a, b) ∷ l) ((a, c) ∷ m) → c ≡ b
first-end a b c l m h = cc

joined_last :
    (o : Option (ℕ × ℕ)) (L new stop : ℕ) (xs : List (ℕ × ℕ))
    → o ≡ some (L, L)
    → joined_ends o new stop xs ≡ (if L + 1 == new then (extend_ends L stop xs).0 else xs)
unfolding joined_ends
joined_last o L new stop xs h = rw h refl

-- Where a run of at least one cluster is added to the clusters of a chain of distinct clusters, the
-- update that `write_at` makes in place gives the list that `all_clusters` would make of the longer
-- chain.
pub add_run-with_ends :
    (cs : List ℕ) (new count : ℕ)
    → 0 < count
    → Distinct cs
    → add_run new count (with_ends cs) ≡ with_ends (cs ++ upto new count)
unfolding add_run joined_ends with_ends upto run_of
add_run-with_ends cs new zero some_run u = absurd (omega arith)
add_run-with_ends [] new (suc n) some_run u =
    run_of-upto new (suc n) (new + suc n - 1) (omega arith)
add_run-with_ends (c ∷ cs) new (suc n) some_run u =
    let (L, last) = last-some c cs in
    let stop = new + suc n - 1 in
    let run = run_of-upto new (suc n) stop (omega arith) in
    let head : with_end new (with_ends (upto (suc new) n)) ≡ stop =
      first-end new stop (with_end new (with_ends (upto (suc new) n))) (run_of (suc new) n stop)
        (with_ends (upto (suc new) n)) run in
    let xs = with_ends (c ∷ cs) in
    let joined : add_run new (suc n) xs
        ≡ (if L + 1 == new then (extend_ends L stop xs).0 else xs) ++ run_of new (suc n) stop =
      ap (λ x. x ++ run_of new (suc n) stop)
        (joined_last (last? xs) L new stop xs (last-with_ends c L cs last)) in
    elim (Bool-cases (L + 1 == new)) [
      | inl follows ↦
          let (all, first, flag) =
            extend_lem c L stop new cs (upto (suc new) n) last u (ground arith) head in
          joined ∙ rw follows (ap (λ l. (extend_ends L stop xs).0 ++ l) run) ∙ sym all
      | inr away ↦
          let (all, first) = apart_lem c L new cs (upto (suc new) n) last away in
          joined ∙ rw away (ap (λ l. xs ++ l) run) ∙ sym all
    ]

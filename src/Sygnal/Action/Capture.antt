-- ===== src/Sygnal/Action/Capture.antt =====
-- No action can capture SIGKILL or SIGSTOP, and the table reads what was put there.
use umi.Base.{
  ℕ, zero, suc, ◌+◌, ◌-◌, ◌≤◌, ◌<◌, ◌≡◌, refl, List, [], ◌∷◌, ◌==◌, some, if◌then◌else◌, done,
  get_elem?, set, length, length-set, get_elem?-set_self, get_elem?-set_ne, arith, ap, ◌∙◌, passes,
  passes_each, agree, eq_of_agree,
}
use umi.Words.{bit}
use umi.Sygnal.{Sig, sig, sigkill, sigstop, from_index, index, should_never_capture}
use umi.Sygnal.Sets.{IsSig, index_lem}
use umi.Sygnal.Action.{
  Action, ActionSet, default_type, default, is_ignore, default_sig_mask, push_front, build_entry,
  build, built, new, at, get, exchange, replace,
}
use native.Mathlib.Decide.{ℕ_discrete}

-- The table is complete, and holds the defaults of the two signals that none may capture.
pub record IsProtected (a : ActionSet) : Type 0 where
  pub complete : length a.table ≡ 64
  pub kill : get_elem? a.table 8 ≡ some (default sigkill)
  pub stop : get_elem? a.table 18 ≡ some (default sigstop)

get_elem?_total {ℓ} :
    {A : Type ℓ} (xs : List A) (i : ℕ) → i < length xs → (x : A) × (get_elem? xs i ≡ some x)
get_elem?_total [] i h = absurd (omega arith)
get_elem?_total (x ∷ xs) zero h = (x, refl)
get_elem?_total (x ∷ xs) (suc i) h = get_elem?_total xs i (omega arith)

-- What the table of `new` holds: the default action of every signal.
build_lem :
    (n i : ℕ)
    → i + n ≤ 64
    → (l : List Action) × (build n i ≡ done l)
      × (length l ≡ n)
      × ((k : ℕ) → k < n → get_elem? l k ≡ some (default (sig (i + k + 1))))
unfolding build build_entry push_front from_index
build_lem zero i h = ([], refl, refl, λ k p. absurd (omega arith))
build_lem (suc n) i h =
    let (l, e, len, at) = build_lem n (i + 1) (omega arith) in
    (default (sig (i + 1)) ∷ l, first l e, ap suc len, go l at)
  where
    first :
        (l : List Action)
        → build n (i + 1) ≡ done l
        → build (suc n) i ≡ done (default (sig (i + 1)) ∷ l)
    first l e = ground arith

    go :
        (l : List Action)
        → ((k : ℕ) → k < n → get_elem? l k ≡ some (default (sig (i + 1 + k + 1))))
        → (k : ℕ) → k < suc n
        → get_elem? (default (sig (i + 1)) ∷ l) k ≡ some (default (sig (i + k + 1)))
    go l at zero p = ground arith
    go l at (suc k) p = ground (arith, at k)

-- The table that `ActionSet::new` builds is complete, and every signal has its default action.
pub new_lem :
    (a : ActionSet) × (new ≡ done a)
    × IsProtected a
    × ((s : Sig) → IsSig s → get a s ≡ done (default s))
unfolding new get at built
new_lem =
    let (l, e, len, held) = build_lem 64 0 (omega arith) in
    (
      record { table = l },
      ap built e,
      record { complete = len; kill = held 8 (omega arith); stop = held 18 (omega arith) },
      λ s v. ground (arith, index_lem s v, held (s.raw - 1)),
    )

-- A write keeps the entry of a signal that may not be captured, if it writes the default there.
kept :
    (table : List Action) (s t : Sig) (w : Action)
    → IsSig s
    → IsSig t
    → index s < length table
    → (s ≡ t → w ≡ default t)
    → get_elem? table (index t) ≡ some (default t)
    → get_elem? (set table (index s) w) (index t) ≡ some (default t)
kept table s t w v u room same held = elim (ℕ_discrete (index s) (index t)) [
  | yes q ↦
      let number : s.raw ≡ t.raw = omega (arith, index_lem s v, index_lem t u) in
      rw (← q) (get_elem?-set_self table (index s) w room ∙ ap some (same (ap sig number)))
  | no q ↦ get_elem?-set_ne table (index s) (index t) w q ∙ held
]

-- On a complete table, `replace` of a signal of the table returns the old action and stores the new
-- one, but the default for a signal that may not be captured; it changes no other signal.
pub replace_lem :
    (a : ActionSet) (s : Sig) (action : Action)
    → IsProtected a
    → IsSig s
    → (a' : ActionSet) × (old : Action) × (replace a s action ≡ done (a', old))
      × (get a s ≡ done old)
      × IsProtected a'
      × ((t : Sig)
          → IsSig t
          → get a' t ≡ (
              if index s == index t
              then done (if should_never_capture s then default s else action)
              else get a t))
unfolding replace get at exchange should_never_capture
replace_lem a s action p v =
    let room : index s < length a.table = omega (arith, index_lem s v, p.complete) in
    let (old, e) = get_elem?_total a.table (index s) room in
    let w = if should_never_capture s then default s else action in
    let here = get_elem?-set_self a.table (index s) w room in
    (
      record { table = set a.table (index s) w },
      old,
      ground arith,
      ground arith,
      record {
        complete = length-set a.table (index s) w ∙ p.complete;
        kill =
            kept a.table s sigkill w v (record { positive = omega arith; bounded = omega arith })
              room (λ q. ground arith) p.kill;
        stop =
            kept a.table s sigstop w v (record { positive = omega arith; bounded = omega arith })
              room (λ q. ground arith) p.stop;
      },
      λ t u. elim (ℕ_discrete (index s) (index t)) [
        | yes q ↦ ground (arith, here)
        | no q ↦ ground (arith, get_elem?-set_ne a.table (index s) (index t) w q)
      ],
    )

-- The default mask holds exactly the signals of the table that are ignored by default.
pub default_sig_mask_lem :
    (s : Sig) → IsSig s → bit default_sig_mask (index s) ≡ is_ignore (default_type s)
unfolding default_sig_mask default_type is_ignore bit passes
default_sig_mask_lem s v =
    let i = s.raw - 1 in
    let at : index s ≡ i = omega (arith, index_lem s v) in
    let number : i + 1 ≡ s.raw = omega arith in
    let ignored = λ (i : ℕ). is_ignore (default_type (sig (i + 1))) in
    let checked =
      passes_each (λ i. agree (bit default_sig_mask i) (ignored i)) 64 i (omega arith) refl in
    rw at (
      eq_of_agree (bit default_sig_mask i) (ignored i) checked
      ∙ ap (λ (n : ℕ). is_ignore (default_type (sig n))) number)

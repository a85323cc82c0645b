-- ===== src/Fat/Dirent/Edits.antt =====
-- mizu/lib/afat32/src/dirent.rs, `DirEntryEditor`: what the device holds after edits and a flush.
use umi.Base.{
  ℕ, ◌+◌, ◌*◌, ◌/◌, ◌%◌, ◌^◌, ◌<◌, ◌≡◌, ◌⊎◌, inl, inr, refl, sym, ap, subst, ◌∙◌, List, [], ◌∷◌,
  Bool, true, false, ◌==◌, ==_iff, if◌then◌else◌, Option, none, some, Result, ok, ◌>>=◌, >>=-ok,
  length, length-append, arith, Bool-cases, append-nil,
}
use umi.Words.Sums.{bit_or-add}
use umi.Crates.{Nom}
use umi.Fat.Date.{encode_date-lt, IsDate}
use umi.Fat.Time.{encode_time-lt, IsTime}
use umi.Fat.Dirent.{
  DirFileEntryData, file, to_bytes, concat_arrays, le_bytes, le_bytes_32, first_cluster,
  set_first_cluster, or_zero, size_of, set_size_of, created, accessed, modified, set_created,
  set_accessed, set_modified,
}
use umi.Fat.Dirent.Parse.{parse}
use umi.Fat.Dirent.Bytes.{IsData, IsWords, parse-to_bytes}
use umi.Fat.Dirent.Editor.{
  Disk, DirEntryEditor, Edit, new_cluster, new_size, new_created, new_modified, new_accessed, edit,
  edits, flush, edit_first_cluster, edit_size, edit_created, edit_accessed, edit_modified,
  same_option, same_date, same_date_time, changed,
}

-- The values are of their types: a word of 32 bits, dates and times as `new` makes them.
unfoldable pub IsEdit : Edit → Type 0
IsEdit (new_cluster c) = or_zero c < 2 ^ 32
IsEdit (new_size n) = n < 2 ^ 32
IsEdit (new_created t) = IsDate t.date × IsTime t.time
IsEdit (new_modified t) = IsDate t.date × IsTime t.time
IsEdit (new_accessed date) = IsDate date

unfoldable pub AreEdits : List Edit → Type 0
AreEdits [] = Unit
AreEdits (c ∷ cs) = IsEdit c × AreEdits cs

-- Either nothing is changed, or the entry is and the editor is dirty.
Changes : DirEntryEditor → DirEntryEditor → Type 0
Changes e f =
    (f.pos ≡ e.pos)
    × (IsData (file e.data_of) → IsData (file f.data_of))
    × ((f ≡ e) ⊎ (f.dirty ≡ true))

changed-Changes :
    (b : Bool) (e : DirEntryEditor) (d : DirFileEntryData)
    → (IsData (file e.data_of) → IsData (file d))
    → Changes e (if b then e else changed e d)
unfolding Changes
changed-Changes true e d keeps = (refl, λ v. v, inl refl)
changed-Changes false e d keeps = (refl, keeps, inr refl)

edit_size-Changes :
    (o : Option ℕ) (size : ℕ) (e : DirEntryEditor)
    → size < 2 ^ 32
    → Changes e (elim o [
      | none ↦ e
      | some n ↦ if size == n then e else changed e (set_size_of e.data_of size)
    ])
unfolding Changes IsData
edit_size-Changes none size e h = (refl, λ v. v, inl refl)
edit_size-Changes (some n) size e h =
    changed-Changes (size == n) e (set_size_of e.data_of size) (λ v. (v.0, v.1, v.2, v.3, h))

edit-Changes : (c : Edit) (e : DirEntryEditor) → IsEdit c → Changes e (edit c e)
unfolding edit Changes IsEdit IsData IsWords edit_first_cluster edit_size edit_created edit_accessed
    edit_modified set_first_cluster set_created set_accessed set_modified
edit-Changes (new_cluster c) e h =
    changed-Changes (same_option c (first_cluster e.data_of)) e (set_first_cluster e.data_of c)
      (λ (l, a, k, (t1, (da, (ac, (hi, (mt, (md, (lo, u))))))), sz).
        (l, a, k, (t1, (da, (ac, (omega arith, (mt, (md, (omega arith, u))))))), sz))
edit-Changes (new_size n) e h = edit_size-Changes (size_of e.data_of) n e h
edit-Changes (new_created t) e h =
    changed-Changes (same_date_time t (created e.data_of)) e (set_created e.data_of t)
      (λ (l, a, k, (t1, (da, w)), sz).
        (l, a, k, (encode_time-lt t.time h.1, (encode_date-lt t.date h.0, w)), sz))
edit-Changes (new_modified t) e h =
    changed-Changes (same_date_time t (modified e.data_of)) e (set_modified e.data_of t)
      (λ (l, a, k, (t1, (da, (ac, (hi, (mt, (md, w)))))), sz). (
        l,
        a,
        k,
        (t1, (da, (ac, (hi, (encode_time-lt t.time h.1, (encode_date-lt t.date h.0, w)))))),
        sz,
      ))
edit-Changes (new_accessed date) e h =
    changed-Changes (same_date date (accessed e.data_of)) e (set_accessed e.data_of date)
      (λ (l, a, k, (t1, (da, (ac, w))), sz). (l, a, k, (t1, (da, (encode_date-lt date h, w))), sz))

edits-Changes : (cs : List Edit) (e : DirEntryEditor) → AreEdits cs → Changes e (edits cs e)
unfolding edits AreEdits Changes
edits-Changes [] e h = (refl, λ v. v, inl refl)
edits-Changes (c ∷ cs) e h =
    let first = edit-Changes c e h.0 in
    let later = edits-Changes cs (edit c e) h.1 in
    (
      later.0 ∙ first.0,
      λ v. later.1 (first.1 v),
      elim later.2 [
        | inr d ↦ inr d
        | inl same ↦ elim first.2 [
          | inr d ↦ inr (ap (λ (f : DirEntryEditor). f.dirty) same ∙ d)
          | inl same_too ↦ inl (same ∙ same_too)
        ]
      ],
    )

length-to_bytes : (d : DirFileEntryData) → IsData (file d) → length (to_bytes (file d)) ≡ 32
unfolding to_bytes IsData concat_arrays le_bytes le_bytes_32
length-to_bytes d h = rw (length-append d.name, h.0) refl

ok_parts {ℓ κ ν} :
    {E : Type ν} {A : Type ℓ} {B : Type κ} {a c : A} {b d : B} {r : Result E (A × B)}
    → r ≡ ok (a, b)
    → r ≡ ok (c, d)
    → (a ≡ c) × (b ≡ d)
ok_parts g h = (cc, cc)

module _ (disk : Disk) where
  -- What the device holds at the place of an entry that is not dirty is that entry.
  unfoldable pub IsSynced : disk.Device → DirEntryEditor → Type 0
  IsSynced device e = e.dirty ≡ false → disk.bytes_at device e.pos 32 ≡ to_bytes (file e.data_of)

  edits-IsSynced :
      (cs : List Edit) (device : disk.Device) (e : DirEntryEditor)
      → AreEdits cs
      → IsSynced device e
      → IsSynced device (edits cs e)
  unfolding IsSynced Changes
  edits-IsSynced cs device e h s clean = elim (edits-Changes cs e h).2 [
    | inl same ↦
        subst
          (λ (f : DirEntryEditor).
            f.dirty ≡ false → disk.bytes_at device f.pos 32 ≡ to_bytes (file f.data_of))
          (sym same) s clean
    | inr dirty ↦ absurd (cc)
  ]

  -- What a flush leaves.
  Flushed : disk.Device → DirEntryEditor → DirEntryEditor → Type 0
  Flushed device e f =
      (f.dirty ≡ false)
      × (f.data_of ≡ e.data_of)
      × (f.pos ≡ e.pos)
      × (disk.bytes_at device e.pos 32 ≡ to_bytes (file e.data_of))

  flush-Flushed :
      (device : disk.Device) (e : DirEntryEditor) (device' : disk.Device) (f : DirEntryEditor)
      → IsData (file e.data_of)
      → IsSynced device e
      → flush disk device e ≡ ok (device', f)
      → Flushed device' e f
  unfolding flush Flushed IsSynced
  flush-Flushed device e device' f v s h =
      let after : disk.Device → Result disk.Failure (disk.Device × DirEntryEditor) =
        λ written. ok (written, record e { dirty = false }) in
      let result : Bool → Result disk.Failure (disk.Device × DirEntryEditor) = λ b.
        if b
        then disk.write_all_at e.pos (to_bytes (file e.data_of)) device >>= after
        else ok (device, e) in
      elim (Bool-cases e.dirty) [
        | inl dirty ↦
            let (written, w, p) =
              >>=-ok (disk.write_all_at e.pos (to_bytes (file e.data_of)) device) after
                (subst (λ b. result b ≡ ok (device', f)) dirty h) in
            let parts = ok_parts refl p in
            let holds =
              subst (λ n. disk.bytes_at written e.pos n ≡ to_bytes (file e.data_of))
                (length-to_bytes e.data_of v)
                (disk.written e.pos (to_bytes (file e.data_of)) device written w) in
            subst (λ g. Flushed device' e g) parts.1
              (subst (λ g. Flushed g e (record e { dirty = false })) parts.0
                (refl, refl, refl, holds))
        | inr clean ↦
            let parts = ok_parts refl (subst (λ b. result b ≡ ok (device', f)) clean h) in
            subst (λ g. Flushed device' e g) parts.1
              (subst (λ g. Flushed g e e) parts.0 (clean, refl, refl, s clean))
      ]

-- From an editor whose entry is valid and, unless it is dirty, what the device holds at its place,
-- a sequence of valid edits and a successful flush leave an editor that is not dirty, again in step
-- with the device, and the device holds 32 bytes there that `parse` reads as the edited entry.
pub flush-edits_lem :
    (nom : Nom) (disk : Disk) (device : disk.Device) (e : DirEntryEditor) (cs : List Edit)
    (device' : disk.Device) (f : DirEntryEditor)
    → IsData (file e.data_of)
    → IsSynced disk device e
    → AreEdits cs
    → flush disk device (edits cs e) ≡ ok (device', f)
    → IsSynced disk device' f
      × (f.dirty ≡ false)
      × (parse nom (disk.bytes_at device' e.pos 32) ≡ ok ([], file (edits cs e).data_of))
unfolding IsSynced Changes Flushed
flush-edits_lem nom disk device e cs device' f v s h flushed =
    let change = edits-Changes cs e h in
    let v' = change.1 v in
    let (clean, data_same, pos_same, holds) =
      flush-Flushed disk device (edits cs e) device' f v' (edits-IsSynced disk cs device e h s)
        flushed in
    let at_place =
      subst (λ p. disk.bytes_at device' p 32 ≡ to_bytes (file (edits cs e).data_of)) change.0
        holds in
    (
      λ c. rw (data_same, pos_same) holds,
      clean,
      ap (parse nom) (at_place ∙ sym (append-nil (to_bytes (file (edits cs e).data_of))))
          ∙ parse-to_bytes nom (file (edits cs e).data_of) [] v',
    )

IsClusterNumber : Option ℕ → Type 0
IsClusterNumber none = Unit
IsClusterNumber (some n) = (0 < n) × (n < 2 ^ 32)

same_option_eq : (a b : Option ℕ) → same_option a b ≡ true → a ≡ b
unfolding same_option
same_option_eq none none h = refl
same_option_eq none (some b) h = absurd (cc)
same_option_eq (some a) none h = absurd (cc)
same_option_eq (some a) (some b) h = ap some ((==_iff a b).0 h)

first_cluster-set :
    (d : DirFileEntryData) (c : Option ℕ)
    → IsClusterNumber c
    → first_cluster (set_first_cluster d c) ≡ c
unfolding first_cluster set_first_cluster IsClusterNumber or_zero
first_cluster-set d none h = refl
first_cluster-set d (some n) h =
    let high : n / 2 ^ 16 % 2 ^ 16 * 2 ^ 16 + n % 2 ^ 16 ≡ n = omega arith in
    let whole = bit_or-add 32 16 (n / 2 ^ 16 % 2 ^ 16) (n % 2 ^ 16) (omega arith) (omega arith) in
    rw (whole, high) (ground arith)

first_cluster-edit_first_cluster :
    (c : Option ℕ) (e : DirEntryEditor)
    → IsClusterNumber c
    → first_cluster (edit_first_cluster c e).data_of ≡ c
unfolding edit_first_cluster
first_cluster-edit_first_cluster c e h =
    elim (Bool-cases (same_option c (first_cluster e.data_of))) [
      | inl same ↦ rw (same) (sym (same_option_eq c (first_cluster e.data_of) same))
      | inr other ↦ rw (other) (first_cluster-set e.data_of c h)
    ]

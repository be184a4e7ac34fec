-- ===== src/Events/Loops.antt =====
-- The two loops of a rotation of the event log, src/chute/events.py, index by index.
use chute.Prelude.{
  ℕ, ◌≡◌, ◌≤◌, if◌then◌else◌, ◌+◌, subst, ◌==◌, sym, ◌&&◌, refl, arith, ==_iff, ◌∙◌, ◌<◌, ◌-◌, ap,
  zero,
}
use chute.Events.{
  Result, then_at, check_backup, shift_entry, Directory, Option, valid_entry, Entry, put_entry,
  true, done, replace, and_then, none, some, check_backups, leb, shift_backups, suc, Outcome,
  unlink_at, Place,
}

-- The entries from 1 to `n` are absent or logs of this user alone.
abbrev pub HasBackups : Place → ℕ → Directory → Type 0
HasBackups sys n d = (i : ℕ) → 1 ≤ i → i ≤ n → valid_entry sys (d i) ≡ true

-- How a call ends, and the directory that it leaves, entry by entry.
abbrev pub Ends : Outcome → Result → (ℕ → Option Entry) → Type 0
Ends o r entries = (r.1 ≡ o) × ((j : ℕ) → r.0 j ≡ entries j)

abbrev pub Leaves : Result → (ℕ → Option Entry) → Type 0
Leaves = Ends done

pub and_then-Ends :
    (o : Outcome) (m : Result) (k : Directory → Result) (entries : ℕ → Option Entry)
    → m.1 ≡ done
    → Ends o (k m.0) entries
    → Ends o (and_then m k) entries
unfolding then_at
and_then-Ends o m k entries h l = subst (λ e. Ends o (then_at e m.0 k) entries) (sym h) l

check_backup_lem :
    (sys : Place) (m : sys.may_change ≡ true) (count index : ℕ) (o : Option Entry) (d : Directory)
    → d index ≡ o
    → valid_entry sys o ≡ true
    → Leaves
        (check_backup sys count index o d)
        (λ j. if (j == index) && (index == count) then none else d j)
unfolding check_backup unlink_at valid_entry put_entry
check_backup_lem sys m count index none d e h = (refl, λ j. grind (arith, ==_iff j index))
check_backup_lem sys m count index (some entry) d e h =
    (ground arith, λ j. ground (arith, ==_iff j index))

pub shift_entry_lem :
    (sys : Place) (m : sys.may_change ≡ true) (index : ℕ) (o : Option Entry) (d : Directory)
    → d index ≡ o
    → d (index + 1) ≡ none
    → valid_entry sys o ≡ true
    → Leaves
        (shift_entry sys index o d)
        (λ j. if j == index then none else if j == index + 1 then o else d j)
unfolding shift_entry valid_entry put_entry replace
shift_entry_lem sys m index none d e free h =
    (refl, λ j. grind (arith, ==_iff j index, ==_iff j (index + 1)))
shift_entry_lem sys m index (some entry) d e free h = (ground arith, λ j. ground arith)

pub Leaves-as :
    (r : Result) (entries others : ℕ → Option Entry)
    → ((j : ℕ) → entries j ≡ others j)
    → Leaves r entries
    → Leaves r others
Leaves-as r entries others same l = (l.0, λ j. l.1 j ∙ same j)

-- Below the last index the first loop changes nothing.
check_backups-below :
    (sys : Place) (m : sys.may_change ≡ true) (count n : ℕ) (d : Directory)
    → n < count
    → HasBackups sys n d
    → Leaves (check_backups sys count n d) d
unfolding check_backups
check_backups-below sys m count zero d below h = (refl, λ j. refl)
check_backups-below sys m count (suc n) d below h =
    let step =
      check_backup_lem sys m count (suc n) (d (suc n)) d refl
        (h (suc n) (omega arith) (omega arith)) in
    let next = (check_backup sys count (suc n) (d (suc n)) d).0 in
    let same : (j : ℕ) → next j ≡ d j = λ j. step.1 j ∙ ground (arith, below) in
    and_then-Ends done (check_backup sys count (suc n) (d (suc n)) d)
      (λ e. check_backups sys count n e) d step.0
      (Leaves-as _ next d same (
        check_backups-below sys m count n next (omega (arith, below))
          (λ i a b. ap (valid_entry sys) (same i) ∙ h i a (omega (arith, b)))))

pub check_backups_lem :
    (sys : Place) (m : sys.may_change ≡ true) (n : ℕ) (d : Directory)
    → HasBackups sys (suc n) d
    → Leaves (check_backups sys (suc n) (suc n) d) (λ j. if j == suc n then none else d j)
unfolding check_backups
check_backups_lem sys m n d h =
    let step =
      check_backup_lem sys m (suc n) (suc n) (d (suc n)) d refl
        (h (suc n) (omega arith) (omega arith)) in
    let next = (check_backup sys (suc n) (suc n) (d (suc n)) d).0 in
    let same : (j : ℕ) → next j ≡ (if j == suc n then none else d j) =
      λ j. step.1 j ∙ ground arith in
    and_then-Ends done (check_backup sys (suc n) (suc n) (d (suc n)) d)
      (λ e. check_backups sys (suc n) n e) _ step.0
      (Leaves-as _ next _ same (
        check_backups-below sys m (suc n) n next (omega arith)
          (λ i a b. ap (valid_entry sys) (same i ∙ ground (arith, b)) ∙ h i a (omega (arith, b)))))

-- The backups from 1 to `n` go one index up, where there is room for the last.
abbrev pub shifted_entries : ℕ → Directory → ℕ → Option Entry
shifted_entries n d j = if j == 1 then none else if leb 2 j && leb j (n + 1) then d (j - 1) else d j

pub at_index : (d : Directory) (i j : ℕ) {o : Option Entry} → d i ≡ o → j ≡ i → d j ≡ o
at_index d i j h e = ap d e ∙ h

shifted_entries-suc :
    (n : ℕ) (d next : Directory)
    → ((j : ℕ) → next j ≡ (if j == suc n then none else if j == suc n + 1 then d (suc n) else d j))
    → (j : ℕ) → shifted_entries n next j ≡ shifted_entries (suc n) d j
shifted_entries-suc n d next step j =
    ground (arith, step j, step (j - 1), at_index d (suc n) (j - 1) refl)

pub shift_backups_lem :
    (sys : Place) (m : sys.may_change ≡ true) (n : ℕ) (d : Directory)
    → HasBackups sys n d
    → d (n + 1) ≡ none
    → Leaves (shift_backups sys n d) (shifted_entries n d)
unfolding shift_backups
shift_backups_lem sys m zero d h free = (refl, λ j. ground (arith, at_index d 1 j free))
shift_backups_lem sys m (suc n) d h free =
    let step =
      shift_entry_lem sys m (suc n) (d (suc n)) d refl free
        (h (suc n) (omega arith) (omega arith)) in
    let next = (shift_entry sys (suc n) (d (suc n)) d).0 in
    and_then-Ends done (shift_entry sys (suc n) (d (suc n)) d) (λ e. shift_backups sys n e) _ step.0
      (Leaves-as _ (shifted_entries n next) _ (shifted_entries-suc n d next step.1) (
        shift_backups_lem sys m n next
          (λ i a b. ap (valid_entry sys) (step.1 i ∙ ground (arith, b)) ∙ h i a (omega (arith, b)))
          (step.1 (n + 1) ∙ ground arith)))

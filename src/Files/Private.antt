-- ===== src/Files/Private.antt =====
-- What src/chute/_files.py promises of a file that it reads.
use chute.Prelude.{ℕ, Option, ◌≡◌, arith, ◌%◌, ==_iff, refl, none, sym, ◌∙◌, ap, subst}
use chute.Files.{
  System, is_regular, valid_stat, validate_fstat, Stat, Kind, is_exposed, Reading, regular, true,
  Fingerprint, PrivateTextFile, false, success, some, read_private_text_file_snapshot, directory,
  fingerprint_of, link, within, length, other, size_in, valid_parent, Text, valid_lstat, ◌>>=◌,
  check, text_beq, ◌>>◌,
}
use chute.Control.PolicyFile.Tested.{check-eq-success, >>=-eq-success, success_eq}
use chute.Prelude.Text.{text_beq_iff}

-- A regular file that only the user of this process may read or write.
pub record IsPrivate (sys : System) (st : Stat) : Type 0 where
  pub regular_file : st.kind ≡ regular
  pub owned : sys.is_nt ≡ false → st.uid ≡ sys.euid
  pub private_mode : sys.is_nt ≡ false → st.mode % 64 ≡ 0

is_regular-eq : (k : Kind) → is_regular k ≡ true → k ≡ regular
unfolding is_regular
is_regular-eq regular h = refl
is_regular-eq directory h = absurd (ground arith)
is_regular-eq link h = absurd (ground arith)
is_regular-eq other h = absurd (ground arith)

pub valid_stat-IsPrivate : (sys : System) (st : Stat) → valid_stat sys st ≡ true → IsPrivate sys st
unfolding valid_stat is_exposed
valid_stat-IsPrivate sys st h = record {
  regular_file = is_regular-eq st.kind (ground arith);
  owned = λ e. grind (arith, ==_iff st.uid sys.euid);
  private_mode = λ e. grind (arith, ==_iff (st.mode % 64) 0);
}

validate_fstat-IsPrivate :
    (sys : System) (o : Option Stat) (f : Fingerprint)
    → validate_fstat sys o ≡ success f
    → (st : Stat) × (o ≡ some st) × IsPrivate sys st × (f ≡ fingerprint_of st)
unfolding validate_fstat
validate_fstat-IsPrivate sys none f h = cc
validate_fstat-IsPrivate sys (some st) f h =
    let tested = check-eq-success (valid_stat sys st) (success (fingerprint_of st)) h in
    (st, refl, valid_stat-IsPrivate sys st tested.0, sym (success_eq tested.1))

-- What a text that was read stands for: `opened` and `closed` are the file before and after.
pub record IsFaithful (sys : System) (max_bytes : Option ℕ) (r : Reading) (p : PrivateTextFile)
    : Type 0 where
  pub opened : Stat
  pub closed : Stat
  pub opened_before : r.before ≡ some opened
  pub closed_after : r.after ≡ some closed
  pub opened_private : IsPrivate sys opened
  pub closed_private : IsPrivate sys closed
  pub is_unchanged : fingerprint_of closed ≡ fingerprint_of opened
  pub fingerprint_taken : p.fingerprint ≡ fingerprint_of opened
  pub text_read : r.text ≡ success p.text
  pub file_small : within max_bytes opened.size ≡ true
  pub text_small : within max_bytes (length p.text) ≡ true

module _ (sys : System) (max_bytes : Option ℕ) (r : Reading) (p : PrivateTextFile) where
  -- The steps of a read from its second check of the file on.
  read_end-IsFaithful :
      (first : Fingerprint) (text : Text)
      → validate_fstat sys r.before ≡ success first
      → within max_bytes (size_in first) ≡ true
      → r.text ≡ success text
      → within max_bytes (length text) ≡ true
      → (validate_fstat sys r.after >>= λ second.
          check (text_beq second first) >> success (record { fingerprint = second; text = text }))
        ≡ success p
      → IsFaithful sys max_bytes r p
  unfolding size_in fingerprint_of
  read_end-IsFaithful first text before small read few h =
      let opened = validate_fstat-IsPrivate sys r.before first before in
      let second = >>=-eq-success (validate_fstat sys r.after) _ h in
      let closed = validate_fstat-IsPrivate sys r.after second.0 second.1 in
      let same = check-eq-success (text_beq second.0 first) _ second.2 in
      let unchanged : second.0 ≡ first = (text_beq_iff second.0 first).0 same.0 in
      let result : record { fingerprint = second.0; text = text } ≡ p = success_eq same.1 in
      record {
        opened = opened.0;
        closed = closed.0;
        opened_before = opened.1;
        closed_after = closed.1;
        opened_private = opened.2;
        closed_private = closed.2;
        is_unchanged = sym closed.3 ∙ unchanged ∙ opened.3;
        fingerprint_taken = sym (ap (λ q. q.fingerprint) result) ∙ unchanged ∙ opened.3;
        text_read = read ∙ ap (λ q. success q.text) result;
        file_small = subst (λ f. within max_bytes (size_in f) ≡ true) opened.3 small;
        text_small = subst (λ q. within max_bytes (length q.text) ≡ true) result few;
      }

  -- A text that is read comes from an open file that before and after the read was a regular file
  -- of this user alone, with one fingerprint, which is the text's; and the file and the text are
  -- within max_bytes.
  pub read_private_text_file_snapshot-IsFaithful :
      read_private_text_file_snapshot sys max_bytes r ≡ success p → IsFaithful sys max_bytes r p
  unfolding read_private_text_file_snapshot
  read_private_text_file_snapshot-IsFaithful h =
      let parent = check-eq-success (valid_parent sys r.parent) _ h in
      let entry = check-eq-success (valid_lstat sys r.entry) _ parent.1 in
      let opened = check-eq-success r.is_opened _ entry.1 in
      let first = >>=-eq-success (validate_fstat sys r.before) _ opened.1 in
      let small = check-eq-success (within max_bytes (size_in first.0)) _ first.2 in
      let text = >>=-eq-success r.text _ small.1 in
      let few = check-eq-success (within max_bytes (length text.0)) _ text.2 in
      read_end-IsFaithful first.0 text.0 first.1 small.0 text.1 few.0 few.1

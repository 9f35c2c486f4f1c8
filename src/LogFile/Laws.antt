-- ===== src/LogFile/Laws.antt =====
-- What appending to the log of networker/base/LogFile.cpp keeps.
use network_program_base_fra.Prelude.{
  ℕ, ◌+◌, ◌-◌, ◌/◌, ◌<◌, ◌≤◌, ◌≡◌, ◌⊎◌, refl, sym, ap, ◌∙◌, true, false, not, Option, none, some,
  List, ◌++◌, length, ltb, leb, ◌==◌, ==_iff, if◌then◌else◌, arith, inl, inr, Bool-cases,
  Option-cases, some_inj,
}
use network_program_base_fra.LogFile.{
  LogFile, FileName, daily, rolled, same_file, Directory, name_file, move, rename, open_found,
  append_file, get_log_file_name, roll_file, check, append_unlocked, append, period,
  roll_per_seconds, write_line,
}

abbrev pub Named : ℕ → Directory → Type 0
Named f dir = (n : FileName) × (dir n ≡ some f)

same_file_eq : (m n : FileName) → same_file m n ≡ true → m ≡ n
unfolding same_file
same_file_eq (daily d) (daily e) h = ap daily ((==_iff d e).0 h)
same_file_eq (daily d) (rolled t) h = absurd (ground arith)
same_file_eq (rolled s) (daily d) h = absurd (ground arith)
same_file_eq (rolled s) (rolled t) h = ap rolled ((==_iff s t).0 h)

same_file_self : (m : FileName) → same_file m m ≡ true
unfolding same_file
same_file_self (daily d) = (==_iff d d).1 refl
same_file_self (rolled s) = (==_iff s s).1 refl

-- A name that no file has can be given away.
name_file-Named :
    (n : FileName) (g : Option ℕ) (f : ℕ) (dir : Directory)
    → dir n ≡ none
    → Named f dir
    → Named f (name_file n g dir)
name_file-Named n g f dir free (m, e) = elim (Bool-cases (same_file m n)) [
  | inl h ↦
      let bad : none ≡ some f = sym free ∙ (ap dir (sym (same_file_eq m n h)) ∙ e) in
      absurd (ground arith)
  | inr h ↦ (m, rw h e)
]

-- A file is renamed to a name that no file has: every file keeps a name.
rename-Named :
    (d t f : ℕ) (dir : Directory)
    → dir (rolled t) ≡ none
    → Named f dir
    → Named f (rename (daily d) (rolled t) dir)
unfolding rename same_file
rename-Named d t f dir free (m, e) = elim (Option-cases (dir (daily d))) [
  | inl h ↦ (m, ap (λ o. move (daily d) (rolled t) o dir m) h ∙ e)
  | inr (g, h) ↦ elim (Bool-cases (same_file m (daily d))) [
    | inl k ↦
        let same : g ≡ f = some_inj (sym h ∙ (ap dir (sym (same_file_eq m (daily d) k)) ∙ e)) in
        (
          rolled t,
          ap (λ o. move (daily d) (rolled t) o dir (rolled t)) h
              ∙ (rw ((==_iff t t).1 refl) (ap some same)),
        )
    | inr k ↦ elim (Bool-cases (same_file m (rolled t))) [
      | inl l ↦
          let bad : none ≡ some f = sym free ∙ (ap dir (sym (same_file_eq m (rolled t) l)) ∙ e) in
          absurd (ground arith)
      | inr l ↦ (m, ap (λ o. move (daily d) (rolled t) o dir m) h ∙ rw (l, k) e)
    ]
  ]
]

-- The files of a log after some bytes went to the one that is open.
pub record Kept (line : List ℕ) (g : ℕ) (c c' : LogFile) : Type 0 where
  pub bytes :
      (f : ℕ) → f < c.next_file → c'.files f ≡ (if f == g then c.files f ++ line else c.files f)
  pub named : (f : ℕ) → Named f c.directory → Named f c'.directory

pub record Logged (line : List ℕ) (now g : ℕ) (c c' : LogFile) : Type 0 where
  pub kept : Kept line g c c'
  pub counted : c'.count < c'.check_every_n
  pub size : (c'.written_bytes ≤ c'.roll_size) ⊎ (now ≤ c'.last_roll)

opens :
    (n : FileName) (line : List ℕ) (now g : ℕ) (c d : LogFile)
    → Kept line g c d
    → d.next_file ≡ c.next_file
    → d.count < d.check_every_n
    → Logged line now g c (append_file n d)
unfolding append_file
opens n line now g c d k e h = go (d.directory n) refl
  where
    go : (o : Option ℕ) → d.directory n ≡ o → Logged line now g c (open_found n o d)
    go (some f) q = record {
      kept = record { bytes = k.bytes; named = k.named };
      counted = h;
      size = inl (omega arith);
    }
    go none q = record {
      kept = record {
        bytes =
            λ f l. let away : (f == d.next_file) ≡ false = ground arith in rw away (k.bytes f l);
        named = λ f m. name_file-Named n (some d.next_file) f d.directory q (k.named f m);
      };
      counted = h;
      size = inl (omega arith);
    }

roll_lem :
    (line : List ℕ) (now g : ℕ) (c d : LogFile)
    → Kept line g c d
    → d.next_file ≡ c.next_file
    → d.count < d.check_every_n
    → d.directory (rolled now) ≡ none
    → Logged line now g c (roll_file now true d).1
unfolding roll_file get_log_file_name
roll_lem line now g c d k e h free =
    let named : (f : ℕ)
        → Named f c.directory
        → Named f (rename (daily (now / roll_per_seconds)) (rolled now) d.directory) =
      λ f m. rename-Named (now / roll_per_seconds) now f d.directory free (k.named f m) in
    elim (Bool-cases (ltb d.last_roll now)) [
      | inl later ↦ rw later (
          opens (daily (now / roll_per_seconds)) line now g c _
            (record { bytes = k.bytes; named = named }) e h)
      | inr same ↦ rw same (record {
        kept = record { bytes = k.bytes; named = named };
        counted = h;
        size = inr (ground arith);
      })
    ]

written : (line : List ℕ) (c : LogFile) → Kept line c.file c (write_line line c)
written line c = record {
  bytes = λ f l. elim (Bool-cases (f == c.file)) [
    | inl e ↦ rw e (ap (λ g. c.files g ++ line) (sym ((==_iff f c.file).0 e)))
    | inr e ↦ rw e refl
  ];
  named = λ f m. m;
}

check_lem :
    (line : List ℕ) (now roll_now g : ℕ) (c d : LogFile)
    → Kept line g c d
    → d.next_file ≡ c.next_file
    → d.count < d.check_every_n
    → d.written_bytes ≤ d.roll_size
    → d.directory (rolled roll_now) ≡ none
    → Logged line roll_now g c (check now roll_now d)
unfolding check
check_lem line now roll_now g c d k e h small free =
    elim (Bool-cases (not (period now == d.start_of_period))) [
      | inl p ↦ rw p (roll_lem line roll_now g c d k e h free)
      | inr p ↦ elim (Bool-cases (ltb d.flush_interval (now - d.last_flush))) [
        | inl q ↦
            rw (p, q)
              (record {
                kept = record { bytes = k.bytes; named = k.named };
                counted = h;
                size = inl small;
              })
        | inr q ↦ rw (p, q) (record { kept = k; counted = h; size = inl small })
      ]
    ]

-- Appending a line at given times to a log, when no file has the name of one rolled in the second
-- of the roll: the line is added to the file that was open, every other file holds what it held,
-- and every file that had a name has one, whether or not the log rolled; the count of lines stays
-- below the number at which it is checked, and the file within its size unless the log was last
-- rolled no earlier than the clock says.
pub append_log :
    (line : List ℕ) (now roll_now : ℕ) (c : LogFile)
    → c.count < c.check_every_n
    → c.directory (rolled roll_now) ≡ none
    → Logged line roll_now c.file c (append line now roll_now c)
unfolding append append_unlocked
append_log line now roll_now c h free =
    let longer : LogFile = write_line line c in
    elim (Bool-cases (ltb c.roll_size (c.written_bytes + length line))) [
      | inl e ↦ rw e (roll_lem line roll_now c.file c longer (written line c) refl h free)
      | inr e ↦ elim (Bool-cases (leb c.check_every_n (c.count + 1))) [
        | inl f ↦
            let w = written line c in
            rw (e, f)
              (check_lem line now roll_now c.file c (record longer { count = 0 })
                (record { bytes = w.bytes; named = w.named }) refl (omega arith) (ground arith)
                free)
        | inr f ↦
            let w = written line c in
            rw (e, f)
              (record {
                kept = record { bytes = w.bytes; named = w.named };
                counted = ground arith;
                size = inl (ground arith);
              })
      ]
    ]

-- ===== src/Log/File/Steps.antt =====
-- What the steps of muduo/base/LogFile.cc keep of its files.
use cs_note.Common.{
  ℕ, suc, ◌-◌, ◌*◌, ◌/◌, ◌≡◌, ◌≤◌, ◌<◌, refl, sym, ap, ◌∙◌, subst, true, ◌||◌, none, some, List, [],
  ◌∷◌, ◌++◌, append-nil, append_assoc, length-append, ltb, leb, ◌==◌, length, Checked, ok, fault,
  arith, Bool-cases, inl, inr,
}
use cs_note.Log.File.{
  AppendFile, new_file, write_all, append_file, flush_file, roll_per_seconds, LogFile, roll_file,
  flush_current, check_period, after_append, append_unlocked,
}

-- The text of the closed files, and that of all.
unfoldable pub closed_text : List AppendFile → List ℕ
closed_text [] = []
closed_text (f ∷ fs) = closed_text fs ++ f.stored

-- Each file was created in an earlier second than the next one, and all its text is flushed.
unfoldable pub AreClosed : ℕ → List AppendFile → Type 0
AreClosed bound [] = Unit {0}
AreClosed bound (f ∷ fs) = (f.name < bound) × (f.flushed ≡ length f.stored) × AreClosed f.name fs

-- What holds of the log, but that the file may be over its size.
pub record IsReady (time : ℕ) (text : List ℕ) (l : LogFile) (current : AppendFile) : Type 0 where
  pub has_file : l.file ≡ some current
  pub named : current.name ≡ l.last_roll
  pub files : AreClosed l.last_roll l.closed
  pub kept : closed_text l.closed ++ current.stored ≡ text
  pub period : l.start_of_period ≡ l.last_roll / roll_per_seconds * roll_per_seconds
  pub flush_low : l.last_roll ≤ l.last_flush
  pub flush_high : l.last_flush ≤ time
  pub size : current.written_bytes ≡ length current.stored

-- A file over its size was created in the last second that the clock has shown.
pub record IsRolling (time : ℕ) (text : List ℕ) (l : LogFile) : Type 0 where
  pub current : AppendFile
  pub ready : IsReady time text l current
  pub full : (leb current.written_bytes l.roll_size || leb time l.last_roll) ≡ true

abbrev pub RollingResult : ℕ → List ℕ → Checked LogFile → Type 0
RollingResult time text (ok l) = IsRolling time text l
RollingResult time text (fault e) = ⊥

later_IsReady :
    (time now : ℕ) (text : List ℕ) (l : LogFile) (f : AppendFile)
    → time ≤ now
    → IsReady time text l f
    → IsReady now text l f
later_IsReady time now text l f le i = record {
  has_file = i.has_file;
  named = i.named;
  files = i.files;
  kept = i.kept;
  period = i.period;
  flush_low = i.flush_low;
  flush_high = omega (arith, i.flush_high);
  size = i.size;
}

pub roll_file-IsRolling :
    (time now : ℕ) (text : List ℕ) (l : LogFile) (f : AppendFile)
    → time ≤ now
    → IsReady time text l f
    → IsRolling now text ((roll_file now l).1)
unfolding roll_file closed_text AreClosed
roll_file-IsRolling time now text l f le i = elim (Bool-cases (ltb l.last_roll now)) [
  | inl e ↦
      rw (e, i.has_file)
        (record {
          current = new_file now;
          ready = record {
            has_file = refl;
            named = refl;
            files = (
              ground (arith, i.named, e),
              refl,
              subst (λ n. AreClosed n l.closed) (sym i.named) i.files,
            );
            kept = append-nil (closed_text l.closed ++ f.stored) ∙ i.kept;
            period = refl;
            flush_low = omega arith;
            flush_high = omega arith;
            size = refl;
          };
          full = ground arith;
        })
  | inr e ↦ rw e (record {
    current = f;
    ready = later_IsReady time now text l f le i;
    full = ground (arith, e);
  })
]

-- A flush of the current file, at a time between the last flush and now.
flushed-IsReady :
    (time flush : ℕ) (text : List ℕ) (l : LogFile) (f : AppendFile)
    → IsReady time text l f
    → l.last_flush ≤ flush
    → flush ≤ time
    → IsReady time text (record l { last_flush = flush; file = some (flush_file f) }) (flush_file f)
flushed-IsReady time flush text l f i low high = record {
  has_file = refl;
  named = i.named;
  files = i.files;
  kept = i.kept;
  period = i.period;
  flush_low = omega (arith, i.flush_low);
  flush_high = high;
  size = i.size;
}

pub flush_current-IsRolling :
    (time : ℕ) (text : List ℕ) (l : LogFile)
    → IsRolling time text l
    → RollingResult time text (flush_current l)
flush_current-IsRolling time text l i = rw i.ready.has_file (record {
  current = flush_file i.current;
  ready =
      flushed-IsReady time l.last_flush text l i.current i.ready (omega arith) i.ready.flush_high;
  full = i.full;
})

check_period-IsRolling :
    (time now later : ℕ) (text : List ℕ) (l : LogFile) (f : AppendFile)
    → IsReady time text l f
    → leb f.written_bytes l.roll_size ≡ true
    → time ≤ now
    → now ≤ later
    → RollingResult later text (check_period now later l)
unfolding check_period
check_period-IsRolling time now later text l f i small le le' =
    elim (Bool-cases (now / roll_per_seconds * roll_per_seconds == l.start_of_period)) [
      | inr e ↦ rw e (roll_file-IsRolling time later text l f (omega arith) i)
      | inl e ↦ elim (Bool-cases (ltb l.flush_interval (now - l.last_flush))) [
        | inl due ↦
            rw (e, due, i.has_file)
              (record {
                current = flush_file f;
                ready =
                    flushed-IsReady later now text l f
                      (later_IsReady time later text l f (omega arith) i)
                      (omega (arith, i.flush_high)) le';
                full = ground (arith, small);
              })
        | inr due ↦
            rw (e, due)
              (record {
                current = f;
                ready = later_IsReady time later text l f (omega arith) i;
                full = ground (arith, small);
              })
      ]
    ]

counted-IsReady :
    (time count : ℕ) (text : List ℕ) (l : LogFile) (f : AppendFile)
    → IsReady time text l f
    → IsReady time text (record l { count = count }) f
counted-IsReady time count text l f i = record {
  has_file = i.has_file;
  named = i.named;
  files = i.files;
  kept = i.kept;
  period = i.period;
  flush_low = i.flush_low;
  flush_high = i.flush_high;
  size = i.size;
}

after_append-IsRolling :
    (time now later : ℕ) (text : List ℕ) (l : LogFile) (f : AppendFile)
    → IsReady time text l f
    → time ≤ now
    → now ≤ later
    → RollingResult later text (after_append f.written_bytes now later l)
unfolding after_append
after_append-IsRolling time now later text l f i le le' =
    elim (Bool-cases (ltb l.roll_size f.written_bytes)) [
      | inl e ↦ rw e (roll_file-IsRolling time later text l f (omega arith) i)
      | inr e ↦ elim (Bool-cases (leb l.check_every_n (suc l.count))) [
        | inl due ↦
            rw (e, due)
              (check_period-IsRolling time now later text (record l { count = 0 }) f
                (counted-IsReady time 0 text l f i) (ground (arith, e)) le le')
        | inr due ↦
            rw (e, due)
              (record {
                current = f;
                ready =
                    counted-IsReady later (suc l.count) text l f
                      (later_IsReady time later text l f (omega arith) i);
                full = ground (arith, e);
              })
      ]
    ]

-- The line is in the file.
appended-IsReady :
    (time : ℕ) (text logline results : List ℕ) (l : LogFile) (f : AppendFile)
    → IsReady time text l f
    → write_all results logline ≡ logline
    → IsReady time
        (text ++ logline)
        (record l { file = some (append_file logline results f) })
        (append_file logline results f)
appended-IsReady time text logline results l f i whole = record {
  has_file = refl;
  named = i.named;
  files = i.files;
  kept =
      ap (λ x. closed_text l.closed ++ (f.stored ++ x)) whole
      ∙ sym (append_assoc (closed_text l.closed) f.stored logline)
      ∙ ap (λ x. x ++ logline) i.kept;
  period = i.period;
  flush_low = i.flush_low;
  flush_high = i.flush_high;
  size = omega (arith, i.size, length-append f.stored (write_all results logline), ap length whole);
}

pub append_unlocked-IsRolling :
    (time now later : ℕ) (text logline results : List ℕ) (l : LogFile) (f : AppendFile)
    → time ≤ now
    → now ≤ later
    → write_all results logline ≡ logline
    → IsReady time text l f
    → RollingResult later (text ++ logline) (append_unlocked logline results now later l)
unfolding append_unlocked
append_unlocked-IsRolling time now later text logline results l f le le' whole i = rw i.has_file (
    after_append-IsRolling time now later (text ++ logline)
      (record l { file = some (append_file logline results f) }) (append_file logline results f)
      (appended-IsReady time text logline results l f i whole) le le')

pub first_roll-IsRolling :
    (now : ℕ) (l : LogFile)
    → l.file ≡ none
    → l.closed ≡ []
    → ltb l.last_roll now ≡ true
    → IsRolling now [] ((roll_file now l).1)
unfolding roll_file closed_text AreClosed
first_roll-IsRolling now l no_file no_closed h =
    rw (h, no_file, no_closed)
      (record {
        current = new_file now;
        ready = record {
          has_file = refl;
          named = refl;
          files = tt;
          kept = refl;
          period = refl;
          flush_low = omega arith;
          flush_high = omega arith;
          size = refl;
        };
        full = ground arith;
      })

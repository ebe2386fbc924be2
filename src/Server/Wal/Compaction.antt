-- ===== src/Server/Wal/Compaction.antt =====
-- What the compaction of the applied entries keeps.
use Prim.Native.String.{String}
use text.Mathlib.Text.{◌==◌ as str_eq}
use text.Mathlib.TextEquality.{eq_iff}
use ik2203_distributed_coord.Prelude.{
  ℕ, ◌≡◌, refl, sym, ◌∙◌, Bool, true, false, Option, none, some, List, [], ◌∷◌, ◌++◌, arith,
  control, if◌then◌else◌, ap, ◌&&◌, not, false≢true, Option-cases, Bool-cases, inl, inr,
}
use ik2203_distributed_coord.Server.Table.{get, put, get-put}
use ik2203_distributed_coord.Server.Wal.{
  LogEntry, set_value, lin_read, lin_write, compact, Marks, is_marked, keep, keep_write,
  visit_write, visit, visit_all, fresh_marks, snapshot,
}

-- The value that the newest write of `k` wrote.
unfoldable pub newest : List LogEntry → String → Option (List ℕ)
newest [] k = none
newest (set_value key value ∷ logs) k = if str_eq key k then some value else newest logs k
newest (lin_write opid key value ∷ logs) k = if str_eq key k then some value else newest logs k
newest (_ ∷ logs) k = newest logs k

abbrev pub or_else : Option (List ℕ) → Option (List ℕ) → Option (List ℕ)
or_else none b = b
or_else (some a) b = some a

newest-append :
    (xs ys : List LogEntry) (k : String) → newest (xs ++ ys) k ≡ or_else (newest xs k) (newest ys k)
unfolding newest control
newest-append [] ys k = refl
newest-append (set_value key value ∷ xs) ys k = ground (arith, newest-append xs ys k)
newest-append (lin_write opid key value ∷ xs) ys k = ground (arith, newest-append xs ys k)
newest-append (lin_read opid key value ∷ xs) ys k = newest-append xs ys k
newest-append (compact ∷ xs) ys k = newest-append xs ys k

or_else_assoc : (a b c : Option (List ℕ)) → or_else (or_else a b) c ≡ or_else a (or_else b c)
or_else_assoc none b c = refl
or_else_assoc (some a) b c = refl

or_else_none : (a : Option (List ℕ)) → or_else a none ≡ a
or_else_none none = refl
or_else_none (some a) = refl

-- The loop of `snapshot` looks for a second Compact only after the first, and a marked key has a
-- write among the entries that it kept.
record IsMarked (m : Marks) : Type 0 where
  flags : m.befor_first_compact ≡ true → m.befor_second_compact ≡ true
  written :
      (k : String)
      → is_marked (get m.can_discard_write k) ≡ true
      → (v : List ℕ) × (newest m.new_log_vec k ≡ some v)

-- With what follows it, what is kept has the newest writes that it had with the visited entry.
record Visits (m : Marks) (log : LogEntry) (m' : Marks) : Type 0 where
  marked : IsMarked m'
  same :
      (k : String) (rest : Option (List ℕ))
      → or_else (newest m'.new_log_vec k) rest
        ≡ or_else (newest m.new_log_vec k) (or_else (newest (log ∷ []) k) rest)

keep-newest :
    (m : Marks) (log : LogEntry) (k : String) (rest : Option (List ℕ))
    → or_else (newest (keep m log).new_log_vec k) rest
      ≡ or_else (newest m.new_log_vec k) (or_else (newest (log ∷ []) k) rest)
unfolding keep
keep-newest m log k rest =
    rw (newest-append m.new_log_vec (log ∷ []) k) (or_else_assoc (newest m.new_log_vec k) _ rest)

-- A key that was written is still written with one more entry.
written-keep :
    (m : Marks) (log : LogEntry) (k : String)
    → (v : List ℕ) × (newest m.new_log_vec k ≡ some v)
    → (v : List ℕ) × (newest (m.new_log_vec ++ log ∷ []) k ≡ some v)
written-keep m log k (v, e) =
    (v, newest-append m.new_log_vec (log ∷ []) k ∙ ap (λ o. or_else o (newest (log ∷ []) k)) e)

Visits-if :
    {m : Marks} {log : LogEntry} {a b : Marks} (t : Bool)
    → (t ≡ true → Visits m log a)
    → (t ≡ false → Visits m log b)
    → Visits m log (if t then a else b)
unfolding control
Visits-if true f g = f refl
Visits-if false f g = g refl

-- The entry writes `v` at `key`.
abbrev Writes : LogEntry → String → List ℕ → Type 0
Writes log key v = (k : String) → newest (log ∷ []) k ≡ (if str_eq key k then some v else none)

module _ (m : Marks) (log : LogEntry) (key : String) (v : List ℕ) (w : Writes log key v) where
  -- the own key is written by the entry that is kept
  written-keep_write :
      (k : String)
      → str_eq key k ≡ true
      → (x : List ℕ) × (newest (m.new_log_vec ++ log ∷ []) k ≡ some x)
  unfolding control
  written-keep_write k e = elim (Option-cases (newest m.new_log_vec k)) [
    | inr old ↦ written-keep m log k old
    | inl n ↦ (v, newest-append m.new_log_vec (log ∷ []) k ∙ (rw n (w k ∙ (rw e refl))))
  ]

  keep_write-Visits : IsMarked m → Visits m log (keep_write m log key)
  unfolding keep_write control
  keep_write-Visits h = record {
    marked = record {
      flags = h.flags;
      written = λ k q. elim (Bool-cases (str_eq key k)) [
        | inl e ↦ written-keep_write k e
        | inr e ↦ written-keep m log k (h.written k (unmarked k e q))
      ];
    };
    same = unfold keep in keep-newest m log;
  }
    where
      unmarked :
          (k : String)
          → str_eq key k ≡ false
          → is_marked (get (put m.can_discard_write key true) k) ≡ true
          → is_marked (get m.can_discard_write k) ≡ true
      unmarked k e q = rw (get-put m.can_discard_write key k true, e) at q

  -- A write of a marked key changes no newest write.
  discard-Visits : IsMarked m → is_marked (get m.can_discard_write key) ≡ true → Visits m log m
  unfolding control
  discard-Visits h q = record {
    marked = h;
    same = λ k rest. let (x, e) = h.written key q in ground (arith, w k, eq_iff key k, e);
  }

  visit_write-Visits : IsMarked m → Visits m log (visit_write m log key)
  unfolding visit_write
  visit_write-Visits h =
      Visits-if _ (λ e. keep_write-Visits h)
        (λ e.
          Visits-if _ (λ e'. marked_or_kept)
            (λ e'. Visits-if _ (λ e''. marked_or_kept) (λ e''. absurd (unreachable e e' e''))))
    where
      marked_or_kept :
          Visits m log (if is_marked (get m.can_discard_write key) then m else keep_write m log key)
      marked_or_kept = Visits-if _ (λ q. discard-Visits h q) (λ q. keep_write-Visits h)

      -- the first flag is up and the second is down
      unreachable :
          (m.befor_first_compact && m.befor_second_compact) ≡ false
          → (not m.befor_first_compact && m.befor_second_compact) ≡ false
          → (not m.befor_first_compact && not m.befor_second_compact) ≡ false
          → ⊥
      unreachable a b c = ground (arith, h.flags)

-- An entry that writes nothing may be dropped.
drop-Visits :
    (m : Marks) (log : LogEntry)
    → ((k : String) → newest (log ∷ []) k ≡ none)
    → IsMarked m
    → Visits m log m
drop-Visits m log n h = record { marked = h; same = λ k rest. rw (n k) refl }

keep-Visits : (m : Marks) (log : LogEntry) → IsMarked m → Visits m log (keep m log)
unfolding keep
keep-Visits m log h = record {
  marked = record { flags = h.flags; written = λ k q. written-keep m log k (h.written k q) };
  same = unfold keep in keep-newest m log;
}

second_after_first :
    (m : Marks)
    → (not m.befor_first_compact && m.befor_second_compact) ≡ true
    → m.befor_first_compact ≡ true
    → false ≡ true
second_after_first m e q = ground arith

visit-Visits : (m : Marks) (log : LogEntry) → IsMarked m → Visits m log (visit m log)
unfolding visit newest
visit-Visits m (set_value key v) h = visit_write-Visits m _ key v (λ k. refl) h
visit-Visits m (lin_write opid key v) h = visit_write-Visits m _ key v (λ k. refl) h
visit-Visits m (lin_read opid key v) h =
    Visits-if _ (λ e. keep-Visits m _ h)
      (λ e. Visits-if _ (λ e'. keep-Visits m _ h) (λ e'. drop-Visits m _ (λ k. refl) h))
visit-Visits m compact h =
    Visits-if _
      (λ e.
        let k = keep-Visits m compact h in
        record {
          marked = record { flags = λ q. absurd (false≢true q); written = k.marked.written };
          same = k.same;
        })
      (λ e.
        Visits-if _
          (λ e'. record {
            marked = record { flags = λ q. second_after_first m e' q; written = h.written };
            same = λ k rest. refl;
          })
          (λ e'. drop-Visits m _ (λ k. refl) h))

visit_all-newest :
    (m : Marks) (logs : List LogEntry)
    → IsMarked m
    → (k : String)
    → newest (visit_all m logs).new_log_vec k ≡ or_else (newest m.new_log_vec k) (newest logs k)
unfolding visit_all newest
visit_all-newest m [] h k = sym (or_else_none _)
visit_all-newest m (log ∷ logs) h k =
    let v = visit-Visits m log h in
    visit_all-newest (visit m log) logs v.marked k
    ∙ v.same k (newest logs k)
    ∙ ap (or_else (newest m.new_log_vec k)) (sym (newest-append (log ∷ []) logs k))

-- Compacting the applied entries changes the newest write of no key.
pub snapshot-newest :
    (store : List LogEntry) (k : String) → newest (snapshot store) k ≡ newest store k
unfolding snapshot newest get
snapshot-newest store k =
    visit_all-newest fresh_marks store
      (record { flags = λ q. refl; written = λ j q. absurd (false≢true q) }) k

-- ===== src/Storage/Persistent/Calls.antt =====
-- omnipaxos_storage/src/persistent_storage.rs: the calls on the log, beside those of `MemoryStorage`.
use ik2203_distributed_coord.Prelude.{
  ℕ, zero, suc, ◌+◌, ◌-◌, ltb, if◌then◌else◌, get_elem?, some, ◌≤◌, ◌<◌, ◌≡◌, refl, sym, ◌∙◌, ap,
  arith, List, [], ◌∷◌, ◌++◌, map, length, length-append, length-drop, take-all, take, drop, leb,
  le→leb, le→ltb, lt→ltb, control, Bool-cases, inl, inr, leb→le, leb→lt, done,
}
use mathlib.Core.List.{map-append}
use ik2203_distributed_coord.Storage.Memory.{MemoryStorage}
use ik2203_distributed_coord.Storage.Memory
use ik2203_distributed_coord.Storage.Persistent.{
  Crates, PersistentStorage, read_messages, append_entry, append_entries, append_on_prefix,
  get_entries, trim,
}
use ik2203_distributed_coord.Storage.Persistent.Refines.{
  Behaves, Shows, Shows-log, length-contents, append_entries-Shows, append_entries-value,
}

map-take :
    {A : Type 0} (f : A → List ℕ) (n : ℕ) (xs : List A) → take n (map f xs) ≡ map f (take n xs)
map-take f zero xs = refl
map-take f (suc n) [] = refl
map-take f (suc n) (x ∷ xs) = ap (λ l. f x ∷ l) (map-take f n xs)

map-drop :
    {A : Type 0} (f : A → List ℕ) (n : ℕ) (xs : List A) → drop n (map f xs) ≡ map f (drop n xs)
map-drop f zero xs = refl
map-drop f (suc n) [] = refl
map-drop f (suc n) (x ∷ xs) = map-drop f n xs

take-one_suc :
    {A : Type 0} (n : ℕ) (xs : List A) (x : A) (ys : List A)
    → get_elem? xs n ≡ some x
    → take (suc n) xs ++ ys ≡ take n xs ++ x ∷ ys
take-one_suc n [] x ys g = cc
take-one_suc zero (y ∷ xs) x ys g = cc
take-one_suc (suc n) (y ∷ xs) x ys g = ap (λ l. y ∷ l) (take-one_suc n xs x ys g)

take-one_more :
    {A : Type 0} (n : ℕ) (xs : List A) (x : A) (ys : List A)
    → get_elem? xs n ≡ some x
    → take (n + 1) xs ++ ys ≡ take n xs ++ x ∷ ys
take-one_more n xs x ys g =
    let one_more : n + 1 ≡ suc n = omega arith in
    ap (λ k. take k xs ++ ys) one_more ∙ take-one_suc n xs x ys g

-- The entries from `n` to the end.
all_from :
    {T S : Type 0} (m : MemoryStorage T S) (n to : ℕ)
    → to ≡ length m.log
    → n ≤ length m.log
    → Memory.get_entries m n to ≡ drop n m.log
unfolding Memory.get_entries control
all_from m n to e l =
    rw
      (
        le→leb n to (omega (arith, e, l)),
        le→leb to (length m.log) (omega (arith, e)),
        take-all (to - n) (drop n m.log) (omega (arith, length-drop n m.log, e)),
      )
      refl

module _ {T S Log Db : Type 0} (c : Crates T S Log Db) (b : Behaves c) where
  -- The read from this offset is not cut short by the limit of `ReadLimit::default()`.
  abbrev pub ReadsAll : Log → ℕ → Type 0
  ReadsAll l from = c.read l from ≡ drop from (b.contents l)

  read_messages-map :
      (n : ℕ) (xs : List T)
      → n ≤ length xs
      → read_messages c.entry_from n (map c.entry_bytes xs) ≡ done (take n xs)
  unfolding read_messages control
  read_messages-map zero xs h = refl
  read_messages-map (suc n) [] h = absurd (omega (arith, h))
  read_messages-map (suc n) (x ∷ xs) h =
      rw (b.entry_reads x, read_messages-map n xs (omega (arith, h))) refl

  -- A read of a range, its start not behind its end, returns what the storage in memory returns, where
  -- the persistent storage holds what that does, when the commit log hands out all that follows the
  -- start, so that its read limit is not met, and the crates do as they say.
  pub get_entries-Shows :
      (p : PersistentStorage Log Db) (m : MemoryStorage T S) (from to : ℕ)
      → Shows c b p m
      → ReadsAll p.commitlog from
      → from ≤ to
      → get_entries c p from to ≡ done (Memory.get_entries m from to)
  unfolding get_entries Memory.get_entries control
  get_entries-Shows p m from to h r l =
      let n = b.next_offset_contents p.commitlog ∙ length-contents c b p m h in
      elim (Bool-cases (leb to (length m.log))) [
        | inr e ↦
            rw (n, lt→ltb (length m.log) to (leb→lt to (length m.log) e), le→leb from to l, e) refl
        | inl e ↦
            let k = leb→le to (length m.log) e in
            rw
              (
                n,
                le→ltb (length m.log) to k,
                le→ltb to from l,
                le→leb from to l,
                e,
                r,
                h.log,
                map-drop c.entry_bytes from m.log,
                read_messages-map (to - from) (drop from m.log)
                    (omega (arith, length-drop from m.log, k)),
              )
              refl
      ]

  pub append_entry-Shows :
      (p : PersistentStorage Log Db) (m : MemoryStorage T S) (entry : T)
      → Shows c b p m
      → Shows c b (append_entry c p entry).0 (Memory.append_entry m entry).0
        × ((append_entry c p entry).1 ≡ (Memory.append_entry m entry).1)
  unfolding append_entry Memory.append_entry
  append_entry-Shows p m entry h = (
    Shows-log c b p m _ (m.log ++ entry ∷ []) h (
        b.append_contents p.commitlog (c.entry_bytes entry ∷ [])
        ∙ ap (λ x. x ++ c.entry_bytes entry ∷ []) h.log
        ∙ sym (map-append c.entry_bytes m.log (entry ∷ []))),
    omega (
      arith,
      b.append_first p.commitlog (c.entry_bytes entry) [],
      length-contents c b p m h,
      length-append m.log (entry ∷ []),
    ),
  )

  -- A prefix as long as the log, which truncating keeps whole.
  prefix-whole :
      (p : PersistentStorage Log Db) (m : MemoryStorage T S) (n : ℕ)
      → Shows c b p m
      → length m.log ≤ n
      → Shows c b
          (if ltb 0 n then record p { commitlog = c.truncate p.commitlog n } else p)
          (record m { log = take n m.log })
  unfolding control
  prefix-whole p m n h l =
      let whole : take n m.log ≡ m.log = take-all n m.log l in
      elim (Bool-cases (ltb 0 n)) [
        | inr e ↦ rw e (
            Shows-log c b p m p.commitlog (take n m.log) h
              (h.log ∙ ap (map c.entry_bytes) (sym whole)))
        | inl e ↦ rw e (
            Shows-log c b p m _ (take n m.log) h (
              b.truncate_contents p.commitlog n
              ∙ take-all (n + 1) (b.contents p.commitlog)
                  (omega (arith, length-contents c b p m h, l))
              ∙ h.log
              ∙ ap (map c.entry_bytes) (sym whole)))
      ]

  pub append_on_prefix-Shows :
      (p : PersistentStorage Log Db) (m : MemoryStorage T S) (from_idx : ℕ) (entries : List T)
      → Shows c b p m
      → length m.log ≤ from_idx
      → 0 < length entries
      → Shows c b
          (append_on_prefix c p from_idx entries).0
          (Memory.append_on_prefix m from_idx entries).0
        × ((append_on_prefix c p from_idx entries).1
            ≡ (Memory.append_on_prefix m from_idx entries).1)
  unfolding append_on_prefix Memory.append_on_prefix
  append_on_prefix-Shows p m from_idx entries h l k =
      let w = prefix-whole p m from_idx h l in
      (append_entries-Shows c b _ _ entries w, append_entries-value c b _ _ entries w k)

  -- Where the persistent storage holds what the storage in memory does, and the log is longer than
  -- the prefix, which is not empty, appending on the prefix keeps the entry at the index of the prefix
  -- too: the log in memory is the prefix and then the new entries, the persistent one has that entry
  -- between them. The crates do as they say.
  pub append_on_prefix-keeps_one :
      (p : PersistentStorage Log Db) (m : MemoryStorage T S) (from_idx : ℕ) (entry : T)
      (entries : List T)
      → Shows c b p m
      → 0 < from_idx
      → get_elem? m.log from_idx ≡ some entry
      → (b.contents (append_on_prefix c p from_idx entries).0.commitlog
          ≡ map c.entry_bytes (take from_idx m.log ++ entry ∷ entries))
        × ((Memory.append_on_prefix m from_idx entries).0.log ≡ take from_idx m.log ++ entries)
  unfolding append_on_prefix append_entries Memory.append_on_prefix Memory.append_entries control
  append_on_prefix-keeps_one p m from_idx entry entries h l g = (
    rw (lt→ltb 0 from_idx l) (
        b.append_contents (c.truncate p.commitlog from_idx) (map c.entry_bytes entries)
        ∙ ap (λ x. x ++ map c.entry_bytes entries)
            (b.truncate_contents p.commitlog from_idx
              ∙ ap (take (from_idx + 1)) h.log
              ∙ map-take c.entry_bytes (from_idx + 1) m.log)
        ∙ sym (map-append c.entry_bytes (take (from_idx + 1) m.log) entries)
        ∙ ap (map c.entry_bytes) (take-one_more from_idx m.log entry entries g)),
    refl,
  )

  -- Appending on the prefix of length 0 keeps the log and puts the entries behind it.
  append_on_prefix-zero :
      (p : PersistentStorage Log Db) (entries : List T)
      → b.contents (append_on_prefix c p 0 entries).0.commitlog
        ≡ b.contents p.commitlog ++ map c.entry_bytes entries
  unfolding append_on_prefix control
  append_on_prefix-zero p entries = b.append_contents p.commitlog (map c.entry_bytes entries)

  pub trim-Shows :
      (p : PersistentStorage Log Db) (m : MemoryStorage T S) (n : ℕ)
      → Shows c b p m
      → n ≤ length m.log
      → ReadsAll p.commitlog n
      → (p' : PersistentStorage Log Db) × (m' : MemoryStorage T S) × (trim c p n ≡ done p')
        × (Memory.trim m n ≡ done m')
        × Shows c b p' m'
  unfolding trim Memory.trim control
  trim-Shows p m n h l r =
      let next = b.next_offset_contents p.commitlog ∙ length-contents c b p m h in
      let e =
        get_entries-Shows p m n (c.next_offset p.commitlog) h r (omega (arith, next, l))
        ∙ ap done (all_from m n (c.next_offset p.commitlog) next l) in
      (
        _,
        _,
        rw e refl,
        rw (le→leb n (length m.log) l) refl,
        Shows-log c b p m _ (drop n m.log) h (
            b.append_contents c.new_log (map c.entry_bytes (drop n m.log))
            ∙ ap (λ x. x ++ map c.entry_bytes (drop n m.log)) b.new_contents),
      )

-- ===== src/Server/Wal.antt =====
-- ddbb_server/src/ddbb_server.rs: the entries a server has applied, newest first, and `snapshot`,
-- which compacts them.
pub mod Compaction
use Prim.Native.String.{String}
use text.Mathlib.Text.{◌==◌ as str_eq}
use ik2203_distributed_coord.Prelude.{
  ℕ, ◌+◌, Bool, true, false, ◌&&◌, not, Option, none, some, List, [], ◌∷◌, ◌++◌, ◌==◌,
  if◌then◌else◌,
}
use ik2203_distributed_coord.Server.Table.{get, put}

-- `LogEntry` (ddbb_libs/src/data_structure.rs)
pub data LogEntry : Type 0 where
  set_value : (key : String) → (value : List ℕ) → LogEntry
  lin_read : (opid : String × ℕ) → (key : String) → (value : Option (List ℕ)) → LogEntry
  lin_write : (opid : String × ℕ) → (key : String) → (value : List ℕ) → LogEntry
  compact : LogEntry

-- the variables of the loop of `snapshot`
pub record Marks : Type 0 where
  pub befor_first_compact : Bool
  pub befor_second_compact : Bool
  pub can_discard_write : List (String × Bool)
  pub new_log_vec : List LogEntry

-- `Some(true) = can_discard_write.get(&key)`
abbrev pub is_marked : Option Bool → Bool
is_marked none = false
is_marked (some b) = b

-- `new_log_vec.insert(new_log_vec.len(), log)`
unfoldable pub keep : Marks → LogEntry → Marks
keep m log = record m { new_log_vec = m.new_log_vec ++ log ∷ [] }

unfoldable pub keep_write : Marks → LogEntry → String → Marks
unfolding keep
keep_write m log key = record (keep m log) { can_discard_write = put m.can_discard_write key true }

-- The branches for SetValue and for LINWrite, which are the same.
unfoldable pub visit_write : Marks → LogEntry → String → Marks
unfolding keep_write
visit_write m log key =
    if m.befor_first_compact && m.befor_second_compact
    then keep_write m log key
    else if not m.befor_first_compact && m.befor_second_compact
    then (if is_marked (get m.can_discard_write key) then m else keep_write m log key)
    else if not m.befor_first_compact && not m.befor_second_compact
    then (if is_marked (get m.can_discard_write key) then m else keep_write m log key)
    else m

unfoldable pub visit : Marks → LogEntry → Marks
unfolding visit_write keep
visit m (set_value key value) = visit_write m (set_value key value) key
visit m (lin_read opid key value) =
    if m.befor_first_compact && m.befor_second_compact
    then keep m (lin_read opid key value)
    else if not m.befor_first_compact && m.befor_second_compact
    then keep m (lin_read opid key value)
    else m
visit m (lin_write opid key value) = visit_write m (lin_write opid key value) key
visit m compact =
    if m.befor_first_compact && m.befor_second_compact
    then record (keep m compact) { befor_first_compact = false }
    else if not m.befor_first_compact && m.befor_second_compact
    then record m { befor_second_compact = false }
    else m

unfoldable pub visit_all : Marks → List LogEntry → Marks
unfolding visit
visit_all m [] = m
visit_all m (log ∷ logs) = visit_all (visit m log) logs

abbrev pub fresh_marks : Marks
fresh_marks = record {
  befor_first_compact = true;
  befor_second_compact = true;
  can_discard_write = [];
  new_log_vec = [];
}

-- `snapshot`: the store after the compaction
unfoldable pub snapshot : List LogEntry → List LogEntry
unfolding visit_all
snapshot store = (visit_all fresh_marks store).new_log_vec

-- `find_log_by_opid`: the newest entry with this operation, but the scan ends at the first entry
-- that is no LINRead or LINWrite.
unfoldable pub find_log_by_opid : List LogEntry → String → ℕ → Option LogEntry
find_log_by_opid [] addr ts = none
find_log_by_opid (lin_read opid key value ∷ logs) addr ts =
    if str_eq (opid.0) addr && opid.1 == ts
    then some (lin_read opid key value)
    else find_log_by_opid logs addr ts
find_log_by_opid (lin_write opid key value ∷ logs) addr ts =
    if str_eq (opid.0) addr && opid.1 == ts
    then some (lin_write opid key value)
    else find_log_by_opid logs addr ts
find_log_by_opid (_ ∷ logs) addr ts = none

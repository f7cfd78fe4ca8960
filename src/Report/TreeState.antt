-- ===== src/Report/TreeState.antt =====
-- LogTreeState of src/utils.cc, which is compiled with PROFILE only: the levels of the tree in the log.
-- (Before that it has the database flush its memtable.)
use mathlib.Core.List.{append-nil, append_assoc}
use rocks_db_wrapper.Base.{
  ℕ, ◌≡◌, sym, ap, ◌∙◌, List, [], ◌∷◌, ◌++◌, if◌then◌else◌, Bool-cases, inl, inr,
}
use rocks_db_wrapper.Base.Int.{ltb_ℤ}
use rocks_db_wrapper.Base.Text.{Text, codes, show_ℕ}
use rocks_db_wrapper.Env.{DbEnv}
use rocks_db_wrapper.Env.Default.{no_prints, level_of}
use rocks_db_wrapper.Buffer.{Buffer, endl, put, put_manip}
use rocks_db_wrapper.Buffer.Laws.{contents, put-IsInserted, put_manip-IsInserted}

-- RocksDB's metadata, as far as the function reads it.
pub record LevelState : Type 0 where
  pub level : ℕ
  pub files : ℕ
  pub size : ℕ

pub record TreeState : Type 0 where
  pub name : Text
  pub size : ℕ
  pub file_count : ℕ
  pub levels : List LevelState

abbrev pub level_text : LevelState → Text
level_text level =
    codes "Level: "
    ++ show_ℕ level.level
    ++ codes ", Files: "
    ++ show_ℕ level.files
    ++ codes ", Size: "
    ++ show_ℕ level.size
    ++ codes " bytes"
    ++ 10 ∷ []

abbrev pub level_texts : List LevelState → Text
level_texts [] = []
level_texts (level ∷ levels) = level_text level ++ level_texts levels

abbrev pub tree_text : TreeState → Text
tree_text metadata =
    codes "Column Family Name: "
    ++ metadata.name
    ++ codes ", Size: "
    ++ show_ℕ metadata.size
    ++ codes " bytes, Files Count: "
    ++ show_ℕ metadata.file_count
    ++ 10 ∷ []
    ++ codes "Level Stats:"
    ++ 10 ∷ []
    ++ level_texts metadata.levels

pub log_tree_state : DbEnv → TreeState → Buffer → Buffer
log_tree_state env metadata buffer =
    if ltb_ℤ (level_of no_prints) env.verbosity
    then put_manip (put buffer (tree_text metadata)) endl
    else buffer

-- What it adds to the log's text.
log_tree_state-contents :
    (env : DbEnv) (metadata : TreeState) (buffer : Buffer)
    → contents (log_tree_state env metadata buffer)
      ≡ contents buffer
        ++ (if ltb_ℤ (level_of no_prints) env.verbosity then tree_text metadata ++ 10 ∷ [] else [])
unfolding log_tree_state
log_tree_state-contents env metadata buffer =
    elim (Bool-cases (ltb_ℤ (level_of no_prints) env.verbosity)) [
      | inl loud ↦ rw loud (
          (put_manip-IsInserted (put buffer (tree_text metadata)) endl).0
          ∙ ap (λ x. x ++ 10 ∷ []) ((put-IsInserted buffer (tree_text metadata)).0)
          ∙ append_assoc (contents buffer) (tree_text metadata) (10 ∷ []))
      | inr silent ↦ rw silent (sym (append-nil (contents buffer)))
    ]

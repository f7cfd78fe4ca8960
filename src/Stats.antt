-- ===== src/Stats.antt =====
-- The statistics object: include/stats.h and src/stats.cc. Single precision is an interface, and the
-- standard output is a stream with a pending width and a notation for floats, both of which stay from
-- one call to the next.
pub mod Amplification
pub mod Report
mod Examples
use rocks_db_wrapper.Base.{
  ℕ, zero, suc, ◌+◌, ◌*◌, ◌%◌, ◌^◌, Bool, true, false, ◌&&◌, Option, none, some, List, [], ◌∷◌,
  ◌++◌, ◌>>=◌, if◌then◌else◌, ltb, leb,
}
use rocks_db_wrapper.Base.Int.{ℤ, pos, negsuc, pos_part, neg_part, ◌-ℤ◌, to_unsigned}
use rocks_db_wrapper.Base.Text.{Text, codes, show_ℤ, pad_left}
use rocks_db_wrapper.Env.{DbEnv, get_instance}

-- The types float and double, how integers become floats, and how a float prints: in the default
-- notation, or fixed with two digits.
pub record Floats : Type 1 where
  pub Float : Type 0
  pub Double : Type 0
  pub of_int : ℤ → Float
  pub of_unsigned : ℕ → Float
  pub mul : Float → Float → Float
  pub div : Float → Float → Float
  pub show : Bool → Float → Text

pub record FadeFileInfo (f : Floats) : Type 0 where
  pub file_id : Text
  pub file_level : ℤ
  pub file_entry_count : ℤ
  pub file_tombstone_count : ℤ
  pub file_size : ℤ
  pub file_age : f.Double
  pub file_ttl_expired : Bool

-- The two sizes are uint64_t, the counters are int or long.
pub record Stats (f : Floats) : Type 0 where
  pub key_size : ℕ
  pub value_size : ℕ
  pub inserts_completed : ℤ
  pub updates_completed : ℤ
  pub update_proportion : f.Float
  pub point_deletes_completed : ℤ
  pub range_deletes_completed : ℤ
  pub point_queries_completed : ℤ
  pub range_queries_completed : ℤ
  pub levels_in_tree : ℤ
  pub files_in_tree : ℤ
  pub key_values_in_tree : ℤ
  pub point_tombstones_in_tree : ℤ
  pub range_tombstones_in_tree : ℤ
  pub files_in_level : List ℤ
  pub fade_file_info : List (FadeFileInfo f)
  pub compaction_count : ℤ
  pub compactions_by_pointer_manipulation : ℤ
  pub files_read_for_compaction : ℤ
  pub bytes_read_for_compaction : ℤ
  pub files_written_after_compaction : ℤ
  pub bytes_written_after_compaction : ℤ
  pub space_amp : f.Float
  pub write_amp : f.Float
  pub exp_runtime : ℤ
  pub completion_status : Bool
  pub db_open : Bool

-- The constructor. It leaves `exp_runtime` without a value, which is an argument here.
pub new_stats : {f : Floats} → ℤ → Stats f
new_stats {f} uninitialised = record {
  key_size = to_unsigned (2 ^ 64) (negsuc 0);
  value_size = to_unsigned (2 ^ 64) (negsuc 0);
  inserts_completed = negsuc 0;
  updates_completed = negsuc 0;
  update_proportion = f.of_int (negsuc 0);
  point_deletes_completed = negsuc 0;
  range_deletes_completed = negsuc 0;
  point_queries_completed = negsuc 0;
  range_queries_completed = negsuc 0;
  levels_in_tree = negsuc 0;
  files_in_tree = negsuc 0;
  key_values_in_tree = negsuc 0;
  point_tombstones_in_tree = negsuc 0;
  range_tombstones_in_tree = negsuc 0;
  files_in_level = [];
  fade_file_info = [];
  compaction_count = negsuc 0;
  compactions_by_pointer_manipulation = negsuc 0;
  files_read_for_compaction = negsuc 0;
  bytes_read_for_compaction = negsuc 0;
  files_written_after_compaction = negsuc 0;
  bytes_written_after_compaction = negsuc 0;
  space_amp = f.of_int (negsuc 0);
  write_amp = f.of_int (negsuc 0);
  exp_runtime = uninitialised;
  completion_status = false;
  db_open = false;
}

-- The static pointer, with the object behind it: it stays where it is, unlike that of DBEnv.
unfoldable get_stats_instance : {f : Floats} → ℤ → Option (Stats f) → Stats f × Option (Stats f)
unfolding new_stats
get_stats_instance uninitialised none = let made = new_stats uninitialised in (made, some made)
get_stats_instance uninitialised (some stats) = (stats, some stats)

-- `std::cout`: what it printed, the width for the next insertion, and whether `std::fixed` was set (with
-- `setprecision(2)`). The fill is the blank.
pub record Cout : Type 0 where
  pub printed : Text
  pub width : ℕ
  pub fixed : Bool

-- An insertion uses the width up, `std::endl` does not.
pub insert_text : Text → Cout → Cout
insert_text text c = record c { printed = c.printed ++ pad_left c.width text; width = 0 }

abbrev pub end_line : Cout → Cout
end_line c = record c { printed = c.printed ++ 10 ∷ [] }

-- `std::cout << std::setw(w) << text`, for each pair.
pub cells : List (ℕ × Text) → Cout → Cout
unfolding insert_text
cells [] c = c
cells ((w, text) ∷ rest) c = cells rest (insert_text text (record c { width = w }))

abbrev pub head_cells : List (ℕ × Text)
head_cells =
    (9, codes "#p_ts_in_tree")
    ∷ (12, codes "#kv_in_tree")
    ∷ (12, codes "#I_done")
    ∷ (12, codes "L_in_tree")
    ∷ (12, codes "#U_done")
    ∷ (12, codes "#PD_done")
    ∷ (12, codes "#cmpt")
    ∷ (12, codes "#cmpt_easy")
    ∷ (12, codes "fls_rd_cmpt")
    ∷ (12, codes "fls_wr_cmpt")
    ∷ (12, codes "bts_rd_cmpt")
    ∷ (12, codes "bts_wr_cmpt")
    ∷ []

abbrev pub amp_cells : List (ℕ × Text)
amp_cells = (9, codes "%space_amp") ∷ (12, codes "dpth") ∷ (19, codes "exp_runtime (ms)") ∷ []

-- A difference of longs; overflow is undefined (`none`).
pub sub_long : ℤ → ℤ → Option ℤ
unfolding ◌-ℤ◌
sub_long a b =
    let r = a -ℤ b in
    if ltb (pos_part r) (2 ^ 63) && leb (neg_part r) (2 ^ 63) then some r else none

module _ {f : Floats} where
  abbrev pub count_cells : Stats f → List (ℕ × Text)
  count_cells s =
      (12, show_ℤ s.point_tombstones_in_tree)
      ∷ (12, show_ℤ s.key_values_in_tree)
      ∷ (12, show_ℤ s.inserts_completed)
      ∷ (12, show_ℤ s.levels_in_tree)
      ∷ (12, show_ℤ s.updates_completed)
      ∷ (12, show_ℤ s.point_deletes_completed)
      ∷ (12, show_ℤ s.compaction_count)
      ∷ (12, show_ℤ s.compactions_by_pointer_manipulation)
      ∷ (12, show_ℤ s.files_read_for_compaction)
      ∷ (12, show_ℤ s.files_written_after_compaction)
      ∷ (12, show_ℤ s.bytes_read_for_compaction)
      ∷ (12, show_ℤ s.bytes_written_after_compaction)
      ∷ []

  -- The body of the loop: all but the assignment behind it is a comment.
  abbrev pub set_proportion : Stats f → Stats f
  set_proportion s = record s {
    update_proportion = f.div (f.of_int s.updates_completed) (f.of_int s.inserts_completed);
  }

  -- The rounds that are left.
  pub file_loop : ℕ → Stats f → Stats f
  file_loop zero s = s
  file_loop (suc n) s = file_loop n (set_proportion s)

  -- `superfluous_bytes` and `unique_bytes`: the sizes are uint64_t, so the sums and the product wrap,
  -- and the difference is converted.
  pub superfluous_bytes : Stats f → f.Float
  superfluous_bytes s =
      f.mul (f.of_int s.point_tombstones_in_tree) (f.of_unsigned ((s.key_size + 1) % 2 ^ 64))

  pub unique_bytes : Stats f → Option ℕ
  unfolding sub_long
  unique_bytes s = sub_long s.inserts_completed s.point_deletes_completed >>= λ entries.
      some (to_unsigned (2 ^ 64) entries * ((s.key_size + s.value_size) % 2 ^ 64) % 2 ^ 64)

  pub set_space_amp : Stats f → Option (Stats f)
  unfolding superfluous_bytes unique_bytes
  set_space_amp s = unique_bytes s >>= λ unique. some (record s {
    space_amp = f.div (f.mul (f.of_int (pos 100)) (superfluous_bytes s)) (f.of_unsigned unique);
  })

  abbrev pub print_counts : Stats f → Cout → Cout
  print_counts s c =
      let c1 = insert_text (codes "\n") (cells head_cells c) in
      let c2 = end_line (cells (count_cells s) c1) in
      end_line (insert_text (show_ℤ s.files_in_tree) (insert_text (codes "files in tree = ") c2))

  abbrev pub print_amp : Stats f → Cout → Cout
  print_amp s c =
      let c1 = insert_text (codes "\n") (cells amp_cells c) in
      let c2 = insert_text (f.show c1.fixed s.space_amp) (record c1 { width = 9 }) in
      end_line (record c2 { width = 19; fixed = true })

  -- The call of GetInstance takes an object out of `instance_` and destroys it. The loop counts in an
  -- int, which overflows with 2 ^ 31 files or more (`none`).
  pub print_stats : Option DbEnv → Stats f → Cout → Option (Option DbEnv × Stats f × Cout)
  unfolding cells insert_text file_loop set_space_amp get_instance
  print_stats instance_ s c =
      if ltb (pos_part s.files_in_tree) (2 ^ 31)
      then (set_space_amp (file_loop (pos_part s.files_in_tree) s) >>= λ s'.
          some ((get_instance instance_).1, s', print_amp s' (print_counts s c)))
      else none

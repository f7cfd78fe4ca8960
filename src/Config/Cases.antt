-- ===== src/Config/Cases.antt =====
-- The `switch` statements of configOptions: the case of each code, and the complaints of the default
-- cases.
use rocks_db_wrapper.Base.{
  ℕ, zero, suc, Bool, true, false, Option, none, some, List, [], ◌∷◌, ◌++◌, if◌then◌else◌, ◌==◌,
}
use rocks_db_wrapper.Options.{
  CompactionPri, k_by_compensated_size, k_oldest_largest_seq_first, k_oldest_smallest_seq_first,
  k_min_overlapping_ratio, k_round_robin, MemtableFactory, skip_list_factory, vector_rep_factory,
  hash_skip_list_rep_factory, hash_link_list_rep_factory, CompactionStyle, k_compaction_style_level,
  k_compaction_style_universal, k_compaction_style_fifo, k_compaction_style_none,
  DataBlockIndexType, k_data_block_binary_search, k_data_block_binary_and_hash, IndexType,
  k_binary_search, k_hash_search, k_two_level_index_search, k_binary_search_with_first_key,
  IndexShorteningMode, k_no_shortening, k_shorten_separators, k_shorten_separators_and_successor,
  CompressionType, k_no_compression, k_snappy_compression, k_zlib_compression, k_bzip2_compression,
  k_lz4_compression, k_lz4hc_compression, k_xpress_compression, k_zstd,
  k_disable_compression_option, ReadTier, k_read_all_tier, k_block_cache_tier, k_persisted_tier,
  k_memtable_tier, Comparator, bytewise_comparator, reverse_bytewise_comparator,
}

-- The lines on std::cerr of the default cases: "Invalid data movement policy!" and so on.
pub data Complaint : Type 0 where
  invalid_data_movement_policy invalid_memtable_factory invalid_compaction_eagerness : Complaint
  invalid_index_type_for_data_block invalid_index_type invalid_index_shortening : Complaint
  invalid_compression_type invalid_read_tier invalid_comparator : Complaint

-- A `switch` on a code: a case's value, or what was there and a complaint.
abbrev pub switch {ℓ} : {A : Type ℓ} → Option A → A → A
switch none current = current
switch (some value) current = value

abbrev pub complain {ℓ} : {A : Type ℓ} → Option A → Complaint → List Complaint → List Complaint
complain none complaint cerr = cerr ++ complaint ∷ []
complain (some value) complaint cerr = cerr

-- The values of the cases from 0 on, or from 1 on, one after the other.
abbrev pub cases {ℓ} : {A : Type ℓ} → List A → ℕ → Option A
cases [] code = none
cases (value ∷ values) zero = some value
cases (value ∷ values) (suc code) = cases values code

abbrev pub cases_from_1 {ℓ} : {A : Type ℓ} → List A → ℕ → Option A
cases_from_1 values zero = none
cases_from_1 values (suc code) = cases values code

abbrev pub compaction_pris : List CompactionPri
compaction_pris =
    k_by_compensated_size ∷ k_oldest_largest_seq_first ∷ k_oldest_smallest_seq_first
    ∷ k_min_overlapping_ratio ∷ k_round_robin ∷ []

abbrev pub compaction_pri_of : ℕ → Option CompactionPri
compaction_pri_of = cases compaction_pris

abbrev pub memtable_factories : List MemtableFactory
memtable_factories =
    skip_list_factory ∷ vector_rep_factory ∷ hash_skip_list_rep_factory ∷ hash_link_list_rep_factory
    ∷ []

abbrev pub memtable_factory_of : ℕ → Option MemtableFactory
memtable_factory_of = cases_from_1 memtable_factories

abbrev pub compaction_styles : List CompactionStyle
compaction_styles =
    k_compaction_style_level ∷ k_compaction_style_universal ∷ k_compaction_style_fifo
    ∷ k_compaction_style_none ∷ []

abbrev pub compaction_style_of : ℕ → Option CompactionStyle
compaction_style_of = cases_from_1 compaction_styles

abbrev pub data_block_index_types : List DataBlockIndexType
data_block_index_types = k_data_block_binary_search ∷ k_data_block_binary_and_hash ∷ []

abbrev pub data_block_index_type_of : ℕ → Option DataBlockIndexType
data_block_index_type_of = cases_from_1 data_block_index_types

abbrev pub index_types : List IndexType
index_types =
    k_binary_search ∷ k_hash_search ∷ k_two_level_index_search ∷ k_binary_search_with_first_key ∷ []

abbrev pub index_type_of : ℕ → Option IndexType
index_type_of = cases_from_1 index_types

abbrev pub index_shortenings : List IndexShorteningMode
index_shortenings = k_no_shortening ∷ k_shorten_separators ∷ k_shorten_separators_and_successor ∷ []

abbrev pub index_shortening_of : ℕ → Option IndexShorteningMode
index_shortening_of = cases_from_1 index_shortenings

-- There is no case 9.
abbrev pub compressions : List CompressionType
compressions =
    k_no_compression ∷ k_snappy_compression ∷ k_zlib_compression ∷ k_bzip2_compression
    ∷ k_lz4_compression ∷ k_lz4hc_compression ∷ k_xpress_compression ∷ k_zstd ∷ []

abbrev pub compression_of : ℕ → Option CompressionType
compression_of code =
    if code == 10 then some k_disable_compression_option else cases_from_1 compressions code

abbrev pub read_tiers : List ReadTier
read_tiers = k_read_all_tier ∷ k_block_cache_tier ∷ k_persisted_tier ∷ k_memtable_tier ∷ []

abbrev pub read_tier_of : ℕ → Option ReadTier
read_tier_of = cases_from_1 read_tiers

abbrev pub comparators : List Comparator
comparators = bytewise_comparator ∷ reverse_bytewise_comparator ∷ []

abbrev pub comparator_of : ℕ → Option Comparator
comparator_of = cases_from_1 comparators

abbrev pub is_universal : CompactionStyle → Bool
is_universal k_compaction_style_universal = true
is_universal _ = false

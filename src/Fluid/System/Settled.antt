-- ===== src/Fluid/System/Settled.antt =====
-- A compaction and what comes after it, in every history.
use rocks_db_wrapper.Base.{List}
use rocks_db_wrapper.Fluid.Double.{Double}
use rocks_db_wrapper.Fluid.Tree.{LazyLevel}
use rocks_db_wrapper.Fluid.Compact.{Compactor}

-- The compactor after BuildStructure has made these lazy levels.
abbrev pub rebuilt_with : Compactor → List LazyLevel → Compactor
rebuilt_with c lazy_levels = record c { lsm = record c.lsm { lazy_levels = lazy_levels } }

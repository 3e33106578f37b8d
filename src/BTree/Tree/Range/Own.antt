-- ===== src/BTree/Tree/Range/Own.antt =====
-- `b_range_search` of BTree.c with the program's own operations on pages.
use gaveta.Base.{Run, Run}
use gaveta.BTree.Tree.{BTree}

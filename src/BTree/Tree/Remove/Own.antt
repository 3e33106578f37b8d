-- ===== src/BTree/Tree/Remove/Own.antt =====
-- `b_remove` of BTree.c with the program's own operations on pages.
use gaveta.BTree.Tree.{BTree}

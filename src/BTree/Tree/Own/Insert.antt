-- ===== src/BTree/Tree/Own/Insert.antt =====
-- `b_insert` of BTree.c with the program's own operations on pages.
use gaveta.Base.{
  ℕ, ◌<◌, ◌≡◌, Bool, true, Option, none, some, length, Run, ok, fault, exited, blocked, unfinished,
}
use gaveta.BTree.{BTreeNode}
use gaveta.BTree.Pager.Cache.{Files, own_pager}
use gaveta.BTree.Pager.{Pager}
use gaveta.BTree.Tree
use gaveta.BTree.Tree.{Status, BTree, error_invalid, is_error, Insertion, done, write_done}

-- The call has no value without this property.
abbrev pub Only : {A : Type 0} → (A → Type 0) → Run A → Type 0
Only P (ok a) = P a
Only P fault = Unit {0}
Only P exited = Unit {0}
Only P blocked = Unit {0}
Only P unfinished = Unit {0}

module _ (order : ℕ) (erase : Files → ℕ → Run (Bool × Files)) (read : Files → ℕ → Run Files)
    (some_cells : 0 < order) (f : Files) (eight : length f.pointer ≡ 8) where
  abbrev pager : Pager Files
  pager = own_pager order erase read

  -- The insertion has ended with an error.
  data Refused : Insertion × Files → Type 0 where
    refused :
        {status : Status} {p : BTreeNode} {g : Files}
        → is_error pager status ≡ true
        → Refused (done status p, g)

  placed : BTreeNode → Option BTreeNode → Run (Insertion × Files)
  placed p none = ok (done error_invalid p, f)
  placed p (some q) = write_done pager f q

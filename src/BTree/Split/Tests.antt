-- ===== src/BTree/Split/Tests.antt =====
-- A leaf of order 4 with its three keys, "b", "d" and "f".
use gaveta.Base.{
  ℕ, ◌≡◌, refl, true, false, none, some, [], ◌∷◌, ok, fault, replicate, length, ltb, if◌then◌else◌,
}
use gaveta.BTree.{Key, BTreeNode, strcmp, put_elem, copy_up}
use gaveta.BTree.Search.{Holds, nil, cons, Ascending, has_key}
use gaveta.BTree.Insert.{insert_key, HoldsChildren}
use gaveta.BTree.Split.{
  promotion, zero_key, no_child, slide, add_child, gather, split_inner_at, split_inner, split,
}
use gaveta.BTree.Split.Gather.{gathered}
use gaveta.BTree.Split.Full.{gather-full}

abbrev letter : ℕ → Key
letter c = record { id = c ∷ []; data_register_rrn = c }

abbrev leaf : BTreeNode
leaf = record {
  keys = letter 98 ∷ letter 100 ∷ letter 102 ∷ [];
  rrn = 0;
  children = [];
  next_leaf = 1;
  child_num = 0;
  keys_num = 3;
  leaf = true;
}

abbrev new : BTreeNode
new = record leaf { keys = zero_key ∷ zero_key ∷ zero_key ∷ zero_key ∷ []; rrn = 2; keys_num = 0 }

leaf-Holds : Holds leaf (letter 98 ∷ letter 100 ∷ letter 102 ∷ [])
leaf-Holds = record { spare = []; cells = refl; count = refl }

leaf-Ascending : Ascending (letter 98 ∷ letter 100 ∷ letter 102 ∷ [])
unfolding strcmp
leaf-Ascending =
    cons (λ e. cc) (cons refl (cons refl nil))
      (cons (λ e. cc) (cons refl nil) (cons (λ e. cc) nil nil))

-- An inner node of order 3 with two keys and three children: the middle key leaves.
split_inner_three :
    split 3
      (record leaf {
        keys = letter 98 ∷ letter 102 ∷ [];
        children = 5 ∷ 6 ∷ 7 ∷ 0 ∷ [];
        child_num = 3;
        keys_num = 2;
        leaf = false;
      })
      (some 9)
      (letter 100)
      (some (record new { children = 0 ∷ 0 ∷ [] }))
    ≡ ok (
        promotion
          (record leaf {
            keys = letter 98 ∷ letter 102 ∷ [];
            children = 5 ∷ 6 ∷ 7 ∷ 0 ∷ [];
            child_num = 2;
            keys_num = 1;
            leaf = false;
          })
          (record new {
            keys = letter 102 ∷ zero_key ∷ zero_key ∷ zero_key ∷ [];
            children = 9 ∷ 7 ∷ [];
            child_num = 2;
            keys_num = 1;
            leaf = false;
          })
          (letter 100))
unfolding split gather slide add_child split_inner split_inner_at put_elem copy_up strcmp
split_inner_three = refl

gathered_example :
    gather 4 leaf none (letter 99)
    ≡ ok (insert_key (letter 99) (letter 98 ∷ letter 100 ∷ letter 102 ∷ []), replicate 5 no_child)
unfolding has_key strcmp
gathered_example = gathered 4 none (letter 99) leaf-Holds leaf-Ascending refl refl refl

abbrev inner : BTreeNode
inner = record leaf {
  keys = letter 98 ∷ letter 102 ∷ [];
  children = 5 ∷ 6 ∷ 7 ∷ 0 ∷ [];
  child_num = 3;
  keys_num = 2;
  leaf = false;
}

inner-Holds : Holds inner (letter 98 ∷ letter 102 ∷ [])
inner-Holds = record { spare = []; cells = refl; count = refl }

inner-HoldsChildren : HoldsChildren inner (5 ∷ 6 ∷ 7 ∷ [])
inner-HoldsChildren = record { spare = 0 ∷ []; cells = refl; count = refl }

inner-Ascending : Ascending (letter 98 ∷ letter 100 ∷ letter 102 ∷ [])
unfolding strcmp
inner-Ascending =
    cons (λ e. cc) (cons refl (cons refl nil))
      (cons (λ e. cc) (cons refl nil) (cons (λ e. cc) nil nil))

gather-full_example : gather 3 inner (some 9) (letter 100) ≡ (
    if ltb 3 (length inner.children)
    then ok (letter 98 ∷ letter 100 ∷ letter 102 ∷ [], 5 ∷ 6 ∷ 9 ∷ 7 ∷ [])
    else fault)
gather-full_example =
    gather-full 3 (letter 98 ∷ []) (letter 102 ∷ []) (5 ∷ 6 ∷ []) (7 ∷ []) 9 (letter 100)
      inner-Holds inner-HoldsChildren inner-Ascending refl refl refl refl

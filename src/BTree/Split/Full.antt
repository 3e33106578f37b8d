-- ===== src/BTree/Split/Full.antt =====
-- What `split` of BTree.c gathers of a full inner node, whatever the room of its array of children.
use gaveta.Base.{
  ℕ, zero, suc, ◌+◌, ◌≤◌, ◌<◌, ◌≡◌, refl, sym, ◌∙◌, false, some, List, ◌∷◌, ltb, ◌++◌, arith,
  length, length-append, length-replicate, replicate, get_elem?, get_elem?-none, ok, fault, ◌>>=◌,
  if◌then◌else◌, Bool-cases, Option-cases, inl, inr, set, ltb→lt, not_ltb→le,
}
use gaveta.BTree.{Key, BTreeNode, put_elem, copy_up}
use gaveta.BTree.Search.{Holds, Ascending}
use gaveta.BTree.Insert.{HoldsChildren}
use gaveta.BTree.Split.{zero_key, no_child, gather}
use gaveta.BTree.Split.Children.{front-and-one, gather-children}

-- A copy from more cells than the array has.
copy_up-fault :
    {A : Type 0} (count i base : ℕ) (from to : List A)
    → i ≤ length from
    → length from < i + count
    → copy_up count i base from to ≡ fault
unfolding copy_up put_elem
copy_up-fault zero i base from to within beyond = absurd (omega arith)
copy_up-fault {A = A} (suc c) i base from to within beyond =
    elim (Option-cases (get_elem? from i)) [
      | inl out ↦ rw (copy_up, out) refl
      | inr (x, cell) ↦
          let more : i < length from = within_array i x cell in
          elim (Bool-cases (ltb (base + i) (length to))) [
            | inl room ↦
                rw (copy_up, put_elem, cell, room, ◌>>=◌)
                  (copy_up-fault c (i + 1) base from (set to (base + i) x) (omega arith)
                    (omega arith))
            | inr full ↦ rw (copy_up, put_elem, cell, full, ◌>>=◌) refl
          ]
    ]
  where
    within_array : (i : ℕ) (x : A) → get_elem? from i ≡ some x → i < length from
    within_array i x cell = elim (Bool-cases (ltb i (length from))) [
      | inl more ↦ ltb→lt i (length from) more
      | inr end ↦
          absurd (let e = sym (get_elem?-none from i (not_ltb→le i (length from) end)) ∙ cell in cc)
    ]

-- Of a full inner node, with one key less than the order, `temp_keys` and `temp_children` become its keys and children with the new key
-- and the child behind it in their places. The loop over the children reads one cell more than there are
-- children, `children[child_num]`: where the array of children ends with them, it reads beyond it. The
-- keys ascend with the new one among them, the child that is given is the one to the right of the new
-- key, and the node has one child more than keys.
pub gather-full :
    {p : BTreeNode} (order : ℕ) (pre post : List Key) (cpre cpost : List ℕ) (rrn : ℕ) (k : Key)
    → Holds p (pre ++ post)
    → HoldsChildren p (cpre ++ cpost)
    → Ascending (pre ++ k ∷ post)
    → length cpre ≡ length pre + 1
    → length cpost ≡ length post
    → p.leaf ≡ false
    → p.keys_num + 1 ≡ order
    → gather order p (some rrn) k ≡ (
        if ltb p.child_num (length p.children)
        then ok (pre ++ k ∷ post, cpre ++ rrn ∷ cpost)
        else fault)
unfolding gather
gather-full {p} order pre post cpre cpost rrn k holds holds_cs asc clen csize inner full =
    let n : length pre + length post ≡ p.keys_num = sym (length-append pre post) ∙ holds.count in
    let cn : p.child_num ≡ order =
      omega (arith, length-append cpre cpost, holds_cs.count, n, clen, csize, full) in
    elim (Bool-cases (ltb p.child_num (length p.children))) [
      | inl room ↦ rw room (
          gather-children order pre post cpre cpost rrn k holds holds_cs asc clen csize inner full
            (omega (arith, cn, ltb→lt p.child_num (length p.children) room)))
      | inr out ↦
          let (r, copy) =
            front-and-one p.keys_num pre post holds.spare (replicate order zero_key) holds.cells
              holds.count (omega (arith, full, length-replicate order zero_key)) in
          let beyond =
            copy_up-fault (p.child_num + 1) 0 0 p.children (replicate (order + 1) no_child)
              (omega arith) (omega (arith, not_ltb→le p.child_num (length p.children) out)) in
          rw out (rw (gather, copy, inner, beyond, ◌>>=◌) refl)
    ]

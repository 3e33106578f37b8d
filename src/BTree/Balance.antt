-- ===== src/BTree/Balance.antt =====
-- `redistribute` and `merge` of BTree.c on the keys that two neighbours hold.
use gaveta.Base.{
  ◌+◌, ◌-◌, ◌%◌, ◌^◌, ◌≤◌, ◌<◌, ◌≡◌, refl, sym, ◌∙◌, ap, ap₂, subst, Bool, true, false, some, List,
  [], ◌∷◌, ◌++◌, append_assoc, append-nil, arith, if◌then◌else◌, length, length-append, get_elem?,
  get_elem?-append_right, ◌==◌, ok, ◌>>=◌, Returns,
}
use gaveta.BTree.{
  Key, BTreeNode, put_elem, shift_down, copy_up, move_from_left, move_from_right, redistribute,
  merge,
}
use gaveta.BTree.Shift.{put_elem-append}
use gaveta.BTree.Search.{Holds}
use gaveta.BTree.Insert.{open_at-inserted}

module _ {A : Type 0} where
  -- The loop moves what is behind position `i` down by one cell.
  shift_down-moved :
      (pre ks : List A) (x : A) (spare : List A)
      → (last : A) × (shift_down (length ks) (length pre) (pre ++ (x ∷ ks ++ spare))
          ≡ ok (pre ++ (ks ++ last ∷ spare)))
  unfolding shift_down
  shift_down-moved pre [] x spare = (x, refl)
  shift_down-moved pre (k ∷ ks) x spare =
      let (last, run) = shift_down-moved (pre ++ k ∷ []) ks k spare in
      let next : length pre + 1 ≡ length (pre ++ k ∷ []) =
        omega (arith, length-append pre (k ∷ [])) in
      let at : get_elem? (pre ++ (x ∷ k ∷ ks ++ spare)) (length pre + 1) ≡ some k =
        get_elem?-append_right pre (x ∷ k ∷ ks ++ spare) 1 in
      let here : length pre + 0 ≡ length pre = omega arith in
      let write : put_elem (pre ++ (x ∷ k ∷ ks ++ spare)) (length pre) k
          ≡ ok (pre ++ (k ∷ k ∷ ks ++ spare)) =
        subst (λ n. put_elem (pre ++ (x ∷ k ∷ ks ++ spare)) n k ≡ ok (pre ++ (k ∷ k ∷ ks ++ spare)))
          here (put_elem-append pre (x ∷ k ∷ ks ++ spare) 0 k (omega arith)) in
      (
        last,
        rw (shift_down, at, write)
            (ap₂ (λ n t. shift_down (length ks) n t) next
                (sym (append_assoc pre (k ∷ []) (k ∷ ks ++ spare)))
              ∙ run
              ∙ ap (λ t. ok t) (append_assoc pre (k ∷ []) (ks ++ last ∷ spare))),
      )

  -- The loop copies `ks` behind what stands in `to`.
  pub copy_up-copied :
      (done ks behind : List A) (base : List A) (room : List A)
      → length ks ≤ length room
      → (rest : List A) × (copy_up
            (length ks)
            (length done)
            (length base)
            (done ++ (ks ++ behind))
            ((base ++ done) ++ room)
          ≡ ok ((base ++ (done ++ ks)) ++ rest))
        × (length ks + length rest ≡ length room)
  unfolding copy_up
  copy_up-copied done [] behind base room fits =
      (room, ap (λ t. ok ((base ++ t) ++ room)) (sym (append-nil done)), omega arith)
  copy_up-copied done (k ∷ ks) behind base [] fits = absurd (omega arith)
  copy_up-copied done (k ∷ ks) behind base (r ∷ room) fits =
      let (rest, run, len) = copy_up-copied (done ++ k ∷ []) ks behind base room (omega arith) in
      let next : length done + 1 ≡ length (done ++ k ∷ []) =
        omega (arith, length-append done (k ∷ [])) in
      let here : length done + 0 ≡ length done = omega arith in
      let at : get_elem? (done ++ (k ∷ ks ++ behind)) (length done) ≡ some k =
        subst (λ n. get_elem? (done ++ (k ∷ ks ++ behind)) n ≡ some k) here
          (get_elem?-append_right done (k ∷ ks ++ behind) 0) in
      let there : length (base ++ done) + 0 ≡ length base + length done =
        omega (arith, length-append base done) in
      let write : put_elem ((base ++ done) ++ r ∷ room) (length base + length done) k
          ≡ ok ((base ++ done) ++ k ∷ room) =
        subst (λ n. put_elem ((base ++ done) ++ r ∷ room) n k ≡ ok ((base ++ done) ++ k ∷ room))
          there (put_elem-append (base ++ done) (r ∷ room) 0 k (omega arith)) in
      let longer : (base ++ done) ++ k ∷ room ≡ (base ++ (done ++ k ∷ [])) ++ room =
        sym (append_assoc (base ++ done) (k ∷ []) room)
        ∙ ap (λ t. t ++ room) (append_assoc base done (k ∷ [])) in
      (
        rest,
        rw (copy_up, at, write)
            (ap₂ (λ n t. copy_up (length ks) n (length base) (done ++ (k ∷ ks ++ behind)) t) next
                longer
              ∙ ap
                  (λ t.
                    copy_up (length ks) (length (done ++ k ∷ [])) (length base) t
                      ((base ++ (done ++ k ∷ [])) ++ room))
                  (sym (append_assoc done (k ∷ []) (ks ++ behind)))
              ∙ run
              ∙ ap (λ t. ok ((base ++ t) ++ rest)) (append_assoc done (k ∷ []) ks)),
        omega (arith, len),
      )

-- The keys that two nodes hold.
abbrev pub Hold : BTreeNode × BTreeNode → List Key → List Key → Type 0
Hold nodes ks ls = Holds nodes.0 ks × Holds nodes.1 ls

-- The last key of the donor becomes the first of the receiver to its right,
move_from_left-Hold :
    {donor receiver : BTreeNode} (ds rs : List Key) (d : Key)
    → Holds donor (ds ++ d ∷ [])
    → Holds receiver rs
    → donor.keys_num < 256
    → receiver.keys_num < 255
    → receiver.keys_num < length receiver.keys
    → Returns (move_from_left donor receiver) λ nodes. Hold nodes ds (d ∷ rs)
unfolding move_from_left
move_from_left-Hold {donor} {receiver} ds rs d hd hr byte small room =
    let n : donor.keys_num ≡ length ds + 1 = omega (arith, hd.count, length-append ds (d ∷ [])) in
    let (rest, run) =
      open_at-inserted receiver.keys_num receiver.keys [] rs hr.spare d hr.cells
        (omega (arith, hr.count)) room in
    let front : donor.keys ≡ ds ++ d ∷ hd.spare = hd.cells ∙ append_assoc ds (d ∷ []) hd.spare in
    let last : length ds + 0 ≡ donor.keys_num - 1 = omega (arith, n) in
    let at : get_elem? donor.keys (donor.keys_num - 1) ≡ some d = rw front (
      subst (λ j. get_elem? (ds ++ d ∷ hd.spare) j ≡ some d) last
        (get_elem?-append_right ds (d ∷ hd.spare) 0)) in
    let some_keys : (donor.keys_num == 0) ≡ false = ground (arith, n) in
    (
      (
        record donor { keys_num = (donor.keys_num + 2 ^ 8 - 1) % 2 ^ 8 },
        record receiver { keys = (d ∷ rs) ++ rest; keys_num = (receiver.keys_num + 1) % 2 ^ 8 },
      ),
      rw (some_keys, at, run),
      (
        record { spare = d ∷ hd.spare; cells = front; count = omega (arith, n, byte) },
        record { spare = rest; cells = refl; count = omega (arith, hr.count, small) },
      ),
    )

-- and the first key of the donor the last of the receiver to its left.
move_from_right-Hold :
    {donor receiver : BTreeNode} (ds rs : List Key) (d : Key)
    → Holds donor (d ∷ ds)
    → Holds receiver rs
    → donor.keys_num < 256
    → receiver.keys_num < 255
    → receiver.keys_num < length receiver.keys
    → Returns (move_from_right donor receiver) λ nodes. Hold nodes ds (rs ++ d ∷ [])
unfolding move_from_right
move_from_right-Hold {donor} {receiver} ds rs d hd hr byte small room =
    let n : donor.keys_num ≡ length ds + 1 = omega (arith, hd.count) in
    let rounds : donor.keys_num - 1 ≡ length ds = omega (arith, n) in
    let (last, run) = shift_down-moved [] ds d hd.spare in
    let (rest, write) = end-written receiver.keys rs hr.spare d hr.cells (rw hr.count room) in
    let at : get_elem? donor.keys 0 ≡ some d = rw hd.cells refl in
    let run' : shift_down (donor.keys_num - 1) 0 donor.keys ≡ ok (ds ++ last ∷ hd.spare) =
      ap₂ (λ n t. shift_down n 0 t) rounds hd.cells ∙ run in
    let write' : put_elem receiver.keys receiver.keys_num d ≡ ok ((rs ++ d ∷ []) ++ rest) =
      ap (λ n. put_elem receiver.keys n d) (sym hr.count) ∙ write in
    (
      (
        record donor {
          keys = ds ++ last ∷ hd.spare;
          keys_num = (donor.keys_num + 2 ^ 8 - 1) % 2 ^ 8;
        },
        record receiver {
          keys = (rs ++ d ∷ []) ++ rest;
          keys_num = (receiver.keys_num + 1) % 2 ^ 8;
        },
      ),
      rw (move_from_right, at, write', ◌>>=◌, run'),
      (
        record { spare = last ∷ hd.spare; cells = refl; count = omega (arith, n, byte) },
        record {
          spare = rest;
          cells = refl;
          count = omega (arith, length-append rs (d ∷ []), hr.count, small);
        },
      ),
    )
  where
    end-written :
        (arr rs spare : List Key) (d : Key)
        → arr ≡ rs ++ spare
        → length rs < length arr
        → (rest : List Key) × (put_elem arr (length rs) d ≡ ok ((rs ++ d ∷ []) ++ rest))
    end-written arr rs [] d is room =
        let short : length arr ≡ length rs + 0 = ap (λ t. length t) is ∙ length-append rs [] in
        absurd (omega (arith, short, room))
    end-written arr rs (r ∷ spare) d is room =
        let here : length rs + 0 ≡ length rs = omega arith in
        (
          spare,
          ap (λ t. put_elem t (length rs) d) is
              ∙ subst (λ j. put_elem (rs ++ r ∷ spare) j d ≡ ok (rs ++ d ∷ spare)) here
                  (put_elem-append rs (r ∷ spare) 0 d (omega arith))
              ∙ ap (λ t. ok t) (sym (append_assoc rs (d ∷ []) spare)),
        )

-- Where the receiver has a cell to spare and the counters fit in a byte, `redistribute` moves one key
-- over the border of two neighbours: the last of the left one to the front of the right one, or the
-- first of the right one behind those of the left one.
pub redistribute-Hold :
    (from_left : Bool) {donor receiver : BTreeNode} (ds rs : List Key) (d : Key)
    → Holds donor (if from_left then ds ++ d ∷ [] else d ∷ ds)
    → Holds receiver rs
    → donor.keys_num < 256
    → receiver.keys_num < 255
    → receiver.keys_num < length receiver.keys
    → Returns
        (redistribute from_left donor receiver)
        λ nodes. Hold nodes ds (if from_left then d ∷ rs else rs ++ d ∷ [])
unfolding redistribute
redistribute-Hold true ds rs d hd hr byte small room =
    move_from_left-Hold ds rs d hd hr byte small room
redistribute-Hold false ds rs d hd hr byte small room =
    move_from_right-Hold ds rs d hd hr byte small room

-- Where the left node has the cells and its counter fits in a byte, `merge` leaves the keys of both in
-- it, those of the right node behind its own, and gives it the right one's next leaf.
pub merge-Holds :
    {left right : BTreeNode} (ls rs : List Key)
    → Holds left ls
    → Holds right rs
    → left.keys_num + right.keys_num ≤ length left.keys
    → left.keys_num + right.keys_num < 256
    → Returns (merge left right) λ node. Holds node (ls ++ rs) × (node.next_leaf ≡ right.next_leaf)
unfolding merge
merge-Holds {left} {right} ls rs hl hr room byte =
    let long : length rs ≤ length hl.spare =
      let n : length left.keys ≡ length ls + length hl.spare =
        ap (λ t. length t) hl.cells ∙ length-append ls hl.spare in
      omega (arith, n, hl.count, hr.count, room) in
    let (rest, run, _) = copy_up-copied [] rs hr.spare ls hl.spare long in
    let base : ls ++ [] ≡ ls = append-nil ls in
    let run' : copy_up right.keys_num 0 left.keys_num right.keys left.keys
        ≡ ok ((ls ++ rs) ++ rest) =
      ap₂ (λ n b. copy_up n 0 b right.keys left.keys) (sym hr.count) (sym hl.count)
      ∙ ap₂ (λ f t. copy_up (length rs) 0 (length ls) f t) hr.cells
          (hl.cells ∙ ap (λ t. t ++ hl.spare) (sym base))
      ∙ run in
    (
      record left {
        keys = (ls ++ rs) ++ rest;
        keys_num = (left.keys_num + right.keys_num) % 2 ^ 8;
        next_leaf = right.next_leaf;
      },
      rw run' refl,
      (
        record {
          spare = rest;
          cells = refl;
          count = omega (arith, length-append ls rs, hl.count, hr.count, byte);
        },
        refl,
      ),
    )

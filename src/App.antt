-- ===== src/App.antt =====
-- src/App.c: the debug mode, and the loop that reads commands. A line is what `fgets` returns. What a
-- command prints is left out.
use gaveta.Base.{◌≡◌, refl, ap, Bool, ◌||◌, ◌==◌, ltb, List, [], ◌∷◌, ◌++◌, length, if◌then◌else◌}
use gaveta.Heap.{Bytes}
use gaveta.BTree.{strcmp}
use gaveta.BTree.Search.{is_eq}
use gaveta.Config.Fields.{strstr}

-- strcmp(s, t) == 0
pub same : Bytes → Bytes → Bool
same s t = is_eq (strcmp s t)

-- "Debug" and "DEBUG"; the result is also the value of `debug`.
pub set_envvar : Bytes → Bool
set_envvar mode =
    same mode (68 ∷ 101 ∷ 98 ∷ 117 ∷ 103 ∷ []) || same mode (68 ∷ 69 ∷ 66 ∷ 85 ∷ 71 ∷ [])

-- command[strcspn(command, "\n")] = 0
pub first_line : Bytes → Bytes
first_line [] = []
first_line (c ∷ line) = if c == 10 then [] else c ∷ first_line line

-- `insert` says whether its argument is missing.
pub data Command : Type 0 where
  exit list clear help unknown : Command
  insert : (missing : Bool) → Command

abbrev pub insert_word : Bytes
insert_word = 105 ∷ 110 ∷ 115 ∷ 101 ∷ 114 ∷ 116 ∷ []

-- The tests of `cli`, in order: "exit", "quit", "list", "insert", "clear", "help", "h" and "?".
pub command_of : Bytes → Command
command_of command =
    if same command (101 ∷ 120 ∷ 105 ∷ 116 ∷ []) || same command (113 ∷ 117 ∷ 105 ∷ 116 ∷ [])
    then exit
    else if same command (108 ∷ 105 ∷ 115 ∷ 116 ∷ [])
    then list
    else if strstr command insert_word
    then insert (ltb (length command) 8)
    else if same command (99 ∷ 108 ∷ 101 ∷ 97 ∷ 114 ∷ [])
    then clear
    else if same command (104 ∷ 101 ∷ 108 ∷ 112 ∷ [])
        || same command (104 ∷ [])
        || same command (63 ∷ [])
    then help
    else unknown

-- A round of the loop: the command, and those of the later rounds, unless it is the last.
abbrev pub obey : Command → List Command → List Command
obey exit later = []
obey list later = list ∷ later
obey clear later = clear ∷ later
obey help later = help ∷ later
obey unknown later = unknown ∷ later
obey (insert missing) later = insert missing ∷ later

-- The loop of `cli` over the lines up to the end of the input: the commands that it obeys.
pub cli : List Bytes → List Command
cli [] = []
cli (line ∷ lines) = obey (command_of (first_line line)) (cli lines)

-- What follows a line with exit or quit is not read.
pub cli-append :
    (lines : List Bytes) (stop : Bytes) (rest : List Bytes)
    → command_of (first_line stop) ≡ exit
    → cli (lines ++ stop ∷ rest) ≡ cli lines
unfolding cli
cli-append [] stop rest e = rw e refl
cli-append (line ∷ lines) stop rest e =
    ap (λ t. obey (command_of (first_line line)) t) (cli-append lines stop rest e)

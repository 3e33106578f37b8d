-- ===== src/Log/Tests.antt =====
-- A warning and a debug message, with the least level that the application sets.
use gaveta.Base.{◌≡◌, refl, none, some, [], ◌∷◌, ◌≤◌, ◌<◌, ◌⊎◌, map, take, length}
use gaveta.Heap.{Bytes}
use gaveta.Utils.{no_newline}
use gaveta.Log.{info, debug, btree, code, status_label, label_of, rank, g_log, Line, g_log-printed}

quiet : g_log info debug (code 100) (97 ∷ []) ≡ none
unfolding g_log rank
quiet = refl

labelled : status_label (code 101) ≡ some (101, btree)
unfolding status_label label_of
labelled = refl

-- An information with a line break in it.
g_log-printed_example :
    ((rank info ≤ rank info)
      × ((line : Line) × (g_log info info (code 100) (97 ∷ 10 ∷ []) ≡ some line)
          × ((text : Bytes) × (line.text ≡ some text)
              × (text ≡ map no_newline (take 254 (97 ∷ 10 ∷ [])))
              × (length text ≤ 254))))
    ⊎ ((rank info < rank info) × (g_log info info (code 100) (97 ∷ 10 ∷ []) ≡ none))
g_log-printed_example = g_log-printed info info (code 100) (97 ∷ 10 ∷ [])

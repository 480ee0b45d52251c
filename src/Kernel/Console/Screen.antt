-- ===== src/Kernel/Console/Screen.antt =====
-- Line editing on lists, and what it is for a call to do the same.
use xv6_tp.Base.{
  ℕ, suc, ◌+◌, ◌≡◌, not, ◌&&◌, ◌||◌, List, [], ◌∷◌, ◌++◌, ◌==◌, ltb, if◌then◌else◌, length,
}
use xv6_tp.Base.Run.{Run, done}
use xv6_tp.Kernel.Console.{Reply, input_buf_size, control, newline}
use xv6_tp.Kernel.Console.Ring.{Shows}

-- The list without its last element.
abbrev pub drop_last : List ℕ → List ℕ
drop_last [] = []
drop_last (x ∷ []) = []
drop_last (x ∷ y ∷ l) = x ∷ drop_last (y ∷ l)

-- The lines that are ready and the line that is typed.
pub record Screen : Type 0 where
  pub ready : List ℕ
  pub typing : List ℕ

abbrev pub enter : ℕ → Screen → Screen
enter ch s =
    if ch == 10 || ch == control 68 || suc (length s.ready + length s.typing) == input_buf_size
    then record { ready = s.ready ++ (s.typing ++ (ch ∷ [])); typing = [] }
    else record { ready = s.ready; typing = s.typing ++ (ch ∷ []) }

-- What a key does.
abbrev pub key : ℕ → Screen → Screen
key ch s =
    if ch == control 80
    then s
    else if ch == control 85
    then record s { typing = [] }
    else if ch == control 72 || ch == 127
    then record s { typing = drop_last s.typing }
    else if not (ch == 0) && ltb (length s.ready + length s.typing) input_buf_size
    then enter (newline ch) s
    else s

-- A call ends, and the buffer then shows the screen.
pub record Answers (s : Screen) (run : Run Reply) : Type 0 where
  pub reply : Reply
  pub answer : run ≡ done reply
  pub shows : Shows reply.cons s.ready s.typing

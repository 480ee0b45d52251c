-- ===== src/Kernel/Paths/Tests.antt =====
-- The theorems at a state with a directory 1 and a file 2.
use xv6_tp.Base.{
  ℕ, ◌+◌, ◌%◌, ◌^◌, ◌≡◌, false, true, none, some, ◌==◌, if◌then◌else◌, arith, refl, pos,
}
use xv6_tp.Base.Run.{done}
use xv6_tp.Kernel.Paths.{State, sys_link, sys_unlink, sys_make, sys_chmod}
use xv6_tp.Kernel.Paths.Link.{Linked, sys_link-Linked}
use xv6_tp.Kernel.Paths.Unlink.{Unlinked, sys_unlink-Unlinked}
use xv6_tp.Kernel.Paths.Create.{EndsReleased, sys_make-Released}
use xv6_tp.Kernel.Paths.Mode.{sys_chmod-keeps_reference}

abbrev start : State
start = record {
  refs = λ x. if x == 1 then 1 else 0;
  locked = λ x. false;
  nlink = λ x. 1;
  mode = λ x. 6;
  saved = λ x. (1, 6);
  transactions = 0;
}

abbrev types : ℕ → ℕ
types x = if x == 1 then 1 else 2

sys_link-Linked_example : Linked start (some 2) (sys_link types true (some 2) (some 1) true start)
sys_link-Linked_example =
    sys_link-Linked types true (some 2) (some 1) true start (λ x. refl) (λ x. omega arith)

sys_unlink-Unlinked_example :
    Unlinked start types
      (some 1)
      (some 2)
      (sys_unlink types true (some 1) false (some 2) true true start)
sys_unlink-Unlinked_example =
    sys_unlink-Unlinked types true (some 1) false (some 2) true start (λ x. refl)
      (λ x h. (omega arith, omega arith)) (λ x e e'. absurd (ground (arith, e, e')))

sys_make-Released_example :
    EndsReleased start (sys_make 1 true types (some 1) none (some 3) true true start)
sys_make-Released_example =
    sys_make-Released 1 true types (some 1) none (some 3) true true start (λ x. refl)
      (λ x e e'. absurd (ground (arith, e, e')))

sys_chmod-keeps_reference_example :
    (s' : State) × (sys_chmod 4 true (some 2) start ≡ done (pos 0, s'))
    × ((x : ℕ) → s'.mode x ≡ (if 2 == x then 4 % 2 ^ 16 else start.mode x))
    × ((x : ℕ) → s'.saved x ≡ (if 2 == x then (start.nlink 2, 4 % 2 ^ 16) else start.saved x))
    × (s'.nlink ≡ start.nlink)
    × ((x : ℕ) → s'.refs x ≡ (if 2 == x then start.refs x + 1 else start.refs x))
    × ((x : ℕ) → s'.locked x ≡ false)
    × (s'.transactions ≡ 0)
sys_chmod-keeps_reference_example = sys_chmod-keeps_reference 4 2 start (λ x. refl)

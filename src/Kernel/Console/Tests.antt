-- ===== src/Kernel/Console/Tests.antt =====
-- The theorems at a buffer where "a" and a newline are ready and "b" is typed.
use xv6_tp.Base.{◌==◌, [], ◌∷◌, true, false, if◌then◌else◌, refl, arith}
use xv6_tp.Kernel.Console.{Cons, consoleread}
use xv6_tp.Kernel.Console.Ring.{Shows}
use xv6_tp.Kernel.Console.Reads.{Matches, read_line, consoleread-Matches}

-- The counters stand at 127, so the line goes around the end of the ring.
abbrev some_input : Cons
some_input = record {
  buf = λ i. if i == 127 then 97 else if i == 0 then 10 else 98;
  r = 127;
  w = 129;
  e = 130;
}

some_input-Shows : Shows some_input (97 ∷ 10 ∷ []) (98 ∷ [])
some_input-Shows = record {
  a = 2;
  t = 1;
  r_small = omega arith;
  w_at = refl;
  e_at = refl;
  fits = omega arith;
  is_ready = refl;
  is_typing = refl;
  one_line = λ k h e. ground (arith, h, e);
}

consoleread-Matches_example :
    Matches
      (98 ∷ [])
      (consoleread false (λ i. true) 10 10 some_input)
      (read_line false (λ i. true) 10 10 (97 ∷ 10 ∷ []))
consoleread-Matches_example =
    consoleread-Matches false (λ i. true) 10 10 some_input (97 ∷ 10 ∷ []) (98 ∷ []) some_input-Shows

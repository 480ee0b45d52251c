-- ===== src/Kernel/Log/Keeps.antt =====
-- What no step of the log changes: the log's place on the disk, and the disk once the power is off.
use xv6_tp.Base.{ℕ, ◌≡◌, ◌∙◌, Bool, true, false, arith, refl, ap, for_below_inv}
use xv6_tp.Kernel.Log.{
  Log, Machine, install_one, install_trans, write_one, write_log, write_head, read_head,
  clear_header, recover_from_log, commit, bwrite, bunpin,
}

-- `t` is a later state than `s`.
pub record Later (s t : Machine) : Type 0 where
  pub log_same : t.log ≡ s.log
  pub off : s.power ≡ 0 → (t.power ≡ 0) × (t.disk ≡ s.disk)

Later-refl : (s : Machine) → Later s s
Later-refl s = record { log_same = refl; off = λ e. (e, refl) }

pub Later-trans : {s t u : Machine} → Later s t → Later t u → Later s u
Later-trans a b = record {
  log_same = b.log_same ∙ a.log_same;
  off = λ e. let (e', d) = a.off e in let (e'', d') = b.off e' in (e'', d' ∙ d);
}

pub write_head-Later : (s : Machine) → Later s (write_head s)
unfolding write_head bwrite
write_head-Later s = record { log_same = ground arith; off = λ e. (ground arith, ground arith) }

install_one-Later : (r : Bool) (j : ℕ) (s : Machine) → Later s (install_one r j s)
unfolding install_one bwrite bunpin
install_one-Later r j s = record {
  log_same = ground arith;
  off = λ e. (ground arith, ground arith);
}

write_one-Later : (j : ℕ) (s : Machine) → Later s (write_one j s)
unfolding write_one bwrite
write_one-Later j s = record { log_same = ground arith; off = λ e. (ground arith, ground arith) }

pub install_trans-Later : (r : Bool) (s : Machine) → Later s (install_trans r s)
unfolding install_trans
install_trans-Later r s =
    for_below_inv (install_one r) (λ _ t. Later s t) s.log.lh.n s
      (λ j t lt p. Later-trans p (install_one-Later r j t)) (Later-refl s)

pub write_log-Later : (s : Machine) → Later s (write_log s)
unfolding write_log
write_log-Later s =
    for_below_inv write_one (λ _ t. Later s t) s.log.lh.n s
      (λ j t lt p. Later-trans p (write_one-Later j t)) (Later-refl s)

-- Installing and clearing keep the log's place, and the disk if the power is off.
pub install_clear-start :
    (r : Bool) (s : Machine)
    → (write_head (clear_header (install_trans r s))).log.start ≡ s.log.start
install_clear-start r s =
    ap (λ (l : Log). l.start) (write_head-Later (clear_header (install_trans r s))).log_same
    ∙ ap (λ (l : Log). l.start) (install_trans-Later r s).log_same

pub install_clear-off :
    (r : Bool) (s : Machine)
    → s.power ≡ 0
    → (write_head (clear_header (install_trans r s))).disk ≡ s.disk
install_clear-off r s e =
    let (e', d) = (install_trans-Later r s).off e in
    ((write_head-Later (clear_header (install_trans r s))).off e').1 ∙ d

pub recover-start : (s : Machine) → (recover_from_log s).log.start ≡ s.log.start
unfolding recover_from_log read_head
recover-start s = install_clear-start true (read_head s)

pub commit-start : (s : Machine) → (commit s).log.start ≡ s.log.start
unfolding commit
commit-start s = ground (
  arith,
  install_clear-start false (write_head (write_log s)),
  (write_head-Later (write_log s)).log_same,
  (write_log-Later s).log_same,
)

-- ===== src/Proctree/Compare.antt =====
-- tlpi-solutions/ex12-2/proctree.c: `_proc_cmp` tells which id is greater.
use tlpi_exercises.Base.{ℕ, ◌<◌, ◌≡◌, true, arith}
use tlpi_exercises.GetNum.{pos}
use tlpi_exercises.Proctree.{proc_cmp, is_negative, is_positive}

pub cmp_zero : (x y : ℕ) → proc_cmp x y ≡ pos 0 → x ≡ y
unfolding proc_cmp
cmp_zero x y h = ground arith

pub cmp_same : (x y : ℕ) → x ≡ y → proc_cmp x y ≡ pos 0
unfolding proc_cmp
cmp_same x y h = ground arith

pub cmp_negative : (x y : ℕ) → is_negative (proc_cmp x y) ≡ true → x < y
unfolding proc_cmp
cmp_negative x y h = ground arith

pub cmp_less : (x y : ℕ) → x < y → is_negative (proc_cmp x y) ≡ true
unfolding proc_cmp
cmp_less x y h = ground arith

pub cmp_positive : (x y : ℕ) → is_positive (proc_cmp x y) ≡ true → y < x
unfolding proc_cmp
cmp_positive x y h = ground arith

pub cmp_greater : (x y : ℕ) → y < x → is_positive (proc_cmp x y) ≡ true
unfolding proc_cmp
cmp_greater x y h = ground arith

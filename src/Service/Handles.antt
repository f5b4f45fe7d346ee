-- ===== src/Service/Handles.antt =====
-- How long the handles of rustygeard/src/service.rs are.
use rustygear.Prelude.{
  ℕ, ◌+◌, ◌-◌, ◌≤◌, ◌<◌, ◌^◌, ◌≡◌, ◌⊎◌, inl, inr, arith, codes, length, length-append, leb,
  Bool-cases,
}
use rustygear.Service.Submit.{handle_of, job_created}
use rustygear.Text.Decimal.{show, show_padded}
use rustygear.Text.Width.{tens, length-show, length-show_padded}

handle_of-length : (n : ℕ) → length (handle_of n) ≡ 2 + (10 - length (show n)) + length (show n)
unfolding handle_of
handle_of-length n = omega (arith, length-append (codes "H:") (show_padded n), length-show_padded n)

tens_20 : (n : ℕ) → n < 2 ^ 64 → n < tens 20
unfolding tens
tens_20 n h = omega arith

tens_10 : (n : ℕ) → n < 10 ^ 10 → n < tens 10
unfolding tens
tens_10 n h = omega arith

-- The handle of a job count below 2 ^ 64 has from 12 to 22 bytes, exactly 12 below 10 ^ 10, and the
-- JOB_CREATED with it declares its length.
pub length-handle_of :
    (n : ℕ)
    → n < 2 ^ 64
    → (12 ≤ length (handle_of n))
      × (length (handle_of n) ≤ 22)
      × ((10 ^ 10 ≤ n) ⊎ (length (handle_of n) ≡ 12))
      × ((job_created (handle_of n)).psize ≡ length (handle_of n))
unfolding job_created
length-handle_of n h =
    let long = handle_of-length n in
    let wide = length-show n 19 (tens_20 n h) in
    (
      omega arith,
      omega arith,
      elim (Bool-cases (leb (10 ^ 10) n)) [
        | inl e ↦ inl (ground arith)
        | inr e ↦ inr (omega (arith, length-show n 9 (tens_10 n (ground arith))))
      ],
      omega arith,
    )

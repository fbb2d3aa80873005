-- ===== src/Manager/Runs/Delays.antt =====
-- The delays between retries (scheduleRetryLocked of backend/internal/download/scheduler.go).
use Prim.Native.Nat.{◌^◌}
use downpeed_fluter.Base.{
  refl, on_test, false, ℕ, zero, suc, ◌*◌, ◌≤◌, ◌≡◌, arith, ltb, if◌then◌else◌, on_test, false,
}
use downpeed_fluter.Manager.Runs.{retry_delay, default_retry_max_delay}

abbrev pub minimum : ℕ → ℕ → ℕ
minimum a b = if ltb b a then b else a

doubled : (n d : ℕ) → d * 2 ^ suc n ≡ d * 2 * 2 ^ n
doubled n d = grind arith

power_pos : (n : ℕ) → 1 ≤ 2 ^ n
power_pos zero = ground arith
power_pos (suc n) = let p = power_pos n in grind arith

le_mul : (a x : ℕ) → 1 ≤ x → a ≤ a * x
le_mul a zero h = ground arith
le_mul a (suc x) h = grind arith

doubling :
    (retries base : ℕ)
    → base ≤ default_retry_max_delay
    → retry_delay retries base ≡ minimum (base * 2 ^ retries) default_retry_max_delay
unfolding retry_delay
doubling zero base h = ground arith
doubling (suc n) base h =
    let doubled_base =
      if ltb default_retry_max_delay (base * 2) then default_retry_max_delay else base * 2 in
    let x = 2 ^ n in
    ground (
      arith,
      doubling n doubled_base (ground arith),
      doubled n base,
      le_mul (base * 2) x (power_pos n),
      le_mul default_retry_max_delay x (power_pos n),
    )

undoubled :
    (retries base : ℕ) → ltb base default_retry_max_delay ≡ false → retry_delay retries base ≡ base
unfolding retry_delay
undoubled zero base h = refl
undoubled (suc n) base h = ground arith

-- The delay from a base below 30 s is the base times two to the number of retries that were made, but 30 s where that is more; and from a base of 30 s or more it is
-- the base, however many retries there were.
pub retry_delay_lem :
    (retries base : ℕ)
    → retry_delay retries base ≡ (
        if ltb base default_retry_max_delay
        then minimum (base * 2 ^ retries) default_retry_max_delay
        else base)
retry_delay_lem retries base =
    on_test (λ d. retry_delay retries base ≡ d) (ltb base default_retry_max_delay)
      (λ below. doubling retries base (ground arith)) (λ above. undoubled retries base above)
